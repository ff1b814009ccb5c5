-- ===== src/Hashtable/Lookup.antt =====
-- What `ht_lookup` and `ht_get` find in a chain: the first entry whose key has the length of the
-- key that is looked for.
use localmemcache.Base.{
  ℕ, zero, suc, ◌+◌, ◌%◌, ◌≤◌, ◌<◌, ◌==◌, if◌then◌else◌, ◌≡◌, ◌≢◌, refl, inl, inr, arith, Bool,
  Bool-cases, Option, none, some, List, [], ◌∷◌, length, ne→==,
}
use localmemcache.Cmd.{done, and_then, ◌>>=◌, pure, read}
use localmemcache.Common.{lmc_hash}
use localmemcache.Memory.{Mem, word}
use localmemcache.Hashtable.{
  Pointer, chars, compare_loop, is_match, lookup_loop, delete_loop, ht_delete, ht_lookup, ht_get,
  ht_hash_key, bucket, va_next, va_key, va_value, lmc_ht_buckets, field,
}

pub record Entry : Type 0 where
  pub address : ℕ
  pub key : ℕ
  pub value : ℕ

abbrev pub head_of : List Entry → ℕ
head_of [] = 0
head_of (e ∷ es) = e.address

-- The entries are linked in this order, and the last link is 0.
abbrev pub Chained : Mem → List Entry → Type 0
Chained m [] = Unit
Chained m (e ∷ es) =
    (e.address ≢ 0)
    × (word m (va_next e.address) ≡ head_of es)
    × (word m (va_key e.address) ≡ e.key)
    × (word m (va_value e.address) ≡ e.value)
    × (e.value ≢ 0)
    × Chained m es

-- A table whose bucket `k` has the entries `chains k`, no more than there are bytes.
pub record Table (m : Mem) (va_ht : ℕ) (chains : ℕ → List Entry) : Type 0 where
  pub heads : (k : ℕ) → k < lmc_ht_buckets → word m (bucket va_ht k) ≡ head_of (chains k)
  pub chained : (k : ℕ) → k < lmc_ht_buckets → Chained m (chains k)
  pub few : (k : ℕ) → k < lmc_ht_buckets → length (chains k) ≤ word m 16

abbrev pub has_length : Mem → ℕ → Entry → Bool
has_length m n e = word m e.key == n

abbrev pub first_of : Mem → ℕ → List Entry → Option Entry
first_of m n [] = none
first_of m n (e ∷ es) = if has_length m n e then some e else first_of m n es

abbrev pub address_of : Option Entry → ℕ
address_of none = 0
address_of (some e) = e.address

-- where the value is, and its length
abbrev pub value_of : Mem → Option Entry → ℕ × ℕ
value_of m none = (0, 0)
value_of m (some e) = (e.value + 8, word m e.value)

abbrev pub bucket_of : Pointer → ℕ → Mem → ℕ
bucket_of key n m = lmc_hash (chars key n m) % lmc_ht_buckets

pub compare_loop-same : (cs ds : List ℕ) (m : Mem) → compare_loop cs ds m ≡ done tt m
unfolding compare_loop
compare_loop-same [] ds m = refl
compare_loop-same (c ∷ cs) [] m = refl
compare_loop-same (c ∷ cs) (d ∷ ds) m = elim (Bool-cases (c == d)) [
  | inl e ↦ rw e (compare_loop-same cs ds m)
  | inr e ↦ rw e (compare_loop-same cs ds m)
]

-- Only the length of the key counts.
pub is_match-length :
    (key : Pointer) (n e : ℕ) (m : Mem)
    → is_match key n e m ≡ done (word m (word m (va_key e)) == n) m
unfolding is_match
is_match-length key n e m =
    let s = word m (va_key e) in
    elim (Bool-cases (word m s == n)) [
      | inl h ↦
          rw
            (
              h,
              compare_loop-same (chars (Pointer.pool (s + 8)) (word m s) m) (chars key (word m s) m)
                  m,
            )
            refl
      | inr h ↦ rw h refl
    ]

pub lookup_loop-first_of :
    (key : Pointer) (n : ℕ) (m : Mem) (es : List Entry) (k : ℕ)
    → length es < k
    → Chained m es
    → lookup_loop k key n (head_of es) m ≡ done (address_of (first_of m n es)) m
unfolding lookup_loop
lookup_loop-first_of key n m es zero few c = ground arith
lookup_loop-first_of key n m [] (suc k) few c = refl
lookup_loop-first_of key n m (e ∷ es) (suc k) few (real, link, at_key, at_value, some_value, rest) =
    elim (Bool-cases (has_length m n e)) [
      | inl h ↦ rw (ne→== e.address 0 real, is_match-length key n e.address m, at_key, h) refl
      | inr h ↦
          rw (ne→== e.address 0 real, is_match-length key n e.address m, at_key, h, link)
            (lookup_loop-first_of key n m es k (omega arith) rest)
    ]

-- An entry that was found is a node with a value.
abbrev Node : Mem → Option Entry → Type 0
Node m none = Unit
Node m (some e) = (e.address ≢ 0) × (word m (va_value e.address) ≡ e.value) × (e.value ≢ 0)

first_of-Node : (m : Mem) (n : ℕ) (es : List Entry) → Chained m es → Node m (first_of m n es)
first_of-Node m n [] c = tt
first_of-Node m n (e ∷ es) (real, link, at_key, at_value, some_value, rest) =
    elim (Bool-cases (has_length m n e)) [
      | inl h ↦ rw h (real, at_value, some_value)
      | inr h ↦ rw h (first_of-Node m n es rest)
    ]

lookup_loop-same :
    (key key' : Pointer) (n : ℕ) (m : Mem) (k va_hr : ℕ)
    → lookup_loop k key n va_hr m ≡ lookup_loop k key' n va_hr m
unfolding lookup_loop
lookup_loop-same key key' n m zero va_hr = refl
lookup_loop-same key key' n m (suc k) va_hr = elim (Bool-cases (va_hr == 0)) [
  | inl z ↦ rw z refl
  | inr z ↦ elim (Bool-cases (word m (word m (va_key va_hr)) == n)) [
    | inl h ↦ rw (z, is_match-length key n va_hr m, is_match-length key' n va_hr m, h) refl
    | inr h ↦
        rw (z, is_match-length key n va_hr m, is_match-length key' n va_hr m, h)
          (lookup_loop-same key key' n m k (word m (va_next va_hr)))
  ]
]

delete_loop-same :
    (va_ht b : ℕ) (key key' : Pointer) (n : ℕ) (m : Mem) (k va_p va_hr : ℕ)
    → delete_loop k va_ht b key n va_p va_hr m ≡ delete_loop k va_ht b key' n va_p va_hr m
unfolding delete_loop
delete_loop-same va_ht b key key' n m zero va_p va_hr = refl
delete_loop-same va_ht b key key' n m (suc k) va_p va_hr = elim (Bool-cases (va_hr == 0)) [
  | inl z ↦ rw z refl
  | inr z ↦ elim (Bool-cases (word m (word m (va_key va_hr)) == n)) [
    | inl h ↦ rw (z, is_match-length key n va_hr m, is_match-length key' n va_hr m, h) refl
    | inr h ↦
        rw (z, is_match-length key n va_hr m, is_match-length key' n va_hr m, h)
          (delete_loop-same va_ht b key key' n m k va_hr (word m (va_next va_hr)))
  ]
]

module _ (va_ht : ℕ) (key key' : Pointer) (n : ℕ) (m : Mem)
    (same : bucket_of key n m ≡ bucket_of key' n m) where
  ht_get-same : ht_get va_ht key n m ≡ ht_get va_ht key' n m
  unfolding ht_get ht_lookup ht_hash_key
  ht_get-same =
      let head = word m (bucket va_ht (bucket_of key' n m)) in
      rw (same, lookup_loop-same key key' n m (suc (suc (word m 16))) head) refl

  ht_delete-same : ht_delete va_ht key n m ≡ ht_delete va_ht key' n m
  unfolding ht_delete ht_hash_key
  ht_delete-same =
      let b = bucket_of key' n m in
      rw same
        (delete_loop-same va_ht b key key' n m (suc (suc (word m 16))) 0 (word m (bucket va_ht b)))

  -- For two keys of one length and one bucket, in any memory and whatever their characters,
  -- `ht_get` has the same result, and `ht_delete` does the same.
  pub same_length-same :
      (ht_get va_ht key n m ≡ ht_get va_ht key' n m)
      × (ht_delete va_ht key n m ≡ ht_delete va_ht key' n m)
  same_length-same = (ht_get-same, ht_delete-same)

module _ (m : Mem) (va_ht : ℕ) (chains : ℕ → List Entry) (table : Table m va_ht chains)
    (key : Pointer) (n : ℕ) where
  pub bucket_of-lt : bucket_of key n m < lmc_ht_buckets
  bucket_of-lt = omega arith

  -- On a table, `ht_lookup` changes nothing and finds the first entry in the key's bucket
  -- whose key is as long as the key, or `lmc_null_node`.
  pub ht_lookup-first_of :
      ht_lookup va_ht key n m ≡ done (address_of (first_of m n (chains (bucket_of key n m)))) m
  unfolding ht_lookup ht_hash_key
  ht_lookup-first_of = rw (table.heads (bucket_of key n m) bucket_of-lt) (
      lookup_loop-first_of key n m (chains (bucket_of key n m)) (suc (suc (word m 16)))
        (omega (arith, table.few (bucket_of key n m) bucket_of-lt))
        (table.chained (bucket_of key n m) bucket_of-lt))

  got :
      (o : Option Entry)
      → Node m o
      → and_then
          (field va_value (address_of o) m)
          (λ va. if va == 0 then pure (0, 0) else (read va >>= λ l. pure (va + 8, l)))
        ≡ done (value_of m o) m
  got none h = refl
  got (some e) (real, at_value, some_value) =
      rw (ne→== e.address 0 real, at_value, ne→== e.value 0 some_value) refl

  -- On a table, `ht_get` changes nothing and returns the value of the first entry in the key's
  -- bucket whose key is as long as the key, or nothing.
  pub ht_get-first_of :
      ht_get va_ht key n m ≡ done (value_of m (first_of m n (chains (bucket_of key n m)))) m
  unfolding ht_get
  ht_get-first_of = rw ht_lookup-first_of (
      got (first_of m n (chains (bucket_of key n m))) (
        first_of-Node m n (chains (bucket_of key n m))
          (table.chained (bucket_of key n m) bucket_of-lt)))
