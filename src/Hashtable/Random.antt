-- ===== src/Hashtable/Random.antt =====
-- `ht_random_pair`: whatever `rand` returns, it ends with a pair of the table, unless the table is
-- empty. It never reaches its calls of `abort`.
use localmemcache.Base.{
  ℕ, zero, suc, ◌+◌, ◌-◌, ◌%◌, ◌≤◌, ◌<◌, ◌≡◌, ◌≢◌, refl, sym, ap, ◌∙◌, inl, inr, arith, List, [],
  ◌∷◌, ◌++◌, length, ne→==, Option, none, some, ltb, Bool-cases, ltb→ge, ==→ne, ==→eq, ◌==◌,
}
use localmemcache.Cmd.{done}
use localmemcache.Cmd.Ends
use localmemcache.Cmd.Ends.{Ends, ends}
use localmemcache.Memory.{Mem, word}
use localmemcache.Hashtable.{bucket, lmc_ht_buckets, lmc_string_len}
use localmemcache.Hashtable.Lookup.{Entry, head_of, Chained, Table}
use localmemcache.Hashtable.Walks.{
  StringAt, count_filled, pick_bucket, chain_length, pick_entry, random_entry, ht_random_pair,
}

-- 1 for a chain with entries
abbrev filled : List Entry → ℕ
filled [] = 0
filled (e ∷ es) = 1

-- how many of the `left` buckets from bucket `k` have entries
filled_from : (ℕ → List Entry) → (left k : ℕ) → ℕ
filled_from chains zero k = 0
filled_from chains (suc left) k = filled (chains k) + filled_from chains left (k + 1)

-- An entry of the chain, where it is.
data Chosen (m : Mem) (es : List Entry) : ℕ → Mem → Type 0 where
  chosen :
      (pre : List Entry) (e : Entry) (post : List Entry)
      → es ≡ pre ++ e ∷ post
      → word m (e.address + 8) ≡ e.key
      → word m (e.address + 16) ≡ e.value
      → Chosen m es e.address m

-- A bucket with entries.
data Bucket (m : Mem) (chains : ℕ → List Entry) : ℕ → Mem → Type 0 where
  bucket_at : (k : ℕ) → k < lmc_ht_buckets → length (chains k) ≢ 0 → Bucket m chains k m

pub data RandomPair (m : Mem) (chains : ℕ → List Entry)
    : Option (StringAt × StringAt) → Mem → Type 0 where
  no_pair : ((k : ℕ) → k < lmc_ht_buckets → length (chains k) ≡ 0) → RandomPair m chains none m
  a_pair :
      (k : ℕ) (pre : List Entry) (e : Entry) (post : List Entry)
      → k < lmc_ht_buckets
      → chains k ≡ pre ++ e ∷ post
      → RandomPair m chains
          (some (
            record { data_at = e.key + 8; n = word m e.key },
            record { data_at = e.value + 8; n = word m e.value },
          ))
          m

mod_lt : (a n : ℕ) → n ≢ 0 → a % n < n
mod_lt a n h = omega arith

plus_zero : (n : ℕ) → 0 + n ≡ n
plus_zero n = omega arith

zero_le : (n : ℕ) → 0 ≤ n
zero_le n = omega arith

in_table : (k : ℕ) → k < lmc_ht_buckets → k < 0 + lmc_ht_buckets
in_table k h = omega arith

chain_length-length :
    (m : Mem) (es : List Entry) (k c : ℕ)
    → length es < k
    → Chained m es
    → chain_length k (head_of es) c m ≡ done (c + length es) m
unfolding chain_length
chain_length-length m es zero c few l = ground arith
chain_length-length m [] (suc k) c few l = ap (λ n. done n m) (zero_right c)
  where
    zero_right : (c : ℕ) → c ≡ c + 0
    zero_right c = omega arith
chain_length-length m (e ∷ es) (suc k) c few (real, link, k_at, v_at, some_value, l) =
    rw (ne→== e.address 0 real, link)
      (chain_length-length m es k (c + 1) (omega arith) l
        ∙ ap (λ n. done n m) (shift c (length es)))
  where
    shift : (c n : ℕ) → c + 1 + n ≡ c + suc n
    shift c n = omega arith

Chosen-cons :
    (m : Mem) (d : Entry) (es : List Entry) (a : ℕ) (m' : Mem)
    → Chosen m es a m'
    → Chosen m (d ∷ es) a m'
Chosen-cons m d es a m' (chosen pre e post split k v) =
    chosen (d ∷ pre) e post (ap (λ l. d ∷ l) split) k v

pick_entry-Chosen :
    (m : Mem) (es : List Entry) (k i : ℕ)
    → i < length es
    → length es < k
    → Chained m es
    → Ends (Chosen m es) (pick_entry k (head_of es) i m)
unfolding pick_entry
pick_entry-Chosen m [] k i lt few l = ground arith
pick_entry-Chosen m (e ∷ es) zero i lt few l = ground arith
pick_entry-Chosen m (e ∷ es) (suc k) i lt few (real, link, k_at, v_at, some_value, l) =
    elim (Bool-cases (ltb i 1)) [
      | inl h ↦ rw (ne→== e.address 0 real, h) (ends (chosen [] e es refl k_at v_at))
      | inr h ↦
          rw (ne→== e.address 0 real, h, link)
            (Ends.weaken
              (pick_entry-Chosen m es k (i - 1) (omega (arith, ltb→ge i 1 h)) (omega arith) l)
              (Chosen-cons m e es))
    ]

head-filled : (m : Mem) (es : List Entry) → Chained m es → (head_of es == 0) ≡ (length es == 0)
head-filled m [] l = refl
head-filled m (e ∷ es) (real, _, _, _, _, _) =
    ne→== e.address 0 real ∙ sym (ne→== (suc (length es)) 0 (omega arith))

filled-none : (es : List Entry) → length es ≡ 0 → filled es ≡ 0
filled-none [] h = refl
filled-none (e ∷ es) h = ground arith

filled-some : (es : List Entry) → length es ≢ 0 → filled es ≡ 1
filled-some [] h = ground arith
filled-some (e ∷ es) h = refl

filled_from-none :
    (chains : ℕ → List Entry) (left k : ℕ)
    → filled_from chains left k ≡ 0
    → (j : ℕ) → k ≤ j
    → j < k + left
    → length (chains j) ≡ 0
unfolding filled_from
filled_from-none chains zero k none_filled j lo up = ground arith
filled_from-none chains (suc left) k none_filled j lo up = elim (Bool-cases (j == k)) [
  | inl e ↦ rw (==→eq j k e) (empty_chain (chains k) (omega arith))
  | inr e ↦
      filled_from-none chains left (k + 1) (omega arith) j (omega (arith, ==→ne j k e))
        (omega arith)
]
  where
    empty_chain : (es : List Entry) → filled es ≡ 0 → length es ≡ 0
    empty_chain [] h = refl
    empty_chain (e ∷ es) h = ground arith

module _ (m : Mem) (va_ht : ℕ) (chains : ℕ → List Entry) (table : Table m va_ht chains) where
  head-empty :
      (k : ℕ) → k < lmc_ht_buckets → (word m (bucket va_ht k) == 0) ≡ (length (chains k) == 0)
  head-empty k h = rw (table.heads k h) (head-filled m (chains k) (table.chained k h))

  count_filled-filled_from :
      (left k c : ℕ)
      → k + left ≡ lmc_ht_buckets
      → count_filled left va_ht k c m ≡ done (c + filled_from chains left k) m
  unfolding count_filled filled_from
  count_filled-filled_from zero k c total = ap (λ n. done n m) (zero_right c)
    where
      zero_right : (c : ℕ) → c ≡ c + 0
      zero_right c = omega arith
  count_filled-filled_from (suc left) k c total = elim (Bool-cases (length (chains k) == 0)) [
    | inl e ↦
        rw (head-empty k (omega arith), e, filled-none (chains k) (==→eq (length (chains k)) 0 e))
          (count_filled-filled_from left (k + 1) c (omega arith)
            ∙ ap (λ n. done n m) (none_more (filled_from chains left (k + 1))))
    | inr e ↦
        rw (head-empty k (omega arith), e, filled-some (chains k) (==→ne (length (chains k)) 0 e))
          (count_filled-filled_from left (k + 1) (c + 1) (omega arith)
            ∙ ap (λ n. done n m) (one_more (filled_from chains left (k + 1))))
  ]
    where
      none_more : (n : ℕ) → c + n ≡ c + (0 + n)
      none_more n = omega arith

      one_more : (n : ℕ) → c + 1 + n ≡ c + (1 + n)
      one_more n = omega arith

  pick_bucket-Bucket :
      (left k i : ℕ)
      → k + left ≡ lmc_ht_buckets
      → i < filled_from chains left k
      → Ends (Bucket m chains) (pick_bucket left va_ht k i m)
  unfolding pick_bucket filled_from
  pick_bucket-Bucket zero k i total lt = ground arith
  pick_bucket-Bucket (suc left) k i total lt = elim (Bool-cases (length (chains k) == 0)) [
    | inl e ↦
        rw (head-empty k (omega arith), e)
          (pick_bucket-Bucket left (k + 1) i (omega arith)
            (omega (arith, filled-none (chains k) (==→eq (length (chains k)) 0 e))))
    | inr e ↦ elim (Bool-cases (ltb i 1)) [
      | inl h ↦
          rw (head-empty k (omega arith), e, h)
            (ends (bucket_at k (omega arith) (==→ne (length (chains k)) 0 e)))
      | inr h ↦
          rw (head-empty k (omega arith), e, h)
            (pick_bucket-Bucket left (k + 1) (i - 1) (omega arith)
              (omega (arith, filled-some (chains k) (==→ne (length (chains k)) 0 e), ltb→ge i 1 h)))
    ]
  ]

  random_entry-RandomPair :
      (rand2 k : ℕ)
      → k < lmc_ht_buckets
      → length (chains k) ≢ 0
      → Ends (RandomPair m chains) (random_entry rand2 va_ht k m)
  unfolding random_entry lmc_string_len
  random_entry-RandomPair rand2 k in_range some_entry =
      let few : length (chains k) < suc (suc (word m 16)) = omega (arith, table.few k in_range) in
      let zero_left : 0 + length (chains k) ≡ length (chains k) = omega arith in
      rw
        (
          table.heads k in_range,
          chain_length-length m (chains k) (suc (suc (word m 16))) 0 few (table.chained k in_range),
          zero_left,
        )
        (Ends.bind
          (pick_entry-Chosen m (chains k) (suc (suc (word m 16))) (rand2 % length (chains k))
            (omega (arith, some_entry)) few (table.chained k in_range))
          λ a m' c. taken a m' c)
    where
      taken :
          (a : ℕ) (m' : Mem)
          → Chosen m (chains k) a m'
          → Ends (RandomPair m chains) (
              done
                (some (
                  record { data_at = word m' (a + 8) + 8; n = word m' (word m' (a + 8)) },
                  record { data_at = word m' (a + 16) + 8; n = word m' (word m' (a + 16)) },
                ))
                m')
      taken a m' (chosen pre e post split key value) =
          rw (key, value) (ends (a_pair k pre e post in_range split))

  -- On a table, whatever `rand` returns, `ht_random_pair` ends without a call of `abort` and
  -- changes nothing; its result is the key and the value of an entry of the table, or nothing,
  -- if every bucket is empty.
  pub ht_random_pair-RandomPair :
      (rand1 rand2 : ℕ) → Ends (RandomPair m chains) (ht_random_pair rand1 rand2 va_ht m)
  unfolding ht_random_pair
  ht_random_pair-RandomPair rand1 rand2 =
      let n = filled_from chains lmc_ht_buckets 0 in
      let zero_left : 0 + n ≡ n = plus_zero n in
      elim (Bool-cases (n == 0)) [
        | inl e ↦
            rw (count_filled-filled_from lmc_ht_buckets 0 0 refl, zero_left, e)
              (ends (
                no_pair λ k h.
                  filled_from-none chains lmc_ht_buckets 0 (==→eq n 0 e) k (zero_le k)
                    (in_table k h)))
        | inr e ↦
            rw (count_filled-filled_from lmc_ht_buckets 0 0 refl, zero_left, e)
              (Ends.bind
                (pick_bucket-Bucket lmc_ht_buckets 0 (rand1 % n) refl
                  (mod_lt rand1 n (==→ne n 0 e)))
                λ k m' b. in_bucket rand2 k m' b)
      ]
    where
      in_bucket :
          (rand2 k : ℕ) (m' : Mem)
          → Bucket m chains k m'
          → Ends (RandomPair m chains) (random_entry rand2 va_ht k m')
      in_bucket rand2 k m' (bucket_at k' in_range some_entry) =
          random_entry-RandomPair rand2 k in_range some_entry
