-- ===== src/Hashtable/Delete.antt =====
-- `ht_delete` for a key that the table has: the entry is taken out, and its three blocks are freed.
use localmemcache.Base.{
  ℕ, zero, suc, ◌+◌, ◌≤◌, ◌<◌, ◌^◌, ◌≡◌, refl, ap, ◌∙◌, ◌⊎◌, inl, inr, arith, List, [], ◌∷◌, ◌++◌,
  All, All-mono, length, length-append, subst, ne→==, if◌then◌else◌, ◌==◌, true, false,
}
use localmemcache.Cmd.{Cmd, pure, ◌>>=◌, read, write}
use localmemcache.Cmd.Ends
use localmemcache.Cmd.Ends.{Ends, ends}
use localmemcache.Memory.{Mem, word, set_word}
use localmemcache.Memory.Laws.{Same, load-Same, load-store_same, load-store_other, store_other}
use localmemcache.Hashtable.{
  Pointer, bucket, table_size, va_key, va_value, hash_t, remove, delete_loop, ht_delete,
  ht_hash_key,
}
use localmemcache.Hashtable.Link.{ApartFrom}
use localmemcache.Hashtable.Lookup.{
  Entry, Table, Chained, head_of, has_length, bucket_of, bucket_of-lt, is_match-length,
}
use localmemcache.Hashtable.Owned.{Placed, Blocks-trans}
use localmemcache.Hashtable.Insert.{held-bounds}
use localmemcache.Valloc.Chain.{Chunk}
use localmemcache.Valloc.Free.{lmc_free}
use localmemcache.Valloc.Heap.{Heap, Blocks, Shrunk, shrunk, lmc_free-Shrunk}
use localmemcache.Valloc.Region.{
  Holds, there, Holds-part, Holds-Same, Holds-Disjoint, Outside, Heap-write,
}
use localmemcache.Word.{wsub}

-- What is left of a table when an entry is out: the word at `place`, which led to it, is `link`, one
-- entry less is counted, and all else in the other blocks is the same.
pub record Removed (m : Mem) (hi : ℕ) (rest : List Chunk) (place link va_ht : ℕ) (m' : Mem)
    : Type 0 where
  pub left : List Chunk
  pub heap : Heap m' hi left rest
  pub linked : word m' place ≡ link
  pub count : word m' va_ht ≡ wsub (word m va_ht) 1
  pub kept :
      All
        (λ b.
          (x : ℕ)
          → b.0 ≤ x
          → x < b.0 + b.1
          → ApartFrom x place 8
          → ApartFrom x va_ht 8
          → m' x ≡ m x)
        rest

-- The end of `remove`, after the write that takes the entry out of its chain.
abbrev free_entry : (va_ht va_hr : ℕ) → Cmd (Unit {0})
free_entry va_ht va_hr = do
  s ← read (va_key va_hr)
  _ ← lmc_free s
  v ← read (va_value va_hr)
  _ ← lmc_free v
  _ ← lmc_free va_hr
  z ← read (table_size va_ht)
  write (table_size va_ht) (wsub z 1)

module _ (m : Mem) (hi : ℕ) (cs : List Chunk) (bk bv be : Chunk) (rest : List Chunk) (va_ht : ℕ)
    (heap : Heap m hi cs (bk ∷ bv ∷ be ∷ rest)) (long : 32 ≤ be.1)
    (at_key : word m (be.0 + 8 + 8) ≡ bk.0 + 8) (at_value : word m (be.0 + 8 + 16) ≡ bv.0 + 8)
    (table : Holds va_ht 8 rest) where
  module _ (place link : ℕ) (held : Holds place 8 rest)
      (other : (place + 8 ≤ va_ht) ⊎ (va_ht + 8 ≤ place)) (fits : link < 2 ^ 64) where
    m1 : Mem
    m1 = set_word m place link

    out1 : Outside m m1 place 8
    unfolding m1
    out1 x h = store_other 8 m place link x h

    apart : (place + 8 ≤ be.0) ⊎ (be.0 + be.1 ≤ place)
    apart = Holds-Disjoint place 8 be rest heap.disjoint.1.1.0 held

    same_entry : Same m m1 be.0 (be.0 + be.1)
    same_entry x p q = out1 x (ground (arith, apart))

    counted :
        (m4 : Mem) (left : List Chunk)
        → Heap m4 hi left rest
        → Blocks m1 m4 rest
        → Removed m hi rest place link va_ht (set_word m4 va_ht (wsub (word m4 va_ht) 1))
    unfolding m1
    counted m4 left heap4 same =
        let m5 = set_word m4 va_ht (wsub (word m4 va_ht) 1) in
        let out : Outside m4 m5 va_ht 8 =
          (λ x h. store_other 8 m4 va_ht (wsub (word m4 va_ht) 1) x h) in
        let before : word m4 va_ht ≡ word m va_ht =
          load-Same 8 m1 m4 va_ht (λ x p q. Holds-Same m1 m4 va_ht 8 rest same table x p q)
          ∙ load-store_other 8 8 m place link va_ht (ground (arith, other)) in
        record {
          left = left;
          heap = Heap-write m4 hi left rest m5 va_ht 8 heap4 table out;
          linked =
              load-store_other 8 8 m4 va_ht (wsub (word m4 va_ht) 1) place (ground (arith, other))
              ∙ (load-Same 8 m1 m4 place (λ x p q. Holds-Same m1 m4 place 8 rest same held x p q)
                  ∙ load-store_same 8 m place link fits);
          count =
              load-store_same 8 m4 va_ht (wsub (word m4 va_ht) 1) (omega arith)
              ∙ ap (λ z. wsub z 1) before;
          kept =
              All-mono (λ b. Same m1 m4 b.0 (b.0 + b.1))
                (λ b.
                  (x : ℕ)
                  → b.0 ≤ x
                  → x < b.0 + b.1
                  → ApartFrom x place 8
                  → ApartFrom x va_ht 8
                  → m5 x ≡ m x)
                rest (λ b s x p q h k. out x k ∙ (s x p q ∙ out1 x h)) same;
        }

    block_freed :
        (m3 m4 : Mem)
        → Blocks m1 m3 rest
        → Shrunk m3 hi rest m4
        → Removed m hi rest place link va_ht (set_word m4 va_ht (wsub (word m4 va_ht) 1))
    block_freed m3 m4 same (shrunk left heap4 (d, kept)) =
        counted m4 left heap4 (Blocks-trans m1 m3 m4 rest same kept)

    value_freed :
        (m2 m3 : Mem)
        → Blocks m1 m2 rest
        → Shrunk m2 hi (be ∷ rest) m3
        → Ends
            (λ _ m'. Removed m hi rest place link va_ht m')
            ((lmc_free (be.0 + 8) >>= λ _. read va_ht >>= λ z. write va_ht (wsub z 1)) m3)
    value_freed m2 m3 same (shrunk left heap3 (d, (entry_kept, kept))) =
        Ends.bind (lmc_free-Shrunk m3 hi left [] be rest heap3)
          λ o m4 (e, s). ends (block_freed m3 m4 (Blocks-trans m1 m2 m3 rest same kept) s)

    key_freed :
        (m2 : Mem)
        → Shrunk m1 hi (bv ∷ be ∷ rest) m2
        → Ends
            (λ _ m'. Removed m hi rest place link va_ht m')
            ((read (va_value (be.0 + 8)) >>= λ v. lmc_free v >>= λ _.
                lmc_free (be.0 + 8) >>= λ _. read va_ht >>= λ z. write va_ht (wsub z 1))
              m2)
    key_freed m2 (shrunk left heap2 (d, (value_kept, (entry_kept, kept)))) =
        rw
          (load-Same 8 m1 m2 (be.0 + 8 + 16)
              (λ x p q. entry_kept x (omega arith) (omega (arith, long)))
            ∙ (load-Same 8 m m1 (be.0 + 8 + 16)
                  (λ x p q. same_entry x (omega arith) (omega (arith, long)))
                ∙ at_value))
          (Ends.bind (lmc_free-Shrunk m2 hi left [] bv (be ∷ rest) heap2)
            λ o m3 (e, s). value_freed m2 m3 kept s)

    pub entry_freed :
        Ends
          (λ _ m'. Removed m hi rest place link va_ht m')
          (free_entry va_ht (be.0 + 8) (set_word m place link))
    unfolding m1
    entry_freed =
        let heap1 =
          Heap-write m hi cs (bk ∷ bv ∷ be ∷ rest) m1 place 8 heap (there (there (there held)))
            out1 in
        rw
          (load-Same 8 m m1 (be.0 + 8 + 8)
              (λ x p q. same_entry x (omega arith) (omega (arith, long)))
            ∙ at_key)
          (Ends.bind (lmc_free-Shrunk m1 hi cs [] bk (bv ∷ be ∷ rest) heap1)
            λ o m2 (e, s). key_freed m2 s)

-- the word that leads to an entry behind the one at `va_p`, or at the head of bucket `k` for 0, and
-- what it is once the entry is out
abbrev pub place_of : (va_ht k va_p : ℕ) → ℕ
place_of va_ht k va_p = if va_p == 0 then bucket va_ht k else va_p

abbrev pub link_of : (va_p next : ℕ) → ℕ
link_of va_p next = if va_p == 0 then 0 else next

abbrev pub last_address : ℕ → List Entry → ℕ
last_address va_p [] = va_p
last_address va_p (a ∷ before) = last_address a.address before

-- The loop comes to the first entry whose key has the length.
delete_loop-found :
    (va_ht b : ℕ) (key : Pointer) (n : ℕ) (m : Mem) (before : List Entry) (e : Entry)
    (after : List Entry) (k va_p : ℕ)
    → length before < k
    → Chained m (before ++ e ∷ after)
    → All (λ a. has_length m n a ≡ false) before
    → has_length m n e ≡ true
    → delete_loop k va_ht b key n va_p (head_of (before ++ e ∷ after)) m
      ≡ (remove va_ht b (last_address va_p before) e.address >>= λ _. pure true) m
unfolding delete_loop
delete_loop-found va_ht b key n m before e after zero va_p few c misses hit = ground arith
delete_loop-found va_ht b key n m [] e after (suc k) va_p few
      (real, link, at_key, at_value, some_value, rest) misses hit =
    rw (ne→== e.address 0 real, is_match-length key n e.address m, at_key, hit) refl
delete_loop-found va_ht b key n m (a ∷ before) e after (suc k) va_p few
      (real, link, at_key, at_value, some_value, rest) (miss, misses) hit =
    rw (ne→== a.address 0 real, is_match-length key n a.address m, at_key, miss, link)
      (delete_loop-found va_ht b key n m before e after k a.address (omega arith) rest misses hit)

Chained-at :
    (m : Mem) (before : List Entry) (e : Entry) (after : List Entry)
    → Chained m (before ++ e ∷ after)
    → word m e.address ≡ head_of after
Chained-at m [] e after (real, link, k, v, some_value, rest) = link
Chained-at m (a ∷ before) e after (real, link, k, v, some_value, rest) =
    Chained-at m before e after rest

last_Placed :
    (us : List Chunk) (va_ht : ℕ) (a : Entry) (before : List Entry)
    → Placed us va_ht a
    → All (Placed us va_ht) before
    → Holds (last_address a.address before) 24 us
      × ((last_address a.address before + 24 ≤ va_ht)
          ⊎ (va_ht + hash_t ≤ last_address a.address before))
last_Placed us va_ht a [] p ps = p
last_Placed us va_ht a (b ∷ before) p (q, ps) = last_Placed us va_ht b before q ps

module _ (m : Mem) (hi : ℕ) (cs : List Chunk) (bk bv be : Chunk) (rest : List Chunk) (va_ht : ℕ)
    (chains : ℕ → List Entry) (key : Pointer) (n : ℕ) (before : List Entry) (e : Entry)
    (after : List Entry) (heap : Heap m hi cs (bk ∷ bv ∷ be ∷ rest)) (table : Table m va_ht chains)
    (in_bucket : chains (bucket_of key n m) ≡ before ++ e ∷ after)
    (misses : All (λ a. has_length m n a ≡ false) before) (hit : has_length m n e ≡ true)
    (long : 32 ≤ be.1) (address : e.address ≡ be.0 + 8) (at_key : word m (be.0 + 8 + 8) ≡ bk.0 + 8)
    (at_value : word m (be.0 + 8 + 16) ≡ bv.0 + 8) (held : Holds va_ht hash_t rest)
    (placed_before : All (Placed rest va_ht) before)
    (placed_after : All (Placed rest va_ht) after) where
  bounds : (a k : ℕ) → Holds a k rest → (96 ≤ a) × (a + k ≤ hi)
  bounds a k h = held-bounds m hi cs (bk ∷ bv ∷ be ∷ rest) a k heap (there (there (there h)))

  next_at : word m (be.0 + 8) ≡ head_of after
  next_at =
      subst (λ x. word m x ≡ head_of after) address
        (Chained-at m before e after (
          subst (λ es. Chained m es) in_bucket
            (table.chained (bucket_of key n m) (bucket_of-lt m va_ht chains table key n))))

  next_fits : (es : List Entry) → All (Placed rest va_ht) es → head_of es < 2 ^ 64
  next_fits [] p = omega arith
  next_fits (x ∷ es) ((h, apart), p) = omega (arith, heap.free.small, (bounds x.address 24 h).1)

  out_of_place :
      (p : ℕ)
      → (p ≡ 0) ⊎ (Holds p 24 rest × ((p + 24 ≤ va_ht) ⊎ (va_ht + hash_t ≤ p)))
      → Ends
          (λ _ m'.
            Removed m hi rest
              (place_of va_ht (bucket_of key n m) p)
              (link_of p (head_of after))
              va_ht
              m')
          (remove va_ht (bucket_of key n m) p (be.0 + 8) m)
  unfolding remove
  out_of_place p (inl first) =
      let b = bucket_of key n m in
      let range = bucket_of-lt m va_ht chains table key n in
      rw first (
        entry_freed m hi cs bk bv be rest va_ht heap long at_key at_value
          (Holds-part va_ht hash_t va_ht 8 rest (omega arith) (omega arith) held) (bucket va_ht b) 0
          (Holds-part va_ht hash_t (bucket va_ht b) 8 rest (omega arith) (omega (arith, range))
            held)
          (inr (omega arith)) (omega arith))
  out_of_place p (inr (h, apart)) =
      rw (ne→== p 0 (omega (arith, (bounds p 24 h).0)), next_at)
        (entry_freed m hi cs bk bv be rest va_ht heap long at_key at_value
          (Holds-part va_ht hash_t va_ht 8 rest (omega arith) (omega arith) held) p (head_of after)
          (Holds-part p 24 p 8 rest (omega arith) (omega arith) h) (ground (arith, apart))
          (next_fits after placed_after))

  previous :
      (es : List Entry)
      → All (Placed rest va_ht) es
      → (last_address 0 es ≡ 0)
        ⊎ (Holds (last_address 0 es) 24 rest
            × ((last_address 0 es + 24 ≤ va_ht) ⊎ (va_ht + hash_t ≤ last_address 0 es)))
  previous [] ps = inl refl
  previous (a ∷ es) (p, ps) = inr (last_Placed rest va_ht a es p ps)

  -- On a table whose blocks in use make a heap, for a key of which the first entry with its
  -- length has an own block of at least 32 bytes and own blocks for key and value, the table
  -- and the other entries of the bucket being in other blocks, `ht_delete` ends and returns
  -- true: the three blocks are free, one entry less is counted, the entry before leads to the
  -- one after, but a first entry leaves its bucket empty, whatever came after it, and the
  -- other blocks keep all other bytes.
  pub ht_delete-Removed :
      Ends
        (λ r m'.
          (r ≡ true)
          × Removed m hi rest
              (place_of va_ht (bucket_of key n m) (last_address 0 before))
              (link_of (last_address 0 before) (head_of after))
              va_ht
              m')
        (ht_delete va_ht key n m)
  unfolding ht_delete ht_hash_key
  ht_delete-Removed =
      let b = bucket_of key n m in
      let range = bucket_of-lt m va_ht chains table key n in
      let chain = subst (λ es. Chained m es) in_bucket (table.chained b range) in
      let few = subst (λ es. length es ≤ word m 16) in_bucket (table.few b range) in
      let shorter = length-append before (e ∷ after) in
      rw
        (
          table.heads b range,
          in_bucket,
          delete_loop-found va_ht b key n m before e after (suc (suc (word m 16))) 0
              (omega (arith, few, shorter)) chain misses hit,
          address,
        )
        (Ends.bind (out_of_place (last_address 0 before) (previous before placed_before))
          λ x m' r. ends (refl, r))
