-- ===== src/Hashtable/Insert.antt =====
-- What `ht_insert`, the first branch of `ht_set`, does to a table in a heap; its last stage.
use localmemcache.Base.{
  ℕ, ◌+◌, ◌%◌, ◌^◌, ◌≤◌, ◌<◌, ◌≡◌, refl, ap, ◌∙◌, ◌⊎◌, inl, inr, arith, List, [], ◌∷◌, ◌++◌, length,
  All, All-mono,
}
use localmemcache.Cmd.Ends.{Ends, ends}
use localmemcache.Common.{lmc_hash}
use localmemcache.Errors.{Status, ok, failed, memory_pool_full}
use localmemcache.Memory.{Mem, word, set_word, bytes}
use localmemcache.Memory.Laws.{Same, load-Same, load-store_same, load-store_other}
use localmemcache.Hashtable.{caller, bucket, lmc_ht_buckets, hash_t, link_entry, ht_hash_key}
use localmemcache.Hashtable.Filled.{
  filled, attached, log_cleared, log_cleared-same, Heap-log_cleared, filled-same, attached-same,
  Heap-filled, Heap-attached,
}
use localmemcache.Hashtable.Lookup.{Entry, head_of}
use localmemcache.Hashtable.Link.{put_entry, linked}
use localmemcache.Hashtable.Owned.{Placed, Owned, Frame, Owned-Frame}
use localmemcache.Hashtable.Strings.{Text, Text-Blocks}
use localmemcache.Valloc.{lmc_log_finish}
use localmemcache.Valloc.Chain.{Chunk}
use localmemcache.Valloc.Heap.{Heap, Disjoint, Blocks}
use localmemcache.Valloc.Region.{Holds, here, there, Holds-Disjoint, Holds-Beside}
use localmemcache.Word.{wadd}

-- the bucket of a key in the caller's memory
abbrev pub bucket_at : Mem → ℕ → ℕ
bucket_at t n = lmc_hash (bytes n t 0) % lmc_ht_buckets

-- The number of entries, and a descriptor that is that of `m0` up to the lock flag.
abbrev pub Counted : (m0 m : Mem) (va_ht count : ℕ) → Type 0
Counted m0 m va_ht count = (word m va_ht ≡ count) × Same m0 m 16 48

-- What becomes of a table with `count` entries when a key and a value are stored in it: nothing,
-- for a full pool, or one more entry, at the head of the key's bucket, with copies of both.
pub data Inserted (hi : ℕ) (us : List Chunk) (va_ht : ℕ) (chains : ℕ → List Entry) (count : ℕ)
    (m0 key : Mem) (n_key : ℕ) (value : Mem) (n_value : ℕ) : Status → Mem → Type 0 where
  not_stored :
      {m' : Mem} (left extra : List Chunk)
      → Heap m' hi left (extra ++ us)
      → Owned m' us va_ht chains
      → Counted m0 m' va_ht count
      → Inserted hi us va_ht chains count m0 key n_key value n_value (failed memory_pool_full) m'
  stored :
      {m' : Mem} (e : Entry) (be bk bv : Chunk) (left : List Chunk)
      → Heap m' hi left (be ∷ bk ∷ bv ∷ us)
      → Owned m' (be ∷ us) va_ht (put_entry (bucket_at key n_key) e chains)
      → Text m' (bk ∷ []) e.key n_key (bytes (n_key + 1) key 0)
      → Text m' (bv ∷ []) e.value n_value (bytes (n_value + 1) value 0)
      → Counted m0 m' va_ht (wadd count 1)
      → Inserted hi us va_ht chains count m0 key n_key value n_value ok m'

-- where the bytes of a block lie
pub held-bounds :
    (m : Mem) (hi : ℕ) (cs us : List Chunk) (a n : ℕ)
    → Heap m hi cs us
    → Holds a n us
    → (96 ≤ a) × (a + n ≤ hi)
held-bounds m hi cs us a n heap h =
    let (beside, clear, low, high) = Holds-Beside m hi cs a n us heap.used heap.disjoint h in
    (low, high)

module _ (m : Mem) (hi : ℕ) (cs us : List Chunk) (va_ht : ℕ) (chains : ℕ → List Entry) (key : Mem)
    (n_key : ℕ) (value : Mem) (n_value : ℕ) (be bk bv : Chunk) (k v : ℕ)
    (heap : Heap m hi cs (be ∷ bk ∷ bv ∷ us)) (owned : Owned m us va_ht chains) (long : 32 ≤ be.1)
    (key_text : Text m (bk ∷ []) k n_key (bytes (n_key + 1) key 0))
    (value_text : Text m (bv ∷ []) v n_value (bytes (n_value + 1) value 0))
    (key_logged : word m 64 ≡ k) (value_logged : word m 72 ≡ v)
    (room : length (chains (bucket_at key n_key)) < word m 16) (m0 : Mem)
    (older : Same m0 m 16 48) where
  va : ℕ
  va = be.0 + 8

  in_us : {a n : ℕ} → Holds a n us → Holds a n (be ∷ bk ∷ bv ∷ us)
  in_us h = there (there (there h))

  in_bk : {a n : ℕ} → Holds a n (bk ∷ []) → Holds a n (be ∷ bk ∷ bv ∷ us)
  in_bk (here p q) = there (here p q)
  in_bk (there h) = elim h [ ]

  in_bv : {a n : ℕ} → Holds a n (bv ∷ []) → Holds a n (be ∷ bk ∷ bv ∷ us)
  in_bv (here p q) = there (there (here p q))
  in_bv (there h) = elim h [ ]

  mb : Mem
  mb = filled m va va_ht (bucket_at key n_key)

  mc : Mem
  mc = attached mb va va_ht (bucket_at key n_key)

  entry : Entry
  entry = record { address = va; key = k; value = v }

  bounds : (a n : ℕ) → Holds a n (be ∷ bk ∷ bv ∷ us) → (96 ≤ a) × (a + n ≤ hi)
  bounds a n h = held-bounds m hi cs (be ∷ bk ∷ bv ∷ us) a n heap h

  k_bounds : (96 ≤ k) × (k + (n_key + 9) ≤ hi)
  k_bounds = bounds k (n_key + 9) (in_bk key_text.held)

  v_bounds : (96 ≤ v) × (v + (n_value + 9) ≤ hi)
  v_bounds = bounds v (n_value + 9) (in_bv value_text.held)

  table_bounds : (96 ≤ va_ht) × (va_ht + hash_t ≤ hi)
  table_bounds = bounds va_ht hash_t (in_us owned.table_held)

  -- The new entry's block is apart from the table's.
  table_apart : (va_ht + hash_t ≤ be.0) ⊎ (be.0 + be.1 ≤ va_ht)
  table_apart = Holds-Disjoint va_ht hash_t be us heap.disjoint.0.1.1 owned.table_held

  filled-Frame : Frame m mb us
  unfolding mb va
  filled-Frame = record {
    descriptor = λ x p q.
        filled-same m va va_ht (bucket_at key n_key) x (inl (omega (arith, heap.used.0.0.low)));
    blocks =
        All-mono (Disjoint be) (λ c. Same m mb c.0 (c.0 + c.1)) us
          (λ c d x p q. filled-same m va va_ht (bucket_at key n_key) x (ground (arith, long)))
          heap.disjoint.0.1.1;
  }

  head-lt : (es : List Entry) → All (Placed us va_ht) es → head_of es < 2 ^ 63
  head-lt [] p = omega arith
  head-lt (e ∷ es) ((h, apart), p) =
      omega (arith, heap.free.small, (bounds e.address 24 (in_us h)).1)

  Owned-b : Owned mb us va_ht chains
  Owned-b = Owned-Frame m mb us va_ht chains filled-Frame owned

  in_range : bucket_at key n_key < lmc_ht_buckets
  in_range = omega arith

  link_b : word mb va ≡ head_of (chains (bucket_at key n_key))
  unfolding mb va
  link_b =
      let b = bucket_at key n_key in
      let ma = set_word m (be.0 + 8 + 8) (word m 64) in
      let at_head : word ma (bucket va_ht b) ≡ head_of (chains b) =
        load-store_other 8 8 m (be.0 + 8 + 8) (word m 64) (bucket va_ht b)
          (ground (arith, table_apart, in_range, long))
        ∙ owned.table.heads b in_range in
      load-store_same 8 ma (be.0 + 8) (word ma (bucket va_ht b))
        (rw at_head (omega (arith, head-lt (chains b) (owned.placed b in_range))))
      ∙ at_head

  key_b : word mb (va + 8) ≡ k
  unfolding mb va
  key_b =
      let b = bucket_at key n_key in
      let ma = set_word m (be.0 + 8 + 8) (word m 64) in
      load-store_other 8 8 ma (be.0 + 8) (word ma (bucket va_ht b)) (be.0 + 8 + 8)
        (inr (omega arith))
      ∙ (load-store_same 8 m (be.0 + 8 + 8) (word m 64)
            (rw key_logged (omega (arith, k_bounds.1, heap.free.small)))
          ∙ key_logged)

  -- Bytes of another block than the entry's and the table's.
  other_block :
      (c : Chunk)
      → 88 ≤ c.0
      → Disjoint be c
      → (va_ht + hash_t ≤ c.0) ⊎ (c.0 + c.1 ≤ va_ht)
      → Blocks m (log_cleared mc) (c ∷ [])
  unfolding mc mb va
  other_block c low d apart =
      let b = bucket_at key n_key in
      (
        λ x p q.
            log_cleared-same mc x (inr (omega arith))
            ∙ (attached-same mb (be.0 + 8) va_ht b x (ground (arith, in_range))
                  (ground (arith, long)) (ground arith)
                ∙ filled-same m (be.0 + 8) va_ht b x (ground (arith, long))),
        tt,
      )

  head_f : word (log_cleared mc) (bucket va_ht (bucket_at key n_key)) ≡ va
  unfolding mc va
  head_f =
      let b = bucket_at key n_key in
      let m1 = set_word mb (bucket va_ht b) (be.0 + 8) in
      let m2 = set_word m1 (be.0 + 8 + 16) (word m1 72) in
      load-Same 8 mc (log_cleared mc) (bucket va_ht b)
        (λ x p q. log_cleared-same mc x (inr (omega (arith, table_bounds.0))))
      ∙ (load-store_other 8 8 m2 va_ht (wadd (word m2 va_ht) 1) (bucket va_ht b) (inr (omega arith))
          ∙ (load-store_other 8 8 m1 (be.0 + 8 + 16) (word m1 72) (bucket va_ht b)
                (ground (arith, table_apart, in_range, long))
              ∙ load-store_same 8 mb (bucket va_ht b) (be.0 + 8)
                  (omega (arith, heap.used.0.0.high, heap.free.small, long))))

  value_m1 : word (set_word mb (bucket va_ht (bucket_at key n_key)) va) 72 ≡ v
  unfolding mb va
  value_m1 =
      let b = bucket_at key n_key in
      load-store_other 8 8 mb (bucket va_ht b) (be.0 + 8) 72 (inl (omega (arith, table_bounds.0)))
      ∙ (load-Same 8 m mb 72
            (λ x p q. filled-same m (be.0 + 8) va_ht b x (inl (omega (arith, heap.used.0.0.low))))
          ∙ value_logged)

  value_f : word (log_cleared mc) (va + 16) ≡ v
  unfolding mc va
  value_f =
      let b = bucket_at key n_key in
      let m1 = set_word mb (bucket va_ht b) (be.0 + 8) in
      let m2 = set_word m1 (be.0 + 8 + 16) (word m1 72) in
      load-Same 8 mc (log_cleared mc) (be.0 + 8 + 16)
        (λ x p q. log_cleared-same mc x (inr (omega (arith, heap.used.0.0.low))))
      ∙ (load-store_other 8 8 m2 va_ht (wadd (word m2 va_ht) 1) (be.0 + 8 + 16)
            (ground (arith, table_apart, long))
          ∙ (load-store_same 8 m1 (be.0 + 8 + 16) (word m1 72)
                (rw value_m1 (omega (arith, v_bounds.1, heap.free.small)))
              ∙ value_m1))

  count_f : word (log_cleared mc) va_ht ≡ wadd (word m va_ht) 1
  unfolding mc mb va
  count_f =
      let b = bucket_at key n_key in
      let m1 = set_word mb (bucket va_ht b) (be.0 + 8) in
      let m2 = set_word m1 (be.0 + 8 + 16) (word m1 72) in
      let before : word m2 va_ht ≡ word m va_ht =
        load-store_other 8 8 m1 (be.0 + 8 + 16) (word m1 72) va_ht
          (ground (arith, table_apart, long))
        ∙ (load-store_other 8 8 mb (bucket va_ht b) (be.0 + 8) va_ht (inl (omega arith))
            ∙ load-Same 8 m mb va_ht (λ x p q.
              filled-same m (be.0 + 8) va_ht b x (ground (arith, table_apart, long)))) in
      load-Same 8 mc (log_cleared mc) va_ht
        (λ x p q. log_cleared-same mc x (inr (omega (arith, table_bounds.0))))
      ∙ (load-store_same 8 m2 va_ht (wadd (word m2 va_ht) 1) (omega arith)
          ∙ ap (λ z. wadd z 1) before)

  descriptor_f : Same m0 (log_cleared mc) 16 48
  unfolding mc mb va
  descriptor_f x p q =
      let b = bucket_at key n_key in
      log_cleared-same mc x (inl (omega arith))
      ∙ (attached-same mb (be.0 + 8) va_ht b x (inl (omega (arith, table_bounds.0)))
            (inl (omega (arith, heap.used.0.0.low))) (inl (omega (arith, table_bounds.0)))
          ∙ (filled-same m (be.0 + 8) va_ht b x (inl (omega (arith, heap.used.0.0.low)))
              ∙ older x p q))

  linked_f : Owned (log_cleared mc) (be ∷ us) va_ht (put_entry (bucket_at key n_key) entry chains)
  unfolding mc va entry
  linked_f =
      let b = bucket_at key n_key in
      linked mb (log_cleared mc) us va_ht b chains entry be Owned-b in_range heap.disjoint.0.1.1
        heap.used.0.0.low refl (omega (arith, long))
        (λ a n h. omega (arith, (bounds a n (in_us h)).0)) link_b key_b (omega (arith, v_bounds.0))
        (rw (load-Same 8 m mb 16 (λ x p q. filled-Frame.descriptor x p (omega arith))) room) head_f
        value_f (λ x h i j l. log_cleared-same mc x h ∙ attached-same mb (be.0 + 8) va_ht b x i j l)

  -- The last stage of `ht_insert` links the new entry.
  pub link_entry-Inserted :
      Ends
        (Inserted hi us va_ht chains (word m va_ht) m0 key n_key value n_value)
        (link_entry va_ht (caller key) n_key (be.0 + 8) m)
  unfolding link_entry ht_hash_key lmc_log_finish mc mb va entry
  link_entry-Inserted =
      let b = bucket_at key n_key in
      let all = be ∷ bk ∷ bv ∷ us in
      let at_entry : Holds (be.0 + 8) 24 all = here (omega arith) (omega (arith, long)) in
      let at_table = in_us owned.table_held in
      ends (
        stored entry be bk bv cs
          (Heap-log_cleared mc hi cs all (
            Heap-attached mb hi cs all (be.0 + 8) va_ht b
              (Heap-filled m hi cs all (be.0 + 8) va_ht b heap at_entry at_table in_range) at_entry
              at_table in_range))
          linked_f
          (Text-Blocks m (log_cleared mc) (bk ∷ []) k n_key (bytes (n_key + 1) key 0)
            (other_block bk heap.used.1.0.0.low heap.disjoint.0.0
              (Holds-Disjoint va_ht hash_t bk us heap.disjoint.1.0.1 owned.table_held))
            key_text)
          (Text-Blocks m (log_cleared mc) (bv ∷ []) v n_value (bytes (n_value + 1) value 0)
            (other_block bv heap.used.1.1.0.0.low heap.disjoint.0.1.0
              (Holds-Disjoint va_ht hash_t bv us heap.disjoint.1.1.0 owned.table_held))
            value_text)
          (count_f, descriptor_f))
