-- ===== src/Hashtable/Filled.antt =====
-- The writes of `ht_set` to a new entry and to its table, and that the heap stays a heap.
use localmemcache.Base.{ℕ, ◌+◌, ◌<◌, ◌≡◌, ◌∙◌, arith, List}
use localmemcache.Memory.{Mem, word, set_word, set_int}
use localmemcache.Memory.Laws.{store_other}
use localmemcache.Hashtable.{bucket, lmc_ht_buckets, hash_t}
use localmemcache.Hashtable.Link.{ApartFrom}
use localmemcache.Valloc.Chain.{Chunk}
use localmemcache.Valloc.Heap.{Heap}
use localmemcache.Valloc.Region.{Holds, Holds-part, Heap-write, Heap-log}
use localmemcache.Word.{wadd}

-- the key and the link,
abbrev pub filled : Mem → (va va_ht b : ℕ) → Mem
filled m va va_ht b =
    let ma = set_word m (va + 8) (word m 64) in set_word ma va (word ma (bucket va_ht b))

-- the bucket, the value and the number of entries,
abbrev pub attached : Mem → (va va_ht b : ℕ) → Mem
attached mb va va_ht b =
    let mc = set_word mb (bucket va_ht b) va in
    let md = set_word mc (va + 16) (word mc 72) in set_word md va_ht (wadd (word md va_ht) 1)

-- and `lmc_log_finish`.
abbrev pub log_cleared : Mem → Mem
log_cleared m = set_word (set_word (set_int m 56 0) 72 0) 64 0

pub log_cleared-same : (m : Mem) (x : ℕ) → ApartFrom x 48 40 → log_cleared m x ≡ m x
log_cleared-same m x h =
    store_other 8 (set_word (set_int m 56 0) 72 0) 64 0 x (ground arith)
    ∙ (store_other 8 (set_int m 56 0) 72 0 x (ground arith) ∙ store_other 4 m 56 0 x (ground arith))

pub Heap-log_cleared :
    (m : Mem) (hi : ℕ) (cs us : List Chunk) → Heap m hi cs us → Heap (log_cleared m) hi cs us
Heap-log_cleared m hi cs us heap =
    let ma = set_int m 56 0 in
    let mb = set_word ma 72 0 in
    let heap_a =
      Heap-log m hi cs us ma 56 4 heap (omega arith) (omega arith)
        (λ x h. store_other 4 m 56 0 x h) in
    let heap_b =
      Heap-log ma hi cs us mb 72 8 heap_a (omega arith) (omega arith)
        (λ x h. store_other 8 ma 72 0 x h) in
    Heap-log mb hi cs us (set_word mb 64 0) 64 8 heap_b (omega arith) (omega arith)
      (λ x h. store_other 8 mb 64 0 x h)

pub filled-same : (m : Mem) (va va_ht b x : ℕ) → ApartFrom x va 16 → filled m va va_ht b x ≡ m x
filled-same m va va_ht b x h =
    let ma = set_word m (va + 8) (word m 64) in
    store_other 8 ma va (word ma (bucket va_ht b)) x (ground arith)
    ∙ store_other 8 m (va + 8) (word m 64) x (ground arith)

pub attached-same :
    (mb : Mem) (va va_ht b x : ℕ)
    → ApartFrom x (bucket va_ht b) 8
    → ApartFrom x (va + 16) 8
    → ApartFrom x va_ht 8
    → attached mb va va_ht b x ≡ mb x
attached-same mb va va_ht b x h i j =
    let mc = set_word mb (bucket va_ht b) va in
    let md = set_word mc (va + 16) (word mc 72) in
    store_other 8 md va_ht (wadd (word md va_ht) 1) x j
    ∙ (store_other 8 mc (va + 16) (word mc 72) x i ∙ store_other 8 mb (bucket va_ht b) va x h)

module _ (m : Mem) (hi : ℕ) (cs : List Chunk) (us : List Chunk) (va va_ht b : ℕ)
    (heap : Heap m hi cs us) (entry : Holds va 24 us) (table : Holds va_ht hash_t us)
    (in_range : b < lmc_ht_buckets) where
  pub Heap-filled : Heap (filled m va va_ht b) hi cs us
  Heap-filled =
      let ma = set_word m (va + 8) (word m 64) in
      Heap-write ma hi cs us (filled m va va_ht b) va 8
        (Heap-write m hi cs us ma (va + 8) 8 heap
          (Holds-part va 24 (va + 8) 8 us (omega arith) (omega arith) entry)
          (λ x h. store_other 8 m (va + 8) (word m 64) x h))
        (Holds-part va 24 va 8 us (omega arith) (omega arith) entry)
        (λ x h. store_other 8 ma va (word ma (bucket va_ht b)) x h)

  pub Heap-attached : Heap (attached m va va_ht b) hi cs us
  Heap-attached =
      let mc = set_word m (bucket va_ht b) va in
      let md = set_word mc (va + 16) (word mc 72) in
      let heap_c =
        Heap-write m hi cs us mc (bucket va_ht b) 8 heap
          (Holds-part va_ht hash_t (bucket va_ht b) 8 us (omega arith) (omega (arith, in_range))
            table)
          (λ x h. store_other 8 m (bucket va_ht b) va x h) in
      let heap_d =
        Heap-write mc hi cs us md (va + 16) 8 heap_c
          (Holds-part va 24 (va + 16) 8 us (omega arith) (omega arith) entry)
          (λ x h. store_other 8 mc (va + 16) (word mc 72) x h) in
      Heap-write md hi cs us (attached m va va_ht b) va_ht 8 heap_d
        (Holds-part va_ht hash_t va_ht 8 us (omega arith) (omega arith) table)
        (λ x h. store_other 8 md va_ht (wadd (word md va_ht) 1) x h)
