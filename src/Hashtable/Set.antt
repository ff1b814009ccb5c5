-- ===== src/Hashtable/Set.antt =====
-- `ht_set` for a key that the table does not have, and `ht_get` after it.
use localmemcache.Base.{
  ℕ, ◌+◌, ◌≤◌, ◌<◌, ◌^◌, ◌≡◌, ◌≢◌, refl, sym, ◌∙◌, ◌⊎◌, inl, inr, arith, List, [], ◌∷◌, length,
  subst, ne→==, eq→==, if◌then◌else◌, ◌==◌, none, true,
}
use localmemcache.Cmd.{done, ◌>>◌, write}
use localmemcache.Cmd.Ends
use localmemcache.Cmd.Ends.{Ends, ends}
use localmemcache.Errors.{Status, failed, memory_pool_full}
use localmemcache.Memory.{Mem, word, set_word, set_int, bytes}
use localmemcache.Memory.Laws.{load-Same, load-store_same, store_other}
use localmemcache.Hashtable.{caller, insert_failed, insert_key, ht_insert, ht_set, ht_get}
use localmemcache.Hashtable.Insert.{Inserted, Counted, not_stored, stored, bucket_at}
use localmemcache.Hashtable.Link.{put_entry}
use localmemcache.Hashtable.Lookup.{Entry, first_of, ht_lookup-first_of, ht_get-first_of}
use localmemcache.Hashtable.Owned.{Owned, Frame, Frame-trans, Frame-log, Owned-Frame}
use localmemcache.Hashtable.Stages.{
  failed-Inserted, insert_key-Inserted, count-Frame, Counted-Frame,
}
use localmemcache.Hashtable.Strings.{Text-Blocks, Copied, no_room, copied, lmc_ht_strdup-Copied}
use localmemcache.Valloc.{lmc_log_op}
use localmemcache.Valloc.Chain.{Chunk}
use localmemcache.Valloc.Heap.{Heap}
use localmemcache.Valloc.Region.{Heap-log, Outside}

abbrev log_begun : Mem → Mem
log_begun m = set_word (set_word (set_int m 56 1) 72 0) 64 0

log_begun-same : (m : Mem) → Outside m (log_begun m) 48 40
log_begun-same m x h =
    store_other 8 (set_word (set_int m 56 1) 72 0) 64 0 x (ground arith)
    ∙ (store_other 8 (set_int m 56 1) 72 0 x (ground arith) ∙ store_other 4 m 56 1 x (ground arith))

Heap-log_begun :
    (m : Mem) (hi : ℕ) (cs us : List Chunk) → Heap m hi cs us → Heap (log_begun m) hi cs us
Heap-log_begun m hi cs us heap =
    Heap-log m hi cs us (log_begun m) 48 40 heap (omega arith) (omega arith) (log_begun-same m)

module _ (hi : ℕ) (us : List Chunk) (va_ht : ℕ) (chains : ℕ → List Entry) (key : Mem) (n_key : ℕ)
    (value : Mem) (n_value : ℕ) (count : ℕ) (m0 : Mem) (short : n_key ≤ 2 ^ 61) where
  value_by :
      (m : Mem) (cs : List Chunk)
      → Heap m hi cs us
      → Owned m us va_ht chains
      → Counted m0 m va_ht count
      → length (chains (bucket_at key n_key)) < word m 16
      → (p : ℕ) (m' : Mem) → Copied m hi cs us (caller value) n_value p m'
      → Ends (Inserted hi us va_ht chains count m0 key n_key value n_value) (
          (write 72 p >> (if p == 0 then insert_failed else insert_key va_ht (caller key) n_key))
            m')
  value_by m cs heap owned n room p m' (no_room) =
      let m1 = set_word m 72 0 in
      let out : Outside m m1 72 8 = (λ x h. store_other 8 m 72 0 x h) in
      let f = Frame-log m m1 hi cs us 72 8 heap (omega arith) (omega arith) out in
      failed-Inserted hi us va_ht chains key n_key value n_value count m0 m1 cs []
        (Heap-log m hi cs us m1 72 8 heap (omega arith) (omega arith) out)
        (Owned-Frame m m1 us va_ht chains f owned)
        (Counted-Frame m0 m m1 us va_ht chains count owned f n)
  value_by m cs heap owned n room p m' (copied r z left grown kept vt) =
      let m1 = set_word m' 72 (r + 8) in
      let out : Outside m' m1 72 8 = (λ x h. store_other 8 m' 72 (r + 8) x h) in
      let g = Frame-log m' m1 hi left ((r, z) ∷ us) 72 8 grown (omega arith) (omega arith) out in
      let f =
        Frame-trans m m' m1 us
          (record { descriptor = λ x p q. kept.0 x p (omega arith); blocks = kept.1 })
          (record { descriptor = g.descriptor; blocks = g.blocks.1 }) in
      rw (ne→== (r + 8) 0 (omega arith)) (
        insert_key-Inserted hi us va_ht chains key n_key value n_value count m0 (r, z) (r + 8) short
          m1 left (Heap-log m' hi left ((r, z) ∷ us) m1 72 8 grown (omega arith) (omega arith) out)
          (Owned-Frame m m1 us va_ht chains f owned)
          (Counted-Frame m0 m m1 us va_ht chains count owned f n)
          (Text-Blocks m' m1 ((r, z) ∷ []) (r + 8) n_value (bytes (n_value + 1) value 0)
            (g.blocks.0, tt) vt)
          (load-store_same 8 m' 72 (r + 8)
            (omega (arith, grown.used.0.0.high, grown.used.0.0.room, grown.free.small)))
          (subst (λ t. length (chains (bucket_at key n_key)) < t)
            (sym (load-Same 8 m m1 16 (λ x p q. f.descriptor x p (omega arith)))) room))

-- What `ht_get` finds after `ht_set`.
abbrev pub Fetched :
    (va_ht : ℕ) (key : Mem) (n_key : ℕ) (value : Mem) (n_value : ℕ) → Status → Mem → Type 0
Fetched va_ht key n_key value n_value r m' =
    (r ≡ failed memory_pool_full)
    ⊎ ((a : ℕ) × (a ≢ 0)
        × (ht_get va_ht (caller key) n_key m' ≡ done (a, n_value) m')
        × (bytes (n_value + 1) m' a ≡ bytes (n_value + 1) value 0))

pub fetched :
    (hi : ℕ) (us : List Chunk) (va_ht : ℕ) (chains : ℕ → List Entry) (count : ℕ) (m0 key : Mem)
    (n_key : ℕ) (value : Mem) (n_value : ℕ) (r : Status) (m' : Mem)
    → Inserted hi us va_ht chains count m0 key n_key value n_value r m'
    → Fetched va_ht key n_key value n_value r m'
fetched hi us va_ht chains count m0 key n_key value n_value r m'
      (not_stored left extra heap' owned' n) =
    inl refl
fetched hi us va_ht chains count m0 key n_key value n_value r m'
      (stored e be bk bv left heap' owned' kt vt n) =
    let b = bucket_at key n_key in
    let here : (b == b) ≡ true = eq→== b b refl in
    let match : (word m' e.key == n_key) ≡ true = eq→== (word m' e.key) n_key kt.len in
    inr (
      e.value + 8,
      omega arith,
      subst (λ g. ht_get va_ht (caller key) n_key m' ≡ done (e.value + 8, g) m') vt.len
          (ht_get-first_of m' va_ht (put_entry b e chains) owned'.table (caller key) n_key
            ∙ rw (here, match) refl),
      vt.characters,
    )

module _ (m : Mem) (hi : ℕ) (cs us : List Chunk) (va_ht : ℕ) (chains : ℕ → List Entry) (key : Mem)
    (n_key : ℕ) (value : Mem) (n_value : ℕ) (heap : Heap m hi cs us)
    (owned : Owned m us va_ht chains) (short_key : n_key ≤ 2 ^ 61) (short_value : n_value ≤ 2 ^ 61)
    (room : length (chains (bucket_at key n_key)) < word m 16)
    (new : first_of m n_key (chains (bucket_at key n_key)) ≡ none) where
  ht_insert-Inserted :
      Ends
        (Inserted hi us va_ht chains (word m va_ht) m key n_key value n_value)
        (ht_insert va_ht (caller key) n_key (caller value) n_value m)
  unfolding ht_insert lmc_log_op
  ht_insert-Inserted =
      let m1 = log_begun m in
      let f : Frame m m1 us =
        Frame-log m m1 hi cs us 48 40 heap (omega arith) (omega arith) (log_begun-same m) in
      let heap1 = Heap-log_begun m hi cs us heap in
      Ends.bind
        (lmc_ht_strdup-Copied m1 hi cs us heap1 (caller value) n_value short_value
          (λ m' kept. refl))
        (value_by hi us va_ht chains key n_key value n_value (word m va_ht) m short_key m1 cs heap1
          (Owned-Frame m m1 us va_ht chains f owned)
          (count-Frame m m1 us va_ht chains owned f, f.descriptor)
          (subst (λ t. length (chains (bucket_at key n_key)) < t)
            (sym (load-Same 8 m m1 16 (λ x p q. f.descriptor x p (omega arith)))) room))

  -- On a table in a heap, for a key in the caller's memory that is new (no key in its bucket
  -- has its length), with key and value up to 2 ^ 61 bytes and a chain of fewer entries than
  -- the memory has bytes, `ht_set` ends: it fails with `MemoryPoolFull`, and the table has the
  -- same entries, or it stores copies of key and value in a new entry at the head of the
  -- bucket, counts it, and keeps all other entries.
  pub ht_set-Inserted :
      Ends
        (Inserted hi us va_ht chains (word m va_ht) m key n_key value n_value)
        (ht_set va_ht (caller key) n_key (caller value) n_value m)
  unfolding ht_set
  ht_set-Inserted =
      rw (ht_lookup-first_of m va_ht chains owned.table (caller key) n_key, new) ht_insert-Inserted

  -- After a `ht_set` as in `ht_set-Inserted`, for a new key on a table in a heap, unless it
  -- has failed with `MemoryPoolFull`, `ht_get` for the key returns a string of the value's
  -- length whose bytes are the value's.
  pub ht_get-ht_set :
      Ends
        (Fetched va_ht key n_key value n_value)
        (ht_set va_ht (caller key) n_key (caller value) n_value m)
  ht_get-ht_set =
      Ends.weaken ht_set-Inserted
        (fetched hi us va_ht chains (word m va_ht) m key n_key value n_value)
