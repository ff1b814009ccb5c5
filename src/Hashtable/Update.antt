-- ===== src/Hashtable/Update.antt =====
-- `ht_set` for a key that the table has: the entry gets a new value, and the old one is freed.
use localmemcache.Base.{
  ℕ, ◌+◌, ◌≤◌, ◌<◌, ◌^◌, ◌≡◌, ◌≢◌, refl, ◌∙◌, arith, List, [], ◌∷◌, ◌++◌, All, All-mono, All-zip,
  All-append, All-left, All-right, ne→==, if◌then◌else◌, ◌==◌, some,
}
use localmemcache.Cmd.{pure, ◌>>=◌, ◌>>◌, write}
use localmemcache.Cmd.Ends
use localmemcache.Cmd.Ends.{Ends, ends}
use localmemcache.Errors.{Status, ok, failed, memory_pool_full}
use localmemcache.Memory.{Mem, word, set_word, bytes}
use localmemcache.Memory.Laws.{Same, load-Same, load-store_same, store_other}
use localmemcache.Hashtable.{Pointer, caller, ht_update, ht_set}
use localmemcache.Hashtable.Link.{ApartFrom}
use localmemcache.Hashtable.Lookup.{Entry, Table, first_of, bucket_of, ht_lookup-first_of}
use localmemcache.Hashtable.Strings.{
  Text, Text-Blocks, Copied, no_room, copied, lmc_ht_strdup-Copied,
}
use localmemcache.Valloc.Chain.{Chunk}
use localmemcache.Valloc.Free.{lmc_free}
use localmemcache.Valloc.Heap.{Heap, Blocks, Shrunk, shrunk, lmc_free-Shrunk}
use localmemcache.Valloc.Region.{
  Holds, here, there, Holds-part, Holds-Same, Holds-Disjoint, Holds-Beside, Outside, Heap-write,
}

-- The bytes of these blocks are the same, but for the 8 at `a`.
abbrev pub KeptBut : Mem → Mem → ℕ → List Chunk → Type 0
KeptBut m m' a us = All (λ b. (x : ℕ) → b.0 ≤ x → x < b.0 + b.1 → ApartFrom x a 8 → m' x ≡ m x) us

-- What becomes of an entry at `hr` whose value is in the block `bv`: the value is lost, for a full
-- pool, or it is a copy of the new one in a new block, and the old block is free.
pub data Updated (m : Mem) (hi : ℕ) (pre : List Chunk) (bv : Chunk) (post : List Chunk) (hr : ℕ)
    (value : Mem) (n_value : ℕ) : Status → Mem → Type 0 where
  lost :
      {m' : Mem} (left : List Chunk)
      → Heap m' hi left (pre ++ bv ∷ post)
      → word m' (hr + 16) ≡ 0
      → Outside m m' (hr + 16) 8
      → Updated m hi pre bv post hr value n_value (failed memory_pool_full) m'
  replaced :
      {m' : Mem} (b : Chunk) (left : List Chunk)
      → Heap m' hi left (b ∷ (pre ++ post))
      → word m' (hr + 16) ≡ b.0 + 8
      → Text m' (b ∷ []) (b.0 + 8) n_value (bytes (n_value + 1) value 0)
      → KeptBut m m' (hr + 16) (pre ++ post)
      → Updated m hi pre bv post hr value n_value ok m'

Holds-insert :
    (a n : ℕ) (pre : List Chunk) (b : Chunk) (post : List Chunk)
    → Holds a n (pre ++ post)
    → Holds a n (pre ++ b ∷ post)
Holds-insert a n [] b post h = there h
Holds-insert a n (c ∷ pre) b post (here p q) = here p q
Holds-insert a n (c ∷ pre) b post (there h) = there (Holds-insert a n pre b post h)

All-without :
    (P : Chunk → Type 0) (pre : List Chunk) (b : Chunk) (post : List Chunk)
    → All P (pre ++ b ∷ post)
    → All P (pre ++ post)
All-without P pre b post h =
    All-append P pre post (All-left P pre (b ∷ post) h) (All-right P pre (b ∷ post) h).1

module _ (m : Mem) (hi : ℕ) (cs pre : List Chunk) (bv : Chunk) (post : List Chunk) (hr : ℕ)
    (value : Mem) (n_value : ℕ) (heap : Heap m hi cs (pre ++ bv ∷ post))
    (entry : Holds hr 24 (pre ++ post)) (old : word m (hr + 16) ≡ bv.0 + 8)
    (short : n_value ≤ 2 ^ 61) where
  field_held : Holds (hr + 16) 8 (pre ++ bv ∷ post)
  field_held =
      Holds-insert (hr + 16) 8 pre bv post
        (Holds-part hr 24 (hr + 16) 8 (pre ++ post) (omega arith) (omega arith) entry)

  -- After the old block is free.
  freed_old :
      (m1 : Mem) (r z : ℕ) (left : List Chunk)
      → Heap m1 hi left ((r, z) ∷ (pre ++ bv ∷ post))
      → Blocks m m1 (pre ++ bv ∷ post)
      → Text m1 ((r, z) ∷ []) (r + 8) n_value (bytes (n_value + 1) value 0)
      → (m' : Mem) → Shrunk (set_word m1 (hr + 16) (r + 8)) hi ((r, z) ∷ (pre ++ post)) m'
      → Updated m hi pre bv post hr value n_value ok m'
  freed_old m1 r z left grown kept text m' (shrunk left' heap' (descriptor, (new_kept, rest))) =
      let m2 = set_word m1 (hr + 16) (r + 8) in
      let out : Outside m1 m2 (hr + 16) 8 = (λ x h. store_other 8 m1 (hr + 16) (r + 8) x h) in
      let apart =
        Holds-Disjoint (hr + 16) 8 (r, z) (pre ++ bv ∷ post) grown.disjoint.0 field_held in
      let field : Holds (hr + 16) 8 (pre ++ post) =
        Holds-part hr 24 (hr + 16) 8 (pre ++ post) (omega arith) (omega arith) entry in
      replaced (r, z) left' heap'
        (load-Same 8 m2 m' (hr + 16)
            (λ x p q. Holds-Same m2 m' (hr + 16) 8 (pre ++ post) rest field x p q)
          ∙ load-store_same 8 m1 (hr + 16) (r + 8)
              (omega (arith, grown.used.0.0.high, grown.used.0.0.room, grown.free.small)))
        (Text-Blocks m1 m' ((r, z) ∷ []) (r + 8) n_value (bytes (n_value + 1) value 0)
          ((λ x p q. new_kept x p q ∙ out x (ground (arith, apart))), tt) text)
        (All-mono (λ b. Same m m1 b.0 (b.0 + b.1) × Same m2 m' b.0 (b.0 + b.1))
          (λ b. (x : ℕ) → b.0 ≤ x → x < b.0 + b.1 → ApartFrom x (hr + 16) 8 → m' x ≡ m x)
          (pre ++ post) (λ b (f, g) x p q h. g x p q ∙ (out x h ∙ f x p q))
          (All-zip (λ b. Same m m1 b.0 (b.0 + b.1)) (λ b. Same m2 m' b.0 (b.0 + b.1)) (pre ++ post)
            (All-without (λ b. Same m m1 b.0 (b.0 + b.1)) pre bv post kept) rest))

  -- After the copy, in the new block `(r, z)`.
  replacing :
      (m1 : Mem) (r z : ℕ) (left : List Chunk)
      → Heap m1 hi left ((r, z) ∷ (pre ++ bv ∷ post))
      → Blocks m m1 (pre ++ bv ∷ post)
      → Text m1 ((r, z) ∷ []) (r + 8) n_value (bytes (n_value + 1) value 0)
      → Ends
          (λ r m'. Updated m hi pre bv post hr value n_value r m')
          ((lmc_free (bv.0 + 8) >>= λ _. pure ok) (set_word m1 (hr + 16) (r + 8)))
  replacing m1 r z left grown kept text =
      let m2 = set_word m1 (hr + 16) (r + 8) in
      let out : Outside m1 m2 (hr + 16) 8 = (λ x h. store_other 8 m1 (hr + 16) (r + 8) x h) in
      let heap2 =
        Heap-write m1 hi left ((r, z) ∷ (pre ++ bv ∷ post)) m2 (hr + 16) 8 grown (there field_held)
          out in
      Ends.bind (lmc_free-Shrunk m2 hi left ((r, z) ∷ pre) bv post heap2)
        λ o m' (e, s). ends (freed_old m1 r z left grown kept text m' s)

  updated_by :
      (p : ℕ) (m1 : Mem)
      → Copied m hi cs (pre ++ bv ∷ post) (caller value) n_value p m1
      → Ends
          (λ r m'. Updated m hi pre bv post hr value n_value r m')
          ((write (hr + 16) p
              >> (if p == 0
                  then pure (failed memory_pool_full)
                  else (lmc_free (bv.0 + 8) >>= λ _. pure ok)))
            m1)
  updated_by p m1 (no_room) =
      let out : Outside m (set_word m (hr + 16) 0) (hr + 16) 8 =
        (λ x h. store_other 8 m (hr + 16) 0 x h) in
      ends (
        lost cs
          (Heap-write m hi cs (pre ++ bv ∷ post) (set_word m (hr + 16) 0) (hr + 16) 8 heap
            field_held out)
          (load-store_same 8 m (hr + 16) 0 (omega arith)) out)
  updated_by p m1 (copied r z left grown kept text) =
      rw (ne→== (r + 8) 0 (omega arith)) (replacing m1 r z left grown kept.1 text)

  pub ht_update-Updated :
      Ends (Updated m hi pre bv post hr value n_value) (ht_update hr (caller value) n_value m)
  unfolding ht_update
  ht_update-Updated = rw old (
      Ends.bind
        (lmc_ht_strdup-Copied m hi cs (pre ++ bv ∷ post) heap (caller value) n_value short
          (λ m' kept. refl))
        updated_by)

-- `ht_set` for a key that is found.
module _ (m : Mem) (hi : ℕ) (cs pre : List Chunk) (bv : Chunk) (post : List Chunk) (va_ht : ℕ)
    (chains : ℕ → List Entry) (e : Entry) (key : Pointer) (n_key : ℕ) (value : Mem) (n_value : ℕ)
    (heap : Heap m hi cs (pre ++ bv ∷ post)) (table : Table m va_ht chains)
    (found : first_of m n_key (chains (bucket_of key n_key m)) ≡ some e)
    (entry : Holds e.address 24 (pre ++ post)) (at_key : word m (e.address + 8) ≡ e.key)
    (some_key : e.key ≢ 0) (old : word m (e.address + 16) ≡ bv.0 + 8)
    (short : n_value ≤ 2 ^ 61) where
  -- On a table whose blocks in use make a heap, for a key that `ht_lookup` finds and an entry
  -- that lies in blocks other than that of its value, and a value of up to 2 ^ 61 bytes,
  -- `ht_set` ends: it fails with `MemoryPoolFull`, and then the value of the entry is the null
  -- pointer and no other byte has changed, or the entry has a copy of the value in a new
  -- block, the old block is free, and the other blocks keep all other bytes.
  pub ht_set-Updated :
      Ends
        (Updated m hi pre bv post e.address value n_value)
        (ht_set va_ht key n_key (caller value) n_value m)
  unfolding ht_set
  ht_set-Updated =
      let (beside, clear, low, high) =
        Holds-Beside m hi cs e.address 24 (pre ++ bv ∷ post) heap.used heap.disjoint
          (Holds-insert e.address 24 pre bv post entry) in
      rw
        (
          ht_lookup-first_of m va_ht chains table key n_key,
          found,
          ne→== e.address 0 (omega (arith, low)),
          at_key,
          ne→== e.key 0 some_key,
        )
        (ht_update-Updated m hi cs pre bv post e.address value n_value heap entry old short)
