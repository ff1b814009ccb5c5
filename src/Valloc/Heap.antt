-- ===== src/Valloc/Heap.antt =====
-- The allocator as its clients see it: a set of blocks in use, each behind its length, that a call
-- of `lmc_valloc` adds one block to and a call of `lmc_free` takes one block from.
use localmemcache.Base.{
  ℕ, suc, ◌+◌, ◌≤◌, ◌<◌, ◌^◌, ◌≡◌, ◌≢◌, ◌∙◌, ◌⊎◌, inl, inr, arith, List, [], ◌∷◌, ◌++◌, All,
  All-mono, All-left, All-right, All-append, All-zip,
}
use localmemcache.Memory.{Mem, word}
use localmemcache.Memory.Laws.{Same, load-Same}
use localmemcache.Cmd.Ends
use localmemcache.Cmd.Ends.{Ends, ends}
use localmemcache.Valloc.{lmc_valloc}
use localmemcache.Valloc.Alloc.{
  Allocated, pool_full, block_at, lmc_valloc-Allocated, least_size, request-ge,
}
use localmemcache.Valloc.Chain.{Chunk, FreeList, Clear, Clear-mono, Inside-Clear}
use localmemcache.Valloc.Free.{walked, freed, lmc_free}
use localmemcache.Valloc.Free.Release.{Block, Freed, freed_as}
use localmemcache.Valloc.Free.Whole.{lmc_free-Freed}

-- A block in use, behind a word that holds its length.
abbrev pub InUse : Mem → ℕ → List Chunk → Chunk → Type 0
InUse m hi cs b = Block hi b.0 b.1 cs × (word m b.0 ≡ b.1)

-- no byte in common
abbrev pub Disjoint : Chunk → Chunk → Type 0
Disjoint b c = (b.0 + b.1 ≤ c.0) ⊎ (c.0 + c.1 ≤ b.0)

abbrev pub AllDisjoint : List Chunk → Type 0
AllDisjoint [] = Unit
AllDisjoint (b ∷ bs) = All (Disjoint b) bs × AllDisjoint bs

-- The blocks `us` are in use, and `cs` are the free chunks.
pub record Heap (m : Mem) (hi : ℕ) (cs us : List Chunk) : Type 0 where
  pub free : FreeList m hi cs
  pub used : All (InUse m hi cs) us
  pub disjoint : AllDisjoint us

-- The bytes of the blocks are the same.
abbrev pub Blocks : Mem → Mem → List Chunk → Type 0
Blocks m m' us = All (λ b. Same m m' b.0 (b.0 + b.1)) us

-- And so are those of the descriptor behind the head of the free list.
abbrev pub Kept : Mem → Mem → List Chunk → Type 0
Kept m m' us = Same m m' 16 88 × Blocks m m' us

-- How `lmc_valloc` for `sz` bytes changes the heap: not at all, or by one more block.
pub data Grown (m : Mem) (hi : ℕ) (cs us : List Chunk) (sz : ℕ) : ℕ → Mem → Type 0 where
  unchanged : Grown m hi cs us sz 0 m
  new_block :
      {m' : Mem} (r z : ℕ) (left : List Chunk)
      → Heap m' hi left ((r, z) ∷ us)
      → sz + 8 ≤ z
      → Kept m m' us
      → Grown m hi cs us sz (r + 8) m'

-- How `lmc_free` does, for the block between `pre` and `post`.
pub data Shrunk (m : Mem) (hi : ℕ) (us : List Chunk) (m' : Mem) : Type 0 where
  shrunk : (left : List Chunk) → Heap m' hi left us → Kept m m' us → Shrunk m hi us m'

-- A block that is still clear of the free chunks, and whose bytes are kept, is in use.
still :
    (m m' : Mem) (hi : ℕ) (cs left : List Chunk) (b : Chunk)
    → InUse m hi cs b
    → Clear b.0 (b.0 + b.1) left
    → Same m m' b.0 (b.0 + b.1)
    → InUse m' hi left b
still m m' hi cs left b (block, header) clear same = (
  record { low = block.low; room = block.room; high = block.high; clear = clear },
  load-Same 8 m m' b.0 (λ x p q. same x p (omega (arith, block.room))) ∙ header,
)

pub Clear-byte : (a b x : ℕ) (cs : List Chunk) → a ≤ x → x < b → Clear a b cs → Clear x (suc x) cs
Clear-byte a b x cs p q c = Clear-mono a b x (suc x) cs p q c

module _ (m : Mem) (hi : ℕ) (cs us : List Chunk) (heap : Heap m hi cs us) where
  still_all :
      (m' : Mem) (left : List Chunk) (vs : List Chunk)
      → All (InUse m hi cs) vs
      → All (λ b. Clear b.0 (b.0 + b.1) left × Same m m' b.0 (b.0 + b.1)) vs
      → All (InUse m' hi left) vs
  still_all m' left [] u h = tt
  still_all m' left (v ∷ vs) (u, us') ((c, s), h) =
      (still m m' hi cs left v u c s, still_all m' left vs us' h)

  module _ (sz : ℕ) (some_size : sz ≢ 0) (sane : sz ≤ 2 ^ 62) where
    Grown-by : (p : ℕ) (m' : Mem) → Allocated m hi cs sz p m' → Grown m hi cs us sz p m'
    Grown-by p m' (pool_full short) = unchanged
    Grown-by p m' (block_at r z left free' header enough cut spares same) =
        let kept : All (λ b. Clear b.0 (b.0 + b.1) left × Same m m' b.0 (b.0 + b.1)) us =
          All-mono (InUse m hi cs) (λ b. Clear b.0 (b.0 + b.1) left × Same m m' b.0 (b.0 + b.1)) us
            (λ b (block, e). (
              (spares b.0 (b.0 + b.1) block.clear).1,
              λ x lo up.
                  same x (inr (omega (arith, block.low)))
                    (Clear-byte b.0 (b.0 + b.1) x cs lo up block.clear),
            ))
            heap.used in
        new_block r z left
          (record {
            free = free';
            used = (
              (
                record {
                  low = cut.low;
                  room = omega (arith, cut.enough, (request-ge (least_size m) sz sane).1);
                  high = cut.high;
                  clear = cut.clear;
                },
                header,
              ),
              still_all m' left us heap.used kept,
            );
            disjoint = (
              All-mono (InUse m hi cs) (Disjoint (r, z)) us
                  (λ b (block, e). ground (arith, (spares b.0 (b.0 + b.1) block.clear).0))
                  heap.used,
              heap.disjoint,
            );
          })
          enough
          (
            λ x lo up. same x (inr (omega arith)) (
                Clear-byte 0 88 x cs (omega arith) (omega arith)
                  (Inside-Clear hi cs heap.free.inside)),
            All-mono (λ b. Clear b.0 (b.0 + b.1) left × Same m m' b.0 (b.0 + b.1))
                (λ b. Same m m' b.0 (b.0 + b.1)) us (λ b h. h.1) kept,
          )

    -- On a heap of blocks in use, `lmc_valloc` ends for every size from 1 to 2 ^ 62: it
    -- returns 0 and changes nothing, or there is one more block in use, at least 8 bytes
    -- longer than the size and disjoint from the others, which keep their bytes.
    pub lmc_valloc-Grown : Ends (Grown m hi cs us sz) (lmc_valloc sz m)
    lmc_valloc-Grown =
        Ends.weaken (lmc_valloc-Allocated m hi cs heap.free sz some_size sane) Grown-by

AllDisjoint-remove :
    (pre : List Chunk) (b : Chunk) (post : List Chunk)
    → AllDisjoint (pre ++ b ∷ post)
    → AllDisjoint (pre ++ post) × All (Disjoint b) (pre ++ post)
AllDisjoint-remove [] b post (h, hs) = (hs, h)
AllDisjoint-remove (a ∷ pre) b post (h, hs) =
    let (rest, apart) = AllDisjoint-remove pre b post hs in
    let before = All-left (Disjoint a) pre (b ∷ post) h in
    let (ab, after) = All-right (Disjoint a) pre (b ∷ post) h in
    ((All-append (Disjoint a) pre post before after, rest), (ground arith, apart))

All-remove :
    (P : Chunk → Type 0) (pre : List Chunk) (b : Chunk) (post : List Chunk)
    → All P (pre ++ b ∷ post)
    → All P (pre ++ post)
All-remove P pre b post h =
    All-append P pre post (All-left P pre (b ∷ post) h) (All-right P pre (b ∷ post) h).1

module _ (m : Mem) (hi : ℕ) (cs pre : List Chunk) (b : Chunk) (post : List Chunk)
    (heap : Heap m hi cs (pre ++ b ∷ post)) where
  Shrunk-by : (m' : Mem) → Freed m hi b.0 b.1 cs m' → Shrunk m hi (pre ++ post) m'
  Shrunk-by m' (freed_as left free' adds covers same) =
      let (rest, apart) = AllDisjoint-remove pre b post heap.disjoint in
      let gone = (All-right (InUse m hi cs) pre (b ∷ post) heap.used).0.0 in
      let used = All-remove (InUse m hi cs) pre b post heap.used in
      let kept : All (λ v. Clear v.0 (v.0 + v.1) left × Same m m' v.0 (v.0 + v.1)) (pre ++ post) =
        All-mono (λ v. InUse m hi cs v × Disjoint b v)
          (λ v. Clear v.0 (v.0 + v.1) left × Same m m' v.0 (v.0 + v.1)) (pre ++ post)
          (λ v ((block, e), d). (
            covers v.0 (v.0 + v.1) (omega (arith, block.room)) (ground arith) block.clear,
            λ x lo up.
                same x (omega (arith, block.low)) (ground arith)
                  (Clear-byte v.0 (v.0 + v.1) x cs lo up block.clear),
          ))
          (All-zip (InUse m hi cs) (Disjoint b) (pre ++ post) used apart) in
      shrunk left
        (record {
          free = free';
          used = still_all m hi cs (pre ++ b ∷ post) heap m' left (pre ++ post) used kept;
          disjoint = rest;
        })
        (
          λ x lo up. same x lo (inl (omega (arith, gone.low))) (
              Clear-byte 0 88 x cs (omega arith) (omega arith)
                (Inside-Clear hi cs heap.free.inside)),
          All-mono (λ v. Clear v.0 (v.0 + v.1) left × Same m m' v.0 (v.0 + v.1))
              (λ v. Same m m' v.0 (v.0 + v.1)) (pre ++ post) (λ v h. h.1) kept,
        )

  -- On a heap of blocks in use, `lmc_free` of a pointer to any of them ends; that block is no
  -- longer in use, and the others are, with the same bytes.
  pub lmc_free-Shrunk :
      Ends (λ o m'. (o ≡ walked freed) × Shrunk m hi (pre ++ post) m') (lmc_free (b.0 + 8) m)
  lmc_free-Shrunk =
      let (block, header) = (All-right (InUse m hi cs) pre (b ∷ post) heap.used).0 in
      Ends.weaken (lmc_free-Freed m hi b.0 b.1 cs heap.free block header)
        λ o m' (e, f). (e, Shrunk-by m' f)
