-- ===== src/Valloc/Region.antt =====
-- What a client of the allocator may write: the bytes of its blocks behind their lengths, and the
-- log. The heap stays a heap, with the same free chunks and the same blocks.
use localmemcache.Base.{
  ℕ, ◌+◌, ◌≤◌, ◌<◌, ◌≡◌, ◌∙◌, ap, ◌⊎◌, inl, inr, arith, List, [], ◌∷◌, All, All-mono, All-zip,
}
use localmemcache.Memory.{Mem}
use localmemcache.Memory.Laws.{Same, load-Same}
use localmemcache.Valloc.Chain.{Chunk, Links-Same, Inside, Clear, Clear-mono, Clear-Off}
use localmemcache.Valloc.Heap.{Heap, InUse, Disjoint, AllDisjoint, Kept}

-- Some block holds the `n` bytes from `a` behind its length.
pub data Holds (a n : ℕ) : List Chunk → Type 0 where
  here : {b : Chunk} {us : List Chunk} → b.0 + 8 ≤ a → a + n ≤ b.0 + b.1 → Holds a n (b ∷ us)
  there : {b : Chunk} {us : List Chunk} → Holds a n us → Holds a n (b ∷ us)

pub Holds-part :
    (a n a' n' : ℕ) (us : List Chunk) → a ≤ a' → a' + n' ≤ a + n → Holds a n us → Holds a' n' us
Holds-part a n a' n' [] lo up h = elim h [ ]
Holds-part a n a' n' (b ∷ us) lo up (here p q) = here (omega arith) (omega arith)
Holds-part a n a' n' (b ∷ us) lo up (there h) = there (Holds-part a n a' n' us lo up h)

pub Holds-Disjoint :
    (a n : ℕ) (b : Chunk) (us : List Chunk)
    → All (Disjoint b) us
    → Holds a n us
    → (a + n ≤ b.0) ⊎ (b.0 + b.1 ≤ a)
Holds-Disjoint a n b [] d h = elim h [ ]
Holds-Disjoint a n b (c ∷ us) (d, ds) (here p q) = ground arith
Holds-Disjoint a n b (c ∷ us) (d, ds) (there h) = Holds-Disjoint a n b us ds h

pub Holds-Same :
    (m m' : Mem) (a n : ℕ) (us : List Chunk)
    → All (λ b. Same m m' b.0 (b.0 + b.1)) us
    → Holds a n us
    → Same m m' a (a + n)
Holds-Same m m' a n [] s h = elim h [ ]
Holds-Same m m' a n (b ∷ us) (s, ss) (here p q) = λ x lo up. s x (omega arith) (omega arith)
Holds-Same m m' a n (b ∷ us) (s, ss) (there h) = Holds-Same m m' a n us ss h

-- No byte outside the `n` from `a` is written.
abbrev pub Outside : Mem → Mem → ℕ → ℕ → Type 0
Outside m m' a n = (x : ℕ) → (x < a) ⊎ (a + n ≤ x) → m' x ≡ m x

-- The `n` bytes from `a` are no byte of a block's length.
abbrev pub Beside : ℕ → ℕ → List Chunk → Type 0
Beside a n us = All (λ b. (a + n ≤ b.0) ⊎ (b.0 + 8 ≤ a)) us

module _ (m : Mem) (hi : ℕ) (cs : List Chunk) where
  pub Holds-Beside :
      (a n : ℕ) (us : List Chunk)
      → All (InUse m hi cs) us
      → AllDisjoint us
      → Holds a n us
      → Beside a n us × Clear a (a + n) cs × (96 ≤ a) × (a + n ≤ hi)
  Holds-Beside a n [] used d h = elim h [ ]
  Holds-Beside a n (b ∷ us) ((block, e), used) (d, ds) (here p q) = (
    (
      inr p,
      All-mono (λ c. InUse m hi cs c × Disjoint b c) (λ c. (a + n ≤ c.0) ⊎ (c.0 + 8 ≤ a)) us
          (λ c ((other, e'), apart). ground (arith, other.room))
          (All-zip (InUse m hi cs) (Disjoint b) us used d),
    ),
    Clear-mono b.0 (b.0 + b.1) a (a + n) cs (omega arith) q block.clear,
    omega (arith, block.low),
    omega (arith, block.high),
  )
  Holds-Beside a n (b ∷ us) ((block, e), used) (d, ds) (there h) =
      let (beside, clear, low, high) = Holds-Beside a n us used ds h in
      ((ground (arith, Holds-Disjoint a n b us d h, block.room), beside), clear, low, high)

  -- A write that spares the descriptor's first 24 bytes, the chunks and the lengths of blocks.
  Heap-spared :
      (us : List Chunk) (m' : Mem) (a n : ℕ)
      → Heap m hi cs us
      → Outside m m' a n
      → 24 ≤ a
      → Beside a n us
      → All (λ c. (a + n ≤ c.0) ⊎ (c.0 + 16 ≤ a)) cs
      → Heap m' hi cs us
  Heap-spared us m' a n heap out lo beside off = record {
    free = record {
      head = load-Same 8 m m' 0 (λ x p q. out x (inl (omega arith))) ∙ heap.free.head;
      dummy = load-Same 8 m m' 8 (λ x p q. out x (inl (omega arith))) ∙ heap.free.dummy;
      links =
          Links-Same m m' cs 0
            (All-mono (λ c. (a + n ≤ c.0) ⊎ (c.0 + 16 ≤ a)) (λ c. Same m m' c.0 (c.0 + 16)) cs
              (λ c h x p q. out x (ground arith)) off)
            heap.free.links;
      inside = heap.free.inside;
      separated = heap.free.separated;
      extent =
          ap (λ t. t + 88) (load-Same 8 m m' 16 (λ x p q. out x (inl (omega arith))))
          ∙ heap.free.extent;
      small = heap.free.small;
    };
    used =
        All-mono (λ b. InUse m hi cs b × ((a + n ≤ b.0) ⊎ (b.0 + 8 ≤ a))) (InUse m' hi cs) us
          (λ b ((block, e), h). (block, load-Same 8 m m' b.0 (λ x p q. out x (ground arith)) ∙ e))
          (All-zip (InUse m hi cs) (λ b. (a + n ≤ b.0) ⊎ (b.0 + 8 ≤ a)) us heap.used beside);
    disjoint = heap.disjoint;
  }

  -- A client may write into its blocks,
  pub Heap-write :
      (us : List Chunk) (m' : Mem) (a n : ℕ)
      → Heap m hi cs us
      → Holds a n us
      → Outside m m' a n
      → Heap m' hi cs us
  Heap-write us m' a n heap h out =
      let (beside, clear, low, high) = Holds-Beside a n us heap.used heap.disjoint h in
      Heap-spared us m' a n heap out (omega arith) beside
        (Clear-Off hi a (a + n) cs heap.free.inside clear)

  -- and into the descriptor from byte 24 on.
  pub Heap-log :
      (us : List Chunk) (m' : Mem) (a n : ℕ)
      → Heap m hi cs us
      → 24 ≤ a
      → a + n ≤ 88
      → Outside m m' a n
      → Heap m' hi cs us
  Heap-log us m' a n heap lo up out =
      Heap-spared us m' a n heap out lo
        (All-mono (InUse m hi cs) (λ b. (a + n ≤ b.0) ⊎ (b.0 + 8 ≤ a)) us
          (λ b (block, e). inl (omega (arith, block.low))) heap.used)
        (All-mono (Inside hi) (λ c. (a + n ≤ c.0) ⊎ (c.0 + 16 ≤ a)) cs (λ c i. inl (omega arith))
          heap.free.inside)

-- A write into the newest block keeps the others.
pub Kept-fresh :
    (m m' m'' : Mem) (hi : ℕ) (left us : List Chunk) (r z a n : ℕ)
    → Heap m' hi left ((r, z) ∷ us)
    → Outside m' m'' a n
    → r ≤ a
    → a + n ≤ r + z
    → Kept m m' us
    → Kept m m'' us
Kept-fresh m m' m'' hi left us r z a n heap out lo up (descriptor, blocks) = (
  λ x p q. out x (inl (omega (arith, heap.used.0.0.low))) ∙ descriptor x p q,
  All-mono (λ b. Disjoint (r, z) b × Same m m' b.0 (b.0 + b.1)) (λ b. Same m m'' b.0 (b.0 + b.1)) us
      (λ b (d, s) x p q. out x (ground arith) ∙ s x p q)
      (All-zip (Disjoint (r, z)) (λ b. Same m m' b.0 (b.0 + b.1)) us heap.disjoint.0 blocks),
)
