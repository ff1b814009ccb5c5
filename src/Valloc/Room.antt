-- ===== src/Valloc/Room.antt =====
-- Separate chunks fit beside one another into the memory, so that they are few.
use localmemcache.Base.{
  ℕ, zero, suc, ◌+◌, ◌*◌, ◌≤◌, ◌≡◌, inl, inr, arith, List, [], ◌∷◌, All, ltb, if◌then◌else◌, Bool,
  not, Bool-cases, length, refl,
}
use localmemcache.Valloc.Chain.{Chunk, Inside, Apart, Separated, total}

-- the chunks on one side of an offset
side : (Chunk → Bool) → List Chunk → List Chunk
side f [] = []
side f (c ∷ cs) = if f c then c ∷ side f cs else side f cs

module _ (f : Chunk → Bool) where
  length-side : (cs : List Chunk) → length (side f cs) ≤ length cs
  unfolding side
  length-side [] = omega arith
  length-side (c ∷ cs) = ground (arith, length-side cs)

  total-sides : (cs : List Chunk) → total (side f cs) + total (side (λ c. not (f c)) cs) ≡ total cs
  unfolding side
  total-sides [] = refl
  total-sides (c ∷ cs) = ground (arith, total-sides cs)

  All-side : (P : Chunk → Type 0) (cs : List Chunk) → All P cs → All P (side f cs)
  unfolding side
  All-side P [] h = tt
  All-side P (c ∷ cs) (h, hs) = elim (Bool-cases (f c)) [
    | inl e ↦ rw e (h, All-side P cs hs)
    | inr e ↦ rw e (All-side P cs hs)
  ]

  Separated-side : (cs : List Chunk) → Separated cs → Separated (side f cs)
  unfolding side
  Separated-side [] h = tt
  Separated-side (c ∷ cs) (h, hs) = elim (Bool-cases (f c)) [
    | inl e ↦ rw e (All-side (Apart c) cs h, Separated-side cs hs)
    | inr e ↦ rw e (Separated-side cs hs)
  ]

abbrev Between : ℕ → ℕ → Chunk → Type 0
Between lo hi c = (lo ≤ c.0) × (c.0 + c.1 ≤ hi)

below :
    (p z lo hi : ℕ) (cs : List Chunk)
    → All (Between lo hi) cs
    → All (Apart (p, z)) cs
    → All (Between lo p) (side (λ c. ltb c.0 p) cs)
unfolding side
below p z lo hi [] h a = tt
below p z lo hi (c ∷ cs) (h, hs) (a, as') = elim (Bool-cases (ltb c.0 p)) [
  | inl e ↦ rw e (ground arith, below p z lo hi cs hs as')
  | inr e ↦ rw e (below p z lo hi cs hs as')
]

above :
    (p z lo hi : ℕ) (cs : List Chunk)
    → All (Between lo hi) cs
    → All (Apart (p, z)) cs
    → All (Between (p + z) hi) (side (λ c. not (ltb c.0 p)) cs)
unfolding side
above p z lo hi [] h a = tt
above p z lo hi (c ∷ cs) (h, hs) (a, as') = elim (Bool-cases (ltb c.0 p)) [
  | inl e ↦ rw e (above p z lo hi cs hs as')
  | inr e ↦ rw e (ground arith, above p z lo hi cs hs as')
]

total-le :
    (n lo hi : ℕ) (cs : List Chunk)
    → length cs ≤ n
    → lo ≤ hi
    → All (Between lo hi) cs
    → Separated cs
    → total cs + lo ≤ hi
total-le n lo hi [] fuel le h sep = omega arith
total-le zero lo hi (c ∷ cs) fuel le h sep = absurd (omega arith)
total-le (suc n) lo hi ((p, z) ∷ cs) fuel le (h, hs) (a, sep) =
    let f = λ (c : Chunk). ltb c.0 p in
    let g = λ (c : Chunk). not (ltb c.0 p) in
    omega (
      arith,
      total-sides f cs,
      total-le n lo p (side f cs) (omega (arith, length-side f cs)) h.0 (below p z lo hi cs hs a)
          (Separated-side f cs sep),
      total-le n (p + z) hi (side g cs) (omega (arith, length-side g cs)) h.1
          (above p z lo hi cs hs a) (Separated-side g cs sep),
    )

Inside-Between : (hi : ℕ) (cs : List Chunk) → All (Inside hi) cs → All (Between 88 hi) cs
Inside-Between hi [] h = tt
Inside-Between hi (c ∷ cs) (h, hs) = ((h.0, h.2), Inside-Between hi cs hs)

-- Each free chunk takes at least 16 bytes of the memory.
length-total : (hi : ℕ) (cs : List Chunk) → All (Inside hi) cs → 16 * length cs ≤ total cs
length-total hi [] h = omega arith
length-total hi (c ∷ cs) (h, hs) = omega (arith, length-total hi cs hs)

pub total-le-hi :
    (hi : ℕ) (cs : List Chunk) → 88 ≤ hi → All (Inside hi) cs → Separated cs → total cs + 88 ≤ hi
total-le-hi hi cs le h sep =
    total-le (length cs) 88 hi cs (omega arith) le (Inside-Between hi cs h) sep

pub length-le-hi :
    (hi : ℕ) (cs : List Chunk) → 88 ≤ hi → All (Inside hi) cs → Separated cs → length cs + 88 ≤ hi
length-le-hi hi cs le h sep = omega (arith, length-total hi cs h, total-le-hi hi cs le h sep)
