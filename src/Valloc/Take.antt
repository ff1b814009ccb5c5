-- ===== src/Valloc/Take.antt =====
-- What first fit does to the list of free chunks.
use localmemcache.Base.{
  ℕ, ◌+◌, ◌-◌, ◌≤◌, ◌<◌, ◌≡◌, ◌⊎◌, inl, inr, arith, List, [], ◌∷◌, All, ltb, Option, none, some,
  Bool-cases, ltb→ge,
}
use localmemcache.Valloc.Chain.{
  Chunk, Inside, Apart, Separated, Clear, total, Apart-Clear, Clear-mono,
}
use localmemcache.Valloc.Fit.{Taken, keep, take}

-- of the answer, if there is one
abbrev pub Each : (Taken → Type 0) → Option Taken → Type 0
Each P none = Unit
Each P (some t) = P t

Each-keep :
    (P Q : Taken → Type 0) (c : Chunk) (t : Option Taken)
    → ((r z : ℕ) (cs : List Chunk) → P (r, z, cs) → Q (r, z, c ∷ cs))
    → Each P t
    → Each Q (keep c t)
Each-keep P Q c none f h = tt
Each-keep P Q c (some t) f h = f t.0 t.1 t.2 h

-- The block lies inside the memory, is long enough, and overlaps no chunk that is left; what is
-- left is a list of separate chunks again, and has lost the block's bytes and no others.
pub record Cut (s hi : ℕ) (cs : List Chunk) (t : Taken) : Type 0 where
  pub enough : s ≤ t.1
  pub low : 88 ≤ t.0
  pub high : t.0 + t.1 ≤ hi
  pub clear : Clear t.0 (t.0 + t.1) t.2
  pub inside : All (Inside hi) t.2
  pub separated : Separated t.2
  pub adds : total t.2 + t.1 ≡ total cs

-- What lies apart from all chunks lies apart from the block and the chunks that are left.
take-Apart :
    (s : ℕ) (d : Chunk) (cs : List Chunk)
    → All (Apart d) cs
    → Each (λ t. Apart d (t.0, t.1) × All (Apart d) t.2) (take s cs)
unfolding take
take-Apart s d [] h = tt
take-Apart s d (c ∷ cs) (h, hs) = elim (Bool-cases (ltb c.1 s)) [
  | inl less ↦ rw less (
      Each-keep (λ t. Apart d (t.0, t.1) × All (Apart d) t.2) _ c (take s cs)
        (λ r z left (a, b). (a, (h, b))) (take-Apart s d cs hs))
  | inr fits ↦ elim (Bool-cases (ltb (c.1 - s) 16)) [
    | inl whole ↦ rw (fits, whole) (h, hs)
    | inr part ↦ rw (fits, part) (ground arith, (ground arith, hs))
  ]
]

pub take-Clear :
    (s a b : ℕ) (cs : List Chunk)
    → Clear a b cs
    → Each (λ t. ((b ≤ t.0) ⊎ (t.0 + t.1 ≤ a)) × Clear a b t.2) (take s cs)
unfolding take
take-Clear s a b [] h = tt
take-Clear s a b (c ∷ cs) (h, hs) = elim (Bool-cases (ltb c.1 s)) [
  | inl less ↦ rw less (
      Each-keep (λ t. ((b ≤ t.0) ⊎ (t.0 + t.1 ≤ a)) × Clear a b t.2) _ c (take s cs)
        (λ r z left (x, y). (x, (h, y))) (take-Clear s a b cs hs))
  | inr fits ↦ elim (Bool-cases (ltb (c.1 - s) 16)) [
    | inl whole ↦ rw (fits, whole) (h, hs)
    | inr part ↦ rw (fits, part) (ground arith, (ground arith, hs))
  ]
]

Each-both :
    (P Q R : Taken → Type 0) (t : Option Taken)
    → ((u : Taken) → P u → Q u → R u)
    → Each P t
    → Each Q t
    → Each R t
Each-both P Q R none f p q = tt
Each-both P Q R (some u) f p q = f u p q

shrink-Apart :
    (p z z' : ℕ) (cs : List Chunk) → z' ≤ z → All (Apart (p, z)) cs → All (Apart (p, z')) cs
shrink-Apart p z z' [] le h = tt
shrink-Apart p z z' (c ∷ cs) le (h, hs) = (ground arith, shrink-Apart p z z' cs le hs)

pub take-Cut :
    (s hi : ℕ) (cs : List Chunk)
    → 0 < s
    → All (Inside hi) cs
    → Separated cs
    → Each (Cut s hi cs) (take s cs)
unfolding take
take-Cut s hi [] pos i p = tt
take-Cut s hi (c ∷ cs) pos (i, is) (p, ps) = elim (Bool-cases (ltb c.1 s)) [
  | inl less ↦ rw less (
      Each-keep (λ t. Cut s hi cs t × Apart c (t.0, t.1) × All (Apart c) t.2) _ c (take s cs)
        (λ r z left (k, a, b). record {
          enough = k.enough;
          low = k.low;
          high = k.high;
          clear = (ground arith, k.clear);
          inside = (i, k.inside);
          separated = (b, k.separated);
          adds = omega (arith, k.adds);
        })
        (Each-both (Cut s hi cs) (λ t. Apart c (t.0, t.1) × All (Apart c) t.2) _ (take s cs)
          (λ u k (a, b). (k, a, b)) (take-Cut s hi cs pos is ps) (take-Apart s c cs p)))
  | inr fits ↦
      let le = ltb→ge c.1 s fits in
      let clear = Apart-Clear c.0 c.1 cs p in
      elim (Bool-cases (ltb (c.1 - s) 16)) [
        | inl whole ↦
            rw (fits, whole)
              (record {
                enough = le;
                low = i.0;
                high = i.2;
                clear = clear;
                inside = is;
                separated = ps;
                adds = omega arith;
              })
        | inr part ↦
            rw (fits, part)
              (record {
                enough = omega arith;
                low = omega arith;
                high = omega arith;
                clear = (
                  inr (omega arith),
                  Clear-mono c.0 (c.0 + c.1) (c.0 + (c.1 - s)) (c.0 + (c.1 - s) + s) cs
                      (omega arith) (omega arith) clear,
                );
                inside = ((i.0, ltb→ge _ _ part, omega arith), is);
                separated = (shrink-Apart c.0 c.1 (c.1 - s) cs (omega arith) p, ps);
                adds = omega (arith, ltb→ge _ _ part);
              })
      ]
]

-- Where nothing is taken, every chunk is too small.
pub take-none : (s : ℕ) (cs : List Chunk) → take s cs ≡ none → All (λ c. c.1 < s) cs
unfolding take
take-none s [] h = tt
take-none s (c ∷ cs) h = ground (arith, take-none s cs)
