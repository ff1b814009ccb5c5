-- ===== src/Valloc/Free/Lists.antt =====
-- Replacing and removing a chunk in a list of separate chunks.
use localmemcache.Base.{
  ℕ, ◌+◌, ◌^◌, ◌≤◌, ◌<◌, ◌≡◌, ◌⊎◌, arith, List, [], ◌∷◌, ◌++◌, All, All-left, All-right, All-append,
  sym, ◌≢◌,
}
use localmemcache.Memory.{Mem, set_word}
use localmemcache.Valloc.Chain.{
  Chunk, first, Links, Inside, Apart, Separated, Clear, Off, total, Clear-Off, Clear-mono,
  Apart-Clear, Links-append, Links-left, Links-right, Links-write, Off-mono,
}
use localmemcache.Valloc.Relink.{Spread, resize}

module _ (xs : List Chunk) (c : Chunk) (ys : List Chunk) where
  -- the separate chunks other than `c`
  pub All-others : (P : Chunk → Type 0) → All P (xs ++ c ∷ ys) → All P (xs ++ ys)
  All-others P h = All-append P xs ys (All-left P xs (c ∷ ys) h) (All-right P xs (c ∷ ys) h).1

  pub All_at : (P : Chunk → Type 0) → All P (xs ++ c ∷ ys) → P c
  All_at P h = (All-right P xs (c ∷ ys) h).0

  pub All-put : (P : Chunk → Type 0) (d : Chunk) → All P (xs ++ c ∷ ys) → P d → All P (xs ++ d ∷ ys)
  All-put P d h k =
      All-append P xs (d ∷ ys) (All-left P xs (c ∷ ys) h) (k, (All-right P xs (c ∷ ys) h).1)

pub Separated-at :
    (xs : List Chunk) (c : Chunk) (ys : List Chunk)
    → Separated (xs ++ c ∷ ys)
    → All (Apart c) (xs ++ ys)
Separated-at [] c ys (h, hs) = h
Separated-at (x ∷ xs) c ys (h, hs) =
    (ground (arith, All_at xs c ys (Apart x) h), Separated-at xs c ys hs)

pub Separated-remove :
    (xs : List Chunk) (c : Chunk) (ys : List Chunk)
    → Separated (xs ++ c ∷ ys)
    → Separated (xs ++ ys)
Separated-remove [] c ys (h, hs) = hs
Separated-remove (x ∷ xs) c ys (h, hs) =
    (All-others xs c ys (Apart x) h, Separated-remove xs c ys hs)

pub Separated-insert :
    (xs : List Chunk) (d : Chunk) (ys : List Chunk)
    → Separated (xs ++ ys)
    → All (Apart d) (xs ++ ys)
    → Separated (xs ++ d ∷ ys)
Separated-insert [] d ys h a = (a, h)
Separated-insert (x ∷ xs) d ys (h, hs) (a, as') = (
  All-append (Apart x) xs (d ∷ ys) (All-left (Apart x) xs ys h)
      (ground arith, All-right (Apart x) xs ys h),
  Separated-insert xs d ys hs as',
)

pub Spread-insert :
    (xs : List Chunk) (d : Chunk) (ys : List Chunk)
    → Spread (xs ++ ys)
    → Off d.0 (d.0 + 16) (xs ++ ys)
    → Spread (xs ++ d ∷ ys)
Spread-insert [] d ys h a = (a, h)
Spread-insert (x ∷ xs) d ys (h, hs) (a, as') =
    let P = (λ (c : Chunk). (x.0 + 16 ≤ c.0) ⊎ (c.0 + 16 ≤ x.0)) in
    (
      All-append P xs (d ∷ ys) (All-left P xs ys h) (ground arith, All-right P xs ys h),
      Spread-insert xs d ys hs as',
    )

pub Separated-Spread : (hi : ℕ) (cs : List Chunk) → All (Inside hi) cs → Separated cs → Spread cs
Separated-Spread hi [] i s = tt
Separated-Spread hi (c ∷ cs) (i, is) (a, s) = (
  Clear-Off hi c.0 (c.0 + 16) cs is (
      Clear-mono c.0 (c.0 + c.1) c.0 (c.0 + 16) cs (omega arith) (omega arith)
        (Apart-Clear c.0 c.1 cs a)),
  Separated-Spread hi cs is s,
)

pub total-append : (xs ys : List Chunk) → total (xs ++ ys) ≡ total xs + total ys
total-append [] ys = omega arith
total-append (x ∷ xs) ys = omega (arith, total-append xs ys)

-- A new size of a chunk in the middle.
pub resize_mid :
    (m : Mem) (xs : List Chunk) (c : Chunk) (ys : List Chunk) (v : ℕ)
    → Links m (xs ++ c ∷ ys) 0
    → Off c.0 (c.0 + 16) xs
    → Off c.0 (c.0 + 16) ys
    → v < 2 ^ 64
    → Links (set_word m (c.0 + 8) v) (xs ++ (c.0, v) ∷ ys) 0
resize_mid m xs c ys v links before after fits =
    Links-append (set_word m (c.0 + 8) v) xs ((c.0, v) ∷ ys) 0
      (Links-write m (c.0 + 8) v xs c.0
        (Off-mono c.0 (c.0 + 16) (c.0 + 8) (c.0 + 8 + 8) xs (omega arith) (omega arith) before)
        (Links-left m xs (c ∷ ys) 0 links))
      (resize m c ys 0 v (Links-right m xs (c ∷ ys) 0 links) after fits)

-- The same, for a chunk in the second half.
pub All-others2 :
    (P : Chunk → Type 0) (ws xs : List Chunk) (c : Chunk) (ys : List Chunk)
    → All P (ws ++ (xs ++ c ∷ ys))
    → All P (ws ++ (xs ++ ys))
All-others2 P [] xs c ys h = All-others xs c ys P h
All-others2 P (w ∷ ws) xs c ys (h, hs) = (h, All-others2 P ws xs c ys hs)

pub All-put2 :
    (P : Chunk → Type 0) (ws xs : List Chunk) (c d : Chunk) (ys : List Chunk)
    → All P (ws ++ (xs ++ c ∷ ys))
    → P d
    → All P (ws ++ (xs ++ d ∷ ys))
All-put2 P [] xs c d ys h k = All-put xs c ys P d h k
All-put2 P (w ∷ ws) xs c d ys (h, hs) k = (h, All-put2 P ws xs c d ys hs k)

pub Separated-at2 :
    (ws xs : List Chunk) (c : Chunk) (ys : List Chunk)
    → Separated (ws ++ (xs ++ c ∷ ys))
    → All (Apart c) (ws ++ (xs ++ ys))
Separated-at2 [] xs c ys h = Separated-at xs c ys h
Separated-at2 (w ∷ ws) xs c ys (h, hs) = (
  ground (arith, All_at xs c ys (Apart w) (All-right (Apart w) ws (xs ++ c ∷ ys) h)),
  Separated-at2 ws xs c ys hs,
)

pub Separated-remove2 :
    (ws xs : List Chunk) (c : Chunk) (ys : List Chunk)
    → Separated (ws ++ (xs ++ c ∷ ys))
    → Separated (ws ++ (xs ++ ys))
Separated-remove2 [] xs c ys h = Separated-remove xs c ys h
Separated-remove2 (w ∷ ws) xs c ys (h, hs) =
    (All-others2 (Apart w) ws xs c ys h, Separated-remove2 ws xs c ys hs)

pub Separated-insert2 :
    (ws xs : List Chunk) (d : Chunk) (ys : List Chunk)
    → Separated (ws ++ (xs ++ ys))
    → All (Apart d) (ws ++ (xs ++ ys))
    → Separated (ws ++ (xs ++ d ∷ ys))
Separated-insert2 [] xs d ys h a = Separated-insert xs d ys h a
Separated-insert2 (w ∷ ws) xs d ys (h, hs) (a, as') = (
  All-append (Apart w) ws (xs ++ d ∷ ys) (All-left (Apart w) ws (xs ++ ys) h) (
      All-append (Apart w) xs (d ∷ ys)
        (All-left (Apart w) xs ys (All-right (Apart w) ws (xs ++ ys) h))
        (ground arith, All-right (Apart w) xs ys (All-right (Apart w) ws (xs ++ ys) h))),
  Separated-insert2 ws xs d ys hs as',
)

pub first-ne : (k : ℕ) (xs : List Chunk) → k ≢ 0 → All (λ x. x.0 ≢ k) xs → first xs 0 ≢ k
first-ne k [] h hs = λ e. h (sym e)
first-ne k (x ∷ xs) h (ne, hs) = ne

-- A chunk that does not overlap a block is apart from it, if it is apart from the chunks at the
-- block's two ends.
pub between-Apart :
    (c : Chunk) (u z : ℕ) (a : Chunk) (xs : List Chunk)
    → c.0 + c.1 ≡ u
    → u + z ≡ a.0
    → 0 < c.1
    → 0 < a.1
    → 0 < z
    → Clear u (u + z) xs
    → All (Apart c) xs
    → All (Apart a) xs
    → All (Apart (u, z)) xs
between-Apart c u z a [] e e' p q r clear h k = tt
between-Apart c u z a (x ∷ xs) e e' p q r (o, clear) (h, hs) (k, ks) =
    (ground arith, between-Apart c u z a xs e e' p q r clear hs ks)

pub Apart-ne :
    (hi : ℕ) (a : Chunk) (xs : List Chunk)
    → 0 < a.1
    → All (Inside hi) xs
    → All (Apart a) xs
    → All (λ x. x.0 ≢ a.0) xs
Apart-ne hi a [] p i h = tt
Apart-ne hi a (x ∷ xs) p (i, is) (h, hs) = (ground arith, Apart-ne hi a xs p is hs)
