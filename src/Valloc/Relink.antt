-- ===== src/Valloc/Relink.antt =====
-- Writes to the links and sizes of a list of chunks whose descriptors do not overlap.
use localmemcache.Base.{
  ℕ, ◌+◌, ◌≤◌, ◌<◌, ◌^◌, ◌∙◌, ◌⊎◌, inl, inr, arith, List, [], ◌∷◌, ◌++◌, All-left, All-right,
}
use localmemcache.Memory.{Mem, set_word}
use localmemcache.Memory.Laws.{load-store_same, load-store_other}
use localmemcache.Valloc.Chain.{Chunk, Links, Off, last_of, Links-write, Off-mono}

-- No two descriptors overlap.
abbrev pub Spread : List Chunk → Type 0
Spread [] = Unit
Spread (c ∷ cs) = Off c.0 (c.0 + 16) cs × Spread cs

pub Spread-left : (xs ys : List Chunk) → Spread (xs ++ ys) → Spread xs
Spread-left [] ys h = tt
Spread-left (x ∷ xs) ys (h, hs) = (All-left _ xs ys h, Spread-left xs ys hs)

pub Spread-right : (xs ys : List Chunk) → Spread (xs ++ ys) → Spread ys
Spread-right [] ys h = h
Spread-right (x ∷ xs) ys (h, hs) = Spread-right xs ys hs

-- What is off every descriptor is off the last one.
pub Off-last :
    (a b : ℕ) (x : Chunk) (xs : List Chunk)
    → Off a b (x ∷ xs)
    → (b ≤ last_of x.0 xs) ⊎ (last_of x.0 xs + 16 ≤ a)
Off-last a b x [] (h, hs) = h
Off-last a b x (y ∷ xs) (h, hs) = Off-last a b y xs hs

-- The last descriptor of a part is off those behind it, and off those before the part.
pub Spread-last :
    (x : Chunk) (xs ys : List Chunk)
    → Spread (x ∷ xs ++ ys)
    → Off (last_of x.0 xs) (last_of x.0 xs + 16) ys
Spread-last x [] ys (h, hs) = h
Spread-last x (y ∷ xs) ys (h, hs) = Spread-last y xs ys hs

pub Spread-before :
    (ws : List Chunk) (x : Chunk) (xs ys : List Chunk)
    → Spread (ws ++ (x ∷ xs ++ ys))
    → Off (last_of x.0 xs) (last_of x.0 xs + 16) ws
Spread-before [] x xs ys h = tt
Spread-before (w ∷ ws) x xs ys (h, hs) = (
  flip (Off-last w.0 (w.0 + 16) x xs (All-left _ (x ∷ xs) ys (All-right _ ws (x ∷ xs ++ ys) h))),
  Spread-before ws x xs ys hs,
)
  where
    flip : {a b c d : ℕ} → (a ≤ b) ⊎ (c ≤ d) → (c ≤ d) ⊎ (a ≤ b)
    flip (inl p) = inr p
    flip (inr p) = inl p

-- A new link of the last chunk.
pub relink :
    (m : Mem) (x : Chunk) (xs : List Chunk) (q v : ℕ)
    → Links m (x ∷ xs) q
    → Spread (x ∷ xs)
    → v < 2 ^ 64
    → Links (set_word m (last_of x.0 xs) v) (x ∷ xs) v
relink m x [] q v (n, z, l) s fits = (
  load-store_same 8 m x.0 v fits,
  load-store_other 8 8 m x.0 v (x.0 + 8) (inr (omega arith)) ∙ z,
  tt,
)
relink m x (y ∷ xs) q v (n, z, l) (h, s) fits =
    let off = Off-last x.0 (x.0 + 16) y xs h in
    (
      load-store_other 8 8 m (last_of y.0 xs) v x.0 (ground arith) ∙ n,
      load-store_other 8 8 m (last_of y.0 xs) v (x.0 + 8) (ground arith) ∙ z,
      relink m y xs q v l s fits,
    )

-- A new size of the first chunk.
pub resize :
    (m : Mem) (x : Chunk) (xs : List Chunk) (q v : ℕ)
    → Links m (x ∷ xs) q
    → Off x.0 (x.0 + 16) xs
    → v < 2 ^ 64
    → Links (set_word m (x.0 + 8) v) ((x.0, v) ∷ xs) q
resize m x xs q v (n, z, l) off fits = (
  load-store_other 8 8 m (x.0 + 8) v x.0 (inl (omega arith)) ∙ n,
  load-store_same 8 m (x.0 + 8) v fits,
  Links-write m (x.0 + 8) v xs q
      (Off-mono x.0 (x.0 + 16) (x.0 + 8) (x.0 + 8 + 8) xs (omega arith) (omega arith) off) l,
)

-- A descriptor is off all those before it.
pub Spread-pick :
    (ws xs : List Chunk) (b : Chunk) (ys : List Chunk)
    → Spread (ws ++ (xs ++ b ∷ ys))
    → Off b.0 (b.0 + 16) ws
Spread-pick [] xs b ys h = tt
Spread-pick (w ∷ ws) xs b ys (h, hs) = (
  ground (arith, (All-right _ xs (b ∷ ys) (All-right _ ws (xs ++ b ∷ ys) h)).0),
  Spread-pick ws xs b ys hs,
)
