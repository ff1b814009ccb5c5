-- ===== src/Valloc/Chain.antt =====
-- The list of free chunks in the mapped memory, as a list of offsets and sizes.
use localmemcache.Base.{
  ℕ, suc, ◌+◌, ◌^◌, ◌≤◌, ◌<◌, ◌≡◌, refl, sym, ◌∙◌, ◌⊎◌, inl, arith, List, [], ◌∷◌, ◌++◌, All,
}
use localmemcache.Memory.{Mem, word, set_word}
use localmemcache.Memory.Laws.{Same, load-Same, load-store_other}

-- offset and size
abbrev pub Chunk : Type 0
Chunk = ℕ × ℕ

-- where a list of chunks begins, if what follows it begins at `q`
abbrev pub first : List Chunk → ℕ → ℕ
first [] q = q
first (c ∷ cs) q = c.0

-- In `m` the chunks are linked in this order, and the last link is `q`.
abbrev pub Links : Mem → List Chunk → ℕ → Type 0
Links m [] q = Unit
Links m (c ∷ cs) q = (word m c.0 ≡ first cs q) × (word m (c.0 + 8) ≡ c.1) × Links m cs q

abbrev pub Inside : ℕ → Chunk → Type 0
Inside hi c = (88 ≤ c.0) × (16 ≤ c.1) × (c.0 + c.1 ≤ hi)

-- Two chunks with a byte between them: neither overlapping nor adjacent.
abbrev pub Apart : Chunk → Chunk → Type 0
Apart c d = (c.0 + c.1 < d.0) ⊎ (d.0 + d.1 < c.0)

abbrev pub Separated : List Chunk → Type 0
Separated [] = Unit
Separated (c ∷ cs) = All (Apart c) cs × Separated cs

-- The bytes from `a` to `b` lie in no chunk.
abbrev pub Clear : ℕ → ℕ → List Chunk → Type 0
Clear a b cs = All (λ c. (b ≤ c.0) ⊎ (c.0 + c.1 ≤ a)) cs

-- The bytes from `a` to `b` lie in no chunk's descriptor.
abbrev pub Off : ℕ → ℕ → List Chunk → Type 0
Off a b cs = All (λ c. (b ≤ c.0) ⊎ (c.0 + 16 ≤ a)) cs

abbrev pub total : List Chunk → ℕ
total [] = 0
total (c ∷ cs) = c.1 + total cs

-- What holds of the memory between two operations: `cs` are the free chunks, in the order of the
-- list, and no two of them overlap or touch.
pub record FreeList (m : Mem) (hi : ℕ) (cs : List Chunk) : Type 0 where
  pub head : word m 0 ≡ first cs 0
  pub dummy : word m 8 ≡ 0
  pub links : Links m cs 0
  pub inside : All (Inside hi) cs
  pub separated : Separated cs
  pub extent : word m 16 + 88 ≡ hi
  pub small : hi < 2 ^ 63

pub Clear-Off : (hi a b : ℕ) (cs : List Chunk) → All (Inside hi) cs → Clear a b cs → Off a b cs
Clear-Off hi a b [] i h = tt
Clear-Off hi a b (c ∷ cs) (i, is) (h, hs) = (ground arith, Clear-Off hi a b cs is hs)

pub Clear-mono : (a b a' b' : ℕ) (cs : List Chunk) → a ≤ a' → b' ≤ b → Clear a b cs → Clear a' b' cs
Clear-mono a b a' b' [] p q h = tt
Clear-mono a b a' b' (c ∷ cs) p q (h, hs) = (ground arith, Clear-mono a b a' b' cs p q hs)

pub Off-mono : (a b a' b' : ℕ) (cs : List Chunk) → a ≤ a' → b' ≤ b → Off a b cs → Off a' b' cs
Off-mono a b a' b' [] p q h = tt
Off-mono a b a' b' (c ∷ cs) p q (h, hs) = (ground arith, Off-mono a b a' b' cs p q hs)

pub Apart-Clear : (p z : ℕ) (cs : List Chunk) → All (Apart (p, z)) cs → Clear p (p + z) cs
Apart-Clear p z [] h = tt
Apart-Clear p z (c ∷ cs) (h, hs) = (ground arith, Apart-Clear p z cs hs)

-- The descriptor of the memory lies before every chunk.
pub Inside-Clear : (hi : ℕ) (cs : List Chunk) → All (Inside hi) cs → Clear 0 88 cs
Inside-Clear hi [] h = tt
Inside-Clear hi (c ∷ cs) (h, hs) = (inl h.0, Inside-Clear hi cs hs)

pub first-le : (hi : ℕ) (cs : List Chunk) → All (Inside hi) cs → first cs 0 ≤ hi
first-le hi [] h = omega arith
first-le hi (c ∷ cs) h = omega arith

-- Links are kept by a change that spares their descriptors.
pub Links-Same :
    (m m' : Mem) (cs : List Chunk) (q : ℕ)
    → All (λ c. Same m m' c.0 (c.0 + 16)) cs
    → Links m cs q
    → Links m' cs q
Links-Same m m' [] q h l = tt
Links-Same m m' (c ∷ cs) q (h, hs) (n, z, l) = (
  load-Same 8 m m' c.0 (λ x p r. h x p (omega arith)) ∙ n,
  load-Same 8 m m' (c.0 + 8) (λ x p r. h x (omega arith) (omega arith)) ∙ z,
  Links-Same m m' cs q hs l,
)

pub Links-write :
    (m : Mem) (a v : ℕ) (cs : List Chunk) (q : ℕ)
    → Off a (a + 8) cs
    → Links m cs q
    → Links (set_word m a v) cs q
Links-write m a v [] q h l = tt
Links-write m a v (c ∷ cs) q (h, hs) (n, z, l) = (
  load-store_other 8 8 m a v c.0 (ground arith) ∙ n,
  load-store_other 8 8 m a v (c.0 + 8) (ground arith) ∙ z,
  Links-write m a v cs q hs l,
)

-- A byte outside `xs` keeps its value: the form of the frame conditions.
abbrev pub Untouched : Mem → Mem → ℕ → ℕ → List Chunk → Type 0
Untouched m m' a b cs = (x : ℕ) → (x < a) ⊎ (b ≤ x) → Clear x (suc x) cs → m' x ≡ m x

-- the last of the chunks, or `p`
abbrev pub last_of : ℕ → List Chunk → ℕ
last_of p [] = p
last_of p (c ∷ cs) = last_of c.0 cs

pub first-append : (xs ys : List Chunk) (q : ℕ) → first (xs ++ ys) q ≡ first xs (first ys q)
first-append [] ys q = refl
first-append (x ∷ xs) ys q = refl

pub Links-append :
    (m : Mem) (xs ys : List Chunk) (q : ℕ)
    → Links m xs (first ys q)
    → Links m ys q
    → Links m (xs ++ ys) q
Links-append m [] ys q l r = r
Links-append m (x ∷ xs) ys q (n, z, l) r =
    (n ∙ sym (first-append xs ys q), z, Links-append m xs ys q l r)

pub Links-left :
    (m : Mem) (xs ys : List Chunk) (q : ℕ) → Links m (xs ++ ys) q → Links m xs (first ys q)
Links-left m [] ys q l = tt
Links-left m (x ∷ xs) ys q (n, z, l) = (n ∙ first-append xs ys q, z, Links-left m xs ys q l)

pub Links-right : (m : Mem) (xs ys : List Chunk) (q : ℕ) → Links m (xs ++ ys) q → Links m ys q
Links-right m [] ys q l = l
Links-right m (x ∷ xs) ys q (n, z, l) = Links-right m xs ys q l
