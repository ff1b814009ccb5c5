-- ===== src/Memory/Laws.antt =====
-- A read after a write: of the same number, and of what lies apart from it.
use localmemcache.Base.{ℕ, zero, suc, ◌+◌, ◌/◌, ◌%◌, ◌^◌, ◌≤◌, ◌<◌, ◌≡◌, refl, ◌⊎◌, inl, inr, arith}
use localmemcache.Memory.{Mem, set_byte, load, store}
use native.Mathlib.Nat.{pow-suc}

-- The bytes from `a` to `b` are the same in both.
abbrev pub Same : Mem → Mem → ℕ → ℕ → Type 0
Same m m' a b = (x : ℕ) → a ≤ x → x < b → m' x ≡ m x

pub load-Same : (n : ℕ) (m m' : Mem) (a : ℕ) → Same m m' a (a + n) → load n m' a ≡ load n m a
unfolding load
load-Same zero m m' a h = refl
load-Same (suc n) m m' a h = omega (
  arith,
  h a (omega arith) (omega arith),
  load-Same n m m' (a + 1) (λ x p q. h x (omega arith) (omega arith)),
)

-- A write changes no byte outside its own.
pub store_other : (n : ℕ) (m : Mem) (a v x : ℕ) → (x < a) ⊎ (a + n ≤ x) → store n m a v x ≡ m x
unfolding store
store_other zero m a v x h = refl
store_other (suc n) m a v x h =
    ground (arith, store_other n (set_byte m a (v % 256)) (a + 1) (v / 256) x)

pub load-store_same : (n : ℕ) (m : Mem) (a v : ℕ) → v < 256 ^ n → load n (store n m a v) a ≡ v
unfolding load store
load-store_same zero m a v h = omega arith
load-store_same (suc n) m a v h =
    let m' = set_byte m a (v % 256) in
    omega (
      arith,
      pow-suc 256 n,
      load-store_same n m' (a + 1) (v / 256) (omega (arith, pow-suc 256 n)),
      store_other n m' (a + 1) (v / 256) a (inl (omega arith)),
      first,
    )
  where
    first : set_byte m a (v % 256) a ≡ v % 256
    first = ground arith

pub load-store_other :
    (k n : ℕ) (m : Mem) (a v b : ℕ)
    → (b + k ≤ a) ⊎ (a + n ≤ b)
    → load k (store n m a v) b ≡ load k m b
load-store_other k n m a v b h =
    load-Same k m (store n m a v) b λ x p q. store_other n m a v x (apart x p q h)
  where
    apart : (x : ℕ) → b ≤ x → x < b + k → (b + k ≤ a) ⊎ (a + n ≤ b) → (x < a) ⊎ (a + n ≤ x)
    apart x p q (inl l) = inl (omega arith)
    apart x p q (inr r) = inr (omega arith)
