-- ===== src/Word/Bits.antt =====
-- `bit_or` at variables: its digit law and two bounds.
use Prim.Native.Nat.{digits, bit_or-bitwise}
use localmemcache.Base.{
  ℕ, zero, suc, ◌+◌, ◌*◌, ◌/◌, ◌%◌, ◌^◌, ◌≤◌, ◌<◌, max, bit_or, ◌≡◌, refl, arith,
}
use native.Mathlib.Nat.{pow-suc}

abbrev or_digits : ℕ → ℕ → ℕ → ℕ
or_digits n a b = digits (λ y. y) max n a b

-- More digits than the left number has change nothing.
or_digits-fuel : (n m a b : ℕ) → a ≤ n → a ≤ m → or_digits n a b ≡ or_digits m a b
or_digits-fuel zero zero a b p q = refl
or_digits-fuel zero (suc m) zero b p q = refl
or_digits-fuel (suc n) zero zero b p q = refl
or_digits-fuel (suc n) (suc m) zero b p q = refl
or_digits-fuel zero (suc m) (suc a) b p q = absurd (omega arith)
or_digits-fuel (suc n) zero (suc a) b p q = absurd (omega arith)
or_digits-fuel (suc n) (suc m) (suc a) b p q =
    omega (arith, or_digits-fuel n m (suc a / 2) (b / 2) (omega arith) (omega arith))

pub zero-bit_or : (b : ℕ) → bit_or 0 b ≡ b
zero-bit_or b = bit_or-bitwise 0 b

pub bit_or_step : (a b : ℕ) → bit_or a b ≡ bit_or (a / 2) (b / 2) * 2 + max (a % 2) (b % 2)
bit_or_step zero b = omega (arith, zero-bit_or b, zero-bit_or (b / 2))
bit_or_step (suc a) b = omega (
  arith,
  bit_or-bitwise (suc a) b,
  bit_or-bitwise (suc a / 2) (b / 2),
  or_digits-fuel a (suc a / 2) (suc a / 2) (b / 2) (omega arith) (omega arith),
)

-- The bounds go by induction on a bound of the left number.
bit_or-ge_fuel : (n a b : ℕ) → a ≤ n → a ≤ bit_or a b
bit_or-ge_fuel n zero b h = omega arith
bit_or-ge_fuel zero (suc a) b h = absurd (omega arith)
bit_or-ge_fuel (suc n) (suc a) b h =
    omega (arith, bit_or_step (suc a) b, bit_or-ge_fuel n (suc a / 2) (b / 2) (omega arith))

pub bit_or-ge : (a b : ℕ) → a ≤ bit_or a b
bit_or-ge a b = bit_or-ge_fuel a a b (omega arith)

-- Two numbers of `k` digits have a `bit_or` of `k` digits.
pub bit_or-lt : (k a b : ℕ) → a < 2 ^ k → b < 2 ^ k → bit_or a b < 2 ^ k
bit_or-lt zero a b h h' = let e : a ≡ 0 = omega arith in rw e (omega (arith, zero-bit_or b))
bit_or-lt (suc n) a b h h' = omega (
  arith,
  pow-suc 2 n,
  bit_or_step a b,
  bit_or-lt n (a / 2) (b / 2) (omega (arith, pow-suc 2 n)) (omega (arith, pow-suc 2 n)),
)
