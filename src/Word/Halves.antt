-- ===== src/Word/Halves.antt =====
-- Numbers halved several times, and what `bit_or` of a number with its halves is.
use localmemcache.Base.{
  ℕ, zero, suc, ◌+◌, ◌*◌, ◌/◌, ◌^◌, ◌≤◌, bit_or, ◌≡◌, refl, sym, ap, ◌∙◌, arith,
}
use localmemcache.Word.Bits.{bit_or_step}
use native.Mathlib.Nat.{pow-suc}

abbrev pub half : ℕ → ℕ → ℕ
half zero x = x
half (suc k) x = half k (x / 2)

-- the number whose `k` digits are 1
abbrev pub ones : ℕ → ℕ
ones zero = 0
ones (suc k) = ones k * 2 + 1

pub ones-pow : (k : ℕ) → ones k + 1 ≡ 2 ^ k
ones-pow zero = refl
ones-pow (suc k) = omega (arith, ones-pow k, pow-suc 2 k)

pub half-add : (a b x : ℕ) → half (a + b) x ≡ half b (half a x)
half-add zero b x = let e : 0 + b ≡ b = omega arith in ap (λ k. half k x) e
half-add (suc a) b x = ap (λ k. half k x) suc_add ∙ half-add a b (x / 2)
  where
    suc_add : suc a + b ≡ suc (a + b)
    suc_add = omega arith

pub half-zero : (k : ℕ) → half k 0 ≡ 0
half-zero zero = refl
half-zero (suc k) = half-zero k

pub half-bit_or : (j a b : ℕ) → half j (bit_or a b) ≡ bit_or (half j a) (half j b)
half-bit_or zero a b = refl
half-bit_or (suc j) a b =
    ap (half j) (omega (arith, bit_or_step a b)) ∙ half-bit_or j (a / 2) (b / 2)

pub half-ones : (i m : ℕ) → half i (ones (i + m)) ≡ ones m
half-ones zero m = ap ones (omega arith)
half-ones (suc i) m =
    ap (λ k. half (suc i) (ones k)) suc_add ∙ ap (half i) (omega arith) ∙ half-ones i m
  where
    suc_add : suc i + m ≡ suc (i + m)
    suc_add = omega arith

bit_or-zero_fuel : (n a : ℕ) → a ≤ n → bit_or a 0 ≡ a
bit_or-zero_fuel n zero h = refl
bit_or-zero_fuel zero (suc a) h = absurd (omega arith)
bit_or-zero_fuel (suc n) (suc a) h =
    omega (arith, bit_or_step (suc a) 0, bit_or-zero_fuel n (suc a / 2) (omega arith))

pub bit_or-zero : (a : ℕ) → bit_or a 0 ≡ a
bit_or-zero a = bit_or-zero_fuel a a (omega arith)

-- The low digits of a number are filled with ones.
pub bit_or-ones : (m k a : ℕ) → half m a ≡ ones k → bit_or a (ones m) ≡ ones (m + k)
bit_or-ones zero k a h = let e : 0 + k ≡ k = omega arith in bit_or-zero a ∙ h ∙ sym (ap ones e)
bit_or-ones (suc m) k a h =
    let e : suc m + k ≡ suc (m + k) = omega arith in
    let low : (ones m * 2 + 1) / 2 ≡ ones m = omega arith in
    let step = bit_or_step a (ones m * 2 + 1) in
    let rest = bit_or-ones m k (a / 2) h in
    let high : bit_or (a / 2) ((ones m * 2 + 1) / 2) ≡ ones (m + k) = rw low rest in
    rw e (omega (arith, step, high))
