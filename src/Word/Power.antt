-- ===== src/Word/Power.antt =====
-- Up to 2 ^ 32 `round_to_next_power_of_2` gives the least power of two that is no less: each line of
-- shifts doubles the number of ones at the head of the number.
use localmemcache.Base.{
  ℕ, zero, suc, ◌+◌, ◌-◌, ◌*◌, ◌/◌, ◌^◌, ◌≤◌, ◌<◌, bit_or, ◌≡◌, sym, ap, ◌∙◌, inl, inr, arith,
  subst, ltb, ltb→lt, ltb→ge, Bool-cases,
}
use localmemcache.Word.{wsub, smear, round_to_next_power_of_2}
use localmemcache.Word.Halves.{
  half, ones, ones-pow, half-add, half-bit_or, half-ones, bit_or-ones, bit_or-zero, half-zero,
}
use native.Mathlib.Nat.{pow-suc, pow-le-pow_right}

-- A number of `n` digits whose first `t` digits are ones, or all, if it has no more.
data Headed (n t x : ℕ) : Type 0 where
  some_left : (d : ℕ) → n ≡ t + d → half d x ≡ ones t → Headed n t x
  full : n ≤ t → x ≡ ones n → Headed n t x

abbrev doubled : ℕ → ℕ → ℕ
doubled k x = bit_or x (half k x)

-- A line at a number with `k` ones at the head: `j` digits or more than none are left behind it,
more_left : (k j x : ℕ) → half (k + j) x ≡ ones k → half j (doubled k x) ≡ ones (k + k)
more_left k j x h =
    let back : half j (half k x) ≡ ones k = sym (half-add k j x) ∙ h in
    let e : j + k ≡ k + j = omega arith in
    half-bit_or j x (half k x)
    ∙ ap (bit_or (half j x)) back
    ∙ bit_or-ones k k (half j x) (sym (half-add j k x) ∙ ap (λ i. half i x) e ∙ h)

-- or it fills the last `d` digits,
fills : (d i x : ℕ) → half d x ≡ ones (i + d) → doubled (d + i) x ≡ ones (d + (i + d))
fills d i x h =
    ap (bit_or x) (half-add d i x ∙ ap (half i) h ∙ half-ones i d) ∙ bit_or-ones d (i + d) x h

-- or nothing is left to do.
stays_full : (n r : ℕ) → doubled (n + r) (ones n) ≡ ones n
stays_full n r =
    let e : n ≡ n + 0 = omega arith in
    ap (bit_or (ones n)) (
      half-add n r (ones n)
      ∙ ap (half r) (ap (λ i. half n (ones i)) e ∙ half-ones n 0)
      ∙ half-zero r)
    ∙ bit_or-zero (ones n)

doubled-Headed : (n k x : ℕ) → Headed n k x → Headed n (k + k) (doubled k x)
doubled-Headed n k x (full all e) =
    let r = k - n in
    let at : k ≡ n + r = omega arith in
    full (omega arith)
      (ap (doubled k) e ∙ subst (λ i. doubled i (ones n) ≡ ones n) (sym at) (stays_full n r))
doubled-Headed n k x (some_left d e h) = elim (Bool-cases (ltb d k)) [
  | inl less ↦
      let i = k - d in
      let lt = ltb→lt d k less in
      let k1 : k ≡ d + i = omega arith in
      let k2 : k ≡ i + d = omega arith in
      let last : d + (i + d) ≡ n = omega arith in
      full (omega arith)
        (subst (λ m. doubled m x ≡ ones n) (sym k1) (fills d i x (h ∙ ap ones k2) ∙ ap ones last))
  | inr more ↦
      let j = d - k in
      let ge = ltb→ge d k more in
      let at : d ≡ k + j = omega arith in
      some_left j (omega arith) (more_left k j x (subst (λ i. half i x ≡ ones k) at h))
]

smear-Headed : (n k x : ℕ) → x / 2 ^ k ≡ half k x → Headed n k x → Headed n (k + k) (smear k x)
smear-Headed n k x e h = subst (λ y. Headed n (k + k) (bit_or x y)) (sym e) (doubled-Headed n k x h)

-- The first digit of a number of `p + 1` digits is 1.
head_digit : (p x : ℕ) → 2 ^ p ≤ x → x < 2 * 2 ^ p → half p x ≡ 1
head_digit zero x low high = omega arith
head_digit (suc p) x low high =
    head_digit p (x / 2) (omega (arith, pow-suc 2 p)) (omega (arith, pow-suc 2 p))

one_less : (n v : ℕ) → v ≤ 2 ^ n → 2 ^ n < 2 * v → Headed n 1 (v - 1)
one_less zero v fits least = full (omega arith) (omega arith)
one_less (suc p) v fits least =
    some_left p (omega arith)
      (head_digit p (v - 1) (omega (arith, pow-suc 2 p)) (omega (arith, pow-suc 2 p)))

smears :
    (n x : ℕ) → n ≤ 32 → Headed n 1 x → smear 16 (smear 8 (smear 4 (smear 2 (smear 1 x)))) ≡ ones n
smears n x small h =
    let a = smear 1 x in
    let b = smear 2 a in
    let c = smear 4 b in
    let d = smear 8 c in
    all_digits (
      smear-Headed n 16 d (omega arith) (
        smear-Headed n 8 c (omega arith) (
          smear-Headed n 4 b (omega arith)
            (smear-Headed n 2 a (omega arith) (smear-Headed n 1 x (omega arith) h)))))
  where
    all_digits : {y : ℕ} → Headed n 32 y → y ≡ ones n
    all_digits (full le e) = e
    all_digits {y} (some_left d e g) =
        let none : d ≡ 0 = omega arith in
        let same : 32 ≡ n = omega arith in subst (λ i. half i y ≡ ones 32) none g ∙ ap ones same

-- For n at most 32 and a v with v at most 2 ^ n and 2 ^ n less than 2 * v,
-- `round_to_next_power_of_2` of v is 2 ^ n, the least power of two that is no less than v.
pub round-least :
    (n v : ℕ) → n ≤ 32 → v ≤ 2 ^ n → 2 ^ n < 2 * v → round_to_next_power_of_2 v ≡ 2 ^ n
unfolding round_to_next_power_of_2
round-least n v small fits least =
    let below : 2 ^ n ≤ 2 ^ 32 = pow-le-pow_right {n = 2} (omega arith) {j = 32} small in
    let unwrapped : wsub v 1 ≡ v - 1 = omega (arith, below) in
    let filled = smears n (v - 1) small (one_less n v fits least) in
    rw (unwrapped, filled) (omega (arith, ones-pow n, below))
