-- ===== src/Word/Round.antt =====
-- A bound on the rounding of a request, also above 2 ^ 32, where the result need not be a power of
-- two.
use localmemcache.Base.{ℕ, ◌-◌, ◌/◌, ◌^◌, ◌≤◌, ◌<◌, ◌≡◌, arith}
use localmemcache.Word.{wsub, smear, round_to_next_power_of_2}
use localmemcache.Word.Bits.{bit_or-ge, bit_or-lt}
use native.Mathlib.Nat.{pow-le-pow_right}

smear-ge : (k v : ℕ) → v ≤ smear k v
smear-ge k v = bit_or-ge v (v / 2 ^ k)

smear-lt : (n k v : ℕ) → v < 2 ^ n → v / 2 ^ k ≤ v → smear k v < 2 ^ n
smear-lt n k v h le = bit_or-lt n v (v / 2 ^ k) h (omega arith)

smears-lt : (n v : ℕ) → v < 2 ^ n → smear 16 (smear 8 (smear 4 (smear 2 (smear 1 v)))) < 2 ^ n
smears-lt n v h =
    smear-lt n 16 _
      (smear-lt n 8 _
        (smear-lt n 4 _ (smear-lt n 2 _ (smear-lt n 1 v h (omega arith)) (omega arith))
          (omega arith))
        (omega arith))
      (omega arith)

smears-ge : (v : ℕ) → v ≤ smear 16 (smear 8 (smear 4 (smear 2 (smear 1 v))))
smears-ge v =
    let a = smear 1 v in
    let b = smear 2 a in
    let c = smear 4 b in
    let d = smear 8 c in
    omega (
      arith,
      smear-ge 1 v,
      smear-ge 2 (smear 1 v),
      smear-ge 4 (smear 2 (smear 1 v)),
      smear-ge 8 (smear 4 (smear 2 (smear 1 v))),
      smear-ge 16 (smear 8 (smear 4 (smear 2 (smear 1 v)))),
    )

module _ (n v : ℕ) (pos : 0 < v) (small : n < 64) (fits : v ≤ 2 ^ n) where
  below : 2 ^ n ≤ 2 ^ 63
  below = pow-le-pow_right {n = 2} (omega arith) {j = 63} (omega arith)

  unwrapped : wsub v 1 ≡ v - 1
  unwrapped = omega (arith, below)

  -- For 0 < v and v at most 2 ^ n with n < 64, the rounding of v is at least v.
  pub round-ge : v ≤ round_to_next_power_of_2 v
  unfolding round_to_next_power_of_2
  round-ge =
      rw unwrapped (omega (arith, below, smears-ge (v - 1), smears-lt n (v - 1) (omega arith)))
