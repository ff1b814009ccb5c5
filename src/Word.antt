-- ===== src/Word.antt =====
-- `size_t` arithmetic of a 64-bit build, and `round_to_next_power_of_2` of src/lmc_valloc.c.
mod Bits
mod Halves
pub mod Power
pub mod Round
use localmemcache.Base.{ℕ, ◌+◌, ◌-◌, ◌*◌, ◌/◌, ◌%◌, ◌^◌, ltb, if◌then◌else◌, bit_or, ◌≡◌, refl}

-- the number of values of a `size_t`
abbrev pub size_max : ℕ
size_max = 2 ^ 64

abbrev pub wadd : ℕ → ℕ → ℕ
wadd a b = (a + b) % size_max

abbrev pub wsub : ℕ → ℕ → ℕ
wsub a b = (a + size_max - b) % size_max

unfoldable pub lmc_max : ℕ → ℕ → ℕ
lmc_max a b = if ltb b a then a else b

abbrev smear : ℕ → ℕ → ℕ
smear k v = bit_or v (v / 2 ^ k)

-- The line `v |= v >> 32` is a comment in the source.
unfoldable pub round_to_next_power_of_2 : ℕ → ℕ
round_to_next_power_of_2 v = wadd (smear 16 (smear 8 (smear 4 (smear 2 (smear 1 (wsub v 1)))))) 1

round_24 : round_to_next_power_of_2 24 ≡ 32
unfolding round_to_next_power_of_2
round_24 = refl

round_0 : round_to_next_power_of_2 0 ≡ 0
unfolding round_to_next_power_of_2
round_0 = refl
