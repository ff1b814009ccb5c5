-- ===== src/Valloc/Usage/Bits.antt =====
-- Single bits of a bitmap: `lmc_um_getbit` after `lmc_um_setbit` and `memset`, and words of zeros.
use Prim.Native.Nat.{bit_and-bitwise}
use localmemcache.Base.{
  ℕ, zero, suc, ◌+◌, ◌-◌, ◌*◌, ◌/◌, ◌%◌, ◌^◌, ◌≤◌, ◌<◌, ◌≡◌, ◌≢◌, refl, sym, ◌∙◌, ap, inl, inr,
  arith, ltb, leb, ◌==◌, if◌then◌else◌, Bool, true, false, not, ◌&&◌, bit_and, bit_or, Bool-cases,
  ==→eq, ==→ne, ne→==, eq→==, ltb→lt,
}
use localmemcache.Memory.{Mem, load, fill}
use localmemcache.Valloc.Usage.{lmc_um_getbit, lmc_um_setbit}

-- The entries of a bitmap are bytes.
abbrev pub IsBitmap : Mem → Type 0
IsBitmap bf = (a : ℕ) → bf a < 256

all_below : ℕ → (ℕ → Bool) → Bool
all_below zero p = true
all_below (suc n) p = p n && all_below n p

all_below_lem : (n : ℕ) (p : ℕ → Bool) (x : ℕ) → all_below n p ≡ true → x < n → p x ≡ true
unfolding all_below
all_below_lem zero p x h lt = absurd (omega arith)
all_below_lem (suc n) p x h lt = ground (arith, all_below_lem n p x)

abbrev same : Bool → Bool → Bool
same true b = b
same false b = not b

same→eq : (a b : Bool) → same a b ≡ true → a ≡ b
same→eq true b h = sym h
same→eq false true h = absurd (ground arith)
same→eq false false h = refl

abbrev bit : ℕ → ℕ → Bool
bit b j = not (bit_and b (2 ^ j) == 0)

abbrev set_bit : ℕ → ℕ → Bool → ℕ
set_bit b i v = if v then bit_or b (2 ^ i) else bit_and b (255 - 2 ^ i)

abbrev set_as_told : Bool → ℕ → ℕ → ℕ → Bool
set_as_told v i j b =
    same (bit (set_bit b i v) j) (if j == i then v else bit b j) && ltb (set_bit b i v) 256

set_table :
    all_below 8 (λ i.
      all_below 8
        (λ j. all_below 256 (set_as_told true i j) && all_below 256 (set_as_told false i j)))
    ≡ true
unfolding all_below
set_table = refl

full_table : all_below 8 (λ j. bit 255 j) ≡ true
unfolding all_below
full_table = refl

pub &&-both : (a b : Bool) → (a && b) ≡ true → (a ≡ true) × (b ≡ true)
&&-both true b h = (refl, h)
&&-both false b h = absurd (ground arith)

set_bits : (v : Bool) (b i j : ℕ) → b < 256 → i < 8 → j < 8 → set_as_told v i j b ≡ true
set_bits true b i j hb hi hj =
    all_below_lem 256 _ b
      (&&-both _ _ (all_below_lem 8 _ j (all_below_lem 8 _ i set_table hi) hj)).0 hb
set_bits false b i j hb hi hj =
    all_below_lem 256 _ b
      (&&-both _ _ (all_below_lem 8 _ j (all_below_lem 8 _ i set_table hi) hj)).1 hb

pub lmc_um_setbit-IsBitmap :
    (bf : Mem) (i : ℕ) (v : Bool) → IsBitmap bf → IsBitmap (lmc_um_setbit bf i v)
unfolding lmc_um_setbit
lmc_um_setbit-IsBitmap bf i v h a = elim (Bool-cases (a == i / 8)) [
  | inl e ↦ rw e (
      ltb→lt _ _
        (&&-both _ _
          (set_bits v (bf (i / 8)) (i % 8) (i % 8) (h (i / 8)) (omega arith) (omega arith))).1)
  | inr e ↦ rw e (h a)
]

same_bit : (i j : ℕ) → j / 8 ≡ i / 8 → (j % 8 == i % 8) ≡ (j == i)
same_bit i j h = elim (Bool-cases (j == i)) [
  | inl e ↦ rw (e, eq→== (j % 8) (i % 8) (omega (arith, ==→eq j i e))) refl
  | inr e ↦ rw (e, ne→== (j % 8) (i % 8) (different i j h (==→ne j i e))) refl
]
  where
    different : (i j : ℕ) → j / 8 ≡ i / 8 → j ≢ i → j % 8 ≢ i % 8
    different i j h ne eq = ne (omega arith)

other_byte : (i j : ℕ) → (j / 8 == i / 8) ≡ false → j ≢ i
other_byte i j h eq = ==→ne (j / 8) (i / 8) h (ap (λ k. k / 8) eq)

same_byte : (bf : Mem) (i j : ℕ) → j / 8 ≡ i / 8 → bit (bf (i / 8)) (j % 8) ≡ lmc_um_getbit bf j
unfolding lmc_um_getbit
same_byte bf i j h = ap (λ a. bit (bf a) (j % 8)) (sym h)

-- On a bitmap of bytes `lmc_um_getbit` after `lmc_um_setbit` returns the value that was set,
-- and for any other bit what it returned before.
pub lmc_um_getbit-setbit :
    (bf : Mem) (i j : ℕ) (v : Bool)
    → IsBitmap bf
    → lmc_um_getbit (lmc_um_setbit bf i v) j ≡ (if j == i then v else lmc_um_getbit bf j)
unfolding lmc_um_setbit lmc_um_getbit
lmc_um_getbit-setbit bf i j v h = elim (Bool-cases (j / 8 == i / 8)) [
  | inl e ↦
      let q = ==→eq (j / 8) (i / 8) e in
      rw e (
        same→eq _ _
          (&&-both _ _
            (set_bits v (bf (i / 8)) (i % 8) (j % 8) (h (i / 8)) (omega arith) (omega arith))).0
        ∙ ap (λ c. if c then v else bit (bf (i / 8)) (j % 8)) (same_bit i j q)
        ∙ ap (λ c. if j == i then v else c) (same_byte bf i j q))
  | inr e ↦ rw (e, ne→== j i (other_byte i j e)) refl
]

-- `memset` with 0xFF sets the bits of its bytes, and no others.
pub lmc_um_getbit-fill :
    (bf : Mem) (a n j : ℕ)
    → lmc_um_getbit (fill bf a 0xFF n) j
      ≡ (if leb a (j / 8) && ltb (j / 8) (a + n) then true else lmc_um_getbit bf j)
unfolding lmc_um_getbit fill
lmc_um_getbit-fill bf a n j = elim (Bool-cases (leb a (j / 8) && ltb (j / 8) (a + n))) [
  | inl e ↦ rw e (all_below_lem 8 _ (j % 8) full_table (omega arith))
  | inr e ↦ rw e refl
]

pub fill-IsBitmap : (bf : Mem) (a n : ℕ) → IsBitmap bf → IsBitmap (fill bf a 0xFF n)
unfolding fill
fill-IsBitmap bf a n h x = elim (Bool-cases (leb a x && ltb x (a + n))) [
  | inl e ↦ rw e (omega arith)
  | inr e ↦ rw e (h x)
]

load-zero : (n : ℕ) (m : Mem) (a x : ℕ) → load n m a ≡ 0 → a ≤ x → x < a + n → m x ≡ 0
unfolding load
load-zero zero m a x h p q = absurd (omega arith)
load-zero (suc n) m a x h p q = elim (Bool-cases (x == a)) [
  | inl e ↦ ap m (==→eq x a e) ∙ omega arith
  | inr e ↦
      load-zero n m (a + 1) x (omega arith) (omega (arith, at_least a x p (==→ne x a e)))
        (omega arith)
]
  where
    at_least : (a x : ℕ) → a ≤ x → x ≢ a → a + 1 ≤ x
    at_least a x p ne = ground arith

-- In a word of zeros no bit is set.
pub lmc_um_getbit-zero :
    (bf : Mem) (b j : ℕ) → load 8 bf b ≡ 0 → 8 * b ≤ j → j < 8 * b + 64 → lmc_um_getbit bf j ≡ false
unfolding lmc_um_getbit
lmc_um_getbit-zero bf b j h p q =
    rw (load-zero 8 bf b (j / 8) h (omega arith) (omega arith), bit_and-bitwise 0 (2 ^ (j % 8)))
      refl
