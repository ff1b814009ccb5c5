-- ===== src/Valloc/Usage/Check.antt =====
-- `lmc_um_check_unmarked`, which passes whole words of zeros at once: it finds whether a bit of a
-- range that starts at a byte of the bitmap is set.
use localmemcache.Base.{
  ℕ, zero, suc, ◌+◌, ◌-◌, ◌*◌, ◌/◌, ◌%◌, ◌^◌, ◌≤◌, ◌<◌, ◌≡◌, ◌≢◌, refl, subst, ◌∙◌, ap, ◌⊎◌, inl,
  inr, arith, ltb, ◌==◌, if◌then◌else◌, Bool, true, false, Bool-cases, ==→eq, ==→ne, ne→==, ltb→lt,
}
use localmemcache.Memory.{Mem, word}
use localmemcache.Valloc.Usage.{lmc_um_getbit, skip_words, unmarked_loop}
use localmemcache.Valloc.Usage.Bits.{lmc_um_getbit-zero}
use localmemcache.Word.{wsub}

-- No bit from `i` to `j` is set.
abbrev pub Clear : Mem → ℕ → ℕ → Type 0
Clear bf i j = (x : ℕ) → i ≤ x → x < j → lmc_um_getbit bf x ≡ false

pub not_below : (x y : ℕ) → ltb x y ≡ false → y ≤ x
not_below x y h = ground arith

pub at_end : (x y : ℕ) → y ≤ x → ltb x y ≡ false
at_end x y h = ground arith

after : (x j : ℕ) → j ≤ x → x ≢ j → j + 1 ≤ x
after x j p ne = ground arith

wsub_64 : (end : ℕ) → 64 ≤ end → end < 2 ^ 64 → wsub end 64 ≡ end - 64
wsub_64 end low high = omega arith

-- where `skip_words` stops: it has passed no bit that is set, and the word is not all zeros there, or
-- fewer than 64 bits are left
record Skipped (bf : Mem) (ee i j : ℕ) : Type 0 where
  onward : i ≤ j
  within : (j ≡ i) ⊎ (j < ee + 64)
  clear : Clear bf i j
  stuck : (word bf (j / 8) ≢ 0) ⊎ (ee ≤ j)

-- from a place at which the loop may go wrong only if a word is all zeros and it is not the start of
-- a byte
abbrev pub Fits : Mem → ℕ → ℕ → Type 0
Fits bf ee i = (i % 8 ≡ 0) ⊎ ((word bf (i / 8) ≢ 0) ⊎ (ee ≤ i))

stays : (bf : Mem) (ee i : ℕ) → (word bf (i / 8) ≢ 0) ⊎ (ee ≤ i) → Skipped bf ee i i
stays bf ee i h = record {
  onward = omega arith;
  within = inl refl;
  clear = λ x p q. absurd (omega arith);
  stuck = h;
}

further :
    (bf : Mem) (ee i j : ℕ)
    → i % 8 ≡ 0
    → i < ee
    → word bf (i / 8) ≡ 0
    → Skipped bf ee (i + 64) j
    → Skipped bf ee i j
further bf ee i j aligned h zeros s = record {
  onward = omega (arith, s.onward);
  within = inr (ground (arith, s.within));
  clear = λ x p q. elim (Bool-cases (ltb x (i + 64))) [
    | inl near ↦
        lmc_um_getbit-zero bf (i / 8) x zeros (omega arith) (omega (arith, ltb→lt x (i + 64) near))
    | inr far ↦ s.clear x (not_below x (i + 64) far) q
  ];
  stuck = s.stuck;
}

skip_words_lem :
    (k : ℕ) (bf : Mem) (ee i : ℕ)
    → Fits bf ee i
    → ee ≤ i + 64 * k
    → Skipped bf ee i (skip_words k bf 0 ee i (i / 8))
unfolding skip_words
skip_words_lem zero bf ee i f h = stays bf ee i (inr (omega arith))
skip_words_lem (suc k) bf ee i (inr f) h = elim f [
  | inl some_bit ↦ elim (Bool-cases (ltb i ee)) [
    | inl e ↦ rw (e, ne→== (word bf (i / 8)) 0 some_bit) (stays bf ee i (inl some_bit))
    | inr e ↦ rw e (stays bf ee i (inl some_bit))
  ]
  | inr late ↦ rw (at_end i ee late) (stays bf ee i (inr late))
]
skip_words_lem (suc k) bf ee i (inl aligned) h = elim (Bool-cases (ltb i ee)) [
  | inl e ↦ elim (Bool-cases (word bf (i / 8) == 0)) [
    | inl zeros ↦
        rw (e, zeros)
          (subst (λ b. Skipped bf ee i (skip_words k bf 0 ee (i + 64) b)) (omega arith)
            (further bf ee i _ aligned (ltb→lt i ee e) (==→eq (word bf (i / 8)) 0 zeros)
              (skip_words_lem k bf ee (i + 64) (inl (omega arith)) (omega arith))))
    | inr other ↦ rw (e, other) (stays bf ee i (inl (==→ne (word bf (i / 8)) 0 other)))
  ]
  | inr e ↦ rw e (stays bf ee i (inr (not_below i ee e)))
]

-- the result of the check of the bits from `i` to `end`
pub data Checked (bf : Mem) (i end : ℕ) : Bool → Type 0 where
  unmarked : Clear bf i end → Checked bf i end true
  marked : (x : ℕ) → i ≤ x → x < end → lmc_um_getbit bf x ≡ true → Checked bf i end false

passed :
    (bf : Mem) (end i j : ℕ) (r : Bool)
    → i ≤ j
    → Clear bf i j
    → lmc_um_getbit bf j ≡ false
    → Checked bf (j + 1) end r
    → Checked bf i end r
passed bf end i j r onward clear off (unmarked rest) = unmarked λ x p q.
    elim (Bool-cases (ltb x j)) [
      | inl before ↦ clear x p (ltb→lt x j before)
      | inr behind ↦ elim (Bool-cases (x == j)) [
        | inl here ↦ ap (λ y. lmc_um_getbit bf y) (==→eq x j here) ∙ off
        | inr e ↦ rest x (after x j (not_below x j behind) (==→ne x j e)) q
      ]
    ]
passed bf end i j r onward clear off (marked x p q set) = marked x (omega arith) q set

-- the place behind one at which `skip_words` has stopped
next_Fits : (bf : Mem) (ee i j : ℕ) → Skipped bf ee i j → Fits bf ee (j + 1)
next_Fits bf ee i j s = elim (Bool-cases ((j + 1) % 8 == 0)) [
  | inl e ↦ inl (==→eq ((j + 1) % 8) 0 e)
  | inr e ↦ inr (elim s.stuck [
    | inl some_bit ↦
        inl (subst (λ b. word bf b ≢ 0) (same_byte j (==→ne ((j + 1) % 8) 0 e)) some_bit)
    | inr late ↦ inr (omega arith)
  ])
]
  where
    same_byte : (j : ℕ) → (j + 1) % 8 ≢ 0 → j / 8 ≡ (j + 1) / 8
    same_byte j ne = ground arith

Checked-from :
    (bf : Mem) (end i j : ℕ) (r : Bool)
    → 64 ≤ end
    → i < end
    → Skipped bf (end - 64) i j
    → Checked bf (j + 1) end r
    → Checked bf i end (if lmc_um_getbit bf j then false else r)
Checked-from bf end i j r low h s rest = elim (Bool-cases (lmc_um_getbit bf j)) [
  | inl set ↦ rw set (marked j s.onward (ground (arith, s.within)) set)
  | inr off ↦ rw off (passed bf end i j r s.onward s.clear off rest)
]

pub unmarked_loop_lem :
    (k : ℕ) (bf : Mem) (end i : ℕ)
    → 64 ≤ end
    → end < 2 ^ 64
    → Fits bf (end - 64) i
    → end ≤ i + k
    → Checked bf i end (unmarked_loop k bf end i)
unfolding unmarked_loop
unmarked_loop_lem zero bf end i low high f h = unmarked λ x p q. absurd (omega arith)
unmarked_loop_lem (suc k) bf end i low high f h = elim (Bool-cases (ltb i end)) [
  | inl e ↦
      rw (e, wsub_64 end low high)
        (let j = skip_words (suc k) bf 0 (end - 64) i (i / 8) in
          let s = skip_words_lem (suc k) bf (end - 64) i f (omega arith) in
          Checked-from bf end i j (unmarked_loop k bf end (j + 1)) low (ltb→lt i end e) s (
            unmarked_loop_lem k bf end (j + 1) low high (next_Fits bf (end - 64) i j s)
              (omega (arith, s.onward))))
  | inr e ↦ rw e (unmarked λ x p q. absurd (omega (arith, not_below i end e)))
]
