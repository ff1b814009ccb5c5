-- ===== src/Valloc/Usage/Mark.antt =====
-- `lmc_um_mark`: it marks the bytes of a block, eight at once where it can, unless one of them is
-- marked.
use localmemcache.Base.{
  ℕ, zero, suc, ◌+◌, ◌-◌, ◌*◌, ◌/◌, ◌%◌, ◌^◌, ◌≤◌, ◌<◌, ◌≡◌, ◌≢◌, refl, ◌∙◌, ◌⊎◌, inl, inr, arith,
  ltb, leb, ◌==◌, if◌then◌else◌, Bool, true, false, not, ◌&&◌, ◌||◌, Option, none, some, Bool-cases,
  ==→eq, ==→ne, ne→==, ltb→lt, le→leb,
}
use localmemcache.Cmd.{pure}
use localmemcache.Cmd.Ends.{Ends, ends}
use localmemcache.Memory.{Mem, word, fill}
use localmemcache.Valloc.{descriptor, total_size, lmc_is_va_valid}
use localmemcache.Valloc.Usage.{
  lmc_um_getbit, lmc_um_setbit, unmarked_loop, lmc_um_check_unmarked, mark_loop, lmc_um_mark,
}
use localmemcache.Valloc.Usage.Bits.{
  IsBitmap, lmc_um_setbit-IsBitmap, lmc_um_getbit-setbit, lmc_um_getbit-fill, fill-IsBitmap,
  &&-both,
}
use localmemcache.Word.{wadd, wsub}
use localmemcache.Valloc.Usage.Check.{
  Clear, Checked, unmarked, marked, not_below, at_end, unmarked_loop_lem,
}

lt→ltb : (x y : ℕ) → x < y → ltb x y ≡ true
lt→ltb x y h = ground arith

lt→not_leb : (x y : ℕ) → y < x → leb x y ≡ false
lt→not_leb x y h = ground arith

&&-false : (b : Bool) → (b && false) ≡ false
&&-false true = refl
&&-false false = refl

-- The bits from `i` to `end` are set, and the others are as before.
pub record Marked (bf : Mem) (i end : ℕ) (bf' : Mem) : Type 0 where
  pub inside : (x : ℕ) → i ≤ x → x < end → lmc_um_getbit bf' x ≡ true
  pub outside : (x : ℕ) → (x < i) ⊎ (end ≤ x) → lmc_um_getbit bf' x ≡ lmc_um_getbit bf x

-- the bits from `i` to `j` at once, then that at `j`, then those behind it
marked_from :
    (bf bf1 bf' : Mem) (i j end : ℕ)
    → IsBitmap bf1
    → i ≤ j
    → j < end
    → Marked bf i j bf1
    → Marked (lmc_um_setbit bf1 j true) (j + 1) end bf'
    → Marked bf i end bf'
marked_from bf bf1 bf' i j end bits onward within first rest = record {
  inside = λ x p q. elim (Bool-cases (ltb x (j + 1))) [
    | inl near ↦
        rest.outside x (inl (ltb→lt x (j + 1) near))
        ∙ lmc_um_getbit-setbit bf1 j x true bits
        ∙ elim (Bool-cases (x == j)) [
          | inl e ↦ rw e refl
          | inr e ↦ rw e (first.inside x p (before x j (ltb→lt x (j + 1) near) (==→ne x j e)))
        ]
    | inr far ↦ rest.inside x (not_below x (j + 1) far) q
  ];
  outside = λ x h.
      rest.outside x (ground (arith, h))
      ∙ lmc_um_getbit-setbit bf1 j x true bits
      ∙ rw (ne→== x j (apart x h)) (first.outside x (ground (arith, h)));
}
  where
    before : (x j : ℕ) → x < j + 1 → x ≢ j → x < j
    before x j h ne = ground arith

    apart : (x : ℕ) → (x < i) ⊎ (end ≤ x) → x ≢ j
    apart x h e = ground (arith, h)

filled : (bf : Mem) (i n : ℕ) → i % 8 ≡ 0 → Marked bf i (i + n * 8) (fill bf (i / 8) 0xFF n)
filled bf i n aligned = record {
  inside = λ x p q.
      lmc_um_getbit-fill bf (i / 8) n x
      ∙ rw (le→leb (i / 8) (x / 8) (omega arith), lt→ltb (x / 8) (i / 8 + n) (omega arith)) refl;
  outside = λ x h. lmc_um_getbit-fill bf (i / 8) n x ∙ rw (outside_bytes x h) refl;
}
  where
    outside_bytes :
        (x : ℕ)
        → (x < i) ⊎ (i + n * 8 ≤ x)
        → (leb (i / 8) (x / 8) && ltb (x / 8) (i / 8 + n)) ≡ false
    outside_bytes x (inl h) = rw (lt→not_leb (i / 8) (x / 8) (omega arith)) refl
    outside_bytes x (inr h) = rw (at_end (x / 8) (i / 8 + n) (omega arith)) (&&-false _)

none_marked : (bf : Mem) (i end : ℕ) → end ≤ i → Marked bf i end bf
none_marked bf i end h = record { inside = λ x p q. absurd (omega arith); outside = λ x o. refl }

mark_loop_lem :
    (k : ℕ) (bf : Mem) (end i : ℕ)
    → IsBitmap bf
    → end < 2 ^ 64
    → end ≤ i + k
    → Marked bf i end (mark_loop k bf end i)
unfolding mark_loop
mark_loop_lem zero bf end i bits high h = none_marked bf i end (omega arith)
mark_loop_lem (suc k) bf end i bits high h = elim (Bool-cases (ltb i end)) [
  | inr e ↦ rw e (none_marked bf i end (not_below i end e))
  | inl e ↦ elim (Bool-cases (i % 8 == 0 && ltb (i / 8) (wsub end 1 / 8))) [
    | inl whole ↦
        let b_end = wsub end 1 / 8 in
        let n = b_end - i / 8 in
        let j = i + n * 8 in
        let bf1 = fill bf (i / 8) 0xFF n in
        let (aligned, less) = &&-both _ _ whole in
        let bits1 = fill-IsBitmap bf (i / 8) n bits in
        rw (e, whole)
          (marked_from bf bf1 _ i j end bits1 (omega arith)
            (omega (arith, ltb→lt i end e, ltb→lt (i / 8) b_end less, ==→eq (i % 8) 0 aligned))
            (filled bf i n (==→eq (i % 8) 0 aligned))
            (mark_loop_lem k (lmc_um_setbit bf1 j true) end (j + 1)
              (lmc_um_setbit-IsBitmap bf1 j true bits1) high (omega arith)))
    | inr single ↦
        rw (e, single)
          (marked_from bf bf _ i i end bits (omega arith) (ltb→lt i end e)
            (none_marked bf i i (omega arith))
            (mark_loop_lem k (lmc_um_setbit bf i true) end (i + 1)
              (lmc_um_setbit-IsBitmap bf i true bits) high (omega arith)))
  ]
]

refused_range :
    (d va end t : ℕ)
    → va ≤ end
    → (ltb d va && (not (leb va t) || not (leb end t))) ≡ true
    → (d < va) × (t < end)
refused_range d va end t h refused = ground arith

-- What `lmc_um_mark` does: a block out of range is refused, and so is one with a byte that is marked
-- already.
pub data Marks (m bf : Mem) (va sz : ℕ) : Option Mem → Mem → Type 0 where
  out_of_range :
      (descriptor < va) → (word m total_size + descriptor < va + sz) → Marks m bf va sz none m
  overlap : (x : ℕ) → va ≤ x → x < va + sz → lmc_um_getbit bf x ≡ true → Marks m bf va sz none m
  marked_block :
      (bf' : Mem)
      → Clear bf va (va + sz)
      → Marked bf va (va + sz) bf'
      → Marks m bf va sz (some bf') m

module _ (m bf : Mem) (va sz : ℕ) (bits : IsBitmap bf) (aligned : va % 8 ≡ 0) (low : 64 ≤ va + sz)
    (high : va + sz < 2 ^ 64) where
  end_of : wadd va sz ≡ va + sz
  end_of = omega arith

  Checked-mark :
      (r : Bool)
      → Checked bf va (va + sz) r
      → Ends
          (Marks m bf va sz)
          ((if not r then pure none else pure (some (mark_loop (suc sz) bf (va + sz) va))) m)
  Checked-mark false (marked x p q set) = ends (overlap x p q set)
  Checked-mark true (unmarked clear) =
      ends (marked_block _ clear (mark_loop_lem (suc sz) bf (va + sz) va bits high (omega arith)))

  -- On a bitmap of bytes, for a range that starts at a multiple of 8 and ends from 64 on and
  -- below 2 ^ 64, `lmc_um_mark` ends and leaves the memory as it is. It fails only where the
  -- range is behind the descriptor and ends behind the memory, or has a byte that is marked
  -- already; otherwise none was marked, and the bitmap it returns is that which marks one by
  -- one make: the bits of the range are set, and all others are as before.
  pub lmc_um_mark-Marks : Ends (Marks m bf va sz) (lmc_um_mark bf va sz m)
  unfolding lmc_um_mark lmc_um_check_unmarked lmc_is_va_valid
  lmc_um_mark-Marks =
      let t = word m total_size + descriptor in
      let e = va + sz in
      rw end_of (elim (Bool-cases (ltb descriptor va && (not (leb va t) || not (leb e t)))) [
        | inl refused ↦
            let (behind, out) = refused_range descriptor va e t (omega arith) refused in
            rw refused (ends (out_of_range behind out))
        | inr fine ↦ rw fine (
            Checked-mark (unmarked_loop (suc sz) bf e va)
              (unmarked_loop_lem (suc sz) bf e va low high (inl aligned) (omega arith)))
      ])
