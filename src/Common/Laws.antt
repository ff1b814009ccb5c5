-- ===== src/Common/Laws.antt =====
-- What names and hashes are like.
use localmemcache.Base.{
  ℕ, suc, ◌-◌, ◌≤◌, ◌≡◌, refl, ◌∙◌, ap, ltb, ◌==◌, if◌then◌else◌, true, ◌||◌, List, [], ◌∷◌, length,
  All, drop, drop_none, length-drop, arith,
}
use localmemcache.Common.{is_plain, clean_loop, lmc_clean_string}

-- A character of a clean name: a letter, a digit or a dash.
abbrev pub IsClean : ℕ → Type 0
IsClean c = (is_plain c || c == b'-') ≡ true

clean_loop-IsClean : (s : List ℕ) → All IsClean (clean_loop s)
unfolding clean_loop
clean_loop-IsClean [] = tt
clean_loop-IsClean (c ∷ s) = (ground arith, clean_loop-IsClean s)

length-clean_loop : (s : List ℕ) → length (clean_loop s) ≡ length s
unfolding clean_loop
length-clean_loop [] = refl
length-clean_loop (c ∷ s) = ap suc (length-clean_loop s)

clean_loop_same : (s : List ℕ) → All IsClean s → clean_loop s ≡ s
unfolding clean_loop
clean_loop_same [] h = refl
clean_loop_same (c ∷ s) (h, hs) = ground (arith, clean_loop_same s hs)

length-lmc_clean_string : (s : List ℕ) → length (lmc_clean_string s) ≤ 1023
unfolding lmc_clean_string
length-lmc_clean_string s =
    let n = if ltb 1023 (length s) then 1023 else length s in
    ground (arith, length-clean_loop (drop (length s - n) s), length-drop (length s - n) s)

lmc_clean_string-IsClean : (s : List ℕ) → All IsClean (lmc_clean_string s)
unfolding lmc_clean_string
lmc_clean_string-IsClean s =
    clean_loop-IsClean (drop (length s - (if ltb 1023 (length s) then 1023 else length s)) s)

lmc_clean_string_same : (s : List ℕ) → length s ≤ 1023 → All IsClean s → lmc_clean_string s ≡ s
unfolding lmc_clean_string
lmc_clean_string_same s short clean =
    let n = if ltb 1023 (length s) then 1023 else length s in
    ap clean_loop (drop_none (length s - n) s (ground arith)) ∙ clean_loop_same s clean

-- A cleaned name has at most 1023 characters, all of them letters, digits or dashes, and
-- cleaning it again changes nothing.
pub lmc_clean_string_lem :
    (s : List ℕ)
    → (length (lmc_clean_string s) ≤ 1023)
      × All IsClean (lmc_clean_string s)
      × (lmc_clean_string (lmc_clean_string s) ≡ lmc_clean_string s)
lmc_clean_string_lem s =
    let short = length-lmc_clean_string s in
    let clean = lmc_clean_string-IsClean s in
    (short, clean, lmc_clean_string_same (lmc_clean_string s) short clean)
