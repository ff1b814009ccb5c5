-- ===== src/Common.antt =====
-- src/lmc_common.c: names and hashes. A text is the list of its bytes, without the final NUL.
pub mod Laws
mod Instrumentation
use localmemcache.Base.{
  ℕ, zero, suc, ◌+◌, ◌-◌, ◌*◌, ◌%◌, ◌^◌, ltb, leb, ◌==◌, if◌then◌else◌, Bool, true, false, ◌&&◌,
  ◌||◌, List, [], ◌∷◌, length, drop, ◌≡◌, refl,
}
use localmemcache.Word.{size_max}

-- a `char`, which is signed, as an `unsigned long`
abbrev pub char_value : ℕ → ℕ
char_value b = if ltb b 128 then b else b + (size_max - 256)

-- the loop of `lmc_hash`, from the value `v`
unfoldable pub hash_from : ℕ → List ℕ → ℕ
hash_from v [] = v
hash_from v (c ∷ cs) = hash_from ((char_value c + 31 * v) % size_max) cs

unfoldable pub lmc_hash : List ℕ → ℕ
unfolding hash_from
lmc_hash s = hash_from 0 s

-- a character that `lmc_clean_string` keeps
abbrev pub is_plain : ℕ → Bool
is_plain c = (leb b'a' c && leb c b'z') || (leb b'A' c && leb c b'Z') || (leb b'0' c && leb c b'9')

unfoldable pub clean_loop : List ℕ → List ℕ
clean_loop [] = []
clean_loop (c ∷ cs) = (if is_plain c then c else b'-') ∷ clean_loop cs

-- Only the last 1023 characters are used.
unfoldable pub lmc_clean_string : List ℕ → List ℕ
unfolding clean_loop
lmc_clean_string source =
    let nn = length source in
    let n = if ltb 1023 nn then 1023 else nn in clean_loop (drop (nn - n) source)

unfoldable pub lmc_is_filename : List ℕ → Bool
lmc_is_filename [] = false
lmc_is_filename (c ∷ []) = false
lmc_is_filename (c ∷ d ∷ s) = c == b'/' || (c == b'.' && d == b'/')
