-- ===== src/Valloc/Usage.antt =====
-- The bitmap of used bytes of src/lmc_valloc.c, by which leaked memory is found again. A bitmap is
-- a memory of its own, from `calloc`; a function that marks returns it, or nothing on failure.
pub mod Bits
pub mod Check
pub mod Mark
use localmemcache.Base.{
  ℕ, zero, suc, ◌+◌, ◌-◌, ◌*◌, ◌/◌, ◌%◌, ◌^◌, ltb, ◌==◌, if◌then◌else◌, Bool, true, false, not,
  ◌&&◌, ◌||◌, Option, none, some, bit_and, bit_or,
}
use localmemcache.Cmd.{Cmd, pure, stop, out_of_fuel, ◌>>=◌, ◌>>◌, read, when}
use localmemcache.Memory.{Mem, word, set_byte, fill}
use localmemcache.Valloc.{
  first_free, next, size, descriptor, size_t, rounds, lmc_is_va_valid, lmc_total_shm_size,
}
use localmemcache.Valloc.Free.{__lmc_free}
use localmemcache.Word.{size_max, wadd, wsub}

unfoldable pub lmc_um_getbit : Mem → ℕ → Bool
lmc_um_getbit bf i = not (bit_and (bf (i / 8)) (2 ^ (i % 8)) == 0)

unfoldable pub lmc_um_setbit : Mem → ℕ → Bool → Mem
lmc_um_setbit bf i v =
    let old = bf (i / 8) in
    set_byte bf (i / 8) (if v then bit_or old (2 ^ (i % 8)) else bit_and old (255 - 2 ^ (i % 8)))

-- `while (i < ee && *b == w) { i += 64; b++; }`
unfoldable pub skip_words : ℕ → Mem → (w ee i b : ℕ) → ℕ
skip_words zero bf w ee i b = i
skip_words (suc k) bf w ee i b =
    let rest = skip_words k bf w ee (i + 64) (b + 8) in
    if ltb i ee && word bf b == w then rest else i

-- The loop of `lmc_um_check_unmarked` over `i`.
unfoldable pub unmarked_loop : ℕ → Mem → (end i : ℕ) → Bool
unfolding skip_words lmc_um_getbit
unmarked_loop zero bf end i = true
unmarked_loop (suc k) bf end i =
    let j = skip_words (suc k) bf 0 (wsub end 64) i (i / 8) in
    let rest = unmarked_loop k bf end (j + 1) in
    if not (ltb i end) then true else if lmc_um_getbit bf j then false else rest

unfoldable pub lmc_um_check_unmarked : Mem → (va sz : ℕ) → Bool
unfolding unmarked_loop
lmc_um_check_unmarked bf va sz = unmarked_loop (suc sz) bf (wadd va sz) va

-- The loop of `lmc_um_mark` over `i`: whole bytes at once where it can.
unfoldable pub mark_loop : ℕ → Mem → (end i : ℕ) → Mem
unfolding lmc_um_setbit
mark_loop zero bf end i = bf
mark_loop (suc k) bf end i =
    let b_start = i / 8 in
    let b_end = wsub end 1 / 8 in
    let whole = i % 8 == 0 && ltb b_start b_end in
    let bf' = if whole then fill bf b_start 0xFF (b_end - b_start) else bf in
    let j = if whole then i + (b_end - b_start) * 8 else i in
    let rest = mark_loop k (lmc_um_setbit bf' j true) end (j + 1) in
    if not (ltb i end) then bf else rest

unfoldable pub lmc_um_mark : Mem → (va sz : ℕ) → Cmd (Option Mem)
unfolding lmc_is_va_valid lmc_um_check_unmarked mark_loop
lmc_um_mark bf va sz = do
  start ← lmc_is_va_valid va
  end ← lmc_is_va_valid (wadd va sz)
  if ltb descriptor va && (not start || not end)
      then pure none
      else if not (lmc_um_check_unmarked bf va sz)
      then pure none
      else pure (some (mark_loop (suc sz) bf (wadd va sz) va))

unfoldable pub lmc_um_mark_allocated : Mem → ℕ → Cmd (Option Mem)
lmc_um_mark_allocated bf va = do
  let real_va = wsub va size_t
  s ← read real_va
  lmc_um_mark bf real_va s

unfoldable pub mark_free : ℕ → Mem → ℕ → Cmd (Option Mem)
mark_free zero bf va = stop out_of_fuel
mark_free (suc k) bf va = if va == 0 then pure (some bf) else do
  z ← read (size va)
  marked ← lmc_um_mark bf va z
  elim marked [ none ↦ pure none | some bf' ↦ do n ← read (next va); mark_free k bf' n ]

unfoldable pub lmc_um_new_mem_usage_bitmap : Cmd (Option Mem)
lmc_um_new_mem_usage_bitmap = do
  va ← read first_free
  marked ← lmc_um_mark (λ _. 0) 0 descriptor
  elim marked [ none ↦ pure none | some bf ↦ do k ← rounds; mark_free k bf va ]

-- The loop of `lmc_um_find_leaks`: a run of unmarked bytes from `gs` is given back when it ends.
-- It returns the last values of `i`, `gap` and `gs`; `gap_count` and `space` are never read.
unfoldable pub leaks_loop : ℕ → Mem → (tts i : ℕ) → (gap : Bool) → (gs : ℕ) → Cmd (ℕ × Bool × ℕ)
leaks_loop zero bf tts i gap gs = stop out_of_fuel
leaks_loop (suc k) bf tts i gap gs = if not (ltb i tts) then pure (i, gap, gs) else do
  let j = if gap then i else skip_words (suc k) bf (size_max - 1) (wsub tts 64) i (i / 8)
  let marked = lmc_um_getbit bf j
  when (marked && gap) (do _ ← __lmc_free gs (wsub j gs); pure tt)
  leaks_loop k bf tts (j + 1) (not marked) (if not marked && not gap then j else gs)

unfoldable pub lmc_um_find_leaks : Mem → Cmd (Unit {0})
lmc_um_find_leaks bf = do
  tts ← lmc_total_shm_size
  (i, gap, gs) ← leaks_loop (suc tts) bf tts 0 false 0
  when gap (do _ ← __lmc_free gs (wsub i gs); pure tt)
