-- ===== src/Valloc/Free.antt =====
-- `lmc_free` of src/lmc_valloc.c: giving a block back, and joining it to the free chunks that
-- touch it. The walks start at offset 0, where the descriptor reads as a chunk of size 0.
pub mod Compact
pub mod Sweep
pub mod Bridge
pub mod Grow
pub mod Join
pub mod Lists
pub mod Skim
pub mod Replace
pub mod Merge
pub mod Whole
pub mod Release
use localmemcache.Base.{
  ℕ, zero, suc, ◌+◌, ltb, leb, ◌==◌, if◌then◌else◌, Bool, true, false, not, ◌&&◌, ◌||◌,
}
use localmemcache.Cmd.{Cmd, pure, stop, out_of_fuel, ◌>>=◌, ◌>>◌, read, write, when}
use localmemcache.Valloc.{first_free, next, size, descriptor, size_t, rounds, lmc_is_va_valid}
use localmemcache.Word.{wadd, wsub}

-- The variables of `lmc_compact_free_chunks` that its walk changes.
pub record Walk : Type 0 where
  pub chunk_p : ℕ
  pub previous : ℕ
  pub merge1 : Bool
  pub merge1_chunk : ℕ

-- The chunk `c` follows `chunk`: it is added to it and taken out of the list.
unfoldable pub swallow : (chunk c previous : ℕ) → Cmd (Unit {0})
swallow chunk c previous = do
  z ← read (size chunk)
  w ← read (size c)
  write (size chunk) (wadd z w)
  n ← read (next chunk)
  let p = if n == c then chunk else previous
  after ← read (next c)
  if p == 0 then pure tt else write (next p) after

-- One round of the walk; the `Bool` says whether it leaves the loop.
unfoldable pub compact_round : (chunk c_size c : ℕ) → Walk → Cmd (Bool × Walk)
compact_round chunk c_size c w = if c == chunk then pure (false, w) else do
  n ← read (next c)
  if n == chunk
      then pure (false, record w { chunk_p = c; previous = c })
      else if w.merge1
      then pure (false, record w { previous = c })
      else do
        z ← read (size c)
        if wadd c z == chunk
            then pure (false, record w { previous = c; merge1 = true; merge1_chunk = c })
            else if wadd chunk c_size == c
            then (do swallow chunk c w.previous; pure (true, w))
            else pure (false, record w { previous = c })

unfoldable pub compact_loop : ℕ → (chunk c_size c : ℕ) → Walk → Cmd Walk
compact_loop zero chunk c_size c w = stop out_of_fuel
compact_loop (suc k) chunk c_size c w = do
  (break, w') ← compact_round chunk c_size c w
  if break
      then pure w'
      else do n ← read (next c); if n == 0 then pure w' else compact_loop k chunk c_size n w'

-- The chunk follows the one at `merge1_chunk`: it is taken out of the list and added to that.
unfoldable pub merge_into : (chunk c_size : ℕ) → Walk → Cmd (Unit {0})
merge_into chunk c_size w = do
  n ← read (next chunk)
  when (not (w.chunk_p == 0)) (write (next w.chunk_p) n)
  f ← read first_free
  after ← read (next chunk)
  when (f == chunk) (write first_free after)
  z ← read (size w.merge1_chunk)
  write (size w.merge1_chunk) (wadd z c_size)

unfoldable pub lmc_compact_free_chunks : ℕ → Cmd (Unit {0})
lmc_compact_free_chunks chunk = do
  c_size ← read (size chunk)
  k ← rounds
  w ←
      compact_loop k chunk c_size 0
        (record { chunk_p = 0; previous = 0; merge1 = false; merge1_chunk = 0 })
  when w.merge1 (merge_into chunk c_size w)

-- how the walk of `__lmc_free` ends: `double_free` is the message "Was pointer already freed?"
pub data Outcome : Type 0 where
  freed double_free unmatched : Outcome

unfoldable pub free_loop : ℕ → (used uc_size c previous : ℕ) → Cmd Outcome
free_loop zero used uc_size c previous = stop out_of_fuel
free_loop (suc k) used uc_size c previous = do
  z ← read (size c)
  if wadd c z == used
      then (do write (size c) (wadd z uc_size); lmc_compact_free_chunks c; pure freed)
      else if wadd used uc_size == c
      then (do
        n ← read (next c)
        write (next used) n
        w ← read (size c)
        write (size used) (wadd uc_size w)
        write (next previous) used
        lmc_compact_free_chunks used
        pure freed)
      else if leb c used && leb used (wadd c z)
      then pure double_free
      else do n ← read (next c); if n == 0 then pure unmatched else free_loop k used uc_size n c

unfoldable pub __lmc_free : (used uc_size : ℕ) → Cmd Outcome
__lmc_free used uc_size = do
  k ← rounds
  o ← free_loop k used uc_size 0 0
  elim o [
    | unmatched ↦ do
      f ← read first_free
      write (next used) f
      write (size used) uc_size
      write first_free used
      pure freed
    | other ↦ pure other
  ]

-- what a call of `lmc_free` did: nothing for 0, or a message for an invalid pointer
pub data FreeResult : Type 0 where
  nothing invalid_pointer : FreeResult
  walked : Outcome → FreeResult

unfoldable pub lmc_free : ℕ → Cmd FreeResult
lmc_free chunk = if chunk == 0 then pure nothing else do
  valid ← lmc_is_va_valid chunk
  if not (leb (descriptor + size_t) chunk) || not valid then pure invalid_pointer else do
    let va_used_chunk = wsub chunk size_t
    uc_size ← read va_used_chunk
    o ← __lmc_free va_used_chunk uc_size
    pure (walked o)
