-- ===== src/Valloc.antt =====
-- The allocator of src/lmc_valloc.c: the descriptor at the start of the mapped memory, and the
-- list of free chunks whose links are offsets from the start. Offset 0 stands for "no chunk".
pub mod Chain
pub mod Alloc
pub mod Free
pub mod Heap
pub mod Lifecycle
pub mod Region
pub mod Status
pub mod Usage
pub mod Relink
pub mod Room
pub mod Fit
pub mod Take
use localmemcache.Base.{
  ℕ, zero, suc, ◌+◌, ◌-◌, ◌*◌, ◌/◌, ◌%◌, ◌^◌, ltb, leb, ◌==◌, if◌then◌else◌, Bool, true, false, not,
  ◌&&◌, ◌||◌,
}
use localmemcache.Cmd.{
  Cmd, pure, stop, out_of_fuel, aborted, ◌>>=◌, ◌>>◌, read, write, read_int, write_int, when,
}
use localmemcache.Word.{wadd, wsub, lmc_max, round_to_next_power_of_2}

-- The fields of `lmc_mem_descriptor_t` on a 64-bit machine. An `int` takes 4 bytes, and is
-- followed by 4 unused ones.
abbrev pub first_free : ℕ
first_free = 0

abbrev pub total_size : ℕ
total_size = 16

abbrev pub magic : ℕ
magic = 24

abbrev pub va_hash : ℕ
va_hash = 32

abbrev pub locked : ℕ
locked = 40

abbrev pub version : ℕ
version = 48

abbrev pub op_id : ℕ
op_id = 56

abbrev pub p1 : ℕ
p1 = 64

abbrev pub p2 : ℕ
p2 = 72

abbrev pub min_alloc_size : ℕ
min_alloc_size = 80

-- `sizeof(lmc_mem_descriptor_t)`, `sizeof(lmc_mem_chunk_descriptor_t)`, `sizeof(size_t)`
abbrev pub descriptor : ℕ
descriptor = 88

abbrev pub chunk_descriptor : ℕ
chunk_descriptor = 16

abbrev pub size_t : ℕ
size_t = 8

abbrev pub lmc_db_version : ℕ
lmc_db_version = 2

-- the fields of a `lmc_mem_chunk_descriptor_t`
abbrev pub next : ℕ → ℕ
next c = c

abbrev pub size : ℕ → ℕ
size c = c + 8

pub record MemStatus : Type 0 where
  pub free_chunks : ℕ
  pub total_mem : ℕ
  pub total_free_mem : ℕ
  pub total_shm_size : ℕ
  pub free_mem : ℕ
  pub largest_chunk : ℕ

-- Rounds enough for a walk over a list of chunks of at least 16 bytes each.
abbrev pub rounds : Cmd ℕ
rounds = do t ← read total_size; pure (suc (suc t))

unfoldable pub lmc_min_alloc_size : Cmd ℕ
lmc_min_alloc_size = do v ← read version; if ltb 1 v then read min_alloc_size else pure 0

unfoldable pub lmc_set_min_alloc_size : ℕ → Cmd (Unit {0})
lmc_set_min_alloc_size s = do
  v ← read version
  if ltb v 2 then pure tt else write min_alloc_size (round_to_next_power_of_2 s)

unfoldable pub lmc_is_va_valid : ℕ → Cmd Bool
lmc_is_va_valid va = do t ← read total_size; pure (leb va (t + descriptor))

unfoldable pub lmc_total_shm_size : Cmd ℕ
lmc_total_shm_size = do t ← read total_size; pure (wadd t descriptor)

unfoldable pub md_first_free : Cmd ℕ
md_first_free = read first_free

-- The loop of `lmc_status`, over `free`, `largest_chunk` and `chunks`.
unfoldable pub status_loop : ℕ → ℕ → (free largest chunks : ℕ) → Cmd (ℕ × ℕ × ℕ)
unfolding lmc_is_va_valid
status_loop zero c free largest chunks = stop out_of_fuel
status_loop (suc k) c free largest chunks = if c == 0 then pure (free, largest, chunks) else do
  valid ← lmc_is_va_valid c
  if not valid then stop aborted else do
    z ← read (size c)
    n ← read (next c)
    status_loop k n (wadd free z) (if ltb largest z then z else largest) (chunks + 1)

unfoldable pub lmc_status : Cmd MemStatus
unfolding md_first_free lmc_total_shm_size status_loop
lmc_status = do
  c ← md_first_free
  t ← read total_size
  shm ← lmc_total_shm_size
  k ← rounds
  (free, largest, chunks) ← status_loop k c 0 0 0
  pure (record {
    free_chunks = chunks;
    total_mem = t;
    total_free_mem = free;
    total_shm_size = shm;
    free_mem = if ltb 0 free then wsub free size_t else 0;
    largest_chunk = largest;
  })

unfoldable pub is_lmc_already_initialized : Cmd Bool
is_lmc_already_initialized = do g ← read magic; pure (g == 0xF00D)

unfoldable pub lmc_init_memory : ℕ → Cmd (Unit {0})
lmc_init_memory sz = do
  let s = wsub sz descriptor
  write first_free descriptor
  write magic 0xF00D
  write version lmc_db_version
  write_int locked 1
  write total_size s
  write (next descriptor) 0
  write (size descriptor) s

unfoldable pub lmc_get_db_version : Cmd ℕ
lmc_get_db_version = read version

-- The search of `lmc_valloc`: the first chunk `c` of at least `s` bytes, or 0, and the chunk `p`
-- before it, or 0.
unfoldable pub first_fit : ℕ → ℕ → (p c : ℕ) → Cmd (ℕ × ℕ)
first_fit zero s p c = stop out_of_fuel
first_fit (suc k) s p c = if c == 0 then pure (p, c) else do
  z ← read (size c)
  if ltb z s
      then (do n ← read (next c); if n == 0 then pure (c, 0) else first_fit k s c n)
      else pure (p, c)

-- Its second half: the whole chunk, or the last `s` bytes of it.
unfoldable pub take_chunk : ℕ → (p c : ℕ) → Cmd ℕ
take_chunk wanted p c = do
  z ← read (size c)
  let s = if ltb (wsub z wanted) chunk_descriptor then z else wanted
  r ←
      if z == s
      then (do n ← read (next c); if p == 0 then write first_free n else write (next p) n; pure c)
      else (do write (size c) (wsub z s); left ← read (size c); pure (wadd c left))
  write r s
  pure (wadd r size_t)

-- what `lmc_valloc` looks for
abbrev pub request : (least size : ℕ) → ℕ
request least sz =
    lmc_max least (round_to_next_power_of_2 (lmc_max (wadd sz size_t) (chunk_descriptor + size_t)))

unfoldable pub lmc_valloc : ℕ → Cmd ℕ
unfolding lmc_min_alloc_size md_first_free first_fit take_chunk
lmc_valloc sz = do
  least ← lmc_min_alloc_size
  c ← md_first_free
  if sz == 0 then pure 0 else do
    k ← rounds
    (p, c) ← first_fit k (request least sz) 0 c
    if c == 0 then pure 0 else take_chunk (request least sz) p c

-- The log of the operation under way.
unfoldable pub lmc_log_op : ℕ → Cmd (Unit {0})
lmc_log_op opid = do write_int op_id opid; write p2 0; write p1 0

unfoldable pub lmc_log_finish : Cmd (Unit {0})
lmc_log_finish = do write_int op_id 0; write p2 0; write p1 0
