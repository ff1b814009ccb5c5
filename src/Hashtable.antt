-- ===== src/Hashtable.antt =====
-- The hash table of src/lmc_hashtable.c, which lives in the mapped memory: 20731 buckets, each the
-- head of a chain of entries, whose keys and values are strings behind their length.
pub mod Iterate
pub mod Create
pub mod Filled
pub mod Insert
pub mod Link
pub mod Lookup
pub mod Owned
pub mod Slices
pub mod Random
pub mod Set
pub mod Stages
pub mod Strings
pub mod Update
pub mod Delete
pub mod Walks
use localmemcache.Base.{
  ℕ, zero, suc, ◌+◌, ◌*◌, ◌%◌, ltb, ◌==◌, if◌then◌else◌, Bool, true, false, not, List, [], ◌∷◌,
}
use localmemcache.Cmd.{Cmd, pure, stop, out_of_fuel, done, ◌>>=◌, ◌>>◌, read, write, read_int}
use localmemcache.Common.{lmc_hash}
use localmemcache.Errors.{Status, ok, failed, memory_pool_full}
use localmemcache.Memory.{Mem, bytes, copy, fill}
use localmemcache.Valloc.{lmc_valloc, lmc_log_op, lmc_log_finish, rounds, op_id, p1, p2}
use localmemcache.Valloc.Free.{lmc_free}
use localmemcache.Word.{wadd, wsub}

abbrev pub lmc_ht_buckets : ℕ
lmc_ht_buckets = 20731

-- the fields of a `ht_hash_t`, and its size
abbrev pub table_size : ℕ → ℕ
table_size va_ht = va_ht

abbrev pub bucket : ℕ → ℕ → ℕ
bucket va_ht k = va_ht + 8 + 8 * k

abbrev pub hash_t : ℕ
hash_t = 8 + 8 * lmc_ht_buckets

-- the fields of a `ht_hash_entry_t`, and its size
abbrev pub va_next : ℕ → ℕ
va_next e = e

abbrev pub va_key : ℕ → ℕ
va_key e = e + 8

abbrev pub va_value : ℕ → ℕ
va_value e = e + 16

abbrev pub hash_entry_t : ℕ
hash_entry_t = 24

-- A `char *`: to the caller's memory, or into the mapped memory.
pub data Pointer : Type 0 where
  caller : Mem → Pointer
  pool : ℕ → Pointer

abbrev pub chars : Pointer → ℕ → Mem → List ℕ
chars (caller t) n m = bytes n t 0
chars (pool a) n m = bytes n m a

unfoldable pub lmc_ht_strdup : Pointer → ℕ → Cmd ℕ
lmc_ht_strdup s l = do
  va_s ← lmc_valloc (wadd (wadd l 8) 1)
  if va_s == 0
      then pure 0
      else do write va_s l; λ m. done va_s (copy m (va_s + 8) (chars s (l + 1) m))

unfoldable pub ht_hash_key : Pointer → ℕ → Cmd ℕ
ht_hash_key s l m = done (lmc_hash (chars s l m) % lmc_ht_buckets) m

-- 0 is "no table", with the error `MemoryPoolFull`.
unfoldable pub ht_hash_create : Cmd ℕ
ht_hash_create = do
  va_ht ← lmc_valloc hash_t
  if va_ht == 0 then pure 0 else λ m. done va_ht (fill m va_ht 0 hash_t)

unfoldable pub ht_hash_destroy : ℕ → Cmd Bool
ht_hash_destroy va_ht = pure true

-- The loop over the characters: its `continue` goes on with the next character, whatever the
-- comparison says.
unfoldable pub compare_loop : List ℕ → List ℕ → Cmd (Unit {0})
compare_loop [] key = pure tt
compare_loop (c ∷ cs) [] = pure tt
compare_loop (c ∷ cs) (d ∷ ds) = let rest = compare_loop cs ds in if c == d then rest else rest

-- whether the entry is the one looked for
unfoldable pub is_match : Pointer → ℕ → ℕ → Cmd Bool
is_match key n_key e = do
  s ← read (va_key e)
  l ← read s
  if not (l == n_key)
      then pure false
      else (λ m. done (chars (pool (s + 8)) l m, chars key l m) m) >>= λ (cs, ds). do
        compare_loop cs ds
        pure true

-- 0 is the address of `lmc_null_node`.
unfoldable pub lookup_loop : ℕ → Pointer → (n_key va_hr : ℕ) → Cmd ℕ
lookup_loop zero key n_key va_hr = stop out_of_fuel
lookup_loop (suc k) key n_key va_hr = if va_hr == 0 then pure 0 else do
  match ← is_match key n_key va_hr
  if match then pure va_hr else do n ← read (va_next va_hr); lookup_loop k key n_key n

unfoldable pub ht_lookup : ℕ → Pointer → ℕ → Cmd ℕ
ht_lookup va_ht key n_key = do
  b ← ht_hash_key key n_key
  va_hr ← read (bucket va_ht b)
  k ← rounds
  lookup_loop k key n_key va_hr

unfoldable pub ht_lookup2 : ℕ → ℕ → Cmd ℕ
ht_lookup2 va_ht k = do n ← read k; ht_lookup va_ht (pool (k + 8)) n

-- a field of an entry, or of `lmc_null_node`
abbrev pub field : (ℕ → ℕ) → ℕ → Cmd ℕ
field f hr = if hr == 0 then pure 0 else read (f hr)

-- where the value is, and its length; 0 for no value
unfoldable pub ht_get : ℕ → Pointer → ℕ → Cmd (ℕ × ℕ)
ht_get va_ht key n_key = do
  hr ← ht_lookup va_ht key n_key
  va ← field va_value hr
  if va == 0 then pure (0, 0) else do n ← read va; pure (va + 8, n)

unfoldable pub lmc_string_len : ℕ → Cmd ℕ
lmc_string_len s = read s

abbrev pub lmc_string_data : ℕ → ℕ
lmc_string_data s = s + 8

abbrev pub lmc_op_ht_set : ℕ
lmc_op_ht_set = 1

-- The fields of the log are `va_key` and `va_value` of a `lmc_log_ht_set`.
unfoldable pub insert_failed : Cmd Status
insert_failed = do lmc_log_finish; pure (failed memory_pool_full)

-- The end of the first branch of `ht_set`, with the new entry at `va`,
unfoldable pub link_entry : ℕ → Pointer → ℕ → ℕ → Cmd Status
link_entry va_ht key n_key va = do
  logged ← read p1
  write (va_key va) logged
  b ← ht_hash_key key n_key
  head ← read (bucket va_ht b)
  write (va_next va) head
  write (bucket va_ht b) va
  logged_value ← read p2
  write (va_value va) logged_value
  z ← read (table_size va_ht)
  write (table_size va_ht) (wadd z 1)
  lmc_log_finish
  pure ok

-- from the allocation of the entry on,
unfoldable pub insert_entry : ℕ → Pointer → ℕ → Cmd Status
insert_entry va_ht key n_key = do
  va ← lmc_valloc hash_entry_t
  if va == 0 then insert_failed else link_entry va_ht key n_key va

-- and from the copy of the key on.
unfoldable pub insert_key : ℕ → Pointer → ℕ → Cmd Status
insert_key va_ht key n_key = do
  k ← lmc_ht_strdup key n_key
  write p1 k
  if k == 0 then insert_failed else insert_entry va_ht key n_key

-- The whole branch: there is no entry for the key.
unfoldable pub ht_insert : ℕ → Pointer → ℕ → Pointer → ℕ → Cmd Status
ht_insert va_ht key n_key value n_value = do
  lmc_log_op lmc_op_ht_set
  v ← lmc_ht_strdup value n_value
  write p2 v
  if v == 0 then insert_failed else insert_key va_ht key n_key

-- The second: the entry `hr` gets a new value.
unfoldable pub ht_update : ℕ → Pointer → ℕ → Cmd Status
ht_update hr value n_value = do
  va ← read (va_value hr)
  new ← lmc_ht_strdup value n_value
  write (va_value hr) new
  if new == 0 then pure (failed memory_pool_full) else do _ ← lmc_free va; pure ok

unfoldable pub ht_set : ℕ → Pointer → ℕ → Pointer → ℕ → Cmd Status
ht_set va_ht key n_key value n_value = do
  hr ← ht_lookup va_ht key n_key
  k ← field va_key hr
  if k == 0 then ht_insert va_ht key n_key value n_value else ht_update hr value n_value

-- The operation in the log is done again; `false` is an unknown operation.
unfoldable pub ht_redo : ℕ → Cmd Bool
ht_redo va_ht = do
  op ← read_int op_id
  k ← read p1
  v ← read p2
  if not (op == lmc_op_ht_set)
      then pure false
      else if k == 0
      then pure true
      else if v == 0
      then pure true
      else do
        n_key ← lmc_string_len k
        n_value ← lmc_string_len v
        _ ← ht_set va_ht (pool (lmc_string_data k)) n_key (pool (lmc_string_data v)) n_value
        pure true

-- The entry `va_hr` behind `va_p`, or at the head of bucket `k` for 0, is taken out and freed.
unfoldable pub remove : (va_ht k va_p va_hr : ℕ) → Cmd (Unit {0})
remove va_ht k va_p va_hr = do
  n ← read (va_next va_hr)
  if va_p == 0 then write (bucket va_ht k) 0 else write (va_next va_p) n
  s ← read (va_key va_hr)
  _ ← lmc_free s
  v ← read (va_value va_hr)
  _ ← lmc_free v
  _ ← lmc_free va_hr
  z ← read (table_size va_ht)
  write (table_size va_ht) (wsub z 1)

unfoldable pub delete_loop : ℕ → (va_ht k : ℕ) → Pointer → (n_key va_p va_hr : ℕ) → Cmd Bool
delete_loop zero va_ht b key n_key va_p va_hr = stop out_of_fuel
delete_loop (suc k) va_ht b key n_key va_p va_hr = if va_hr == 0 then pure false else do
  match ← is_match key n_key va_hr
  if match
      then (do remove va_ht b va_p va_hr; pure true)
      else do n ← read (va_next va_hr); delete_loop k va_ht b key n_key va_hr n

unfoldable pub ht_delete : ℕ → Pointer → ℕ → Cmd Bool
ht_delete va_ht key n_key = do
  b ← ht_hash_key key n_key
  va_hr ← read (bucket va_ht b)
  k ← rounds
  delete_loop k va_ht b key n_key 0 va_hr
