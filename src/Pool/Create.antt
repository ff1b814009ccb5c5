-- ===== src/Pool/Create.antt =====
-- `__local_memcache_create` of src/localmemcache.c: a pool is opened, and made if it is new. The
-- handle is in memory of the process, which does not run out here.
use localmemcache.Base.{ℕ, zero, suc, ltb, ◌==◌, if◌then◌else◌, Bool, true, false, none, some, List}
use localmemcache.Cmd.{Cmd, pure, ◌>>=◌, ◌>>◌, read, write}
use localmemcache.Errors.{
  ErrorType, Status, ok, failed, later, shm_lock_failed, shm_error, memory_pool_full,
  db_version_not_supported, not_reported,
}
use localmemcache.Hashtable.{ht_hash_create}
use localmemcache.Lock.{lmc_lock_obtain, lmc_lock_release, lmc_is_lock_working}
use localmemcache.Pool.{LocalMemcache, lmc_set_lock_flag, lmc_release_lock_flag}
use localmemcache.Shm.{LmcShm, lmc_shm_create}
use localmemcache.System.{Env, Sys, on_sem, on_file, waiting, open_lock}
use localmemcache.Valloc.{
  va_hash, is_lmc_already_initialized, lmc_get_db_version, lmc_db_version, lmc_init_memory,
  lmc_set_min_alloc_size,
}

-- A handle, and the value of `*ok`; or a null pointer, and the type of the error.
pub data Opened : Type 0 where
  opened : LocalMemcache → Bool → Opened
  not_opened : ErrorType → Opened

-- the labels `release_and_fail` and `unlock_and_fail`
unfoldable pub release_and_fail : List ℕ → ErrorType → Sys Opened
release_and_fail lock e = do s ← on_sem lock lmc_lock_release; pure (not_opened (later e s))

unfoldable pub unlock_and_fail : LocalMemcache → ErrorType → Sys Opened
unlock_and_fail lmc e = do
  s ← on_file lmc.shm.fd lmc_release_lock_flag
  release_and_fail lmc.lock (later e s)

-- The last step, `if (*ok) { ... }`.
unfoldable pub hand_over : (least : ℕ) → Bool → LocalMemcache → Sys Opened
hand_over least false lmc = pure (opened lmc false)
hand_over least true lmc = do
  on_file lmc.shm.fd (lmc_set_min_alloc_size least)
  _ ← on_file lmc.shm.fd lmc_release_lock_flag
  _ ← on_sem lmc.lock lmc_lock_release
  pure (opened lmc true)

-- A memory that is in use already, from the check of its version on,
unfoldable pub check_version : (least : ℕ) → Bool → LocalMemcache → Sys Opened
check_version least ok_flag lmc = do
  v ← on_file lmc.shm.fd lmc_get_db_version
  if ltb lmc_db_version v then unlock_and_fail lmc db_version_not_supported else do
    h ← on_file lmc.shm.fd (read va_hash)
    hand_over least ok_flag (record lmc { va_hash = h })

-- and from the lock flag on;
unfoldable pub join : (least : ℕ) (force : Bool) → Bool → LocalMemcache → Sys Opened
join least force false lmc = check_version least false lmc
join least force true lmc = do
  r ← on_file lmc.shm.fd lmc_set_lock_flag
  elim r [
    | ok ↦ check_version least true lmc
    | failed e ↦ if force then check_version least false lmc else release_and_fail lmc.lock e
  ]

-- a new memory, with its table.
unfoldable pub lay_out : ℕ → Cmd ℕ
lay_out size = do lmc_init_memory size; h ← ht_hash_create; write va_hash h; pure h

unfoldable pub set_up : (least : ℕ) → LocalMemcache → Sys Opened
set_up least lmc = do
  h ← on_file lmc.shm.fd (lay_out lmc.size)
  if h == 0
      then unlock_and_fail lmc memory_pool_full
      else hand_over least true (record lmc { va_hash = h })

-- the file mapped by `shm`
unfoldable pub enter :
    (namespace lock : List ℕ) (size least : ℕ) (force ok_flag : Bool) → LmcShm → Sys Opened
enter namespace lock size least force ok_flag shm = do
  let lmc : LocalMemcache = record {
    namespace = namespace;
    size = size;
    shm = shm;
    va_hash = 0;
    lock = lock;
  }
  known ← if ok_flag then on_file shm.fd is_lmc_already_initialized else pure true
  if known then join least force ok_flag lmc else set_up least lmc

-- The block after the test of the lock, whose result is `ok_flag`.
unfoldable pub attach :
    Env → (namespace lock : List ℕ) (size least : ℕ) (force ok_flag : Bool) → Sys Opened
attach env namespace lock size least force ok_flag = do
  r ← if ok_flag then waiting env lock lmc_lock_obtain else pure ok
  elim r [
    | failed e ↦ pure (not_opened not_reported)
    | ok ↦ do
      shm ← lmc_shm_create env namespace size
      elim shm [
        | none ↦ release_and_fail lock shm_error
        | some s ↦ enter namespace lock size least force ok_flag s
      ]
  ]

-- The loop at `retry`, with `left` rounds left. `check` stands for
-- `__local_memcache_check_namespace`.
unfoldable pub retry_create :
    Env
    → (List ℕ → Sys Status)
    → (left : ℕ) (namespace lock : List ℕ) (size least : ℕ) (force : Bool) → Sys Opened
retry_create env check zero namespace lock size least force = pure (not_opened shm_lock_failed)
retry_create env check (suc left) namespace lock size least force = do
  working ← waiting env lock lmc_is_lock_working
  if working
      then attach env namespace lock size least force true
      else if force
      then attach env namespace lock size least force false
      else do
        checked ← check namespace
        elim checked [
          | ok ↦ retry_create env check left namespace lock size least force
          | failed e ↦ pure (not_opened shm_lock_failed)
        ]

unfoldable pub __local_memcache_create :
    Env
    → (List ℕ → Sys Status)
    → (namespace : List ℕ) (size min_alloc_size : ℕ) (force : Bool) → Sys Opened
__local_memcache_create env check namespace size min_alloc_size force = do
  lock ← open_lock namespace
  retry_create env check 11 namespace lock size min_alloc_size force
