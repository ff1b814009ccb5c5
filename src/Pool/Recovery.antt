-- ===== src/Pool/Recovery.antt =====
-- The recovery of src/localmemcache.c, and the functions that lead to it: a process that finds a
-- lock taken for too long repairs the pool, under a second lock.
use localmemcache.Base.{
  ℕ, zero, suc, ◌*◌, ltb, ◌==◌, if◌then◌else◌, Bool, true, false, not, Option, none, some, List,
}
use localmemcache.Cmd.{
  Cmd, done, pure, stop, out_of_fuel, null_pointer, ◌>>=◌, ◌>>◌, read, read_int, write_int,
}
use localmemcache.Errors.{Status, ok, failed, recovery_failed}
use localmemcache.Hashtable.{ht_hash_destroy, ht_redo}
use localmemcache.Hashtable.Walks.{ht_check_memory}
use localmemcache.Lock.{
  lmc_lock_obtain_mandatory, lmc_lock_release, lmc_lock_repair, lmc_clear_namespace_lock,
}
use localmemcache.Pool.{
  LocalMemcache, retry_lock, lmc_unlock_shm_region, lmc_namespace_or_filename, lmc_checkize,
}
use localmemcache.Pool.Create.{Opened, opened, not_opened, __local_memcache_create}
use localmemcache.Shm.{
  lmc_does_namespace_exist, lmc_namespace_size, lmc_clean_namespace, lmc_shm_destroy,
}
use localmemcache.System.{Env, Sys, on_sem, on_sems, on_file, waiting, open_lock, sem_value}
use localmemcache.Valloc.{va_hash, locked, op_id}

-- Without the lock, and with it; `lock_region` stands for `lmc_lock_shm_region`.
unfoldable pub free_unlocked : Env → LocalMemcache → Sys Status
free_unlocked env lmc = do
  _ ← on_file lmc.shm.fd (ht_hash_destroy lmc.va_hash)
  _ ← lmc_shm_destroy env lmc.shm
  pure ok

unfoldable pub free_locked : Env → (LocalMemcache → Sys Status) → LocalMemcache → Sys Status
free_locked env lock_region lmc = do
  r ← lock_region lmc
  elim r [
    | failed e ↦ pure (failed e)
    | ok ↦ do
      _ ← on_file lmc.shm.fd (ht_hash_destroy lmc.va_hash)
      u ← lmc_unlock_shm_region lmc
      elim u [ failed e ↦ pure (failed e) | ok ↦ do _ ← lmc_shm_destroy env lmc.shm; pure ok ]
  ]

-- What is to be done about a pool whose lock was found taken.
pub data Repair : Type 0 where
  release unlock give_up : Repair

-- the test of the operation in the log, and of the memory
unfoldable pub redo : Cmd Repair
redo = do
  op ← read_int op_id
  if op == 0 then pure unlock else do
    h ← read va_hash
    done_again ← ht_redo h
    pure (if done_again then unlock else give_up)

unfoldable pub check_and_unlock : Repair → Cmd Repair
check_and_unlock release = pure release
check_and_unlock give_up = pure give_up
check_and_unlock unlock = do
  h ← read va_hash
  sound ← ht_check_memory h
  if not sound then pure give_up else do write_int locked 0; pure release

-- The end is `release`, or `give_up` for the label `failed`.
unfoldable pub repair_memory : Cmd Repair
repair_memory = do
  l ← read_int locked
  r ← if l == 0 then pure release else redo
  check_and_unlock r

-- at `release`: a semaphore of value 0 is posted
unfoldable pub post_if_taken : List ℕ → Sys (Unit {0})
post_if_taken lock w =
    if sem_value w lock == 0 then (on_sem lock lmc_lock_release >>= λ _. pure tt) w else done tt w

unfoldable pub close_recovery :
    Env → (LocalMemcache → Sys Status) → (check_l : List ℕ) → LocalMemcache → Sys Status
close_recovery env lock_region check_l lmc = do
  _ ← free_locked env lock_region lmc
  _ ← on_sem check_l lmc_lock_release
  pure ok

unfoldable pub repair_pool :
    Env → (LocalMemcache → Sys Status) → (check_l : List ℕ) → LocalMemcache → Sys Status
repair_pool env lock_region check_l lmc = do
  r ← on_file lmc.shm.fd repair_memory
  elim r [
    | give_up ↦ do
      _ ← free_unlocked env lmc
      _ ← on_sem check_l lmc_lock_release
      pure (failed recovery_failed)
    | _ ↦ do post_if_taken lmc.lock; close_recovery env lock_region check_l lmc
  ]

-- The part under the second lock. A pool that cannot be attached leads to the label `failed` with
-- a null pointer, which `__local_memcache_free` follows.
unfoldable pub recover :
    Env
    → (List ℕ → Sys Status)
    → (LocalMemcache → Sys Status)
    → (clean_ns check_l : List ℕ) → Sys Status
recover env check lock_region clean_ns check_l = do
  ns_size ← lmc_namespace_size env clean_ns
  made ← __local_memcache_create env check clean_ns ns_size 0 true
  elim made [
    | not_opened e ↦ stop null_pointer
    | opened lmc true ↦ close_recovery env lock_region check_l lmc
    | opened lmc false ↦ repair_pool env lock_region check_l lmc
  ]

abbrev clear : List ℕ → Sys (Unit {0})
clear ns = on_sems λ sems. (tt, lmc_clear_namespace_lock ns sems)

unfoldable pub check_with :
    Env → (List ℕ → Sys Status) → (LocalMemcache → Sys Status) → (clean_ns : List ℕ) → Sys Status
check_with env check lock_region clean_ns = do
  known ← lmc_does_namespace_exist env clean_ns
  if not known then (do clear (lmc_checkize clean_ns); clear clean_ns; pure ok) else do
    check_l ← open_lock (lmc_checkize clean_ns)
    r ← waiting env check_l lmc_lock_obtain_mandatory
    elim r [ failed e ↦ pure (failed e) | ok ↦ recover env check lock_region clean_ns check_l ]

-- A check takes a lock to free its handle, and that may start a check: `depth` of them.
unfoldable pub __local_memcache_check_namespace :
    (depth : ℕ) → Env → (clean_ns : List ℕ) → Sys Status
__local_memcache_check_namespace zero env clean_ns = stop out_of_fuel
__local_memcache_check_namespace (suc depth) env clean_ns =
    check_with env (__local_memcache_check_namespace depth env)
      (retry_lock env (__local_memcache_check_namespace depth env) 11) clean_ns

unfoldable pub lmc_lock_shm_region : (depth : ℕ) → Env → LocalMemcache → Sys Status
lmc_lock_shm_region depth env = retry_lock env (__local_memcache_check_namespace depth env) 11

unfoldable pub local_memcache_free : (depth : ℕ) → Env → LocalMemcache → Sys Status
local_memcache_free depth env = free_locked env (lmc_lock_shm_region depth env)

unfoldable pub local_memcache_check_namespace :
    (depth : ℕ) → Env → (namespace filename : Option (List ℕ)) → Sys Status
local_memcache_check_namespace depth env namespace filename =
    let (clean_ns, r) = lmc_namespace_or_filename namespace filename in
    elim r [ failed e ↦ pure (failed e) | ok ↦ __local_memcache_check_namespace depth env clean_ns ]

-- `size_mb * 1024 * 1024`, which is not negative; `none` is a `size_mb` of 0.0.
abbrev pub pool_size : Option ℕ → ℕ
pool_size none = 1024 * (1024 * 1024)
pool_size (some bytes) = if ltb bytes (1024 * 1024) then 1024 * 1024 else bytes

unfoldable pub local_memcache_create :
    (depth : ℕ)
    → Env
    → (namespace filename : Option (List ℕ)) (size : Option ℕ) (min_alloc_size : ℕ) → Sys Opened
local_memcache_create depth env namespace filename size min_alloc_size =
    let (clean_ns, r) = lmc_namespace_or_filename namespace filename in
    elim r [
      | failed e ↦ pure (not_opened e)
      | ok ↦
          __local_memcache_create env (__local_memcache_check_namespace depth env) clean_ns
            (pool_size size) min_alloc_size false
    ]

-- `lmc_lock_init`, `lmc_lock_repair` and `lmc_lock_free`
unfoldable pub repair_lock : List ℕ → Sys (Unit {0})
repair_lock ns = do l ← open_lock ns; on_sem l (λ v. (tt, lmc_lock_repair v))

-- The result does not tell whether the file was removed.
unfoldable pub local_memcache_drop_namespace :
    Env → (namespace filename : Option (List ℕ)) (force : Bool) → Sys Bool
local_memcache_drop_namespace env namespace filename force =
    let (clean_ns, r) = lmc_namespace_or_filename namespace filename in
    elim r [
      | failed e ↦ pure true
      | ok ↦ do
        _ ← lmc_clean_namespace env clean_ns
        if not force
            then pure true
            else do repair_lock clean_ns; repair_lock (lmc_checkize clean_ns); pure true
    ]
