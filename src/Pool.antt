-- ===== src/Pool.antt =====
-- The parts of src/localmemcache.c that the others are made of: the lock flag in the mapped memory,
-- the lock of a pool, and the names of pools.
pub mod Create
pub mod Recovery
pub mod Operations
pub mod Laws
pub mod Region
pub mod Store
pub mod Fresh
pub mod Opening
pub mod Dropping
pub mod Exclusion
pub mod Crashed
pub mod Repaired
pub mod Misuse
use localmemcache.Base.{
  ℕ, zero, suc, ◌≡◌, refl, arith, ◌==◌, if◌then◌else◌, not, Option, none, some, List, [], ◌∷◌, ◌++◌,
  take,
}
use localmemcache.Cmd.{Cmd, done, pure, ◌>>=◌, ◌>>◌, read_int, write_int}
use localmemcache.Common.{lmc_clean_string, lmc_is_filename}
use localmemcache.Errors.{
  Status, ok, failed, later, shm_lock_failed, shm_unlock_failed, arg_error, lock_timed_out,
  not_reported,
}
use localmemcache.Lock.{lmc_lock_obtain, lmc_lock_release}
use localmemcache.Memory.{Mem, int, set_int}
use localmemcache.Memory.Laws.{load-store_same}
use localmemcache.Shm.{LmcShm}
use localmemcache.System.{Env, Sys, on_sem, on_file, waiting}
use localmemcache.Valloc.{locked}

unfoldable pub lmc_set_lock_flag : Cmd Status
lmc_set_lock_flag = do
  l ← read_int locked
  if not (l == 0) then pure (failed shm_lock_failed) else do write_int locked 1; pure ok

unfoldable pub lmc_release_lock_flag : Cmd Status
lmc_release_lock_flag = do
  l ← read_int locked
  if not (l == 1) then pure (failed shm_unlock_failed) else do write_int locked 0; pure ok

-- `local_memcache_t`. Its memory `base` is that of the file mapped by `shm`.
pub record LocalMemcache : Type 0 where
  pub namespace : List ℕ
  pub size : ℕ
  pub shm : LmcShm
  pub va_hash : ℕ
  pub lock : List ℕ

-- The semaphore is released whether or not the flag was; the result is that of the flag.
unfoldable pub lmc_unlock_shm_region : LocalMemcache → Sys Status
lmc_unlock_shm_region lmc = do
  r ← on_file lmc.shm.fd lmc_release_lock_flag
  s ← on_sem lmc.lock lmc_lock_release
  pure (elim r [ ok ↦ ok | failed e ↦ failed (later e s) ])

-- The lock flag, once the semaphore is taken.
unfoldable pub flag_region : LocalMemcache → Sys Status
flag_region lmc = do
  r ← on_file lmc.shm.fd lmc_set_lock_flag
  elim r [
    | ok ↦ pure ok
    | failed e ↦ do s ← on_sem lmc.lock lmc_lock_release; pure (failed (later e s))
  ]

-- The loop at `retry` in `lmc_lock_shm_region`, with `left` rounds left. `check` stands for
-- `__local_memcache_check_namespace`.
unfoldable pub retry_lock : Env → (List ℕ → Sys Status) → (left : ℕ) → LocalMemcache → Sys Status
retry_lock env check zero lmc = pure (failed not_reported)
retry_lock env check (suc left) lmc = do
  r ← waiting env lmc.lock lmc_lock_obtain
  elim r [
    | ok ↦ flag_region lmc
    | failed lock_timed_out ↦ do
      checked ← check lmc.namespace
      elim checked [ ok ↦ retry_lock env check left lmc | failed e ↦ pure (failed e) ]
    | failed e ↦ pure (failed e)
  ]

-- `none` is a null pointer.
unfoldable pub lmc_namespace_or_filename : Option (List ℕ) → Option (List ℕ) → (List ℕ) × Status
lmc_namespace_or_filename (some ons) ofn = (lmc_clean_string ons, ok)
lmc_namespace_or_filename none (some ofn) =
    (if lmc_is_filename ofn then ofn else b'.' ∷ b'/' ∷ ofn, ok)
lmc_namespace_or_filename none none = ([], failed arg_error)

-- `snprintf` keeps 1022 characters.
unfoldable pub lmc_checkize : List ℕ → List ℕ
lmc_checkize s = take 1022 (s ++ b'-' ∷ b'c' ∷ b'h' ∷ b'e' ∷ b'c' ∷ b'k' ∷ [])

-- On a memory whose lock flag is 0, `lmc_set_lock_flag` sets it; a second call fails with
-- `ShmLockFailed` and changes nothing; `lmc_release_lock_flag` then clears it, and it can be
-- set again.
pub lmc_set_lock_flag-excludes :
    (m : Mem)
    → int m locked ≡ 0
    → (lmc_set_lock_flag m ≡ done ok (set_int m locked 1))
      × (lmc_set_lock_flag (set_int m locked 1)
          ≡ done (failed shm_lock_failed) (set_int m locked 1))
      × (lmc_release_lock_flag (set_int m locked 1)
          ≡ done ok (set_int (set_int m locked 1) locked 0))
      × (lmc_set_lock_flag (set_int (set_int m locked 1) locked 0)
          ≡ done ok (set_int (set_int (set_int m locked 1) locked 0) locked 1))
unfolding lmc_set_lock_flag lmc_release_lock_flag
lmc_set_lock_flag-excludes m free =
    let set = load-store_same 4 m locked 1 (omega arith) in
    let clear = load-store_same 4 (set_int m locked 1) locked 0 (omega arith) in
    (rw free refl, rw set refl, rw set refl, rw clear refl)
