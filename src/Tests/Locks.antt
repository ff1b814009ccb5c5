-- ===== src/Tests/Locks.antt =====
-- Runs of the locks.
use localmemcache.Base.{ℕ, ◌≡◌, refl, List, [], ◌∷◌, none}
use localmemcache.Cmd.{done}
use localmemcache.Errors.{ok, failed, shm_lock_failed}
use localmemcache.Lock.{
  timed_out, lmc_lock_repair, lmc_lock_obtain, lmc_lock_release, lmc_is_locked, lmc_lock_repair-one,
  lmc_namespacify, lmc_clear_namespace_lock, lmc_clear_namespace_lock-other, put,
}
use localmemcache.Memory.{set_int, load}
use localmemcache.Pool.{lmc_set_lock_flag, lmc_release_lock_flag, lmc_set_lock_flag-excludes}
use localmemcache.Valloc.{locked}

lmc_lock_repair-one_example :
    (lmc_lock_repair 3 ≡ 1) × (lmc_lock_obtain timed_out (lmc_lock_repair 3) ≡ (ok, 0))
lmc_lock_repair-one_example = lmc_lock_repair-one timed_out 3

-- The semaphore of "abc", which is "/lmc-17862".
abbrev pub abc : List ℕ
abc = b'a' ∷ b'b' ∷ b'c' ∷ []

lmc_clear_namespace_lock-other_example :
    lmc_clear_namespace_lock abc (put (lmc_namespacify abc) 0 (λ _. none)) (lmc_namespacify abc)
    ≡ put (lmc_namespacify abc) 0 (λ _. none) (lmc_namespacify abc)
unfolding lmc_namespacify localmemcache.Common.lmc_hash localmemcache.Common.lmc_clean_string
    localmemcache.Common.lmc_is_filename localmemcache.Lock.hex
lmc_clear_namespace_lock-other_example =
    lmc_clear_namespace_lock-other abc (lmc_namespacify abc)
      (put (lmc_namespacify abc) 0 (λ _. none)) refl

lmc_set_lock_flag-excludes_example :
    (lmc_set_lock_flag (λ _. 0) ≡ done ok (set_int (λ _. 0) locked 1))
    × (lmc_set_lock_flag (set_int (λ _. 0) locked 1)
        ≡ done (failed shm_lock_failed) (set_int (λ _. 0) locked 1))
    × (lmc_release_lock_flag (set_int (λ _. 0) locked 1)
        ≡ done ok (set_int (set_int (λ _. 0) locked 1) locked 0))
    × (lmc_set_lock_flag (set_int (set_int (λ _. 0) locked 1) locked 0)
        ≡ done ok (set_int (set_int (set_int (λ _. 0) locked 1) locked 0) locked 1))
unfolding load
lmc_set_lock_flag-excludes_example = lmc_set_lock_flag-excludes (λ _. 0) refl
