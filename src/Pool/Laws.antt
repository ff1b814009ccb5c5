-- ===== src/Pool/Laws.antt =====
-- The lock of a pool: taken, given back, and what is left where it is not taken.
use localmemcache.Base.{
  ℕ, suc, ◌+◌, ◌<◌, ◌≡◌, ◌≢◌, refl, sym, ap, ◌∙◌, arith, inl, inr, some, Bool-cases, ◌==◌, lt→ltb,
  ne→==, ==→eq, List,
}
use localmemcache.Cmd.{done}
use localmemcache.Cmd.Ends.{Ends, ends}
use localmemcache.Errors.{ErrorType, Status, ok, failed, shm_lock_failed, lock_error}
use localmemcache.Lock.{
  interrupted, lmc_lock_obtain, lmc_lock_release, sem_value_max, put, same_name, same_name→eq,
}
use localmemcache.Memory.{Mem, int, set_int}
use localmemcache.Pool.{
  LocalMemcache, retry_lock, flag_region, lmc_set_lock_flag, lmc_release_lock_flag,
  lmc_unlock_shm_region,
}
use localmemcache.Pool.Recovery.{lmc_lock_shm_region, __local_memcache_check_namespace}
use localmemcache.System.{World, Env, on_sem, Sys, set_contents, tick}
use localmemcache.System.Laws.{obtain-suc, waiting-zero, put-same}
use localmemcache.Valloc.{locked}

-- the pool's bytes
abbrev pub pool_bytes : LocalMemcache → World → Mem
pool_bytes lmc w = w.contents lmc.shm.fd

-- A semaphore of value `v` and a file of bytes `m`.
abbrev pub changed : LocalMemcache → (v : ℕ) → Mem → World → World
changed lmc v m w = set_contents (record w { sems = put lmc.lock v w.sems }) lmc.shm.fd m

pub retry_taken :
    (env : Env) (check : List ℕ → Sys Status) (left : ℕ) (lmc : LocalMemcache) (w : World) (v : ℕ)
    → w.sems lmc.lock ≡ some (suc v)
    → int (pool_bytes lmc w) locked ≡ 0
    → retry_lock env check (suc left) lmc w
      ≡ done ok (changed lmc v (set_int (pool_bytes lmc w) locked 1) w)
unfolding retry_lock flag_region lmc_set_lock_flag
retry_taken env check left lmc w v e free = rw (obtain-suc env lmc.lock w v e, free) refl

pub region_taken :
    (depth : ℕ) (env : Env) (lmc : LocalMemcache) (w : World) (v : ℕ)
    → w.sems lmc.lock ≡ some (suc v)
    → int (pool_bytes lmc w) locked ≡ 0
    → lmc_lock_shm_region depth env lmc w
      ≡ done ok (changed lmc v (set_int (pool_bytes lmc w) locked 1) w)
unfolding lmc_lock_shm_region
region_taken depth env lmc w v e free =
    retry_taken env (__local_memcache_check_namespace depth env) 10 lmc w v e free

pub region_given_back :
    (lmc : LocalMemcache) (w : World) (v : ℕ)
    → w.sems lmc.lock ≡ some v
    → v < sem_value_max
    → int (pool_bytes lmc w) locked ≡ 1
    → lmc_unlock_shm_region lmc w
      ≡ done ok (changed lmc (v + 1) (set_int (pool_bytes lmc w) locked 0) w)
unfolding lmc_unlock_shm_region lmc_release_lock_flag lmc_lock_release on_sem
region_given_back lmc w v e small set = rw (set, e, lt→ltb v sem_value_max small) refl

-- The same world, up to the clock.
pub record Unchanged (w w' : World) : Type 0 where
  pub sems : (name : List ℕ) → w'.sems name ≡ w.sems name
  pub contents : (i : ℕ) → w'.contents i ≡ w.contents i
  pub paths : w'.paths ≡ w.paths
  pub sizes : w'.st_size ≡ w.st_size

pub suc_is : (v : ℕ) → v + 1 ≡ suc v
suc_is v = omega arith

pub put-idle :
    (lock name : List ℕ) (v u : ℕ) (w : World)
    → w.sems lock ≡ some v
    → put lock v (put lock u w.sems) name ≡ w.sems name
put-idle lock name v u w e =
    elim (Bool-cases (same_name name lock))
      as (λ _. put lock v (put lock u w.sems) name ≡ w.sems name) [
        | inl h ↦ rw h (sym (ap w.sems (same_name→eq name lock h) ∙ e))
        | inr h ↦ rw h refl
      ]

contents-idle : (w : World) (i j : ℕ) → (set_contents w i (w.contents i)).contents j ≡ w.contents j
contents-idle w i j = elim (Bool-cases (j == i)) [
  | inl h ↦ rw h (ap w.contents (sym (==→eq j i h)))
  | inr h ↦ rw h refl
]

-- Why the lock of a pool is not taken, without a wait that ends with the time limit.
pub data Refused (env : Env) (lmc : LocalMemcache) (w : World) : ErrorType → Type 0 where
  wait_interrupted :
      w.sems lmc.lock ≡ some 0
      → env.others w.clock (tick w) ≡ tick w
      → env.wait w.clock ≡ interrupted
      → Refused env lmc w lock_error
  flag_taken :
      (v : ℕ)
      → w.sems lmc.lock ≡ some (suc v)
      → v < sem_value_max
      → int (pool_bytes lmc w) locked ≢ 0
      → Refused env lmc w shm_lock_failed

module _ (depth : ℕ) (env : Env) (lmc : LocalMemcache) (w : World) where
  pub region_refused :
      (e : ErrorType)
      → Refused env lmc w e
      → Ends (λ r w'. (r ≡ failed e) × Unchanged w w') (lmc_lock_shm_region depth env lmc w)
  unfolding lmc_lock_shm_region retry_lock flag_region lmc_set_lock_flag lmc_lock_release on_sem
      lmc_lock_obtain localmemcache.Lock.obtained localmemcache.Lock.lmc_sem_timed_wait
  region_refused e (wait_interrupted v idle i) =
      rw (waiting-zero env lmc.lock w lmc_lock_obtain v idle, i)
        (ends (
          refl,
          record {
            sems = λ name. elim (Bool-cases (same_name name lmc.lock)) [
              | inl h ↦ rw h (sym (ap w.sems (same_name→eq name lmc.lock h) ∙ v))
              | inr h ↦ rw h refl
            ];
            contents = λ i. refl;
            paths = refl;
            sizes = refl;
          },
        ))
  region_refused e (flag_taken v s small taken) =
      rw
        (
          obtain-suc env lmc.lock w v s,
          ne→== (int (pool_bytes lmc w) locked) 0 taken,
          put-same lmc.lock v w,
          lt→ltb v sem_value_max small,
        )
        (ends (
          refl,
          record {
            sems = λ name. put-idle lmc.lock name (v + 1) v w (rw (suc_is v) s);
            contents = λ i. contents-idle w lmc.shm.fd i;
            paths = refl;
            sizes = refl;
          },
        ))
