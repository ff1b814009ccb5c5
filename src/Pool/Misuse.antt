-- ===== src/Pool/Misuse.antt =====
-- What goes wrong with the lock of a pool: errors, and a lock given back that was not taken.
use localmemcache.Base.{ℕ, ◌≡◌, refl, ap, ◌∙◌, arith, none, some, false}
use localmemcache.Cmd.Ends
use localmemcache.Cmd.Ends.{Ends, ends}
use localmemcache.Errors.{ErrorType, lock_error}
use localmemcache.Lock.{interrupted}
use localmemcache.Memory.{Mem, int, set_int}
use localmemcache.Memory.Laws.{load-store_same}
use localmemcache.Pool.{LocalMemcache}
use localmemcache.Pool.Laws.{
  pool_bytes, region_refused, region_given_back, Refused, wait_interrupted, Unchanged,
}
use localmemcache.Pool.Operations.{
  local_memcache_set, local_memcache_delete, local_memcache_get_new, __local_memcache_get,
}
use localmemcache.Pool.Region.{on_refused}
use localmemcache.System.{World, Env, tick, set_contents}
use localmemcache.System.Laws.{put-same, set_contents-same}
use localmemcache.Valloc.{locked}

module _ (depth : ℕ) (env : Env) (lmc : LocalMemcache) (w : World) where
  -- Where the lock of a pool is not taken, because the wait is interrupted, or because the
  -- lock flag is set though the semaphore is not 0, `local_memcache_set` and
  -- `local_memcache_delete` end with 0, and no semaphore, no file and no path has changed.
  pub local_memcache_set-Refused :
      (e : ErrorType) (key : Mem) (n_key : ℕ) (value : Mem) (n_value : ℕ)
      → Refused env lmc w e
      → Ends
          (λ r w'. (r ≡ false) × Unchanged w w')
          (local_memcache_set depth env lmc key n_key value n_value w)
        × Ends
            (λ r w'. (r ≡ false) × Unchanged w w')
            (local_memcache_delete depth env lmc key n_key w)
  unfolding local_memcache_set local_memcache_delete
  local_memcache_set-Refused e key n_key value n_value refused = (
    Ends.bind (on_refused depth env lmc w _ e refused) λ r w' (f, same). rw f (ends (refl, same)),
    Ends.bind (on_refused depth env lmc w _ e refused) λ r w' (f, same). rw f (ends (refl, same)),
  )

  get_refused :
      (e : ErrorType) (key : Mem) (n_key : ℕ)
      → Refused env lmc w e
      → Ends
          (λ v w'. (v ≡ (0, 0)) × Unchanged w w')
          (__local_memcache_get depth env lmc key n_key w)
  unfolding __local_memcache_get
  get_refused e key n_key refused =
      Ends.bind (region_refused depth env lmc w e refused)
        λ r w' (f, same). rw f (ends (refl, same))

  -- Where another process has the lock of a pool, the semaphore at 0 and the flag at 1, and
  -- the wait for it is interrupted, `local_memcache_get_new` returns nothing and leaves the
  -- semaphore at 1 and the flag at 0, so the lock of the other process is gone.
  pub local_memcache_get_new-unlocks :
      (key : Mem) (n_key : ℕ)
      → w.sems lmc.lock ≡ some 0
      → int (pool_bytes lmc w) locked ≡ 1
      → env.others w.clock (tick w) ≡ tick w
      → env.wait w.clock ≡ interrupted
      → Ends
          (λ r w'. (r ≡ none) × (w'.sems lmc.lock ≡ some 1) × (int (pool_bytes lmc w') locked ≡ 0))
          (local_memcache_get_new depth env lmc key n_key w)
  unfolding local_memcache_get_new __local_memcache_get
  local_memcache_get_new-unlocks key n_key sem flag idle ended =
      let fd = lmc.shm.fd in
      Ends.bind (get_refused lock_error key n_key (wait_interrupted sem idle ended))
        λ v w1 (f, same).
          let m = w1.contents fd in
          let w2 = set_contents w1 fd m in
          let e2 : w2.contents fd ≡ m = set_contents-same w1 fd m in
          let set : int (w2.contents fd) locked ≡ 1 =
            ap (λ b. int b locked) (e2 ∙ same.contents fd) ∙ flag in
          rw (region_given_back lmc w2 0 (same.sems lmc.lock ∙ sem) (omega arith) set, f)
            (ends (
              refl,
              put-same lmc.lock 1 w2,
              ap (λ b. int b locked) (set_contents-same w2 fd (set_int (w2.contents fd) locked 0))
                  ∙ load-store_same 4 (w2.contents fd) locked 0 (omega arith),
            ))
