-- ===== src/Pool/Region.antt =====
-- Code between `lmc_lock_shm_region` and `lmc_unlock_shm_region`.
use localmemcache.Base.{ℕ, suc, ◌+◌, ◌<◌, ◌≡◌, ◌≢◌, refl, ap, ◌∙◌, none, some, ne→==, List}
use localmemcache.Cmd.{Cmd}
use localmemcache.Cmd.Ends
use localmemcache.Cmd.Ends.{Ends, ends, outcome}
use localmemcache.Errors.{ErrorType, ok}
use localmemcache.Lock.{sem_value_max, put}
use localmemcache.Memory.{Mem, int, set_int}
use localmemcache.Pool.{LocalMemcache, lmc_unlock_shm_region}
use localmemcache.Pool.Laws.{
  pool_bytes, region_taken, region_given_back, region_refused, Refused, Unchanged, put-idle, suc_is,
}
use localmemcache.Pool.Operations.{in_region}
use localmemcache.Pool.Recovery.{lmc_lock_shm_region}
use localmemcache.System.{World, Env, on_file}
use localmemcache.System.Laws.{put-same, set_contents-same}
use localmemcache.Valloc.{locked}

-- The lock is given back, with the bytes `m1` in the pool's file, up to the lock flag.
pub record Released (lmc : LocalMemcache) (w : World) (m1 : Mem) (w' : World) : Type 0 where
  pub sems : (name : List ℕ) → w'.sems name ≡ w.sems name
  pub bytes : pool_bytes lmc w' ≡ set_int m1 locked 0
  pub other_files : (j : ℕ) → j ≢ lmc.shm.fd → w'.contents j ≡ w.contents j
  pub paths : w'.paths ≡ w.paths

-- A pool that no process has locked.
pub record Unlocked (lmc : LocalMemcache) (w : World) : Type 0 where
  pub value : ℕ
  pub sem : w.sems lmc.lock ≡ some (suc value)
  pub small : value < sem_value_max
  pub flag : int (pool_bytes lmc w) locked ≡ 0

-- A process has the lock of a pool that was unlocked in `w`, and the pool's bytes are `m`.
pub record Inside (lmc : LocalMemcache) (w : World) (v : ℕ) (m : Mem) (w' : World) : Type 0 where
  pub sems : w'.sems ≡ put lmc.lock v w.sems
  pub bytes : pool_bytes lmc w' ≡ m
  pub other_files : (j : ℕ) → j ≢ lmc.shm.fd → w'.contents j ≡ w.contents j
  pub paths : w'.paths ≡ w.paths

module _ (lmc : LocalMemcache) (w : World) where
  pub enter_region :
      (depth : ℕ) (env : Env) (u : Unlocked lmc w)
      → Ends
          (λ r w'. (r ≡ ok) × Inside lmc w u.value (set_int (pool_bytes lmc w) locked 1) w')
          (lmc_lock_shm_region depth env lmc w)
  enter_region depth env u = rw (region_taken depth env lmc w u.value u.sem u.flag) (
      ends (
        refl,
        record {
          sems = refl;
          bytes = set_contents-same w lmc.shm.fd (set_int (pool_bytes lmc w) locked 1);
          other_files = λ j ne. rw (ne→== j lmc.shm.fd ne) refl;
          paths = refl;
        },
      ))

  pub inside :
      {A : Type 0} {P : A → Mem → Type 0} (c : Cmd A) (v : ℕ) (m : Mem) (w' : World)
      → Inside lmc w v m w'
      → Ends P (c m)
      → Ends (λ a w''. (m' : Mem) × P a m' × Inside lmc w v m' w'') (on_file lmc.shm.fd c w')
  inside c v m w' i run =
      let (a, m', e, p) = outcome run in
      rw (i.bytes, e)
        (ends (
          m',
          p,
          record {
            sems = i.sems;
            bytes = set_contents-same w' lmc.shm.fd m';
            other_files = λ j ne. rw (ne→== j lmc.shm.fd ne) (i.other_files j ne);
            paths = i.paths;
          },
        ))

  pub leave_region :
      (u : Unlocked lmc w) (m : Mem) (w' : World)
      → Inside lmc w u.value m w'
      → int m locked ≡ 1
      → Ends (λ r w''. (r ≡ ok) × Released lmc w m w'') (lmc_unlock_shm_region lmc w')
  leave_region u m w' i set =
      rw
        (region_given_back lmc w' u.value (rw i.sems (put-same lmc.lock u.value w)) u.small
          (rw i.bytes set))
        (ends (
          refl,
          record {
            sems = λ name.
                rw i.sems
                  (put-idle lmc.lock name (u.value + 1) u.value w (rw (suc_is u.value) u.sem));
            bytes =
                set_contents-same w' lmc.shm.fd (set_int (pool_bytes lmc w') locked 0)
                ∙ ap (λ b. set_int b locked 0) i.bytes;
            other_files = λ j ne. rw (ne→== j lmc.shm.fd ne) (i.other_files j ne);
            paths = i.paths;
          },
        ))

module _ (depth : ℕ) (env : Env) (lmc : LocalMemcache) (w : World) where
  -- The code of an operation, on an unlocked pool.
  pub on_Unlocked :
      {A : Type 0} {P : A → Mem → Type 0} (c : Cmd A)
      → Unlocked lmc w
      → Ends (λ a m. P a m × (int m locked ≡ 1)) (c (set_int (pool_bytes lmc w) locked 1))
      → Ends
          (λ r w'. (a : A) × (m : Mem) × (r ≡ some a) × P a m × Released lmc w m w')
          (in_region depth env lmc c w)
  unfolding in_region
  on_Unlocked c u run = Ends.bind (enter_region lmc w depth env u) λ r w1 (e, i). rw e (
      Ends.bind (inside lmc w c u.value (set_int (pool_bytes lmc w) locked 1) w1 i run)
        λ a w2 (m, (p, set), i2).
          Ends.bind (leave_region lmc w u m w2 i2 set)
            λ s w3 (f, released). rw f (ends (a, m, refl, p, released)))

  -- An operation whose lock is refused.
  pub on_refused :
      {A : Type 0} (c : Cmd A) (e : ErrorType)
      → Refused env lmc w e
      → Ends (λ r w'. (r ≡ none) × Unchanged w w') (in_region depth env lmc c w)
  unfolding in_region
  on_refused c e refused =
      Ends.bind (region_refused depth env lmc w e refused)
        λ r w' (f, same). rw f (ends (refl, same))
