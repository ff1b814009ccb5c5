-- ===== src/System/Laws.antt =====
-- Semaphores and files: reads after a change, and waits that are none.
use localmemcache.Base.{ℕ, suc, ◌≡◌, refl, eq→==, ne→==, List, some, arith}
use localmemcache.Cmd.{done}
use localmemcache.Errors.{ok}
use localmemcache.Lock.{Wait, put, same_name_refl, lmc_lock_obtain}
use localmemcache.Memory.{Mem}
use localmemcache.System.{World, Env, set_contents, waiting, on_sem, with_sem, tick}

pub put-same : (name : List ℕ) (v : ℕ) (w : World) → put name v w.sems name ≡ some v
put-same name v w = rw (same_name_refl name) refl

pub set_contents-same : (w : World) (i : ℕ) (m : Mem) → (set_contents w i m).contents i ≡ m
set_contents-same w i m = rw (eq→== i i refl) refl

module _ (env : Env) (name : List ℕ) (w : World) where
  pub on_sem-some :
      {A : Type 0} (f : ℕ → A × ℕ) (v : ℕ)
      → w.sems name ≡ some v
      → on_sem name f w ≡ with_sem name w (f v)
  unfolding on_sem
  on_sem-some f v e = rw e refl

  pub waiting-suc :
      {A : Type 0} (f : Wait → ℕ → A × ℕ) (v : ℕ)
      → w.sems name ≡ some (suc v)
      → waiting env name f w ≡ with_sem name w (f (env.wait w.clock) (suc v))
  unfolding waiting
  waiting-suc f v e = rw (e, ne→== (suc v) 0 (omega arith), e) refl

  -- The semaphore is 0 and the others leave everything as it is.
  pub waiting-zero :
      {A : Type 0} (f : Wait → ℕ → A × ℕ)
      → w.sems name ≡ some 0
      → env.others w.clock (tick w) ≡ tick w
      → waiting env name f w ≡ with_sem name (tick w) (f (env.wait w.clock) 0)
  unfolding waiting
  waiting-zero f e idle = rw (e, idle, e) refl

  pub obtain-suc :
      (v : ℕ)
      → w.sems name ≡ some (suc v)
      → waiting env name lmc_lock_obtain w ≡ done ok (record w { sems = put name v w.sems })
  unfolding lmc_lock_obtain
  obtain-suc v e = rw (waiting-suc lmc_lock_obtain v e) refl
