-- ===== src/Pool/Exclusion.antt =====
-- Several processes on one pool, as a step relation: at most one of them has the lock.
use localmemcache.Base.{
  ℕ, suc, ◌-◌, ◌≤◌, ◌≡◌, refl, sym, ap, ◌∙◌, arith, some, List, ◌∷◌, ◌++◌, length, length-append,
  subst,
}
use localmemcache.Cmd.{RunOn, done, stopped, Cmd}
use localmemcache.Cmd.Ends.{outcome}
use localmemcache.Errors.{ErrorType, Status, ok, failed}
use localmemcache.Memory.{Mem, int, set_int}
use localmemcache.Memory.Laws.{load-store_same}
use localmemcache.Pool.{LocalMemcache, lmc_unlock_shm_region}
use localmemcache.Pool.Laws.{pool_bytes, region_taken, region_given_back, region_refused, Refused}
use localmemcache.Pool.Recovery.{lmc_lock_shm_region}
use localmemcache.System.{World, Env, on_file, set_contents, value_or_zero}
use localmemcache.System.Laws.{put-same, set_contents-same}
use localmemcache.Valloc.{locked}

-- One step of one process, with the processes that have the lock before and after it. Each has its
-- own environment. A process locks the pool while its semaphore is not 0, fails to lock it, works
-- on its bytes without touching the lock flag while it has the lock, and gives it back.
pub data Step (lmc : LocalMemcache) : List ℕ → World → List ℕ → World → Type 0 where
  lock :
      {ps : List ℕ} {w w' : World} (p depth : ℕ) (env : Env) (v : ℕ)
      → w.sems lmc.lock ≡ some (suc v)
      → lmc_lock_shm_region depth env lmc w ≡ done ok w'
      → Step lmc ps w (p ∷ ps) w'
  fail :
      {ps : List ℕ} {w w' : World} (depth : ℕ) (env : Env) (e : ErrorType)
      → Refused env lmc w e
      → lmc_lock_shm_region depth env lmc w ≡ done (failed e) w'
      → Step lmc ps w ps w'
  work :
      {ps : List ℕ} {w w' : World} (pre : List ℕ) (p : ℕ) (post : List ℕ) (c : Cmd (Unit {0}))
      (m' : Mem)
      → ps ≡ pre ++ p ∷ post
      → c (pool_bytes lmc w) ≡ done tt m'
      → int m' locked ≡ int (pool_bytes lmc w) locked
      → on_file lmc.shm.fd c w ≡ done tt w'
      → Step lmc ps w ps w'
  unlock :
      {ps : List ℕ} {w w' : World} (pre : List ℕ) (p : ℕ) (post : List ℕ) (r : Status)
      → ps ≡ pre ++ p ∷ post
      → lmc_unlock_shm_region lmc w ≡ done r w'
      → Step lmc ps w (pre ++ post) w'

pub data Reach (lmc : LocalMemcache) (ps : List ℕ) (w : World) : List ℕ → World → Type 0 where
  here : Reach lmc ps w ps w
  next :
      {qs rs : List ℕ} {u x : World}
      → Reach lmc ps w qs u
      → Step lmc qs u rs x
      → Reach lmc ps w rs x

-- The semaphore and the flag say how many processes have the lock, which are one at most.
pub record Exclusive (lmc : LocalMemcache) (n : ℕ) (w : World) : Type 0 where
  pub one : n ≤ 1
  pub sem : w.sems lmc.lock ≡ some (1 - n)
  pub flag : int (pool_bytes lmc w) locked ≡ n

world_of : {A : Type 0} → RunOn World A → World → World
world_of (done a w) d = w
world_of (stopped f) d = d

same_world :
    {A : Type 0} {r : RunOn World A} {a b : A} {w w' : World}
    → r ≡ done a w
    → r ≡ done b w'
    → w ≡ w'
unfolding world_of
same_world {w = w} e f = ap (λ r. world_of r w) (sym e ∙ f)

one_more : (n v : ℕ) → suc v ≡ 1 - n → (n ≡ 0) × (v ≡ 0)
one_more n v e = (omega arith, omega arith)

module _ (lmc : LocalMemcache) (w : World) (n : ℕ) (x : Exclusive lmc n w) where
  Exclusive-lock :
      (depth : ℕ) (env : Env) (v : ℕ) (w' : World)
      → w.sems lmc.lock ≡ some (suc v)
      → lmc_lock_shm_region depth env lmc w ≡ done ok w'
      → Exclusive lmc (suc n) w'
  Exclusive-lock depth env v w' sem run =
      let (none_inside, empty) = one_more n v (ap value_or_zero (sym sem ∙ x.sem)) in
      let b = set_int (pool_bytes lmc w) locked 1 in
      subst (λ u. Exclusive lmc (suc n) u)
        (same_world (region_taken depth env lmc w v sem (x.flag ∙ none_inside)) run)
        (record {
          one = omega (arith, none_inside);
          sem = put-same lmc.lock v w ∙ ap some (omega (arith, none_inside, empty));
          flag =
              ap (λ m. int m locked) (set_contents-same w lmc.shm.fd b)
              ∙ (load-store_same 4 (pool_bytes lmc w) locked 1 (omega arith)
                  ∙ omega (arith, none_inside));
        })

  Exclusive-unlock :
      (r : Status) (w' : World)
      → n ≡ 1
      → lmc_unlock_shm_region lmc w ≡ done r w'
      → Exclusive lmc 0 w'
  Exclusive-unlock r w' single run =
      let free : 1 - n ≡ 0 = omega (arith, single) in
      let b = set_int (pool_bytes lmc w) locked 0 in
      subst (λ u. Exclusive lmc 0 u)
        (same_world
          (region_given_back lmc w 0 (x.sem ∙ ap some free) (omega arith) (x.flag ∙ single)) run)
        (record {
          one = omega arith;
          sem = put-same lmc.lock 1 w;
          flag =
              ap (λ m. int m locked) (set_contents-same w lmc.shm.fd b)
              ∙ load-store_same 4 (pool_bytes lmc w) locked 0 (omega arith);
        })

  Exclusive-fail :
      (depth : ℕ) (env : Env) (e : ErrorType) (w' : World)
      → Refused env lmc w e
      → lmc_lock_shm_region depth env lmc w ≡ done (failed e) w'
      → Exclusive lmc n w'
  Exclusive-fail depth env e w' refused run =
      let (s, w1, first, (f, same)) = outcome (region_refused depth env lmc w e refused) in
      subst (λ u. Exclusive lmc n u) (same_world first run)
        (record {
          one = x.one;
          sem = same.sems lmc.lock ∙ x.sem;
          flag = ap (λ m. int m locked) (same.contents lmc.shm.fd) ∙ x.flag;
        })

  Exclusive-work :
      {A : Type 0} (c : Cmd A) (a : A) (m' : Mem) (w' : World)
      → c (pool_bytes lmc w) ≡ done a m'
      → int m' locked ≡ int (pool_bytes lmc w) locked
      → on_file lmc.shm.fd c w ≡ done a w'
      → Exclusive lmc n w'
  Exclusive-work c a m' w' run keeps on =
      let fd = lmc.shm.fd in
      let first : on_file fd c w ≡ done a (set_contents w fd m') = rw run refl in
      subst (λ u. Exclusive lmc n u) (same_world first on)
        (record {
          one = x.one;
          sem = x.sem;
          flag = ap (λ m. int m locked) (set_contents-same w fd m') ∙ (keeps ∙ x.flag);
        })

-- the number of processes left when one of at most one goes
single_left :
    (pre : List ℕ) (p : ℕ) (post : List ℕ)
    → length (pre ++ p ∷ post) ≤ 1
    → (length (pre ++ p ∷ post) ≡ 1) × (length (pre ++ post) ≡ 0)
single_left pre p post h =
    let a = length-append pre (p ∷ post) in
    let b = length-append pre post in (omega (arith, h, a), omega (arith, h, a, b))

Step-Exclusive :
    {lmc : LocalMemcache} {ps qs : List ℕ} {w w' : World}
    → Step lmc ps w qs w'
    → Exclusive lmc (length ps) w
    → Exclusive lmc (length qs) w'
Step-Exclusive {lmc} (lock {ps} {w} {w'} p depth env v sem run) x =
    Exclusive-lock lmc w (length ps) x depth env v w' sem run
Step-Exclusive {lmc} (fail {ps} {w} {w'} depth env e refused run) x =
    Exclusive-fail lmc w (length ps) x depth env e w' refused run
Step-Exclusive {lmc} (work {ps} {w} {w'} pre p post c m' inside run keeps on) x =
    Exclusive-work lmc w (length ps) x c tt m' w' run keeps on
Step-Exclusive {lmc} (unlock {ps} {w} {w'} pre p post r inside run) x =
    let one : length (pre ++ p ∷ post) ≤ 1 = subst (λ l. length l ≤ 1) inside x.one in
    let (single, left) = single_left pre p post one in
    subst (λ n. Exclusive lmc n w') (sym left)
      (Exclusive-unlock lmc w (length ps) x r w' (ap (λ l. length l) inside ∙ single) run)

-- For any processes on one pool, each with its own environment: from a state in which the
-- semaphore and the lock flag say how many processes have the lock, one at most, every
-- sequence of steps leads to such a state, so two processes never have the lock at once. A
-- step is that a process locks the pool while its semaphore is not 0, fails to and changes
-- nothing, works on the bytes of the pool while it has the lock and leaves the flag as it is,
-- or unlocks the pool while it has the lock. That a process without the lock unlocks the pool,
-- as `local_memcache_get_new` does after a failed lock, is not a step.
pub Reach-Exclusive :
    (lmc : LocalMemcache) (ps : List ℕ) (w : World) (qs : List ℕ) (w' : World)
    → Exclusive lmc (length ps) w
    → Reach lmc ps w qs w'
    → Exclusive lmc (length qs) w'
Reach-Exclusive lmc ps w _ _ x here = x
Reach-Exclusive lmc ps w _ _ x (next {qs} {rs} {u} {x = y} r s) =
    Step-Exclusive s (Reach-Exclusive lmc ps w qs u x r)
