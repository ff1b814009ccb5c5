-- ===== src/Pool/Crashed.antt =====
-- A pool whose lock is never given back, and each step of the recovery on it.
use localmemcache.Base.{
  ℕ, suc, ◌+◌, ◌-◌, ◌≤◌, ◌<◌, ◌^◌, max, ◌≡◌, refl, ap, ◌∙◌, arith, none, some, false, List, take,
  lt→ltb,
}
use localmemcache.Cmd.{done, Cmd}
use localmemcache.Cmd.Ends
use localmemcache.Cmd.Ends.{Ends, ends}
use localmemcache.Errors.{Status, ok, failed, lock_timed_out}
use localmemcache.Lock.{
  timed_out, sem_value_max, put, same_name, same_name_sym, lmc_namespacify, lmc_lock_init,
  lmc_is_lock_working, lmc_lock_obtain, lmc_lock_obtain_mandatory, lmc_lock_release,
}
use localmemcache.Memory.{Mem, set_byte, int, set_int}
use localmemcache.Pool.{
  LocalMemcache, lmc_checkize, lmc_unlock_shm_region, lmc_release_lock_flag, lmc_set_lock_flag,
  flag_region, retry_lock,
}
use localmemcache.Pool.Recovery.{post_if_taken}
use localmemcache.Shm.{
  LmcShm, lmc_shm_create, lmc_shm_destroy, lmc_namespace_root_path, lmc_file_path_for_namespace,
}
use localmemcache.Shm.Attach.{Ready, mapped, lmc_shm_create-writes, lmc_shm_create-negative}
use localmemcache.System.{Env, World, Sys, tick, waiting, open_lock, on_sem, on_file, set_contents}
use localmemcache.System.Laws.{
  obtain-suc, put-same, waiting-zero, waiting-suc, on_sem-some, set_contents-same,
}
use localmemcache.Valloc.{locked}
use localmemcache.Word.{wsub}

-- the second lock of a pool
abbrev pub check_lock : List ℕ → List ℕ
check_lock ns = lmc_namespacify (lmc_checkize ns)

-- a handle of the pool
abbrev pub handle : List ℕ → (size i va : ℕ) → LocalMemcache
handle ns size i va = record {
  namespace = ns;
  size = size;
  shm = mapped ns size i;
  va_hash = va;
  lock = lmc_namespacify ns;
}

-- No other process does anything, a wait for a semaphore of value 0 ends with the time limit, and
-- the pool's two locks have two names.
pub record Deserted (env : Env) (ns : List ℕ) : Type 0 where
  pub idle : (t : ℕ) (w : World) → env.others t w ≡ w
  pub times_out : (t : ℕ) → env.wait t ≡ timed_out
  pub short : take 1022 ns ≡ ns
  pub two_locks : same_name (lmc_namespacify ns) (check_lock ns) ≡ false

-- The semaphores of the pool are `p` and `c`, and its file, of `z` bytes, has the bytes `m`.
pub record At (env : Env) (ns : List ℕ) (i p c : ℕ) (m : Mem) (z : ℕ) (w : World) : Type 0 where
  pub pool : w.sems (lmc_namespacify ns) ≡ some p
  pub check : w.sems (check_lock ns) ≡ some c
  pub bytes : w.contents i ≡ m
  pub length : w.st_size i ≡ z
  pub ready : Ready env ns i w

flag_set : (m : Mem) → int m locked ≡ 0 → lmc_set_lock_flag m ≡ done ok (set_int m locked 1)
unfolding lmc_set_lock_flag
flag_set m h = rw h refl

pub flag_released :
    (m : Mem) → int m locked ≡ 1 → lmc_release_lock_flag m ≡ done ok (set_int m locked 0)
unfolding lmc_release_lock_flag
flag_released m h = rw h refl

max_same : (z : ℕ) → max z z ≡ z
max_same z = omega arith

module _ (env : Env) (ns : List ℕ) (i : ℕ) (deserted : Deserted env ns) (c : ℕ) (m : Mem) (z : ℕ)
    (w : World) where
  put_pool :
      (p p' : ℕ) (t : ℕ)
      → At env ns i p c m z w
      → At env ns i p' c m z (record w { sems = put (lmc_namespacify ns) p' w.sems; clock = t })
  put_pool p p' t a = record {
    pool = put-same (lmc_namespacify ns) p' w;
    check = rw (same_name_sym (lmc_namespacify ns) (check_lock ns) deserted.two_locks) a.check;
    bytes = a.bytes;
    length = a.length;
    ready = record { allowed = a.ready.allowed; root = a.ready.root; file = a.ready.file };
  }

  put_check :
      (p c' : ℕ)
      → At env ns i p c m z w
      → At env ns i p c' m z (record w { sems = put (check_lock ns) c' w.sems })
  put_check p c' a = record {
    pool = rw deserted.two_locks a.pool;
    check = put-same (check_lock ns) c' w;
    bytes = a.bytes;
    length = a.length;
    ready = record { allowed = a.ready.allowed; root = a.ready.root; file = a.ready.file };
  }

  pub put_bytes :
      (p : ℕ) (m' : Mem) → At env ns i p c m z w → At env ns i p c m' z (set_contents w i m')
  put_bytes p m' a = record {
    pool = a.pool;
    check = a.check;
    bytes = set_contents-same w i m';
    length = a.length;
    ready = record { allowed = a.ready.allowed; root = a.ready.root; file = a.ready.file };
  }

  pub pool_opened : (p : ℕ) → At env ns i p c m z w → open_lock ns w ≡ done (lmc_namespacify ns) w
  unfolding open_lock lmc_lock_init
  pool_opened p a = rw a.pool refl

  pub check_opened :
      (p : ℕ) → At env ns i p c m z w → open_lock (lmc_checkize ns) w ≡ done (check_lock ns) w
  unfolding open_lock lmc_lock_init
  check_opened p a = rw a.check refl

  pub not_working :
      At env ns i 0 c m z w
      → Ends
          (λ r w'. (r ≡ false) × At env ns i 0 c m z w')
          (waiting env (lmc_namespacify ns) lmc_is_lock_working w)
  unfolding lmc_is_lock_working localmemcache.Lock.lmc_sem_timed_wait
  not_working a =
      rw
        (
          waiting-zero env (lmc_namespacify ns) w lmc_is_lock_working a.pool
              (deserted.idle w.clock (tick w)),
          deserted.times_out w.clock,
        )
        (ends (refl, put_pool 0 0 (w.clock + 1) a))

  pub obtain_times_out :
      At env ns i 0 c m z w
      → Ends
          (λ r w'. (r ≡ failed lock_timed_out) × At env ns i 0 c m z w')
          (waiting env (lmc_namespacify ns) lmc_lock_obtain w)
  unfolding lmc_lock_obtain localmemcache.Lock.obtained localmemcache.Lock.lmc_sem_timed_wait
  obtain_times_out a =
      rw
        (
          waiting-zero env (lmc_namespacify ns) w lmc_lock_obtain a.pool
              (deserted.idle w.clock (tick w)),
          deserted.times_out w.clock,
        )
        (ends (refl, put_pool 0 0 (w.clock + 1) a))

  pub check_released :
      (p : ℕ)
      → At env ns i p c m z w
      → c < sem_value_max
      → Ends
          (λ r w'. (r ≡ ok) × At env ns i p (c + 1) m z w')
          (on_sem (check_lock ns) lmc_lock_release w)
  unfolding lmc_lock_release
  check_released p a small =
      rw
        (on_sem-some env (check_lock ns) w lmc_lock_release c a.check, lt→ltb c sem_value_max small)
        (ends (refl, put_check p (c + 1) a))

  pub pool_released :
      (p : ℕ)
      → At env ns i p c m z w
      → p < sem_value_max
      → Ends
          (λ r w'. (r ≡ ok) × At env ns i (p + 1) c m z w')
          (on_sem (lmc_namespacify ns) lmc_lock_release w)
  unfolding lmc_lock_release
  pool_released p a small =
      rw
        (
          on_sem-some env (lmc_namespacify ns) w lmc_lock_release p a.pool,
          lt→ltb p sem_value_max small,
        )
        (ends (refl, put_pool p (p + 1) w.clock a))

  pub posted_if_taken :
      At env ns i 0 c m z w
      → Ends (λ r w'. At env ns i 1 c m z w') (post_if_taken (lmc_namespacify ns) w)
  unfolding post_if_taken lmc_lock_release on_sem
  posted_if_taken a = rw a.pool (ends (put_pool 0 1 w.clock a))

  pub file_command :
      {A : Type 0} (p : ℕ) (cmd : Cmd A) (x : A) (m' : Mem)
      → At env ns i p c m z w
      → cmd m ≡ done x m'
      → Ends (λ r w'. (r ≡ x) × At env ns i p c m' z w') (on_file i cmd w)
  file_command p cmd x m' a e = rw (a.bytes, e) (ends (refl, put_bytes p m' a))

  pub attached :
      (p : ℕ)
      → At env ns i p c m z w
      → 0 < z
      → z ≤ 2 ^ 63
      → Ends
          (λ r w'. (r ≡ some (mapped ns z i)) × At env ns i p c (set_byte m (z - 1) 0) z w')
          (lmc_shm_create env ns z w)
  attached p a positive small =
      Ends.weaken (lmc_shm_create-writes env ns i w a.ready z deserted.short positive small)
        λ r w' (e, b). (
          e,
          record {
            pool = ap (λ s. s (lmc_namespacify ns)) b.sems ∙ a.pool;
            check = ap (λ s. s (check_lock ns)) b.sems ∙ a.check;
            bytes = b.bytes ∙ ap (λ x. set_byte x (z - 1) 0) a.bytes;
            length = b.length ∙ (ap (λ y. max y z) a.length ∙ max_same z);
            ready = record {
              allowed = a.ready.allowed;
              root = ap (λ s. s (lmc_namespace_root_path env.root)) b.paths ∙ a.ready.root;
              file = ap (λ s. s (lmc_file_path_for_namespace env.root ns)) b.paths ∙ a.ready.file;
            };
          },
        )

  pub not_attached :
      (p size : ℕ)
      → At env ns i p c m z w
      → 2 ^ 63 ≤ wsub size 1
      → Ends (λ r w'. (r ≡ none) × At env ns i p c m z w') (lmc_shm_create env ns size w)
  not_attached p size a negative =
      Ends.weaken (lmc_shm_create-negative env ns i w a.ready size deserted.short negative)
        λ r w' (e, b). (
          e,
          record {
            pool = ap (λ s. s (lmc_namespacify ns)) b.sems ∙ a.pool;
            check = ap (λ s. s (check_lock ns)) b.sems ∙ a.check;
            bytes = b.bytes ∙ a.bytes;
            length = b.length ∙ a.length;
            ready = record {
              allowed = a.ready.allowed;
              root = ap (λ s. s (lmc_namespace_root_path env.root)) b.paths ∙ a.ready.root;
              file = ap (λ s. s (lmc_file_path_for_namespace env.root ns)) b.paths ∙ a.ready.file;
            };
          },
        )

  pub unmapped :
      (p : ℕ) (shm : LmcShm)
      → At env ns i p c m z w
      → Ends (λ r w'. (r ≡ ok) × At env ns i p c m z w') (lmc_shm_destroy env shm w)
  unfolding lmc_shm_destroy
  unmapped p shm a = rw (a.ready.allowed w.clock) (
      ends (
        refl,
        record {
          pool = a.pool;
          check = a.check;
          bytes = a.bytes;
          length = a.length;
          ready = record { allowed = a.ready.allowed; root = a.ready.root; file = a.ready.file };
        },
      ))

module _ (env : Env) (ns : List ℕ) (i : ℕ) (deserted : Deserted env ns) (c : ℕ) (m : Mem) (z : ℕ)
    (w : World) where
  pub check_obtained :
      (p : ℕ)
      → At env ns i p (suc c) m z w
      → Ends
          (λ r w'. (r ≡ ok) × At env ns i p c m z w')
          (waiting env (check_lock ns) lmc_lock_obtain_mandatory w)
  unfolding lmc_lock_obtain_mandatory localmemcache.Lock.lmc_sem_timed_wait_mandatory
      localmemcache.Lock.obtained
  check_obtained p a =
      rw (waiting-suc env (check_lock ns) w lmc_lock_obtain_mandatory c a.check)
        (ends (refl, put_check env ns i deserted (suc c) m z w p c a))

  -- The lock of the pool, through a handle of it.
  pub retry_at :
      (p size va : ℕ) (check : List ℕ → Sys Status) (left : ℕ)
      → At env ns i (suc p) c m z w
      → int m locked ≡ 0
      → Ends
          (λ r w'. (r ≡ ok) × At env ns i p c (set_int m locked 1) z w')
          (retry_lock env check (suc left) (handle ns size i va) w)
  unfolding retry_lock flag_region
  retry_at p size va check left a free = rw (obtain-suc env (lmc_namespacify ns) w p a.pool) (
      Ends.bind
        (file_command env ns i deserted c m z _ p lmc_set_lock_flag ok (set_int m locked 1)
          (put_pool env ns i deserted c m z w (suc p) p w.clock a) (flag_set m free))
        λ r w1 (e, a1). rw e (ends (refl, a1)))

  pub unlock_at :
      (p size va : ℕ)
      → At env ns i p c m z w
      → p < sem_value_max
      → int m locked ≡ 1
      → Ends
          (λ r w'. (r ≡ ok) × At env ns i (p + 1) c (set_int m locked 0) z w')
          (lmc_unlock_shm_region (handle ns size i va) w)
  unfolding lmc_unlock_shm_region
  unlock_at p size va a small set =
      Ends.bind
        (file_command env ns i deserted c m z w p lmc_release_lock_flag ok (set_int m locked 0) a
          (flag_released m set))
        λ r w1 (e, a1).
          Ends.bind (pool_released env ns i deserted c (set_int m locked 0) z w1 p a1 small)
            λ s w2 (f, a2). rw e (ends (refl, a2))
