-- ===== src/Pool/Repaired.antt =====
-- `__local_memcache_check_namespace` on a pool whose lock is never given back.
use localmemcache.Base.{
  ℕ, suc, ◌+◌, ◌-◌, ◌≤◌, ◌<◌, ◌^◌, ◌≡◌, ◌≢◌, refl, arith, some, false, true, List, ge→ltb, ne→==,
}
use localmemcache.Cmd.{done, stopped, null_pointer}
use localmemcache.Cmd.Ends
use localmemcache.Cmd.Ends.{Ends, ends, outcome}
use localmemcache.Errors.{Status, ok, shm_error}
use localmemcache.Hashtable.{ht_hash_destroy, ht_redo}
use localmemcache.Hashtable.Walks.{ht_check_memory}
use localmemcache.Lock.{lmc_namespacify, sem_value_max}
use localmemcache.Memory.{Mem, word, int, set_int, set_byte}
use localmemcache.Memory.Laws.{load-store_same}
use localmemcache.Pool.{LocalMemcache, retry_lock}
use localmemcache.Pool.Crashed.{
  Deserted, At, check_lock, pool_opened, check_opened, not_working, check_released, pool_released,
  posted_if_taken, file_command, attached, not_attached, unmapped, check_obtained, obtain_times_out,
  put_bytes, retry_at, handle, unlock_at,
}
use localmemcache.Pool.Create.{
  opened, not_opened, __local_memcache_create, retry_create, attach, enter, join, check_version,
  hand_over, release_and_fail,
}
use localmemcache.Pool.Recovery.{
  __local_memcache_check_namespace, check_with, recover, repair_pool, close_recovery, repair_memory,
  redo, check_and_unlock, release, free_locked, lmc_lock_shm_region,
}
use localmemcache.Shm.{int_as_size}
use localmemcache.Shm.Attach.{mapped, namespace_there, size_as_int}
use localmemcache.System.{Env, World, Sys}
use localmemcache.Word.{wsub}
use localmemcache.Valloc.{version, va_hash, locked, op_id, lmc_get_db_version}

-- the bytes of a file once it is mapped: the last one is 0
abbrev pub touched : Mem → ℕ → Mem
touched m z = set_byte m (z - 1) 0

-- the handle of the recovery
abbrev pub recovered : List ℕ → (z i : ℕ) → Mem → LocalMemcache
recovered ns z i m = handle ns z i (word (touched m z) va_hash)

version_read : (m : Mem) → lmc_get_db_version m ≡ done (word m version) m
unfolding lmc_get_db_version
version_read m = refl

module _ (env : Env) (ns : List ℕ) (i : ℕ) (deserted : Deserted env ns) (m : Mem) (z : ℕ) (c : ℕ)
    (w : World) (a : At env ns i 0 c m z w) (check : List ℕ → Sys Status) where
  joined :
      0 < z
      → z ≤ 2 ^ 63
      → word (touched m z) version ≤ 2
      → Ends
          (λ r w'. (r ≡ opened (recovered ns z i m) false) × At env ns i 0 c (touched m z) z w')
          (__local_memcache_create env check ns z 0 true w)
  unfolding __local_memcache_create retry_create attach enter join check_version hand_over
  joined positive small old = rw (pool_opened env ns i deserted c m z w 0 a) (
      Ends.bind (not_working env ns i deserted c m z w a) λ r w1 (e, a1). rw e (
        Ends.bind (attached env ns i deserted c m z w1 0 a1 positive small) λ s w2 (f, a2). rw f (
          Ends.bind
            (file_command env ns i deserted c (touched m z) z w2 0 lmc_get_db_version
              (word (touched m z) version) (touched m z) a2 (version_read (touched m z)))
            λ v w3 (g, a3).
              rw (g, ge→ltb 2 (word (touched m z) version) old, a3.bytes)
                (ends
                  (refl, put_bytes env ns i deserted c (touched m z) z w3 0 (touched m z) a3)))))

  not_joined :
      (size : ℕ)
      → 2 ^ 63 ≤ wsub size 1
      → Ends
          (λ r w'. (r ≡ not_opened shm_error) × At env ns i 1 c m z w')
          (__local_memcache_create env check ns size 0 true w)
  unfolding __local_memcache_create retry_create attach release_and_fail
  not_joined size negative = rw (pool_opened env ns i deserted c m z w 0 a) (
      Ends.bind (not_working env ns i deserted c m z w a) λ r w1 (e, a1). rw e (
        Ends.bind (not_attached env ns i deserted c m z w1 0 size a1 negative) λ s w2 (f, a2).
          rw f (
            Ends.bind (pool_released env ns i deserted c m z w2 0 a2 (omega arith))
              λ x w3 (g, a3). rw g (ends (refl, a3)))))

int_as_size-small : (z : ℕ) → z < 2 ^ 31 → int_as_size z ≡ z
int_as_size-small z small = ground (arith, small)

-- Bytes that the recovery can repair, and what it makes of them: the lock flag was never set, no
-- operation was under way, or one was and is done again; and the check of the memory succeeds.
pub data Mended (t : Mem) : Mem → Type 0 where
  never_flagged : int t locked ≡ 0 → Mended t t
  no_operation :
      (m2 : Mem)
      → int t locked ≡ 1
      → int t op_id ≡ 0
      → ht_check_memory (word t va_hash) t ≡ done true m2
      → Mended t (set_int m2 locked 0)
  redone :
      (m1 m2 : Mem)
      → int t locked ≡ 1
      → int t op_id ≢ 0
      → ht_redo (word t va_hash) t ≡ done true m1
      → ht_check_memory (word m1 va_hash) m1 ≡ done true m2
      → Mended t (set_int m2 locked 0)

Mended-flag : (t m3 : Mem) → Mended t m3 → int m3 locked ≡ 0
Mended-flag t m3 (never_flagged free) = free
Mended-flag t m3 (no_operation m2 taken no_op sound) = load-store_same 4 m2 locked 0 (omega arith)
Mended-flag t m3 (redone m1 m2 taken op again sound) = load-store_same 4 m2 locked 0 (omega arith)

memory_repaired : (t m3 : Mem) → Mended t m3 → repair_memory t ≡ done release m3
unfolding repair_memory redo check_and_unlock
memory_repaired t m3 (never_flagged free) = rw free refl
memory_repaired t m3 (no_operation m2 taken no_op sound) = rw (taken, no_op, sound) refl
memory_repaired t m3 (redone m1 m2 taken op again sound) =
    rw (taken, ne→== (int t op_id) 0 op, again, sound) refl

destroyed : (va : ℕ) (m : Mem) → ht_hash_destroy va m ≡ done true m
unfolding ht_hash_destroy
destroyed va m = refl

-- the bytes after the handle is freed: the lock was taken once more
abbrev pub relocked : Mem → Mem
relocked m = set_int (set_int m locked 1) locked 0

module _ (env : Env) (ns : List ℕ) (i : ℕ) (deserted : Deserted env ns) (z va c : ℕ)
    (few : c < sem_value_max) (check : List ℕ → Sys Status) where
  freed :
      (m : Mem) (w : World)
      → At env ns i 1 c m z w
      → int m locked ≡ 0
      → Ends
          (λ r w'. (r ≡ ok) × At env ns i 1 c (relocked m) z w')
          (free_locked env (retry_lock env check 11) (handle ns z i va) w)
  unfolding free_locked
  freed m w a free =
      let m1 = set_int m locked 1 in
      Ends.bind (retry_at env ns i deserted c m z w 0 z va check 10 a free) λ r w1 (e, a1). rw e (
        Ends.bind
          (file_command env ns i deserted c m1 z w1 0 (ht_hash_destroy va) true m1 a1
            (destroyed va m1))
          λ d w2 (f, a2).
            Ends.bind
              (unlock_at env ns i deserted c m1 z w2 0 z va a2 (omega arith)
                (load-store_same 4 m locked 1 (omega arith)))
              λ s w3 (g, a3). rw g (
                Ends.bind (unmapped env ns i deserted c (relocked m) z w3 1 (mapped ns z i) a3)
                  λ x w4 (h, a4). ends (refl, a4)))

  closed :
      (m : Mem) (w : World)
      → At env ns i 1 c m z w
      → int m locked ≡ 0
      → Ends
          (λ r w'. (r ≡ ok) × At env ns i 1 (c + 1) (relocked m) z w')
          (close_recovery env (retry_lock env check 11) (check_lock ns) (handle ns z i va) w)
  unfolding close_recovery
  closed m w a free = Ends.bind (freed m w a free) λ r w1 (e, a1).
      Ends.bind (check_released env ns i deserted c (relocked m) z w1 1 a1 few)
        λ s w2 (f, a2). ends (refl, a2)

  repaired :
      (t m3 : Mem) (w : World)
      → At env ns i 0 c t z w
      → Mended t m3
      → Ends
          (λ r w'. (r ≡ ok) × At env ns i 1 (c + 1) (relocked m3) z w')
          (repair_pool env (retry_lock env check 11) (check_lock ns) (handle ns z i va) w)
  unfolding repair_pool
  repaired t m3 w a mended =
      Ends.bind
        (file_command env ns i deserted c t z w 0 repair_memory release m3 a
          (memory_repaired t m3 mended))
        λ r w1 (f, a1). rw f (
          Ends.bind (posted_if_taken env ns i deserted c m3 z w1 a1)
            λ x w2 a2. closed m3 w2 a2 (Mended-flag t m3 mended))

module _ (env : Env) (ns : List ℕ) (i : ℕ) (deserted : Deserted env ns) (m : Mem) (z : ℕ)
    (w : World) (a : At env ns i 0 1 m z w) (depth : ℕ) where
  -- What the recovery is to do: the pool's lock is free again, in both of its parts.
  module _ (m3 : Mem) (positive : 0 < z) (small : z < 2 ^ 31) (old : word (touched m z) version ≤ 2)
      (mended : Mended (touched m z) m3) where
    recovery :
        Ends
          (λ r w'. (r ≡ ok) × At env ns i 1 1 (relocked m3) z w')
          (__local_memcache_check_namespace (suc depth) env ns w)
    unfolding __local_memcache_check_namespace check_with recover
    recovery =
        let check = __local_memcache_check_namespace depth env in
        let t = touched m z in
        rw (namespace_there env ns i w a.ready, check_opened env ns i deserted 1 m z w 0 a)
          (Ends.bind (check_obtained env ns i deserted 0 m z w 0 a) λ r w1 (e, a1).
            rw (e, size_as_int env ns i w1 a1.ready, a1.length, int_as_size-small z small)
              (Ends.bind
                (joined env ns i deserted m z 0 w1 a1 check positive (omega (arith, small)) old)
                λ o w2 (f, a2). rw f (
                  repaired env ns i deserted z (word t va_hash) 0 (omega arith) check t m3 w2 a2
                    mended)))

    -- Under the conditions of `lock_region-repairs`, the free second lock among them,
    -- `__local_memcache_check_namespace` ends with 1, both semaphores of the pool at 1 and the
    -- lock flag at 0.
    pub check_namespace-repairs :
        Ends
          (λ r w'.
            (r ≡ ok)
            × (w'.sems (lmc_namespacify ns) ≡ some 1)
            × (w'.sems (check_lock ns) ≡ some 1)
            × (int (w'.contents i) locked ≡ 0))
          (__local_memcache_check_namespace (suc depth) env ns w)
    check_namespace-repairs = Ends.weaken recovery λ r w' (e, b). (
      e,
      b.pool,
      b.check,
      rw b.bytes (load-store_same 4 (set_int m3 locked 1) locked 0 (omega arith)),
    )

  -- Where the semaphore of a pool is 0, its second lock is free, of value 1, and has another
  -- name, no other process does anything, all waits reach their time limit, the root directory
  -- and the file are there, and the name has at most 1022 characters: if the size of the file,
  -- as an `int`, minus 1 is negative, so for 2 ^ 31 bytes and for an empty file,
  -- `__local_memcache_check_namespace` with a depth of at least 1 follows a null pointer,
  -- though no system call is refused.
  pub check_namespace-null_pointer :
      2 ^ 63 ≤ wsub (int_as_size z) 1
      → __local_memcache_check_namespace (suc depth) env ns w ≡ stopped null_pointer
  unfolding __local_memcache_check_namespace check_with recover
  check_namespace-null_pointer negative =
      let check = __local_memcache_check_namespace depth env in
      let (r, w1, run, (e, a1)) = outcome (check_obtained env ns i deserted 0 m z w 0 a) in
      let (o, w2, run2, (f, a2)) =
        outcome (not_joined env ns i deserted m z 0 w1 a1 check (int_as_size z) negative) in
      rw
        (
          namespace_there env ns i w a.ready,
          check_opened env ns i deserted 1 m z w 0 a,
          run,
          e,
          size_as_int env ns i w1 a1.ready,
          a1.length,
          run2,
          f,
        )
        refl

-- `lmc_lock_shm_region` takes the lock of such a pool.
module _ (env : Env) (ns : List ℕ) (i : ℕ) (deserted : Deserted env ns) (m : Mem) (z : ℕ)
    (w : World) (a : At env ns i 0 1 m z w) (depth : ℕ) (m3 : Mem) (positive : 0 < z)
    (small : z < 2 ^ 31) (old : word (touched m z) version ≤ 2) (mended : Mended (touched m z) m3)
    (size va : ℕ) where
  retried :
      (left : ℕ)
      → Ends
          (λ r w'. (r ≡ ok) × At env ns i 0 1 (set_int (relocked m3) locked 1) z w')
          (retry_lock env
            (__local_memcache_check_namespace (suc depth) env)
            (suc (suc left))
            (handle ns size i va)
            w)
  unfolding retry_lock
  retried left =
      let check = __local_memcache_check_namespace (suc depth) env in
      Ends.bind (obtain_times_out env ns i deserted 1 m z w a) λ r w1 (e, a1). rw e (
        Ends.bind (recovery env ns i deserted m z w1 a1 depth m3 positive small old mended)
          λ s w2 (f, a2). rw f (
            retry_at env ns i deserted 1 (relocked m3) z w2 0 size va check left a2
              (load-store_same 4 (set_int m3 locked 1) locked 0 (omega arith))))

  -- Where the semaphore of a pool is 0, its second lock is free, of value 1, and has another
  -- name, no other process does anything, all waits reach their time limit, the root directory
  -- and the file are there, the name has at most 1022 characters and no system call fails, for
  -- a file of at least 1 and less than 2 ^ 31 bytes, of version 2 at most, that the recovery
  -- can mend, and a depth of at least 1, `lmc_lock_shm_region` returns 1 with the semaphore
  -- taken and the lock flag set.
  pub lock_region-repairs :
      Ends
        (λ r w'.
          (r ≡ ok) × (w'.sems (lmc_namespacify ns) ≡ some 0) × (int (w'.contents i) locked ≡ 1))
        (lmc_lock_shm_region (suc depth) env (handle ns size i va) w)
  unfolding lmc_lock_shm_region
  lock_region-repairs = Ends.weaken (retried 9) λ r w' (e, b).
      (e, b.pool, rw b.bytes (load-store_same 4 (relocked m3) locked 1 (omega arith)))
