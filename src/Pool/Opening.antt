-- ===== src/Pool/Opening.antt =====
-- `__local_memcache_create` for a namespace that is new.
use localmemcache.Base.{
  ℕ, ◌+◌, ◌-◌, ◌≤◌, ◌<◌, ◌^◌, ◌≡◌, ◌≢◌, refl, ap, ◌∙◌, inl, inr, arith, none, some, List, [], ◌∷◌,
  ◌==◌, if◌then◌else◌, ltb, ne→==, true, false, take, Bool-cases, subst,
}
use localmemcache.Cmd.{Cmd}
use localmemcache.Cmd.Ends
use localmemcache.Cmd.Ends.{Ends, ends}
use localmemcache.Errors.{Status, ok, memory_pool_full}
use localmemcache.Lock.{
  Wait, put, same_name_refl, sem_value_max, lmc_namespacify, lmc_lock_init, lmc_is_lock_working,
  lmc_lock_obtain, lmc_lock_release,
}
use localmemcache.Memory.{Mem, word, set_word, int, set_int, set_byte}
use localmemcache.Memory.Laws.{load-store_same, load-store_other, store_other}
use localmemcache.Hashtable.Create.{load-zero}
use localmemcache.Hashtable.Owned.{Owned, Owned-Blocks}
use localmemcache.Pool.{lmc_release_lock_flag}
use localmemcache.Pool.Crashed.{handle, flag_released}
use localmemcache.Pool.Create.{
  Opened, opened, not_opened, __local_memcache_create, retry_create, attach, enter, set_up,
  hand_over, lay_out, unlock_and_fail, release_and_fail,
}
use localmemcache.Pool.Fresh.{Laid, full, laid, lay_out-Laid}
use localmemcache.Pool.Region.{Unlocked}
use localmemcache.Pool.Store.{flag_Heap, flag_Owned, flag_blocks}
use localmemcache.Shm.{lmc_file_path_for_namespace, lmc_namespace_root_path}
use localmemcache.Shm.Attach.{mapped, lmc_shm_create-new}
use localmemcache.System.{World, Env, Sys, on_sem, on_file, open_lock, directory}
use localmemcache.System.Laws.{put-same, waiting-suc, obtain-suc, on_sem-some, set_contents-same}
use localmemcache.Valloc.{locked, is_lmc_already_initialized, lmc_set_min_alloc_size}
use localmemcache.Valloc.Chain.{Chunk}
use localmemcache.Valloc.Heap.{Heap}
use localmemcache.Valloc.Region.{Heap-log, Outside}

-- The semaphore is `v`, and the file `i` has the bytes `m`.
record Holding (lock : List ℕ) (v i : ℕ) (m : Mem) (w : World) : Type 0 where
  sem : w.sems lock ≡ some v
  bytes : w.contents i ≡ m

module _ (env : Env) (lock : List ℕ) (i : ℕ) (m : Mem) (w : World) where
  on_held_file :
      {A : Type 0} {P : A → Mem → Type 0} (c : Cmd A) (v : ℕ)
      → Holding lock v i m w
      → Ends P (c m)
      → Ends (λ a w'. (m' : Mem) × P a m' × Holding lock v i m' w') (on_file i c w)
  on_held_file c v held run =
      let (a, m', e, p) = Ends.outcome run in
      rw (held.bytes, e) (ends (m', p, record { sem = held.sem; bytes = set_contents-same w i m' }))

  given_back :
      Holding lock 0 i m w
      → Ends (λ r w'. (r ≡ ok) × Holding lock 1 i m w') (on_sem lock lmc_lock_release w)
  unfolding lmc_lock_release
  given_back held =
      rw (on_sem-some env lock w lmc_lock_release 0 held.sem)
        (ends (refl, record { sem = put-same lock 1 w; bytes = held.bytes }))

-- `lmc_set_min_alloc_size` keeps the table.
least_kept :
    (size least h : ℕ) (m : Mem)
    → Laid size h m
    → Ends (λ _ m'. Laid size h m') (lmc_set_min_alloc_size least m)
unfolding lmc_set_min_alloc_size
least_kept size least h m l = elim (Bool-cases (ltb (word m 48) 2)) [
  | inl old ↦ rw old (ends l)
  | inr new ↦ rw new (ends (kept _ h l))
]
  where
    kept : (v h : ℕ) → Laid size h m → Laid size h (set_word m 80 v)
    kept v h' (full flag) = full (load-store_other 4 8 m 80 v 40 (inl (omega arith)) ∙ flag)
    kept v h' (laid b left heap owned count at flag) =
        let m' = set_word m 80 v in
        let out : Outside m m' 80 8 = (λ x q. store_other 8 m 80 v x q) in
        laid b left (Heap-log m size left (b ∷ []) m' 80 8 heap (omega arith) (omega arith) out)
          (Owned-Blocks m m' (b ∷ []) (b.0 + 8) (λ k. []) (λ x p q. out x (inl (omega arith)))
            ((λ x p q. out x (inr (omega (arith, heap.used.0.0.low)))), tt) owned)
          (load-store_other 8 8 m 80 v (b.0 + 8) (inr (omega (arith, heap.used.0.0.low))) ∙ count)
          (load-store_other 8 8 m 80 v 32 (inl (omega arith)) ∙ at)
          (load-store_other 4 8 m 80 v 40 (inl (omega arith)) ∙ flag)

-- A new pool: an unlocked one with an empty table, or none, for lack of room.
pub data Made (ns : List ℕ) (size i : ℕ) : Opened → World → Type 0 where
  no_room :
      {w : World}
      → w.sems (lmc_namespacify ns) ≡ some 1
      → int (w.contents i) locked ≡ 0
      → Made ns size i (not_opened memory_pool_full) w
  made :
      {w : World} (b : Chunk) (left : List Chunk)
      → Unlocked (handle ns size i (b.0 + 8)) w
      → Heap (w.contents i) size left (b ∷ [])
      → Owned (w.contents i) (b ∷ []) (b.0 + 8) (λ k. [])
      → Made ns size i (opened (handle ns size i (b.0 + 8)) true) w

Laid-flag : (size h : ℕ) (m : Mem) → Laid size h m → int m locked ≡ 1
Laid-flag size h m (full flag) = flag
Laid-flag size h m (laid b left heap owned count at flag) = flag

not_initialized :
    (m : Mem)
    → ((x : ℕ) → m x ≡ 0)
    → Ends (λ r m'. (r ≡ false) × (m' ≡ m)) (is_lmc_already_initialized m)
unfolding is_lmc_already_initialized
not_initialized m z = rw (load-zero 8 m 24 (λ x p q. z x)) (ends (refl, refl))

-- the bytes of a new file
zeros : (size x : ℕ) → set_byte (λ _. 0) (size - 1) 0 x ≡ 0
zeros size x = ground arith

module _ (ns : List ℕ) (size least i : ℕ) where
  released :
      (h : ℕ) (m : Mem) (w : World)
      → h ≢ 0
      → Laid size h m
      → Holding (lmc_namespacify ns) 1 i (set_int m locked 0) w
      → Made ns size i (opened (handle ns size i h) true) w
  released h m w some_table (full flag) held = absurd (some_table refl)
  released h m w some_table (laid b left heap owned count at flag) held =
      let m' = set_int m 40 0 in
      let out : Outside m m' 40 4 = (λ x q. store_other 4 m 40 0 x q) in
      made b left
        (record {
          value = 0;
          sem = held.sem;
          small = omega arith;
          flag = rw held.bytes (load-store_same 4 m 40 0 (omega arith));
        })
        (rw held.bytes (flag_Heap size m m' out left (b ∷ []) heap))
        (rw held.bytes (
          flag_Owned size m m' out (b ∷ []) (b.0 + 8) (λ k. [])
            (flag_blocks size m m' out left (b ∷ []) heap) owned))

  unflagged :
      (m : Mem)
      → int m locked ≡ 1
      → Ends (λ r m'. (r ≡ ok) × (m' ≡ set_int m locked 0)) (lmc_release_lock_flag m)
  unflagged m flag = rw (flag_released m flag) (ends (refl, refl))

  module _ (env : Env) where
    handed_over :
        (h : ℕ) (m : Mem) (w : World)
        → h ≢ 0
        → Laid size h m
        → Holding (lmc_namespacify ns) 0 i m w
        → Ends (Made ns size i) (hand_over least true (handle ns size i h) w)
    unfolding hand_over
    handed_over h m w some_table l held =
        let lock = lmc_namespacify ns in
        Ends.bind
          (on_held_file env lock i m w (lmc_set_min_alloc_size least) 0 held
            (least_kept size least h m l))
          λ x w1 (m1, l1, held1).
            Ends.bind
              (on_held_file env lock i m1 w1 lmc_release_lock_flag 0 held1
                (unflagged m1 (Laid-flag size h m1 l1)))
              λ r w2 (m2, (e, same), held2).
                Ends.bind
                  (given_back env lock i (set_int m1 locked 0) w2
                    (subst (λ b. Holding lock 0 i b w2) same held2))
                  λ s w3 (f, held3). ends (released h m1 w3 some_table l1 held3)

    given_up :
        (h : ℕ) (m : Mem) (w : World)
        → int m locked ≡ 1
        → Holding (lmc_namespacify ns) 0 i m w
        → Ends (Made ns size i) (unlock_and_fail (handle ns size i h) memory_pool_full w)
    unfolding unlock_and_fail release_and_fail
    given_up h m w flag held =
        let lock = lmc_namespacify ns in
        Ends.bind (on_held_file env lock i m w lmc_release_lock_flag 0 held (unflagged m flag))
          λ r w1 (m1, (e, same), held1). rw e (
            Ends.bind
              (given_back env lock i (set_int m locked 0) w1
                (subst (λ b. Holding lock 0 i b w1) same held1))
              λ s w2 (f, held2). rw f (
                ends (no_room held2.sem (rw held2.bytes (load-store_same 4 m 40 0 (omega arith))))))

    tabled :
        (h : ℕ) (m : Mem) (w : World)
        → Laid size h m
        → Holding (lmc_namespacify ns) 0 i m w
        → Ends (Made ns size i) (
            (if h == 0
                then unlock_and_fail (handle ns size i 0) memory_pool_full
                else hand_over least true (handle ns size i h))
              w)
    tabled h m w (full flag) held = given_up 0 m w flag held
    tabled h m w (laid b left heap owned count at flag) held =
        rw (ne→== (b.0 + 8) 0 (omega arith))
          (handed_over (b.0 + 8) m w (omega arith) (laid b left heap owned count at flag) held)

    -- From the mapping of the new file on.
    entered :
        (w : World)
        → 104 ≤ size
        → size < 2 ^ 63
        → Holding (lmc_namespacify ns) 0 i (set_byte (λ _. 0) (size - 1) 0) w
        → Ends
            (Made ns size i)
            (enter ns (lmc_namespacify ns) size least false true (mapped ns size i) w)
    unfolding enter set_up
    entered w room small held =
        let lock = lmc_namespacify ns in
        let m = set_byte (λ _. 0) (size - 1) 0 in
        Ends.bind
          (on_held_file env lock i m w is_lmc_already_initialized 0 held
            (not_initialized m (zeros size)))
          λ known w1 (m1, (e, same), held1). rw e (
            Ends.bind
              (on_held_file env lock i m w1 (lay_out size) 0
                (subst (λ b. Holding lock 0 i b w1) same held1)
                (lay_out-Laid m size room small (load-zero 8 m 8 (λ x p q. zeros size x))))
              λ h w2 (m2, l, held2). tabled h m2 w2 l held2)

module _ (env : Env) (ns : List ℕ) (size least : ℕ) (allowed : (t : ℕ) → env.refuses t ≡ false)
    (short : take 1022 ns ≡ ns) (room : 104 ≤ size) (small : size < 2 ^ 63) where
  attached_new :
      (w : World)
      → w.paths (lmc_namespace_root_path env.root) ≡ some directory
      → w.paths (lmc_file_path_for_namespace env.root ns) ≡ none
      → w.sems (lmc_namespacify ns) ≡ some 1
      → Ends
          (Made ns size w.next_inode)
          (attach env ns (lmc_namespacify ns) size least false true w)
  unfolding attach
  attached_new w root missing sem =
      let lock = lmc_namespacify ns in
      let w1 : World = record w { sems = put lock 0 w.sems } in
      rw (obtain-suc env lock w 0 sem) (
        Ends.bind
          (lmc_shm_create-new env ns w1 allowed root missing size short (omega (arith, room))
            (omega (arith, small)))
          λ s w2 (e, sems, bytes, path). rw e (
            entered ns size least w.next_inode env w2 room small
              (record { sem = ap (λ f. f lock) sems ∙ put-same lock 0 w; bytes = bytes })))

  -- For a namespace of at most 1022 characters with neither file nor semaphore, and a size
  -- from 104 and below 2 ^ 63, where the root directory is there and no system call fails,
  -- `__local_memcache_create` ends: it returns the handle of an unlocked pool whose bytes,
  -- with the lock flag set, hold an empty table in a heap, or it fails with `MemoryPoolFull`
  -- and the lock is free.
  pub __local_memcache_create-Made :
      (check : List ℕ → Sys Status) (w : World)
      → w.paths (lmc_namespace_root_path env.root) ≡ some directory
      → w.paths (lmc_file_path_for_namespace env.root ns) ≡ none
      → w.sems (lmc_namespacify ns) ≡ none
      → Ends (Made ns size w.next_inode) (__local_memcache_create env check ns size least false w)
  unfolding __local_memcache_create retry_create open_lock lmc_lock_init lmc_is_lock_working
      localmemcache.Lock.lmc_sem_timed_wait
  __local_memcache_create-Made check w root missing unknown =
      let lock = lmc_namespacify ns in
      let w1 : World = record w { sems = put lock 1 w.sems } in
      let w2 : World = record w1 { sems = put lock 1 w1.sems } in
      rw (unknown, waiting-suc env lock w1 lmc_is_lock_working 0 (put-same lock 1 w))
        (attached_new w2 root missing (put-same lock 1 w1))
