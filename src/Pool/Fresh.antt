-- ===== src/Pool/Fresh.antt =====
-- A new table in a new memory: the middle of `__local_memcache_create`, and `local_memcache_clear`.
use localmemcache.Base.{
  ℕ, ◌+◌, ◌-◌, ◌≤◌, ◌<◌, ◌^◌, ◌≡◌, ◌∙◌, inl, inr, arith, List, [], ◌∷◌, not, ◌==◌, if◌then◌else◌,
  ne→==, Bool, true, false,
}
use localmemcache.Cmd.Ends
use localmemcache.Cmd.Ends.{Ends, ends}
use localmemcache.Memory.{Mem, word, set_word, int}
use localmemcache.Memory.Laws.{load-Same, load-store_same, load-store_other, store_other}
use localmemcache.Hashtable.Create.{Created, no_room, created, ht_hash_create-Created}
use localmemcache.Hashtable.Owned.{Owned, Owned-Blocks}
use localmemcache.Pool.{LocalMemcache}
use localmemcache.Pool.Create.{lay_out}
use localmemcache.Pool.Operations.{local_memcache_clear}
use localmemcache.Pool.Region.{Unlocked, Released, enter_region, inside, leave_region}
use localmemcache.Pool.Store.{
  under_lock, Released-Unlocked, Released-flag, flag_Heap, flag_Owned, flag_blocks,
}
use localmemcache.System.{World, Env}
use localmemcache.Valloc.{locked, va_hash, lmc_init_memory}
use localmemcache.Valloc.Chain.{Chunk, FreeList}
use localmemcache.Valloc.Heap.{Heap}
use localmemcache.Valloc.Lifecycle.{lmc_init_memory-FreeList}
use localmemcache.Valloc.Region.{Heap-log, Outside}
use localmemcache.Word.{wsub}

-- What `ht_hash_create` leaves of a new memory of `size` bytes: no table, or an empty one whose place
-- is in the descriptor. The lock flag is set.
pub data Laid (size : ℕ) : ℕ → Mem → Type 0 where
  full : {m : Mem} → int m locked ≡ 1 → Laid size 0 m
  laid :
      {m : Mem} (b : Chunk) (left : List Chunk)
      → Heap m size left (b ∷ [])
      → Owned m (b ∷ []) (b.0 + 8) (λ k. [])
      → word m (b.0 + 8) ≡ 0
      → word m va_hash ≡ b.0 + 8
      → int m locked ≡ 1
      → Laid size (b.0 + 8) m

module _ (m : Mem) (size : ℕ) (room : 104 ≤ size) (small : size < 2 ^ 63)
    (zeroed : word m 8 ≡ 0) where
  init-flag : Ends (λ _ m'. int m' locked ≡ 1) (lmc_init_memory size m)
  unfolding lmc_init_memory
  init-flag = ends (
      load-store_other 4 8 _ 96 (wsub size 88) 40 (inl (omega arith))
      ∙ (load-store_other 4 8 _ 88 0 40 (inl (omega arith))
          ∙ (load-store_other 4 8 _ 16 (wsub size 88) 40 (inr (omega arith))
              ∙ load-store_same 4 _ 40 1 (omega arith))))

  -- `md->va_hash` is written.
  placed :
      (m1 : Mem)
      → FreeList m1 size ((88, size - 88) ∷ [])
      → int m1 locked ≡ 1
      → (h : ℕ) (m2 : Mem) → Created m1 size ((88, size - 88) ∷ []) [] h m2
      → Laid size h (set_word m2 va_hash h)
  placed m1 free flag h m2 (no_room) =
      full (load-store_other 4 8 m1 32 0 40 (inr (omega arith)) ∙ flag)
  placed m1 free flag h m2 (created b left heap owned count kept) =
      let v = b.0 + 8 in
      let m3 = set_word m2 32 v in
      let out : Outside m2 m3 32 8 = (λ x q. store_other 8 m2 32 v x q) in
      laid b left (Heap-log m2 size left (b ∷ []) m3 32 8 heap (omega arith) (omega arith) out)
        (Owned-Blocks m2 m3 (b ∷ []) v (λ k. []) (λ x p q. out x (inl (omega arith)))
          ((λ x p q. out x (inr (omega (arith, heap.used.0.0.low)))), tt) owned)
        (load-store_other 8 8 m2 32 v v (inr (omega (arith, heap.used.0.0.low))) ∙ count)
        (load-store_same 8 m2 32 v
          (omega (arith, heap.used.0.0.high, heap.used.0.0.room, heap.free.small)))
        (load-store_other 4 8 m2 32 v 40 (inr (omega arith))
          ∙ (load-Same 4 m1 m2 40 (λ x p q. kept.0 x (omega arith) (omega arith)) ∙ flag))

  pub lay_out-Laid : Ends (Laid size) (lay_out size m)
  unfolding lay_out
  lay_out-Laid =
      Ends.bind (Ends.both (lmc_init_memory-FreeList m size room small zeroed) init-flag)
        λ _ m1 (free, flag).
          Ends.bind
            (ht_hash_create-Created m1 size ((88, size - 88) ∷ []) []
              (record { free = free; used = tt; disjoint = tt }))
            λ h m2 c. ends (placed m1 free flag h m2 c)

-- What `local_memcache_clear` leaves: its bytes, with the lock flag set, hold an empty table, which
-- is that of the handle, or the pool has no room for one.
pub data Cleared (lmc : LocalMemcache) : Bool × LocalMemcache → World → Type 0 where
  too_small : {w' : World} → Unlocked lmc w' → Cleared lmc (false, lmc) w'
  emptied :
      {w' : World} (b : Chunk) (left : List Chunk)
      → Unlocked lmc w'
      → Heap (under_lock lmc w') lmc.size left (b ∷ [])
      → Owned (under_lock lmc w') (b ∷ []) (b.0 + 8) (λ k. [])
      → Cleared lmc (true, record lmc { va_hash = b.0 + 8 }) w'

module _ (depth : ℕ) (env : Env) (lmc : LocalMemcache) (w : World) (u : Unlocked lmc w)
    (room : 104 ≤ lmc.size) (small : lmc.size < 2 ^ 63)
    (zeroed : word (under_lock lmc w) 8 ≡ 0) where
  Laid-flag : (h : ℕ) (m : Mem) → Laid lmc.size h m → int m locked ≡ 1
  Laid-flag h m (full flag) = flag
  Laid-flag h m (laid b left heap owned count at flag) = flag

  Cleared-by :
      (h : ℕ) (m : Mem) (w' : World)
      → Laid lmc.size h m
      → Released lmc w m w'
      → Cleared lmc (not (h == 0), if h == 0 then lmc else record lmc { va_hash = h }) w'
  Cleared-by h m w' (full flag) r = too_small (Released-Unlocked lmc w m w' u r)
  Cleared-by h m w' (laid b left heap owned count at flag) r =
      let m' = under_lock lmc w' in
      let out = Released-flag lmc w m w' r in
      rw (ne→== (b.0 + 8) 0 (omega arith)) (
        emptied b left (Released-Unlocked lmc w m w' u r)
          (flag_Heap lmc.size m m' out left (b ∷ []) heap)
          (flag_Owned lmc.size m m' out (b ∷ []) (b.0 + 8) (λ k. [])
            (flag_blocks lmc.size m m' out left (b ∷ []) heap) owned))

  -- On a pool that no process has locked, of at least 104 and less than 2 ^ 63 bytes, whose
  -- word at 8 is 0, whatever else its bytes are, `local_memcache_clear` ends and leaves the
  -- pool unlocked; it returns 0, or its bytes, with the lock flag set, hold an empty table in
  -- a heap, which is the table of the new handle.
  pub local_memcache_clear-Cleared : Ends (Cleared lmc) (local_memcache_clear depth env lmc w)
  unfolding local_memcache_clear
  local_memcache_clear-Cleared = Ends.bind (enter_region lmc w depth env u) λ r w1 (e, i). rw e (
      Ends.bind
        (inside lmc w (lay_out lmc.size) u.value (under_lock lmc w) w1 i
          (lay_out-Laid (under_lock lmc w) lmc.size room small zeroed))
        λ h w2 (m, l, i2).
          Ends.bind (leave_region lmc w u m w2 i2 (Laid-flag h m l))
            λ s w3 (f, released). rw f (ends (Cleared-by h m w3 l released)))
