-- ===== src/Pool/Store.antt =====
-- `local_memcache_set` on an unlocked pool, and `local_memcache_get_new` after it.
use localmemcache.Base.{
  ℕ, ◌+◌, ◌≤◌, ◌<◌, ◌^◌, ◌≡◌, refl, ap, ◌∙◌, ◌⊎◌, inl, inr, arith, none, some, List, [], ◌∷◌, ◌++◌,
  All-mono, All-right, length, false, ne→==, subst, Option,
}
use localmemcache.Cmd.{done, pure, ◌>>=◌}
use localmemcache.Cmd.Ends
use localmemcache.Cmd.Ends.{Ends, ends}
use localmemcache.Errors.{Status, ok, failed}
use localmemcache.Memory.{Mem, word, int, set_int, bytes}
use localmemcache.Memory.Copies.{bytes-shorter}
use localmemcache.Memory.Laws.{Same, load-Same, load-store_same, store_other}
use localmemcache.Hashtable.{caller, hash_t, ht_get}
use localmemcache.Hashtable.Insert.{Inserted, not_stored, stored, bucket_at, Counted}
use localmemcache.Hashtable.Lookup.{Entry, first_of}
use localmemcache.Hashtable.Owned.{Owned, Owned-Blocks}
use localmemcache.Hashtable.Set.{ht_set-Inserted, fetched}
use localmemcache.Hashtable.Strings.{Text-Blocks}
use localmemcache.Pool.{LocalMemcache, lmc_unlock_shm_region}
use localmemcache.Pool.Laws.{pool_bytes}
use localmemcache.Pool.Operations.{
  local_memcache_set, local_memcache_get_new, __local_memcache_get, succeeded, copied,
}
use localmemcache.Pool.Region.{
  Unlocked, Released, Inside, enter_region, inside, leave_region, on_Unlocked,
}
use localmemcache.System.{World, Env}
use localmemcache.Valloc.{locked}
use localmemcache.Valloc.Chain.{Chunk}
use localmemcache.Valloc.Heap.{Heap, InUse, Blocks}
use localmemcache.Valloc.Region.{Outside, Heap-log, Holds-Same}

-- the pool's bytes as the operation finds them that has the lock
abbrev pub under_lock : LocalMemcache → World → Mem
under_lock lmc w = set_int (pool_bytes lmc w) locked 1

-- The lock flag may change.
module _ (hi : ℕ) (m m' : Mem) (out : Outside m m' 40 4) where
  pub flag_blocks : (cs us : List Chunk) → Heap m hi cs us → Blocks m m' us
  flag_blocks cs us heap =
      All-mono (InUse m hi cs) (λ b. Same m m' b.0 (b.0 + b.1)) us
        (λ b (block, e) x p q. out x (inr (omega (arith, block.low)))) heap.used

  pub flag_Heap : (cs us : List Chunk) → Heap m hi cs us → Heap m' hi cs us
  flag_Heap cs us heap = Heap-log m hi cs us m' 40 4 heap (omega arith) (omega arith) out

  pub flag_Owned :
      (us : List Chunk) (va_ht : ℕ) (chains : ℕ → List Entry)
      → Blocks m m' us
      → Owned m us va_ht chains
      → Owned m' us va_ht chains
  flag_Owned us va_ht chains same owned =
      Owned-Blocks m m' us va_ht chains (λ x p q. out x (inl (omega arith))) same owned

  flag_count :
      (us : List Chunk) (va_ht count : ℕ) (chains : ℕ → List Entry) (m0 : Mem)
      → Blocks m m' us
      → Owned m us va_ht chains
      → Counted m0 m va_ht count
      → Counted m' m' va_ht count
  flag_count us va_ht count chains m0 same owned (n, d) = (
    load-Same 8 m m' va_ht
          (λ x p q. Holds-Same m m' va_ht hash_t us same owned.table_held x p (omega arith))
        ∙ n,
    λ x p q. refl,
  )

  Inserted-flag :
      (us : List Chunk) (va_ht : ℕ) (chains : ℕ → List Entry) (count : ℕ) (m0 key : Mem) (n_key : ℕ)
      (value : Mem) (n_value : ℕ) (s : Status)
      → Inserted hi us va_ht chains count m0 key n_key value n_value s m
      → Inserted hi us va_ht chains count m' key n_key value n_value s m'
  Inserted-flag us va_ht chains count m0 key n_key value n_value s
        (not_stored left extra heap owned n) =
      let same =
        All-right (λ b. Same m m' b.0 (b.0 + b.1)) extra us (flag_blocks left (extra ++ us) heap) in
      not_stored left extra (flag_Heap left (extra ++ us) heap)
        (flag_Owned us va_ht chains same owned) (flag_count us va_ht count chains m0 same owned n)
  Inserted-flag us va_ht chains count m0 key n_key value n_value s
        (stored e be bk bv left heap owned kt vt n) =
      let (se, (sk, (sv, same))) = flag_blocks left (be ∷ bk ∷ bv ∷ us) heap in
      stored e be bk bv left (flag_Heap left (be ∷ bk ∷ bv ∷ us) heap)
        (flag_Owned (be ∷ us) va_ht _ (se, same) owned)
        (Text-Blocks m m' (bk ∷ []) e.key n_key (bytes (n_key + 1) key 0) (sk, tt) kt)
        (Text-Blocks m m' (bv ∷ []) e.value n_value (bytes (n_value + 1) value 0) (sv, tt) vt)
        (flag_count (be ∷ us) va_ht _ _ m0 (se, same) owned n)

-- The lock flag is still set after `ht_set`.
flag_after :
    (b : Mem) (hi : ℕ) (us : List Chunk) (va_ht : ℕ) (chains : ℕ → List Entry) (count : ℕ)
    (key : Mem) (n_key : ℕ) (value : Mem) (n_value : ℕ) (s : Status) (m : Mem)
    → Inserted hi us va_ht chains count (set_int b 40 1) key n_key value n_value s m
    → int m 40 ≡ 1
flag_after b hi us va_ht chains count key n_key value n_value s m
      (not_stored left extra heap owned (n, same)) =
    load-Same 4 (set_int b 40 1) m 40 (λ x p q. same x (omega arith) (omega arith))
    ∙ load-store_same 4 b 40 1 (omega arith)
flag_after b hi us va_ht chains count key n_key value n_value s m
      (stored e be bk bv left heap owned kt vt (n, same)) =
    load-Same 4 (set_int b 40 1) m 40 (λ x p q. same x (omega arith) (omega arith))
    ∙ load-store_same 4 b 40 1 (omega arith)

-- An unlocked pool stays one.
pub Released-Unlocked :
    (lmc : LocalMemcache) (w : World) (m : Mem) (w' : World)
    → Unlocked lmc w
    → Released lmc w m w'
    → Unlocked lmc w'
Released-Unlocked lmc w m w' u r = record {
  value = u.value;
  sem = r.sems lmc.lock ∙ u.sem;
  small = u.small;
  flag = rw r.bytes (load-store_same 4 m locked 0 (omega arith));
}

pub Released-flag :
    (lmc : LocalMemcache) (w : World) (m : Mem) (w' : World)
    → Released lmc w m w'
    → Outside m (under_lock lmc w') 40 4
Released-flag lmc w m w' r x h =
    rw r.bytes (store_other 4 (set_int m 40 0) 40 1 x h ∙ store_other 4 m 40 0 x h)

module _ (depth : ℕ) (env : Env) (lmc : LocalMemcache) (w : World) (u : Unlocked lmc w) (key : Mem)
    (n_key : ℕ) where
  get-Inside :
      (v : ℕ × ℕ)
      → ht_get lmc.va_hash (caller key) n_key (under_lock lmc w) ≡ done v (under_lock lmc w)
      → Ends
          (λ r w'. (r ≡ v) × Inside lmc w u.value (under_lock lmc w) w')
          (__local_memcache_get depth env lmc key n_key w)
  unfolding __local_memcache_get
  get-Inside v e =
      let P : ℕ × ℕ → Mem → Type 0 = (λ a m. (a ≡ v) × (m ≡ under_lock lmc w)) in
      Ends.bind (enter_region lmc w depth env u) λ r w1 (f, i). rw f (
        Ends.weaken
          (inside lmc w {P = P} (ht_get lmc.va_hash (caller key) n_key) u.value (under_lock lmc w)
            w1 i (rw e (ends (refl, refl))))
          λ a w2 (m, (p, same), i2). (p, subst (λ b. Inside lmc w u.value b w2) same i2))

  -- `local_memcache_get_new` on an unlocked pool.
  pub get_on_unlocked :
      (v : ℕ × ℕ)
      → ht_get lmc.va_hash (caller key) n_key (under_lock lmc w) ≡ done v (under_lock lmc w)
      → Ends
          (λ r w'. (r ≡ copied v (under_lock lmc w)) × Released lmc w (under_lock lmc w) w')
          (local_memcache_get_new depth env lmc key n_key w)
  unfolding local_memcache_get_new
  get_on_unlocked v e =
      let m = under_lock lmc w in
      let P : Option (List ℕ) → Mem → Type 0 = (λ a b. (a ≡ copied v m) × (b ≡ m)) in
      Ends.bind (get-Inside v e) λ a w1 (f, i).
        Ends.bind
          {k = λ c. lmc_unlock_shm_region lmc >>= λ s. pure (elim s [ ok ↦ c | failed e' ↦ none ])}
          (inside lmc w {P = P} (λ b. done (copied a b) b) u.value m w1 i
            (ends (ap (λ x. copied x m) f, refl)))
          λ c w2 (b, (g, same), i2).
            Ends.bind
              (leave_region lmc w u m w2 (subst (λ x. Inside lmc w u.value x w2) same i2)
                (load-store_same 4 (pool_bytes lmc w) locked 1 (omega arith)))
              λ s w3 (h, released). rw h (ends (g, released))

-- What `ht_set` does to the bytes of a pool, with the lock flag set before and after.
abbrev pub Stored :
    (lmc : LocalMemcache) (w : World) (hi : ℕ) (us : List Chunk) (chains : ℕ → List Entry)
    (key : Mem) (n_key : ℕ) (value : Mem) (n_value : ℕ)
    → Status
    → World
    → Type 0
Stored lmc w hi us chains key n_key value n_value s w' =
    Inserted hi us lmc.va_hash chains (word (under_lock lmc w) lmc.va_hash) (under_lock lmc w') key
      n_key value n_value s (under_lock lmc w')

module _ (depth : ℕ) (env : Env) (lmc : LocalMemcache) (w : World) (u : Unlocked lmc w) (hi : ℕ)
    (cs us : List Chunk) (chains : ℕ → List Entry) (key : Mem) (n_key : ℕ) (value : Mem)
    (n_value : ℕ) (heap : Heap (under_lock lmc w) hi cs us)
    (owned : Owned (under_lock lmc w) us lmc.va_hash chains) (short_key : n_key ≤ 2 ^ 61)
    (short_value : n_value ≤ 2 ^ 61)
    (room : length (chains (bucket_at key n_key)) < word (under_lock lmc w) 16)
    (new : first_of (under_lock lmc w) n_key (chains (bucket_at key n_key)) ≡ none) where
  -- On a pool that no process has locked, whose bytes, with the lock flag set, hold a table in
  -- a heap, and for a key and a value as in `ht_set-Inserted`, `local_memcache_set` ends and
  -- leaves the pool unlocked; its bytes, with the lock flag set, hold the old table, and it
  -- returns 0, or the table with the new entry, and it returns 1.
  pub local_memcache_set-Stored :
      Ends
        (λ r w'.
          (s : Status) × (r ≡ succeeded (some s))
          × Unlocked lmc w'
          × Stored lmc w hi us chains key n_key value n_value s w')
        (local_memcache_set depth env lmc key n_key value n_value w)
  unfolding local_memcache_set
  local_memcache_set-Stored =
      let m = under_lock lmc w in
      let count = word m lmc.va_hash in
      Ends.bind
        (on_Unlocked depth env lmc w _ u (
          Ends.weaken
            (ht_set-Inserted m hi cs us lmc.va_hash chains key n_key value n_value heap owned
              short_key short_value room new)
            λ s m1 i. (
              i,
              flag_after (pool_bytes lmc w) hi us lmc.va_hash chains count key n_key value n_value s
                  m1 i,
            )))
        λ r w1 (s, m1, e, i, released). rw e (
          ends (
            s,
            refl,
            Released-Unlocked lmc w m1 w1 u released,
            Inserted-flag hi m1 (under_lock lmc w1) (Released-flag lmc w m1 w1 released) us
                lmc.va_hash chains count m key n_key value n_value s i,
          ))

  found :
      (depth2 : ℕ) (env2 : Env) (s : Status) (w' : World)
      → Unlocked lmc w'
      → Stored lmc w hi us chains key n_key value n_value s w'
      → (succeeded (some s) ≡ false)
        ⊎ Ends
            (λ v w''. (v ≡ some (bytes n_value value 0)) × Unlocked lmc w'')
            (local_memcache_get_new depth2 env2 lmc key n_key w')
  found depth2 env2 s w' u' i =
      let m' = under_lock lmc w' in
      elim (fetched hi us lmc.va_hash chains (word (under_lock lmc w) lmc.va_hash) m' key n_key
        value n_value s m' i) [
          | inl f ↦ inl (rw f refl)
          | inr (a, ne, g, same) ↦ inr (
              Ends.weaken (get_on_unlocked depth2 env2 lmc w' u' key n_key (a, n_value) g)
                λ v w2 (h, released). (
                  h ∙ rw (ne→== a 0 ne, bytes-shorter n_value m' value a 0 same) refl,
                  Released-Unlocked lmc w' m' w2 u' released,
                ))
        ]

  -- On a pool that no process has locked, whose bytes, with the lock flag set, hold a table in
  -- a heap, and for a key and a value as in `ht_set-Inserted`, `local_memcache_set` ends; it
  -- returns 0, or a later `local_memcache_get_new` for the key, by any process, ends and
  -- returns a copy of the value, and leaves the pool unlocked.
  pub local_memcache_get_new-set :
      (depth2 : ℕ) (env2 : Env)
      → Ends
          (λ r w'.
            (r ≡ false)
            ⊎ Ends
                (λ v w''. (v ≡ some (bytes n_value value 0)) × Unlocked lmc w'')
                (local_memcache_get_new depth2 env2 lmc key n_key w'))
          (local_memcache_set depth env lmc key n_key value n_value w)
  local_memcache_get_new-set depth2 env2 =
      Ends.weaken local_memcache_set-Stored λ r w' (s, e, u', i). rw e (found depth2 env2 s w' u' i)
