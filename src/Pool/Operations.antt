-- ===== src/Pool/Operations.antt =====
-- The operations of src/localmemcache.c on an open pool: each takes the lock, works on the table and
-- gives the lock back. `malloc` does not fail here.
use localmemcache.Base.{ℕ, ◌==◌, if◌then◌else◌, Bool, true, false, not, Option, none, some, List}
use localmemcache.Cmd.{Cmd, done, pure, ◌>>=◌, read}
use localmemcache.Errors.{Status, ok, failed}
use localmemcache.Hashtable.{caller, ht_get, ht_set, ht_delete}
use localmemcache.Hashtable.Walks.{
  IterStatus, StringAt, ht_hash_iterate, ht_random_pair, ht_check_memory,
}
use localmemcache.Memory.{Mem, bytes}
use localmemcache.Pool.{LocalMemcache, lmc_unlock_shm_region}
use localmemcache.Pool.Create.{lay_out}
use localmemcache.Pool.Recovery.{lmc_lock_shm_region}
use localmemcache.System.{Env, Sys, on_file}
use localmemcache.Valloc.{va_hash}

-- The frame of the operations: code on the mapped memory between `lmc_lock_shm_region` and
-- `lmc_unlock_shm_region`. If one of the two fails, the operation fails.
unfoldable pub in_region : {A : Type 0} → (depth : ℕ) → Env → LocalMemcache → Cmd A → Sys (Option A)
in_region depth env lmc c = do
  r ← lmc_lock_shm_region depth env lmc
  elim r [
    | failed e ↦ pure none
    | ok ↦ do
      a ← on_file lmc.shm.fd c
      u ← lmc_unlock_shm_region lmc
      pure (elim u [ ok ↦ some a | failed e ↦ none ])
  ]

-- a copy of a string of the mapped memory
abbrev pub copied : ℕ × ℕ → Mem → Option (List ℕ)
copied (a, n) m = if a == 0 then none else some (bytes n m a)

-- The lock is still held at the end.
unfoldable pub __local_memcache_get :
    (depth : ℕ) → Env → LocalMemcache → (key : Mem) (n_key : ℕ) → Sys (ℕ × ℕ)
__local_memcache_get depth env lmc key n_key = do
  r ← lmc_lock_shm_region depth env lmc
  elim r [
    | failed e ↦ pure (0, 0)
    | ok ↦ on_file lmc.shm.fd (ht_get lmc.va_hash (caller key) n_key)
  ]

-- The lock is given back whether or not it was taken.
unfoldable pub local_memcache_get_new :
    (depth : ℕ) → Env → LocalMemcache → (key : Mem) (n_key : ℕ) → Sys (Option (List ℕ))
local_memcache_get_new depth env lmc key n_key = do
  v ← __local_memcache_get depth env lmc key n_key
  new_s ← on_file lmc.shm.fd (λ m. done (copied v m) m)
  u ← lmc_unlock_shm_region lmc
  pure (elim u [ ok ↦ new_s | failed e ↦ none ])

abbrev pub copied_pair : Option (StringAt × StringAt) → Mem → Option (List ℕ × List ℕ)
copied_pair none m = none
copied_pair (some (k, v)) m = some (bytes k.n m k.data_at, bytes v.n m v.data_at)

unfoldable pub __local_memcache_random_pair :
    (depth : ℕ) → Env → LocalMemcache → (rand1 rand2 : ℕ) → Sys (Option (StringAt × StringAt))
__local_memcache_random_pair depth env lmc rand1 rand2 = do
  r ← lmc_lock_shm_region depth env lmc
  elim r [ failed e ↦ pure none | ok ↦ on_file lmc.shm.fd (ht_random_pair rand1 rand2 lmc.va_hash) ]

-- The outer `none` is the result 0; the inner one is the result 1 with no strings.
unfoldable pub local_memcache_random_pair_new :
    (depth : ℕ) → Env → LocalMemcache → (rand1 rand2 : ℕ) → Sys (Option (Option (List ℕ × List ℕ)))
local_memcache_random_pair_new depth env lmc rand1 rand2 = do
  p ← __local_memcache_random_pair depth env lmc rand1 rand2
  pair ← on_file lmc.shm.fd (λ m. done (copied_pair p m) m)
  u ← lmc_unlock_shm_region lmc
  pure (elim u [ ok ↦ some pair | failed e ↦ none ])

abbrev pub succeeded : Option Status → Bool
succeeded (some ok) = true
succeeded r = false

abbrev pub is_true : Option Bool → Bool
is_true (some true) = true
is_true r = false

unfoldable pub local_memcache_set :
    (depth : ℕ)
    → Env
    → LocalMemcache
    → (key : Mem) (n_key : ℕ) (value : Mem) (n_value : ℕ) → Sys Bool
local_memcache_set depth env lmc key n_key value n_value = do
  r ← in_region depth env lmc (ht_set lmc.va_hash (caller key) n_key (caller value) n_value)
  pure (succeeded r)

unfoldable pub local_memcache_delete :
    (depth : ℕ) → Env → LocalMemcache → (key : Mem) (n_key : ℕ) → Sys Bool
local_memcache_delete depth env lmc key n_key = do
  r ← in_region depth env lmc (ht_delete lmc.va_hash (caller key) n_key)
  pure (is_true r)

-- The handle is returned with the table that it has then.
unfoldable pub local_memcache_clear : (depth : ℕ) → Env → LocalMemcache → Sys (Bool × LocalMemcache)
local_memcache_clear depth env lmc = do
  r ← lmc_lock_shm_region depth env lmc
  elim r [
    | failed e ↦ pure (false, lmc)
    | ok ↦ do
      h ← on_file lmc.shm.fd (lay_out lmc.size)
      u ← lmc_unlock_shm_region lmc
      pure (
        elim u [ ok ↦ not (h == 0) | failed e ↦ false ],
        if h == 0 then lmc else record lmc { va_hash = h },
      )
  ]

module _ {X : Type 0} (iter : X → (va_key va_value : ℕ) → Cmd X) where
  unfoldable pub local_memcache_iterate :
      (depth : ℕ) → Env → LocalMemcache → X → IterStatus → Sys (Option (ℕ × IterStatus × X))
  local_memcache_iterate depth env lmc x status =
      in_region depth env lmc (ht_hash_iterate iter lmc.va_hash x status)

unfoldable pub local_memcache_check_consistency : (depth : ℕ) → Env → LocalMemcache → Sys Bool
local_memcache_check_consistency depth env lmc = do
  r ← in_region depth env lmc do h ← read va_hash; ht_check_memory h
  pure (is_true r)
