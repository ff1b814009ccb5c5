-- ===== src/Tests/Pools.antt =====
-- Runs on a pool: set and get, locks that are not taken, and the recovery.
use localmemcache.Base.{
  ℕ, ◌-◌, ◌≤◌, ◌<◌, ◌^◌, ◌≡◌, ◌⊎◌, refl, inl, arith, List, [], ◌∷◌, none, some, false, max, Option,
  if◌then◌else◌,
}
use localmemcache.Cmd.{stopped, null_pointer}
use localmemcache.Cmd.Ends.{Ends}
use localmemcache.Errors.{Status, ok, lock_error}
use localmemcache.Hashtable.Owned.{Owned}
use localmemcache.Lock.{
  Wait, timed_out, interrupted, put, same_name, same_name_refl, lmc_namespacify,
}
use localmemcache.Memory.{Mem, word, int, set_int, set_byte, bytes, load, store}
use localmemcache.Memory.Laws.{store_other, load-store_other, load-store_same}
use localmemcache.Pool.{LocalMemcache}
use localmemcache.Pool.Crashed.{Deserted, At, check_lock, handle}
use localmemcache.Pool.Laws.{Unchanged, wait_interrupted, pool_bytes}
use localmemcache.Pool.Misuse.{local_memcache_set-Refused, local_memcache_get_new-unlocks}
use localmemcache.Pool.Operations.{
  local_memcache_set, local_memcache_delete, local_memcache_get_new, succeeded,
}
use localmemcache.Pool.Recovery.{__local_memcache_check_namespace, lmc_lock_shm_region}
use localmemcache.Pool.Region.{Unlocked}
use localmemcache.Pool.Repaired.{
  check_namespace-repairs, lock_region-repairs, check_namespace-null_pointer, never_flagged,
}
use localmemcache.Pool.Store.{
  flag_Heap, flag_Owned, flag_blocks, local_memcache_set-Stored, local_memcache_get_new-set, Stored,
}
use localmemcache.Shm.{lmc_shm_create, lmc_file_path_for_namespace, lmc_namespace_root_path}
use localmemcache.Shm.Attach.{Ready, Rewritten, mapped, lmc_shm_create-writes}
use localmemcache.System.{Env, World, Node, directory, regular}
use localmemcache.Tests.Locks.{abc}
use localmemcache.Tests.Sets.{
  start, free, blocks, no_entries, start-Heap, start-Owned, extent, ab, hello,
}
use localmemcache.Valloc.{locked}
use localmemcache.Valloc.Heap.{Heap}
use localmemcache.Valloc.Region.{Outside}

-- An operating system that fails nothing, whose waits all end in one way, with no other process.
abbrev pub quiet : Wait → Env
quiet w = record {
  root = some (b'/' ∷ b'r' ∷ []);
  directory_size = 0;
  refuses = λ _. false;
  others = λ t x. x;
  wait = λ _. w;
}

-- The file of "abc" has inode 7, and every other path is a directory.
abbrev file_of_abc : List ℕ → Option Node
file_of_abc p =
    if same_name p (lmc_file_path_for_namespace (some (b'/' ∷ b'r' ∷ [])) abc)
    then some (regular 7)
    else some directory

abbrev pub world : (lock check : ℕ) (m : Mem) (z : ℕ) → World
world lock check m z = record {
  sems = put (check_lock abc) check (put (lmc_namespacify abc) lock (λ _. none));
  paths = file_of_abc;
  contents = λ _. m;
  st_size = λ _. z;
  next_inode = 8;
  clock = 0;
}

two_locks : same_name (lmc_namespacify abc) (check_lock abc) ≡ false
unfolding lmc_namespacify localmemcache.Common.lmc_hash localmemcache.Common.lmc_clean_string
    localmemcache.Common.lmc_is_filename localmemcache.Lock.hex localmemcache.Pool.lmc_checkize
two_locks = refl

pub pool_sem :
    (lock check : ℕ) (m : Mem) (z : ℕ)
    → (world lock check m z).sems (lmc_namespacify abc) ≡ some lock
pool_sem lock check m z = rw (two_locks, same_name_refl (lmc_namespacify abc)) refl

check_sem :
    (lock check : ℕ) (m : Mem) (z : ℕ) → (world lock check m z).sems (check_lock abc) ≡ some check
check_sem lock check m z = rw (same_name_refl (check_lock abc)) refl

pub files :
    (w : Wait) (lock check : ℕ) (m : Mem) (z : ℕ) → Ready (quiet w) abc 7 (world lock check m z)
unfolding lmc_file_path_for_namespace lmc_namespace_root_path localmemcache.Common.lmc_is_filename
files w lock check m z = record { allowed = λ _. refl; root = refl; file = refl }

abbrev pub opened_pool : LocalMemcache
opened_pool = handle abc 300000 7 1000

pub unlocked : Unlocked opened_pool (world 1 1 start 300000)
unfolding load store
unlocked = record { value = 0; sem = pool_sem 1 1 start 300000; small = omega arith; flag = refl }

flag_out : Outside start (set_int start 40 1) 40 4
flag_out x h = store_other 4 start 40 1 x h

locked-Heap : Heap (set_int start 40 1) 300000 free blocks
locked-Heap = flag_Heap 300000 start (set_int start 40 1) flag_out free blocks start-Heap

locked-Owned : Owned (set_int start 40 1) blocks 1000 no_entries
locked-Owned =
    flag_Owned 300000 start (set_int start 40 1) flag_out blocks 1000 no_entries
      (flag_blocks 300000 start (set_int start 40 1) flag_out free blocks start-Heap) start-Owned

room : 0 < word (set_int start 40 1) 16
room = rw (load-store_other 8 4 start 40 1 16 (inl (omega arith))) extent

local_memcache_set-Stored_example :
    Ends
      (λ r w'.
        (s : Status) × (r ≡ succeeded (some s))
        × Unlocked opened_pool w'
        × Stored opened_pool (world 1 1 start 300000) 300000 blocks no_entries ab 2 hello 2 s w')
      (local_memcache_set 1 (quiet timed_out) opened_pool ab 2 hello 2 (world 1 1 start 300000))
local_memcache_set-Stored_example =
    local_memcache_set-Stored 1 (quiet timed_out) opened_pool (world 1 1 start 300000) unlocked
      300000 free blocks no_entries ab 2 hello 2 locked-Heap locked-Owned (omega arith)
      (omega arith) room refl

local_memcache_get_new-set_example :
    Ends
      (λ r w'.
        (r ≡ false)
        ⊎ Ends
            (λ v w''. (v ≡ some (bytes 2 hello 0)) × Unlocked opened_pool w'')
            (local_memcache_get_new 2 (quiet interrupted) opened_pool ab 2 w'))
      (local_memcache_set 1 (quiet timed_out) opened_pool ab 2 hello 2 (world 1 1 start 300000))
local_memcache_get_new-set_example =
    local_memcache_get_new-set 1 (quiet timed_out) opened_pool (world 1 1 start 300000) unlocked
      300000 free blocks no_entries ab 2 hello 2 locked-Heap locked-Owned (omega arith)
      (omega arith) room refl 2 (quiet interrupted)

local_memcache_set-Refused_example :
    Ends
      (λ r w'. (r ≡ false) × Unchanged (world 0 1 start 300000) w')
      (local_memcache_set 1 (quiet interrupted) opened_pool ab 2 hello 2 (world 0 1 start 300000))
    × Ends
        (λ r w'. (r ≡ false) × Unchanged (world 0 1 start 300000) w')
        (local_memcache_delete 1 (quiet interrupted) opened_pool ab 2 (world 0 1 start 300000))
local_memcache_set-Refused_example =
    local_memcache_set-Refused 1 (quiet interrupted) opened_pool (world 0 1 start 300000) lock_error
      ab 2 hello 2 (wait_interrupted (pool_sem 0 1 start 300000) refl refl)

local_memcache_get_new-unlocks_example :
    Ends
      (λ r w'.
        (r ≡ none)
        × (w'.sems (lmc_namespacify abc) ≡ some 1)
        × (int (pool_bytes opened_pool w') locked ≡ 0))
      (local_memcache_get_new 1
        (quiet interrupted)
        opened_pool
        ab
        2
        (world 0 1 (set_int start 40 1) 300000))
local_memcache_get_new-unlocks_example =
    local_memcache_get_new-unlocks 1 (quiet interrupted) opened_pool
      (world 0 1 (set_int start 40 1) 300000) ab 2 (pool_sem 0 1 (set_int start 40 1) 300000)
      (load-store_same 4 start 40 1 (omega arith)) refl refl

lmc_shm_create-writes_example :
    Ends
      (λ r w'.
        (r ≡ some (mapped abc 1000 7))
        × Rewritten (world 1 1 start 300000) 7 (set_byte start (1000 - 1) 0) (max 300000 1000) w')
      (lmc_shm_create (quiet timed_out) abc 1000 (world 1 1 start 300000))
lmc_shm_create-writes_example =
    lmc_shm_create-writes (quiet timed_out) abc 7 (world 1 1 start 300000)
      (files timed_out 1 1 start 300000) 1000 refl (omega arith) (omega arith)

deserted : Deserted (quiet timed_out) abc
deserted = record { idle = λ t w. refl; times_out = λ t. refl; short = refl; two_locks = two_locks }

-- A pool whose lock was taken by a process that came no further, and has `z` bytes.
crashed : (z : ℕ) → At (quiet timed_out) abc 7 0 1 (λ _. 0) z (world 0 1 (λ _. 0) z)
crashed z = record {
  pool = pool_sem 0 1 (λ _. 0) z;
  check = check_sem 0 1 (λ _. 0) z;
  bytes = refl;
  length = refl;
  ready = files timed_out 0 1 (λ _. 0) z;
}

zeros : Mem
zeros = set_byte (λ _. 0) (1000 - 1) 0

zeros-version : word zeros 48 ≤ 2
unfolding zeros load
zeros-version = omega arith

zeros-flag : int zeros 40 ≡ 0
unfolding zeros load
zeros-flag = refl

check_namespace-repairs_example :
    Ends
      (λ r w'.
        (r ≡ ok)
        × (w'.sems (lmc_namespacify abc) ≡ some 1)
        × (w'.sems (check_lock abc) ≡ some 1)
        × (int (w'.contents 7) locked ≡ 0))
      (__local_memcache_check_namespace 1 (quiet timed_out) abc (world 0 1 (λ _. 0) 1000))
unfolding zeros
check_namespace-repairs_example =
    check_namespace-repairs (quiet timed_out) abc 7 deserted (λ _. 0) 1000 (world 0 1 (λ _. 0) 1000)
      (crashed 1000) 0 zeros (omega arith) (omega arith) zeros-version (never_flagged zeros-flag)

lock_region-repairs_example :
    Ends
      (λ r w'.
        (r ≡ ok) × (w'.sems (lmc_namespacify abc) ≡ some 0) × (int (w'.contents 7) locked ≡ 1))
      (lmc_lock_shm_region 1 (quiet timed_out) (handle abc 1000 7 1000) (world 0 1 (λ _. 0) 1000))
unfolding zeros
lock_region-repairs_example =
    lock_region-repairs (quiet timed_out) abc 7 deserted (λ _. 0) 1000 (world 0 1 (λ _. 0) 1000)
      (crashed 1000) 0 zeros (omega arith) (omega arith) zeros-version (never_flagged zeros-flag)
      1000 1000

check_namespace-null_pointer_example :
    __local_memcache_check_namespace 1 (quiet timed_out) abc (world 0 1 (λ _. 0) (2 ^ 31))
    ≡ stopped null_pointer
check_namespace-null_pointer_example =
    check_namespace-null_pointer (quiet timed_out) abc 7 deserted (λ _. 0) (2 ^ 31)
      (world 0 1 (λ _. 0) (2 ^ 31)) (crashed (2 ^ 31)) 0 (omega arith)
