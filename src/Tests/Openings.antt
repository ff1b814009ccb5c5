-- ===== src/Tests/Openings.antt =====
-- Runs on pools that are made, cleared, dropped, and used by two processes.
use localmemcache.Base.{◌≡◌, refl, arith, [], ◌∷◌, none, some, true, false, if◌then◌else◌}
use localmemcache.Cmd.{done}
use localmemcache.Cmd.Ends.{Ends}
use localmemcache.Common.{lmc_clean_string}
use localmemcache.Errors.{ok}
use localmemcache.Lock.{timed_out, same_name, lmc_namespacify}
use localmemcache.Memory.{word, int, set_int, load, store}
use localmemcache.Memory.Laws.{load-store_same}
use localmemcache.Pool.Create.{__local_memcache_create}
use localmemcache.Pool.Dropping.{Dropped, drop_namespace-Dropped}
use localmemcache.Pool.Exclusion.{lock, unlock, Reach, here, next, Exclusive, Reach-Exclusive}
use localmemcache.Pool.Fresh.{Cleared, local_memcache_clear-Cleared}
use localmemcache.Pool.Laws.{changed, pool_bytes, region_taken, region_given_back}
use localmemcache.Pool.Opening.{Made, __local_memcache_create-Made}
use localmemcache.Pool.Operations.{local_memcache_clear}
use localmemcache.Pool.Recovery.{local_memcache_drop_namespace}
use localmemcache.Shm.{lmc_file_path_for_namespace, lmc_namespace_root_path}
use localmemcache.System.{World, directory}
use localmemcache.System.Laws.{put-same}
use localmemcache.Tests.Locks.{abc}
use localmemcache.Tests.Pools.{quiet, world, opened_pool, unlocked, pool_sem, files}
use localmemcache.Tests.Sets.{start}
use localmemcache.Valloc.{locked}

-- Nothing is there but the directory of the pools.
abbrev nothing_yet : World
nothing_yet = record {
  sems = λ _. none;
  paths = λ p. if same_name p (b'/' ∷ b'r' ∷ []) then some directory else none;
  contents = λ _ _. 0;
  st_size = λ _. 0;
  next_inode = 1;
  clock = 0;
}

root : nothing_yet.paths (lmc_namespace_root_path (quiet timed_out).root) ≡ some directory
unfolding lmc_namespace_root_path
root = refl

missing : nothing_yet.paths (lmc_file_path_for_namespace (quiet timed_out).root abc) ≡ none
unfolding lmc_file_path_for_namespace lmc_namespace_root_path localmemcache.Common.lmc_is_filename
missing = refl

__local_memcache_create-Made_example :
    Ends (Made abc 1000000 1) (
      __local_memcache_create (quiet timed_out) (λ ns w. done ok w) abc 1000000 0 false nothing_yet)
__local_memcache_create-Made_example =
    __local_memcache_create-Made (quiet timed_out) abc 1000000 0 (λ t. refl) refl (omega arith)
      (omega arith) (λ ns w. done ok w) nothing_yet root missing refl

cleared_before : word (set_int start 40 1) 8 ≡ 0
unfolding load store
cleared_before = refl

local_memcache_clear-Cleared_example :
    Ends
      (Cleared opened_pool)
      (local_memcache_clear 1 (quiet timed_out) opened_pool (world 1 1 start 300000))
local_memcache_clear-Cleared_example =
    local_memcache_clear-Cleared 1 (quiet timed_out) opened_pool (world 1 1 start 300000) unlocked
      (omega arith) (omega arith) cleared_before

drop_namespace-Dropped_example :
    Ends
      (λ r w'.
        (r ≡ true) × Dropped (quiet timed_out) (lmc_clean_string abc) (world 0 5 start 300000) w')
      (local_memcache_drop_namespace
        (quiet timed_out)
        (some abc)
        none
        true
        (world 0 5 start 300000))
drop_namespace-Dropped_example =
    drop_namespace-Dropped (quiet timed_out) abc none (world 0 5 start 300000) (λ t. refl)
      (files timed_out 0 5 start 300000).root

-- Process 3 takes the lock and gives it back, and process 4 takes it.
abbrev w0 : World
w0 = world 1 1 start 300000

abbrev w1 : World
w1 = changed opened_pool 0 (set_int start locked 1) w0

abbrev w2 : World
w2 = changed opened_pool 1 (set_int (pool_bytes opened_pool w1) locked 0) w1

abbrev w3 : World
w3 = changed opened_pool 0 (set_int (pool_bytes opened_pool w2) locked 1) w2

flag1 : int (pool_bytes opened_pool w1) locked ≡ 1
flag1 = load-store_same 4 start locked 1 (omega arith)

flag2 : int (pool_bytes opened_pool w2) locked ≡ 0
flag2 = load-store_same 4 (pool_bytes opened_pool w1) locked 0 (omega arith)

two_turns : Reach opened_pool [] w0 (4 ∷ []) w3
two_turns =
    next
      (next
        (next here (
          lock 3 1 (quiet timed_out) 0 (pool_sem 1 1 start 300000) (
            region_taken 1 (quiet timed_out) opened_pool w0 0 (pool_sem 1 1 start 300000)
              unlocked.flag)))
        (unlock [] 3 [] ok refl (
          region_given_back opened_pool w1 0 (put-same (lmc_namespacify abc) 0 w0) (omega arith)
            flag1)))
      (lock 4 1 (quiet timed_out) 0 (put-same (lmc_namespacify abc) 1 w1) (
        region_taken 1 (quiet timed_out) opened_pool w2 0 (put-same (lmc_namespacify abc) 1 w1)
          flag2))

Reach-Exclusive_example : Exclusive opened_pool 1 w3
Reach-Exclusive_example =
    Reach-Exclusive opened_pool [] w0 (4 ∷ []) w3
      (record { one = omega arith; sem = (pool_sem 1 1 start 300000); flag = unlocked.flag })
      two_turns
