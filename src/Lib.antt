-- ===== src/Lib.antt =====
-- Verification of localmemcache, a key-value store in memory that processes share: a C library
-- that keeps a hash table inside a mapped file, with an allocator of its own and a semaphore.
--
-- The parts, and the files that model them:
--   Memory, Cmd  the mapped memory as a function from offsets to bytes, least significant byte
--                first, and code over it. A run ends with a value and a memory, or it stops: at
--                `abort`, or out of fuel. Cmd/Ends is total correctness: the run ends, and its
--                result satisfies a postcondition. Memory/Laws has reads after writes.
--   Word         `size_t` of a 64-bit build, wrap-around written out; the rounding of requests
--                of src/lmc_valloc.c, with Bits and Halves on `|` and shifts, Round on its bounds and
--                Power on its value.
--   Valloc       src/lmc_valloc.c: the descriptor at offset 0, the list of free chunks, lmc_valloc
--                (first_fit, take_chunk), lmc_status, lmc_init_memory, the log. Valloc/Free has
--                lmc_free, __lmc_free and lmc_compact_free_chunks; Valloc/Usage the bitmap of used
--                bytes, with Bits on single bits, Check and Mark on ranges. Valloc/Chain says what
--                a list of free chunks is, Valloc/Alloc and Valloc/Free/Whole what the two
--                operations do to it, Valloc/Heap what they are to a client: a set of blocks in use
--                that grows and shrinks by one block.
--   Common       src/lmc_common.c: lmc_hash, lmc_clean_string, lmc_is_filename. A `char` is signed.
--                Common/Instrumentation has lmc_test_crash and lmc_test_valloc_fail.
--   Hashtable    src/lmc_hashtable.c: ht_lookup, ht_get, ht_set (ht_insert and ht_update are its
--                two branches, and insert_key, insert_entry and link_entry stages of the first),
--                ht_delete, ht_redo; Hashtable/Walks has ht_hash_iterate, ht_random_pair and
--                ht_check_memory. A `char *` points to the caller's memory or into the mapped one.
--                Hashtable/Lookup says what a table is, Hashtable/Owned what a table in the blocks
--                of a heap is, and Hashtable/Create makes one; Strings, Filled, Link, Insert,
--                Stages and Set follow ht_set through its writes for a new key, Update for a known
--                one; Delete follows ht_delete, Iterate and Slices ht_hash_iterate, Random
--                ht_random_pair.
--   Lock         src/lmc_lock.c: semaphores as their values; what other processes do during a wait
--                is an argument.
--   System       semaphores by name, paths that lead to inodes, and the bytes of files, as a state;
--                an environment says which system calls fail, what other processes do during a wait
--                and how it ends.
--   Shm          src/lmc_shm.c: the files of pools. Shm/Attach follows lmc_shm_create on a file
--                that is there or new.
--   Pool         src/localmemcache.c: the lock flag, lmc_lock_shm_region (retry_lock is its loop)
--                and the names of pools. Pool/Create has __local_memcache_create, in pieces from
--                label to label; Pool/Recovery __local_memcache_check_namespace, which attaches the
--                pool by force, redoes the logged operation (repair_memory) and frees the lock,
--                with local_memcache_create, free, check_namespace and drop_namespace;
--                Pool/Operations the operations on an open pool, which are code of Hashtable
--                between lock and unlock (in_region). Laws, Region and Store follow an operation
--                through lock and unlock, Misuse the failures, Crashed and Repaired a recovery from
--                step to step, Opening the creation of a pool, Fresh an emptied and Dropping a
--                removed one; Exclusion has the steps of several processes on one pool.
--   Errors       src/lmc_error.c: the error record, and the error types as constructors, which is
--                all that the operations of the other parts keep of an error.
--   Tests        the theorems at concrete inputs.
--
-- The hash table calls the allocator (lmc_valloc, lmc_free) and its log; the pool's lock flag lies
-- in the allocator's descriptor; names of pools and semaphores come from Common. Pool runs code on
-- the bytes of the file that a handle maps, which are the memory of Hashtable and Valloc.
--
-- Loops over linked lists run on fuel: two rounds more than the memory has bytes, from the field
-- total_size (Valloc.rounds). A list of chunks that do not overlap is shorter (Valloc/Room), and
-- Hashtable.Lookup.Table asks it of a chain. The two loops at `retry` in localmemcache.c have 11
-- rounds, as in the source. A recovery takes the lock to free its handle, which may start a
-- recovery: `depth` is how far they may nest, and 1 is enough where no other process interferes.
--
-- A call is given a place for its error: the case that e is 0, in which lmc_handle_error returns
-- LMC_OK and src/lmc_shm.c and src/lmc_lock.c take a failed call for a success, is modelled in Errors
-- only.
--
-- Not modelled: printing, a build with the crash instrumentation (LMC_TEST_CRASH), the branches for
-- __APPLE__ and LMC_DEBUG_ALLOC, lmc_init, which seeds rand, a failure of malloc, calloc, strdup or
-- sem_open, and the Ruby binding, which passes Ruby's objects to the functions of localmemcache.c.
pub mod Base
pub mod Cmd
pub mod Common
pub mod Errors
pub mod Hashtable
pub mod Lock
pub mod Memory
pub mod Pool
pub mod Shm
pub mod System
pub mod Tests
pub mod Valloc
pub mod Word
