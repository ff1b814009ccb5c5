-- ===== src/Tests.antt =====
-- Runs of the code at concrete inputs.
mod Pools
mod Openings
mod Changes
mod Bitmap
mod Sets
mod Tables
mod Locks
use localmemcache.Base.{◌+◌, ◌-◌, ◌^◌, ◌≤◌, ◌≡◌, refl, inr, arith, List, [], ◌∷◌, All, length}
use localmemcache.Memory.{Mem, set_word, load, store}
use localmemcache.Cmd.{done, ◌>>=◌}
use localmemcache.Cmd.Ends.{Ends}
use localmemcache.Valloc.{lmc_init_memory, lmc_valloc, lmc_status}
use localmemcache.Valloc.Chain.{Chunk, FreeList}
use localmemcache.Valloc.Alloc.{Allocated, lmc_valloc-Allocated}
use localmemcache.Valloc.Free.{walked, freed, lmc_free}
use localmemcache.Valloc.Free.Release.{Block, Freed, Releases}
use localmemcache.Valloc.Free.Whole.{lmc_free-Freed, __lmc_free-Freed}
use localmemcache.Valloc.Lifecycle.{lmc_init_memory-FreeList, Restored, lmc_free-lmc_valloc}
use localmemcache.Valloc.Status.{report, lmc_status-report}
use localmemcache.Valloc.Heap.{Heap, Grown, Shrunk, lmc_valloc-Grown, lmc_free-Shrunk}
use localmemcache.Word.{round_to_next_power_of_2}
use localmemcache.Word.Power.{round-least}
use localmemcache.Common.{lmc_clean_string}
use localmemcache.Common.Laws.{IsClean, lmc_clean_string_lem}

-- A pool of 4096 bytes of which the second half is in use: one free chunk at 88, and the block at
-- 2048, whose size is 2048.
abbrev pool : Mem
pool = set_word (set_word (set_word (set_word (λ _. 0) 0 88) 16 4008) 96 1960) 2048 2048

abbrev chunks : List Chunk
chunks = (88, 1960) ∷ []

pool-FreeList : FreeList pool 4096 chunks
unfolding load store
pool-FreeList = record {
  head = refl;
  dummy = refl;
  links = (refl, refl, tt);
  inside = ((omega arith, omega arith, omega arith), tt);
  separated = (tt, tt);
  extent = refl;
  small = omega arith;
}

-- the block that is in use
used : Block 4096 2048 2048 chunks
used = record {
  low = omega arith;
  room = omega arith;
  high = omega arith;
  clear = (inr (omega arith), tt);
}

lmc_init_memory-FreeList_example :
    Ends (λ _ m. FreeList m 4096 ((88, 4008) ∷ [])) (lmc_init_memory 4096 (λ _. 0))
unfolding load
lmc_init_memory-FreeList_example =
    lmc_init_memory-FreeList (λ _. 0) 4096 (omega arith) (omega arith) refl

lmc_valloc-Allocated_example : Ends (Allocated pool 4096 chunks 100) (lmc_valloc 100 pool)
lmc_valloc-Allocated_example =
    lmc_valloc-Allocated pool 4096 chunks pool-FreeList 100 (omega arith) (omega arith)

__lmc_free-Freed_example : Releases pool 4096 2048 2048 chunks
__lmc_free-Freed_example = __lmc_free-Freed pool 4096 2048 2048 chunks pool-FreeList used

lmc_free-Freed_example :
    Ends (λ o m'. (o ≡ walked freed) × Freed pool 4096 2048 2048 chunks m') (lmc_free 2056 pool)
unfolding load store
lmc_free-Freed_example = lmc_free-Freed pool 4096 2048 2048 chunks pool-FreeList used refl

lmc_free-lmc_valloc_example :
    Ends (λ _ m'. Restored pool 4096 chunks m') ((lmc_valloc 100 >>= lmc_free) pool)
lmc_free-lmc_valloc_example =
    lmc_free-lmc_valloc pool 4096 chunks pool-FreeList 100 (omega arith) (omega arith)

lmc_status-report_example : lmc_status pool ≡ done (report 4096 chunks) pool
lmc_status-report_example = lmc_status-report pool 4096 chunks pool-FreeList

round-least_example : round_to_next_power_of_2 4294967000 ≡ 4294967296
round-least_example = round-least 32 4294967000 (omega arith) (omega arith) (omega arith)

-- Above 2 ^ 32 the result need not be a power of two.
round_large : round_to_next_power_of_2 (2 ^ 33 + 2) ≡ 2 ^ 34 - 2
unfolding round_to_next_power_of_2
round_large = refl

-- In a memory of 1000 bytes in which nothing is in use, what is asked for takes up to twice as much.
abbrev small_pool : Mem
small_pool = set_word (set_word (set_word (λ _. 0) 0 88) 16 912) 96 912

all_of_it : lmc_valloc 904 small_pool ≡ done 0 small_pool
unfolding lmc_valloc load store localmemcache.Word.lmc_max round_to_next_power_of_2
all_of_it = refl

lmc_clean_string_lem_example :
    (length (lmc_clean_string (b'a' ∷ b'/' ∷ [])) ≤ 1023)
    × All IsClean (lmc_clean_string (b'a' ∷ b'/' ∷ []))
    × (lmc_clean_string (lmc_clean_string (b'a' ∷ b'/' ∷ [])) ≡ lmc_clean_string (b'a' ∷ b'/' ∷ []))
lmc_clean_string_lem_example = lmc_clean_string_lem (b'a' ∷ b'/' ∷ [])

pool-Heap : Heap pool 4096 chunks ((2048, 2048) ∷ [])
unfolding load store
pool-Heap = record { free = pool-FreeList; used = ((used, refl), tt); disjoint = (tt, tt) }

lmc_valloc-Grown_example :
    Ends (Grown pool 4096 chunks ((2048, 2048) ∷ []) 100) (lmc_valloc 100 pool)
lmc_valloc-Grown_example =
    lmc_valloc-Grown pool 4096 chunks ((2048, 2048) ∷ []) pool-Heap 100 (omega arith) (omega arith)

lmc_free-Shrunk_example :
    Ends (λ o m'. (o ≡ walked freed) × Shrunk pool 4096 [] m') (lmc_free 2056 pool)
lmc_free-Shrunk_example = lmc_free-Shrunk pool 4096 chunks [] (2048, 2048) [] pool-Heap
