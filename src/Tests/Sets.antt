-- ===== src/Tests/Sets.antt =====
-- Runs on an empty table at 1000, with free memory behind it, and the creation of a table.
use localmemcache.Base.{ℕ, ◌+◌, ◌*◌, ◌<◌, ◌≡◌, refl, inl, inr, arith, List, [], ◌∷◌}
use localmemcache.Cmd.Ends.{Ends}
use localmemcache.Memory.{Mem, word, set_word, load, store, set_byte}
use localmemcache.Memory.Laws.{load-store_other}
use localmemcache.Hashtable.{caller, bucket, lmc_ht_buckets, ht_set, lmc_ht_strdup, ht_hash_create}
use localmemcache.Hashtable.Create.{Created, ht_hash_create-Created}
use localmemcache.Hashtable.Insert.{Inserted}
use localmemcache.Hashtable.Lookup.{Entry}
use localmemcache.Hashtable.Owned.{Owned}
use localmemcache.Hashtable.Set.{ht_set-Inserted, ht_get-ht_set, Fetched}
use localmemcache.Hashtable.Strings.{Copied, lmc_ht_strdup-Copied}
use localmemcache.Valloc.Chain.{Chunk}
use localmemcache.Valloc.Heap.{Heap}
use localmemcache.Valloc.Region.{here}

abbrev pub start : Mem
start =
    set_word (set_word (set_word (set_word (λ _. 0) 0 200000) 16 299912) 992 165880) 200008 90000

abbrev pub free : List Chunk
free = (200000, 90000) ∷ []

abbrev pub blocks : List Chunk
blocks = (992, 165880) ∷ []

abbrev pub no_entries : ℕ → List Entry
no_entries k = []

pub start-Heap : Heap start 300000 free blocks
unfolding load store
start-Heap = record {
  free = record {
    head = refl;
    dummy = refl;
    links = (refl, refl, tt);
    inside = ((omega arith, omega arith, omega arith), tt);
    separated = (tt, tt);
    extent = refl;
    small = omega arith;
  };
  used = (
    (
      record {
        low = omega arith;
        room = omega arith;
        high = omega arith;
        clear = (inl (omega arith), tt);
      },
      refl,
    ),
    tt,
  );
  disjoint = (tt, tt);
}

empty_word : (a : ℕ) → word (λ _. 0) a ≡ 0
unfolding load
empty_word a = refl

pub empty_bucket : (k : ℕ) → k < lmc_ht_buckets → word start (bucket 1000 k) ≡ 0
empty_bucket k h =
    rw
      (
        load-store_other 8 8 _ 200008 90000 (1000 + 8 + 8 * k) (inl (omega arith)),
        load-store_other 8 8 _ 992 165880 (1000 + 8 + 8 * k) (inr (omega arith)),
        load-store_other 8 8 _ 16 299912 (1000 + 8 + 8 * k) (inr (omega arith)),
        load-store_other 8 8 _ 0 200000 (1000 + 8 + 8 * k) (inr (omega arith)),
      )
      (empty_word (1000 + 8 + 8 * k))

pub start-Owned : Owned start blocks 1000 no_entries
start-Owned = record {
  table_held = here (omega arith) (omega arith);
  placed = λ k h. tt;
  table = record { heads = empty_bucket; chained = λ k h. tt; few = λ k h. omega arith };
}

abbrev pub ab : Mem
ab = set_byte (set_byte (λ _. 0) 0 b'a') 1 b'b'

abbrev pub hello : Mem
hello = set_byte (set_byte (λ _. 0) 0 b'h') 1 b'i'

pub extent : 0 < word start 16
unfolding load store
extent = omega arith

lmc_ht_strdup-Copied_example :
    Ends (Copied start 300000 free blocks (caller hello) 2) (lmc_ht_strdup (caller hello) 2 start)
lmc_ht_strdup-Copied_example =
    lmc_ht_strdup-Copied start 300000 free blocks start-Heap (caller hello) 2 (omega arith)
      (λ m' kept. refl)

ht_set-Inserted_example :
    Ends
      (Inserted 300000 blocks 1000 no_entries (word start 1000) start ab 2 hello 2)
      (ht_set 1000 (caller ab) 2 (caller hello) 2 start)
ht_set-Inserted_example =
    ht_set-Inserted start 300000 free blocks 1000 no_entries ab 2 hello 2 start-Heap start-Owned
      (omega arith) (omega arith) extent refl

ht_get-ht_set_example :
    Ends (Fetched 1000 ab 2 hello 2) (ht_set 1000 (caller ab) 2 (caller hello) 2 start)
ht_get-ht_set_example =
    ht_get-ht_set start 300000 free blocks 1000 no_entries ab 2 hello 2 start-Heap start-Owned
      (omega arith) (omega arith) extent refl

-- A pool of 400000 bytes in which nothing is in use.
abbrev unused : Mem
unused = set_word (set_word (set_word (λ _. 0) 0 88) 16 399912) 96 399912

unused-Heap : Heap unused 400000 ((88, 399912) ∷ []) []
unfolding load store
unused-Heap = record {
  free = record {
    head = refl;
    dummy = refl;
    links = (refl, refl, tt);
    inside = ((omega arith, omega arith, omega arith), tt);
    separated = (tt, tt);
    extent = refl;
    small = omega arith;
  };
  used = tt;
  disjoint = tt;
}

ht_hash_create-Created_example :
    Ends (Created unused 400000 ((88, 399912) ∷ []) []) (ht_hash_create unused)
ht_hash_create-Created_example =
    ht_hash_create-Created unused 400000 ((88, 399912) ∷ []) [] unused-Heap
