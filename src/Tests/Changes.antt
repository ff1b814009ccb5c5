-- ===== src/Tests/Changes.antt =====
-- `ht_set` and `ht_delete` on a table with one entry, whose key and value have two characters.
use localmemcache.Base.{
  ℕ, ◌+◌, ◌*◌, ◌≡◌, ◌≤◌, ◌<◌, refl, inl, inr, arith, List, [], ◌∷◌, some, true, ◌≢◌, ◌⊎◌, ==→ne,
  if◌then◌else◌, ◌==◌, length, Bool-cases, ==→eq,
}
use localmemcache.Cmd.Ends.{Ends}
use localmemcache.Common.{lmc_hash}
use localmemcache.Memory.{Mem, bytes, word, set_word, load, store}
use localmemcache.Memory.Laws.{load-store_other}
use localmemcache.Hashtable.{caller, bucket, lmc_ht_buckets, ht_set, ht_delete}
use localmemcache.Hashtable.Delete.{Removed, place_of, link_of, ht_delete-Removed}
use localmemcache.Hashtable.Lookup.{Entry, Table, Chained, first_of, has_length, head_of, bucket_of}
use localmemcache.Hashtable.Update.{Updated, ht_set-Updated}
use localmemcache.Tests.Sets.{ab, hello, start, free, empty_bucket}
use localmemcache.Valloc.Chain.{Chunk}
use localmemcache.Valloc.Heap.{Heap}
use localmemcache.Valloc.Region.{here, there}

-- the entry at 170136, its key in the chunk at 170000 and its value in the one at 170064
abbrev blocks_of_entry : Mem
blocks_of_entry =
    set_word
      (set_word
        (set_word
          (set_word (set_word (set_word (set_word start 170000 32) 170008 2) 170064 32) 170072 2)
          170128 32)
        170144 170008)
      170152 170072

-- The entry is linked to bucket 3105, and counted.
abbrev one : Mem
one = set_word (set_word blocks_of_entry 1000 1) 25848 170136

abbrev entry : Entry
entry = record { address = 170136; key = 170008; value = 170072 }

abbrev used : List Chunk
used = (170000, 32) ∷ (170064, 32) ∷ (170128, 32) ∷ (992, 165880) ∷ []

abbrev chains : ℕ → List Entry
chains k = if k == 3105 then entry ∷ [] else []

one-Heap : Heap one 300000 free used
unfolding load store
one-Heap = record {
  free = record {
    head = refl;
    dummy = refl;
    links = (refl, refl, tt);
    inside = ((omega arith, omega arith, omega arith), tt);
    separated = (tt, tt);
    extent = refl;
    small = omega arith;
  };
  used = (
    (
      record {
        low = omega arith;
        room = omega arith;
        high = omega arith;
        clear = (inl (omega arith), tt);
      },
      refl,
    ),
    (
      (
        record {
          low = omega arith;
          room = omega arith;
          high = omega arith;
          clear = (inl (omega arith), tt);
        },
        refl,
      ),
      (
        (
          record {
            low = omega arith;
            room = omega arith;
            high = omega arith;
            clear = (inl (omega arith), tt);
          },
          refl,
        ),
        (
          (
            record {
              low = omega arith;
              room = omega arith;
              high = omega arith;
              clear = (inl (omega arith), tt);
            },
            refl,
          ),
          tt,
        ),
      ),
    ),
  );
  disjoint = (
    (inl (omega arith), (inl (omega arith), (inr (omega arith), tt))),
    ((inl (omega arith), (inr (omega arith), tt)), ((inr (omega arith), tt), (tt, tt))),
  );
}

one_bucket : word one 25848 ≡ 170136
unfolding load store
one_bucket = refl

other_bucket : (k : ℕ) → k < lmc_ht_buckets → k ≢ 3105 → word one (1000 + 8 + 8 * k) ≡ 0
other_bucket k h other =
    rw
      (
        load-store_other 8 8 _ 25848 170136 (1000 + 8 + 8 * k) (beside k other),
        load-store_other 8 8 _ 1000 1 (1000 + 8 + 8 * k) (inr (omega arith)),
        load-store_other 8 8 _ 170152 170072 (1000 + 8 + 8 * k) (inl (omega arith)),
        load-store_other 8 8 _ 170144 170008 (1000 + 8 + 8 * k) (inl (omega arith)),
        load-store_other 8 8 _ 170128 32 (1000 + 8 + 8 * k) (inl (omega arith)),
        load-store_other 8 8 _ 170072 2 (1000 + 8 + 8 * k) (inl (omega arith)),
        load-store_other 8 8 _ 170064 32 (1000 + 8 + 8 * k) (inl (omega arith)),
        load-store_other 8 8 _ 170008 2 (1000 + 8 + 8 * k) (inl (omega arith)),
        load-store_other 8 8 _ 170000 32 (1000 + 8 + 8 * k) (inl (omega arith)),
      )
      (empty_bucket k h)
  where
    beside : (k : ℕ) → k ≢ 3105 → (1000 + 8 + 8 * k + 8 ≤ 25848) ⊎ (25848 + 8 ≤ 1000 + 8 + 8 * k)
    beside k other = ground arith

one_head : (k : ℕ) → k < lmc_ht_buckets → word one (bucket 1000 k) ≡ head_of (chains k)
one_head k h = elim (Bool-cases (k == 3105)) [
  | inl e ↦ rw (e, ==→eq k 3105 e) one_bucket
  | inr e ↦ rw e (other_bucket k h (==→ne k 3105 e))
]

one_chain : (k : ℕ) → Chained one (chains k)
unfolding load store
one_chain k = elim (Bool-cases (k == 3105)) [
  | inl e ↦ rw e (omega arith, refl, refl, refl, omega arith, tt)
  | inr e ↦ rw e tt
]

few : (k : ℕ) → length (chains k) ≤ word one 16
unfolding load store
few k = elim (Bool-cases (k == 3105)) [ inl e ↦ rw e (omega arith) | inr e ↦ rw e (omega arith) ]

one-Table : Table one 1000 chains
one-Table = record { heads = one_head; chained = λ k h. one_chain k; few = λ k h. few k }

in_bucket : bucket_of (caller ab) 2 one ≡ 3105
unfolding lmc_hash bytes
in_bucket = refl

one_found : first_of one 2 (chains (bucket_of (caller ab) 2 one)) ≡ some entry
unfolding load store
one_found = rw in_bucket refl

key_at : word one 170144 ≡ 170008
unfolding load store
key_at = refl

value_at : word one 170152 ≡ 170072
unfolding load store
value_at = refl

hit : has_length one 2 entry ≡ true
unfolding load store
hit = refl

ht_set-Updated_example :
    Ends
      (Updated one 300000
        ((170000, 32) ∷ [])
        (170064, 32)
        ((170128, 32) ∷ (992, 165880) ∷ [])
        170136
        hello
        2)
      (ht_set 1000 (caller ab) 2 (caller hello) 2 one)
ht_set-Updated_example =
    ht_set-Updated one 300000 free ((170000, 32) ∷ []) (170064, 32)
      ((170128, 32) ∷ (992, 165880) ∷ []) 1000 chains entry (caller ab) 2 hello 2 one-Heap one-Table
      one_found (there (here (omega arith) (omega arith))) key_at (omega arith) value_at
      (omega arith)

ht_delete-Removed_example :
    Ends
      (λ r m'.
        (r ≡ true)
        × Removed one 300000
            ((992, 165880) ∷ [])
            (place_of 1000 (bucket_of (caller ab) 2 one) 0)
            (link_of 0 0)
            1000
            m')
      (ht_delete 1000 (caller ab) 2 one)
ht_delete-Removed_example =
    ht_delete-Removed one 300000 free (170000, 32) (170064, 32) (170128, 32) ((992, 165880) ∷ [])
      1000 chains (caller ab) 2 [] entry [] one-Heap one-Table (rw in_bucket refl) tt hit
      (omega arith) refl key_at value_at (here (omega arith) (omega arith)) tt tt
