-- ===== src/Tests/Tables.antt =====
-- Runs on a hash table at 1000 with one entry, in bucket 3105: that of the key "ab".
use localmemcache.Base.{
  ℕ, ◌+◌, ◌*◌, ◌≤◌, ◌≡◌, ◌≢◌, refl, inl, inr, arith, List, [], ◌∷◌, ◌⊎◌, length, Bool-cases, ◌==◌,
  if◌then◌else◌, ==→eq, ==→ne,
}
use localmemcache.Cmd.{done, pure}
use localmemcache.Cmd.Ends.{Ends}
use localmemcache.Common.{lmc_hash}
use localmemcache.Memory.{Mem, word, set_word, load, store, bytes, set_byte}
use localmemcache.Memory.Laws.{load-store_other}
use localmemcache.Hashtable.{Pointer, caller, ht_lookup, ht_get, ht_delete, bucket}
use localmemcache.Hashtable.Lookup.{
  Entry, head_of, Chained, Table, first_of, address_of, value_of, bucket_of, ht_lookup-first_of,
  ht_get-first_of, same_length-same,
}
use localmemcache.Hashtable.Walks.{ht_hash_iterate, ht_random_pair}
use localmemcache.Hashtable.Iterate.{Iterated, pending_at}
use localmemcache.Hashtable.Random.{RandomPair, ht_random_pair-RandomPair}
use localmemcache.Hashtable.Slices.{ht_hash_iterate-Iterated}

abbrev shared : Mem
shared =
    set_word
      (set_word (set_word (set_word (set_word (set_word (λ _. 0) 16 200000) 700 5) 500 2) 316 700)
        308 500)
      25848 300

abbrev entry : Entry
entry = record { address = 300; key = 500; value = 700 }

abbrev chains : ℕ → List Entry
chains k = if k == 3105 then entry ∷ [] else []

empty_word : (a : ℕ) → word (λ _. 0) a ≡ 0
unfolding load
empty_word a = refl

other_bucket : (k : ℕ) → k ≢ 3105 → word shared (bucket 1000 k) ≡ 0
other_bucket k other =
    rw
      (
        load-store_other 8 8 _ 25848 300 (1000 + 8 + 8 * k) (beside k other),
        load-store_other 8 8 _ 308 500 (1000 + 8 + 8 * k) (inr (omega arith)),
        load-store_other 8 8 _ 316 700 (1000 + 8 + 8 * k) (inr (omega arith)),
        load-store_other 8 8 _ 500 2 (1000 + 8 + 8 * k) (inr (omega arith)),
        load-store_other 8 8 _ 700 5 (1000 + 8 + 8 * k) (inr (omega arith)),
        load-store_other 8 8 _ 16 200000 (1000 + 8 + 8 * k) (inr (omega arith)),
      )
      (empty_word (1000 + 8 + 8 * k))
  where
    beside : (k : ℕ) → k ≢ 3105 → (1000 + 8 + 8 * k + 8 ≤ 25848) ⊎ (25848 + 8 ≤ 1000 + 8 + 8 * k)
    beside k other = ground arith

chains-heads : (k : ℕ) → word shared (bucket 1000 k) ≡ head_of (chains k)
unfolding load store
chains-heads k = elim (Bool-cases (k == 3105)) [
  | inl e ↦ rw (e, ==→eq k 3105 e) refl
  | inr e ↦ rw e (other_bucket k (==→ne k 3105 e))
]

chains-Chained : (k : ℕ) → Chained shared (chains k)
unfolding load store
chains-Chained k = elim (Bool-cases (k == 3105)) [
  | inl e ↦ rw e (omega arith, refl, refl, refl, omega arith, tt)
  | inr e ↦ rw e tt
]

chains-few : (k : ℕ) → length (chains k) ≤ word shared 16
unfolding load store
chains-few k = elim (Bool-cases (k == 3105)) [
  | inl e ↦ rw e (omega arith)
  | inr e ↦ rw e (omega arith)
]

table : Table shared 1000 chains
table = record {
  heads = λ k h. chains-heads k;
  chained = λ k h. chains-Chained k;
  few = λ k h. chains-few k;
}

abbrev ab : Pointer
ab = caller (set_byte (set_byte (λ _. 0) 0 b'a') 1 b'b')

ht_lookup-first_of_example :
    ht_lookup 1000 ab 2 shared
    ≡ done (address_of (first_of shared 2 (chains (bucket_of ab 2 shared)))) shared
ht_lookup-first_of_example = ht_lookup-first_of shared 1000 chains table ab 2

ht_get-first_of_example :
    ht_get 1000 ab 2 shared
    ≡ done (value_of shared (first_of shared 2 (chains (bucket_of ab 2 shared)))) shared
ht_get-first_of_example = ht_get-first_of shared 1000 chains table ab 2

-- The keys "ab" and "bC" have one hash, 3105.
abbrev bc : Pointer
bc = caller (set_byte (set_byte (λ _. 0) 0 b'b') 1 b'C')

same_length-same_example :
    (ht_get 1000 ab 2 shared ≡ ht_get 1000 bc 2 shared)
    × (ht_delete 1000 ab 2 shared ≡ ht_delete 1000 bc 2 shared)
unfolding lmc_hash bytes
same_length-same_example = same_length-same 1000 ab bc 2 shared refl

-- a function that collects the keys
abbrev collect : List ℕ → ℕ → ℕ → List ℕ
collect keys k v = k ∷ keys

ht_hash_iterate-Iterated_example :
    Ends
      (Iterated collect shared chains 0 [] (pending_at chains (record { ofs = 0; bucket_ofs = 0 })))
      (ht_hash_iterate
        (λ keys k v. pure (collect keys k v))
        1000
        []
        (record { ofs = 0; bucket_ofs = 0 })
        shared)
ht_hash_iterate-Iterated_example =
    ht_hash_iterate-Iterated (λ keys k v. pure (collect keys k v)) collect shared (λ keys k v. refl)
      1000 chains table [] (record { ofs = 0; bucket_ofs = 0 }) (omega arith)

ht_random_pair-RandomPair_example :
    Ends (RandomPair shared chains) (ht_random_pair 12345 678 1000 shared)
ht_random_pair-RandomPair_example = ht_random_pair-RandomPair shared 1000 chains table 12345 678
