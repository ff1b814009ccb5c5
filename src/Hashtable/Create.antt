-- ===== src/Hashtable/Create.antt =====
-- `ht_hash_create` on a heap: an empty table in a new block.
use localmemcache.Base.{
  ℕ, zero, suc, ◌+◌, ◌≤◌, ◌<◌, ◌≡◌, refl, arith, List, [], ◌∷◌, ne→==, if◌then◌else◌, ◌==◌,
}
use localmemcache.Cmd.{done, pure}
use localmemcache.Cmd.Ends
use localmemcache.Cmd.Ends.{Ends, ends}
use localmemcache.Memory.{Mem, word, load, fill}
use localmemcache.Hashtable.{hash_t, bucket, ht_hash_create}
use localmemcache.Hashtable.Owned.{Owned}
use localmemcache.Valloc.Chain.{Chunk}
use localmemcache.Valloc.Heap.{Heap, Kept, Grown, unchanged, new_block, lmc_valloc-Grown}
use localmemcache.Valloc.Region.{Holds, here, Outside, Heap-write, Kept-fresh}

fill-Outside : (m : Mem) (a v n : ℕ) → Outside m (fill m a v n) a n
unfolding fill
fill-Outside m a v n x h = ground arith

fill_inside : (m : Mem) (a v n x : ℕ) → a ≤ x → x < a + n → fill m a v n x ≡ v
unfolding fill
fill_inside m a v n x lo up = ground arith

pub load-zero : (k : ℕ) (m : Mem) (a : ℕ) → ((x : ℕ) → a ≤ x → x < a + k → m x ≡ 0) → load k m a ≡ 0
unfolding load
load-zero zero m a h = refl
load-zero (suc k) m a h = omega (
  arith,
  h a (omega arith) (omega arith),
  load-zero k m (a + 1) (λ x p q. h x (omega arith) (omega arith)),
)

-- what `ht_hash_create` returns
pub data Created (m : Mem) (hi : ℕ) (cs us : List Chunk) : ℕ → Mem → Type 0 where
  no_room : Created m hi cs us 0 m
  created :
      {m' : Mem} (b : Chunk) (left : List Chunk)
      → Heap m' hi left (b ∷ us)
      → Owned m' (b ∷ us) (b.0 + 8) (λ k. [])
      → word m' (b.0 + 8) ≡ 0
      → Kept m m' us
      → Created m hi cs us (b.0 + 8) m'

module _ (m : Mem) (hi : ℕ) (cs us : List Chunk) (heap : Heap m hi cs us) where
  emptied :
      (m' : Mem) (r z : ℕ) (left : List Chunk)
      → Heap m' hi left ((r, z) ∷ us)
      → hash_t + 8 ≤ z
      → Kept m m' us
      → Created m hi cs us (r + 8) (fill m' (r + 8) 0 hash_t)
  emptied m' r z left grown enough kept =
      let m2 = fill m' (r + 8) 0 hash_t in
      let out = fill-Outside m' (r + 8) 0 hash_t in
      let held : Holds (r + 8) hash_t ((r, z) ∷ us) = here (omega arith) (omega arith) in
      created (r, z) left (Heap-write m' hi left ((r, z) ∷ us) m2 (r + 8) hash_t grown held out)
        (record {
          table_held = held;
          placed = λ k h. tt;
          table = record {
            heads = λ k h.
                load-zero 8 m2 (bucket (r + 8) k)
                  (λ x p q. fill_inside m' (r + 8) 0 hash_t x (omega arith) (omega arith));
            chained = λ k h. tt;
            few = λ k h. omega arith;
          };
        })
        (load-zero 8 m2 (r + 8) (λ x p q. fill_inside m' (r + 8) 0 hash_t x p (omega arith)))
        (Kept-fresh m m' m2 hi left us r z (r + 8) hash_t grown out (omega arith) (omega arith)
          kept)

  Created-by :
      (p : ℕ) (m' : Mem)
      → Grown m hi cs us hash_t p m'
      → Ends
          (Created m hi cs us)
          ((if p == 0 then pure 0 else λ m''. done p (fill m'' p 0 hash_t)) m')
  Created-by p m' (unchanged) = ends no_room
  Created-by p m' (new_block r z left grown enough kept) =
      rw (ne→== (r + 8) 0 (omega arith)) (ends (emptied m' r z left grown enough kept))

  -- On a heap `ht_hash_create` ends: it returns 0 and changes nothing, or it returns a new
  -- block that holds an empty table, counting 0 entries, and the other blocks keep their
  -- bytes.
  pub ht_hash_create-Created : Ends (Created m hi cs us) (ht_hash_create m)
  unfolding ht_hash_create
  ht_hash_create-Created =
      Ends.bind (lmc_valloc-Grown m hi cs us heap hash_t (omega arith) (omega arith)) Created-by
