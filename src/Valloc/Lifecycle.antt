-- ===== src/Valloc/Lifecycle.antt =====
-- The allocator's operations one after the other: from a fresh memory, and a block taken and
-- given back.
use localmemcache.Base.{
  ℕ, suc, ◌-◌, ◌≤◌, ◌<◌, ◌^◌, ◌≡◌, ◌≢◌, refl, ◌∙◌, inl, inr, arith, List, [], ◌∷◌,
}
use localmemcache.Memory.{Mem, word}
use localmemcache.Memory.Laws.{load-store_same, load-store_other}
use localmemcache.Word.{wsub}
use localmemcache.Cmd.{◌>>=◌}
use localmemcache.Cmd.Ends
use localmemcache.Cmd.Ends.{Ends, ends}
use localmemcache.Valloc.{lmc_init_memory, lmc_valloc}
use localmemcache.Valloc.Chain.{Chunk, FreeList, Clear, total}
use localmemcache.Valloc.Alloc.{
  Allocated, pool_full, block_at, lmc_valloc-Allocated, least_size, request-ge,
}
use localmemcache.Valloc.Free.{lmc_free}
use localmemcache.Valloc.Free.Release.{Block, Freed, freed_as}
use localmemcache.Valloc.Free.Whole.{lmc_free-Freed}

module _ (m : Mem) (sz : ℕ) (room : 104 ≤ sz) (small : sz < 2 ^ 63) (zeroed : word m 8 ≡ 0) where
  -- In a memory of at least 104 and less than 2 ^ 63 bytes whose word at 8 is 0,
  -- `lmc_init_memory` leaves one free chunk, all of the memory behind the descriptor.
  pub lmc_init_memory-FreeList :
      Ends (λ _ m'. FreeList m' sz ((88, sz - 88) ∷ [])) (lmc_init_memory sz m)
  unfolding lmc_init_memory
  lmc_init_memory-FreeList =
      let e : wsub sz 88 ≡ sz - 88 = omega arith in
      rw e (
        ends (record {
          head = rw (
            load-store_other 8 8 _ 96 (sz - 88) 0 (inl (omega arith)),
            load-store_other 8 8 _ 88 0 0 (inl (omega arith)),
            load-store_other 8 8 _ 16 (sz - 88) 0 (inl (omega arith)),
            load-store_other 8 4 _ 40 1 0 (inl (omega arith)),
            load-store_other 8 8 _ 48 2 0 (inl (omega arith)),
            load-store_other 8 8 _ 24 0xF00D 0 (inl (omega arith)),
            load-store_same 8 _ 0 88 (omega arith),
          );
          dummy = rw (
            load-store_other 8 8 _ 96 (sz - 88) 8 (inl (omega arith)),
            load-store_other 8 8 _ 88 0 8 (inl (omega arith)),
            load-store_other 8 8 _ 16 (sz - 88) 8 (inl (omega arith)),
            load-store_other 8 4 _ 40 1 8 (inl (omega arith)),
            load-store_other 8 8 _ 48 2 8 (inl (omega arith)),
            load-store_other 8 8 _ 24 0xF00D 8 (inl (omega arith)),
            load-store_other 8 8 _ 0 88 8 (inr (omega arith)),
            zeroed,
          );
          links = (
            rw (
              load-store_other 8 8 _ 96 (sz - 88) 88 (inl (omega arith)),
              load-store_same 8 _ 88 0 (omega arith),
            ),
            load-store_same 8 _ 96 (sz - 88) (omega arith),
            tt,
          );
          inside = ((omega arith, omega arith, omega arith), tt);
          separated = (tt, tt);
          extent =
              rw
                (
                  load-store_other 8 8 _ 96 (sz - 88) 16 (inl (omega arith)),
                  load-store_other 8 8 _ 88 0 16 (inl (omega arith)),
                  load-store_same 8 _ 16 (sz - 88) (omega arith),
                )
                (omega arith);
          small = small;
        }))

-- A block's life: taken from a list of free chunks and given back, it leaves as many free bytes
-- as before, and the same bytes are in use; only its own bytes and free ones were written.
pub data Restored (m : Mem) (hi : ℕ) (cs : List Chunk) (m' : Mem) : Type 0 where
  restored :
      (left : List Chunk)
      → FreeList m' hi left
      → total left ≡ total cs
      → ((a b : ℕ) → a < b → 88 ≤ a → Clear a b cs → Clear a b left)
      → ((x : ℕ) → 16 ≤ x → Clear x (suc x) cs → m' x ≡ m x)
      → Restored m hi cs m'

module _ (m : Mem) (hi : ℕ) (cs : List Chunk) (free : FreeList m hi cs) (sz : ℕ)
    (some_size : sz ≢ 0) (sane : sz ≤ 2 ^ 62) where
  given_back :
      (p : ℕ) (m1 : Mem)
      → Allocated m hi cs sz p m1
      → Ends (λ _ m'. Restored m hi cs m') (lmc_free p m1)
  given_back p m1 (pool_full short) =
      unfold lmc_free in ends (restored cs free refl (λ a b lt le c. c) (λ x lo c. refl))
  given_back p m1 (block_at r z left free1 header enough cut spares same) =
      let room : 16 ≤ z = omega (arith, cut.enough, (request-ge (least_size m) sz sane).1) in
      let block : Block hi r z left = record {
        low = cut.low;
        room = room;
        high = cut.high;
        clear = cut.clear;
      } in
      Ends.weaken (lmc_free-Freed m1 hi r z left free1 block header) (λ o m' (e, f). back f)
    where
      back : {m' : Mem} → Freed m1 hi r z left m' → Restored m hi cs m'
      back (freed_as left' free' adds covers same') =
          restored left' free' (omega (arith, adds, cut.adds))
            (λ a b lt le c. covers a b lt (spares a b c).0 (spares a b c).1)
            (λ x lo c.
              same' x lo (ground (arith, (spares x (suc x) c).0)) (spares x (suc x) c).1
              ∙ same x (inr (omega arith)) c)

  -- On a list of free chunks and for a size other than 0 and up to 2 ^ 62, `lmc_valloc`
  -- followed by `lmc_free` of what it returns ends with as many free bytes as before; what was
  -- in use is clear of the free chunks, and its bytes are unchanged from byte 16 on.
  pub lmc_free-lmc_valloc : Ends (λ _ m'. Restored m hi cs m') ((lmc_valloc sz >>= lmc_free) m)
  lmc_free-lmc_valloc = Ends.bind (lmc_valloc-Allocated m hi cs free sz some_size sane) given_back
