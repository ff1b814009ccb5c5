-- ===== src/Valloc/Free/Skim.antt =====
-- The walk of `__lmc_free` over chunks that the block does not touch.
use Prim.Native.Nat.add
use localmemcache.Base.{
  ℕ, suc, ◌+◌, ◌<◌, ◌^◌, ◌≡◌, ◌≢◌, arith, List, [], ◌∷◌, ◌++◌, All, length, false, ◌==◌,
  if◌then◌else◌, ne→==, eq→==, leb, ◌&&◌,
}
use localmemcache.Memory.{Mem, word, set_word}
use localmemcache.Word.{wadd}
use localmemcache.Cmd.{done, pure, and_then}
use localmemcache.Valloc.Chain.{Chunk, first, Links, Apart, last_of}
use localmemcache.Valloc.Free.{free_loop, unmatched, freed, lmc_compact_free_chunks}
use localmemcache.Valloc.Free.Sweep.{Real}

-- inside the address space
abbrev pub Below : Chunk → Type 0
Below c = c.0 + c.1 < 2 ^ 64

module _ (m : Mem) (u z : ℕ) (some_size : 0 < z) (small : u + z < 2 ^ 64) where
  step :
      (k prev : ℕ) (x : Chunk) (rest : List Chunk)
      → Links m (x ∷ rest) 0
      → Below x
      → Apart (u, z) x
      → free_loop (suc k) u z x.0 prev m
        ≡ (if first rest 0 == 0 then pure unmatched else free_loop k u z (first rest 0) x.0) m
  unfolding free_loop
  step k prev x rest (n, s, l) below apart =
      let end : wadd x.0 x.1 ≡ x.0 + x.1 = omega arith in
      let end' : wadd u z ≡ u + z = omega arith in
      let off : (leb x.0 u && leb u (x.0 + x.1)) ≡ false = ground arith in
      rw
        (s, end, end', ne→== (x.0 + x.1) u (ground arith), ne→== (u + z) x.0 (ground arith), off, n)

  pub skim :
      (k prev : ℕ) (x : Chunk) (xs : List Chunk) (y : Chunk) (ys : List Chunk)
      → Links m (x ∷ xs ++ y ∷ ys) 0
      → Below x
      → All Below xs
      → Apart (u, z) x
      → All (Apart (u, z)) xs
      → All Real xs
      → Real y
      → free_loop (suc (length xs) + k) u z x.0 prev m ≡ free_loop k u z y.0 (last_of x.0 xs) m
  skim k prev x [] y ys links b bs a as' rs r =
      rw (add.suc 0 k, add.zero k, step k prev x (y ∷ ys) links b a, ne→== _ _ r)
  skim k prev x (x2 ∷ xs) y ys links b (b2, bs) a (a2, as') (r2, rs) r =
      rw
        (
          add.suc (length (x2 ∷ xs)) k,
          step (suc (length xs) + k) prev x (x2 ∷ xs ++ y ∷ ys) links b a,
          ne→== _ _ r2,
        )
        (skim k x.0 x2 xs y ys links.2 b2 bs a2 as' rs r)

  pub skim-All :
      (k prev : ℕ) (x : Chunk) (xs : List Chunk)
      → Links m (x ∷ xs) 0
      → Below x
      → All Below xs
      → Apart (u, z) x
      → All (Apart (u, z)) xs
      → All Real xs
      → free_loop (suc (length xs) + k) u z x.0 prev m ≡ done unmatched m
  skim-All k prev x [] links b bs a as' rs =
      rw (add.suc 0 k, add.zero k, step k prev x [] links b a)
  skim-All k prev x (x2 ∷ xs) links b (b2, bs) a (a2, as') (r2, rs) =
      rw
        (
          add.suc (length (x2 ∷ xs)) k,
          step (suc (length xs) + k) prev x (x2 ∷ xs) links b a,
          ne→== _ _ r2,
        )
        (skim-All k x.0 x2 xs links.2 b2 bs a2 as' rs)

-- The two rounds that end the walk with the block joined to a chunk.
module _ (m : Mem) (u z : ℕ) (c : Chunk) (size_c : word m (c.0 + 8) ≡ c.1) where
  pub ends_here :
      (k prev : ℕ)
      → wadd c.0 c.1 ≡ u
      → free_loop (suc k) u z c.0 prev m
        ≡ and_then
            (lmc_compact_free_chunks c.0 (set_word m (c.0 + 8) (wadd c.1 z)))
            (λ _. pure freed)
  unfolding free_loop
  ends_here k prev e = rw (size_c, eq→== _ u e)

  -- the memory with the block in the chunk's place
  abbrev pub replaced : ℕ → Mem
  replaced prev = set_word (set_word (set_word m u (word m c.0)) (u + 8) (wadd z c.1)) prev u

  pub begins_here :
      (k prev : ℕ)
      → wadd c.0 c.1 ≢ u
      → wadd u z ≡ c.0
      → word (set_word m u (word m c.0)) (c.0 + 8) ≡ c.1
      → free_loop (suc k) u z c.0 prev m
        ≡ and_then (lmc_compact_free_chunks u (replaced prev)) (λ _. pure freed)
  unfolding free_loop
  begins_here k prev ne e keeps = rw (size_c, ne→== _ u ne, eq→== _ c.0 e, keeps)
