-- ===== src/Valloc/Free/Whole.antt =====
-- `__lmc_free` and `lmc_free` as a whole, wherever the block lies.
use localmemcache.Base.{
  ℕ, ◌+◌, ◌≤◌, ◌<◌, ◌≡◌, refl, sym, ◌⊎◌, inl, inr, arith, List, [], ◌∷◌, ◌++◌, All, ap, All-left,
  All-right, Bool, true, false, ◌==◌, ◌||◌, Bool-cases, Found, absent, at, find, subst, ==→eq,
  le→leb, ne→==,
}
use localmemcache.Memory.{Mem, word}
use localmemcache.Cmd.Ends
use localmemcache.Cmd.Ends.{Ends, ends}
use localmemcache.Valloc.{lmc_is_va_valid}
use localmemcache.Valloc.Chain.{Chunk, Inside, Apart, Clear, FreeList}
use localmemcache.Valloc.Free.{freed, walked, lmc_free}
use localmemcache.Valloc.Free.Lists.{Separated-at}
use localmemcache.Valloc.Free.Release.{Block, Freed, Releases, alone-Freed, alone-run}
use localmemcache.Valloc.Free.Grow.{grow_quiet}
use localmemcache.Valloc.Free.Bridge.{bridge}
use localmemcache.Valloc.Free.Replace.{replace_quiet}
use localmemcache.Valloc.Free.Merge.{merge}
use localmemcache.Word.{wsub}

-- the tests of the walk: the chunk ends where the block begins, or begins where it ends
abbrev ends_at : ℕ → Chunk → Bool
ends_at u c = c.0 + c.1 == u

abbrev begins_at : ℕ → Chunk → Bool
begins_at v c = v == c.0

abbrev touches : (u z : ℕ) → Chunk → Bool
touches u z c = ends_at u c || begins_at (u + z) c

untouched-Apart :
    (hi u z : ℕ) (xs : List Chunk)
    → Clear u (u + z) xs
    → All (λ c. touches u z c ≡ false) xs
    → All (Apart (u, z)) xs
untouched-Apart hi u z [] h k = tt
untouched-Apart hi u z (x ∷ xs) (h, hs) (k, ks) = (ground arith, untouched-Apart hi u z xs hs ks)

-- Behind a chunk that ends at the block no other one does.
ended-Apart :
    (hi u z : ℕ) (c : Chunk) (xs : List Chunk)
    → c.0 + c.1 ≡ u
    → 0 < c.1
    → All (Inside hi) xs
    → All (Apart c) xs
    → Clear u (u + z) xs
    → All (λ x. begins_at (u + z) x ≡ false) xs
    → All (Apart (u, z)) xs
ended-Apart hi u z c [] e p i a h k = tt
ended-Apart hi u z c (x ∷ xs) e p (i, is) (a, as') (h, hs) (k, ks) =
    (ground arith, ended-Apart hi u z c xs e p is as' hs ks)

begun-Apart :
    (hi u z : ℕ) (c : Chunk) (xs : List Chunk)
    → u + z ≡ c.0
    → 0 < c.1
    → All (Inside hi) xs
    → All (Apart c) xs
    → Clear u (u + z) xs
    → All (λ x. ends_at u x ≡ false) xs
    → All (Apart (u, z)) xs
begun-Apart hi u z c [] e p i a h k = tt
begun-Apart hi u z c (x ∷ xs) e p (i, is) (a, as') (h, hs) (k, ks) =
    (ground arith, begun-Apart hi u z c xs e p is as' hs ks)

abbrev Over : ℕ → ℕ → Chunk → Type 0
Over u z x = (u + z ≤ x.0) ⊎ (x.0 + x.1 ≤ u)

module _ (m : Mem) (hi u z : ℕ) (pre : List Chunk) (c : Chunk) where
  grown_at :
      (mid : List Chunk) (a : Chunk) (rest : List Chunk)
      → FreeList m hi (pre ++ (c ∷ mid ++ a ∷ rest))
      → Block hi u z (pre ++ (c ∷ mid ++ a ∷ rest))
      → All (Apart (u, z)) pre
      → c.0 + c.1 ≡ u
      → All (λ x. begins_at (u + z) x ≡ false) mid
      → begins_at (u + z) a ≡ true
      → Releases m hi u z (pre ++ (c ∷ mid ++ a ∷ rest))
  grown_at mid a rest free block before e misses hit =
      let post = mid ++ a ∷ rest in
      let (i, is) = All-right (Inside hi) pre (c ∷ post) free.inside in
      let apart = All-right (Apart c) pre post (Separated-at pre c post free.separated) in
      bridge m hi u z pre c mid a rest free block e before (==→eq (u + z) a.0 hit) (
        ended-Apart hi u z c mid e (omega (arith, i)) (All-left (Inside hi) mid (a ∷ rest) is)
          (All-left (Apart c) mid (a ∷ rest) apart)
          (All-left (Over u z) mid (a ∷ rest) (All-right (Over u z) pre (c ∷ post) block.clear).1)
          misses)

  grown :
      (post : List Chunk)
      → Found (begins_at (u + z)) post
      → FreeList m hi (pre ++ c ∷ post)
      → Block hi u z (pre ++ c ∷ post)
      → All (Apart (u, z)) pre
      → c.0 + c.1 ≡ u
      → Releases m hi u z (pre ++ c ∷ post)
  grown post (absent misses) free block before e =
      let (i, is) = All-right (Inside hi) pre (c ∷ post) free.inside in
      grow_quiet m hi u z pre c post free block e before (
        ended-Apart hi u z c post e (omega (arith, i)) is
          (All-right (Apart c) pre post (Separated-at pre c post free.separated))
          (All-right (Over u z) pre (c ∷ post) block.clear).1 misses)
  grown post (at mid a rest path misses hit) free block before e =
      subst (λ l. Releases m hi u z (pre ++ c ∷ l)) (sym path)
        (grown_at mid a rest (subst (λ l. FreeList m hi (pre ++ c ∷ l)) path free)
          (subst (λ l. Block hi u z (pre ++ c ∷ l)) path block) before e misses hit)

  replaced_at :
      (mid : List Chunk) (b : Chunk) (rest : List Chunk)
      → FreeList m hi (pre ++ (c ∷ mid ++ b ∷ rest))
      → Block hi u z (pre ++ (c ∷ mid ++ b ∷ rest))
      → All (Apart (u, z)) pre
      → u + z ≡ c.0
      → All (λ x. ends_at u x ≡ false) mid
      → ends_at u b ≡ true
      → Releases m hi u z (pre ++ (c ∷ mid ++ b ∷ rest))
  replaced_at mid b rest free block before e misses hit =
      let post = mid ++ b ∷ rest in
      let (i, is) = All-right (Inside hi) pre (c ∷ post) free.inside in
      let apart = All-right (Apart c) pre post (Separated-at pre c post free.separated) in
      merge m hi u z pre c mid b rest free block e before (==→eq (b.0 + b.1) u hit) (
        begun-Apart hi u z c mid e (omega (arith, i)) (All-left (Inside hi) mid (b ∷ rest) is)
          (All-left (Apart c) mid (b ∷ rest) apart)
          (All-left (Over u z) mid (b ∷ rest) (All-right (Over u z) pre (c ∷ post) block.clear).1)
          misses)

  replaced :
      (post : List Chunk)
      → Found (ends_at u) post
      → FreeList m hi (pre ++ c ∷ post)
      → Block hi u z (pre ++ c ∷ post)
      → All (Apart (u, z)) pre
      → u + z ≡ c.0
      → Releases m hi u z (pre ++ c ∷ post)
  replaced post (absent misses) free block before e =
      let (i, is) = All-right (Inside hi) pre (c ∷ post) free.inside in
      replace_quiet m hi u z pre c post free block e before (
        begun-Apart hi u z c post e (omega (arith, i)) is
          (All-right (Apart c) pre post (Separated-at pre c post free.separated))
          (All-right (Over u z) pre (c ∷ post) block.clear).1 misses)
  replaced post (at mid b rest path misses hit) free block before e =
      subst (λ l. Releases m hi u z (pre ++ c ∷ l)) (sym path)
        (replaced_at mid b rest (subst (λ l. FreeList m hi (pre ++ c ∷ l)) path free)
          (subst (λ l. Block hi u z (pre ++ c ∷ l)) path block) before e misses hit)

  touched :
      (post : List Chunk)
      → FreeList m hi (pre ++ c ∷ post)
      → Block hi u z (pre ++ c ∷ post)
      → All (λ x. touches u z x ≡ false) pre
      → touches u z c ≡ true
      → Releases m hi u z (pre ++ c ∷ post)
  touched post free block misses hit =
      let before =
        untouched-Apart hi u z pre (All-left (Over u z) pre (c ∷ post) block.clear) misses in
      elim (Bool-cases (ends_at u c)) [
        | inl e ↦
            grown post (find (begins_at (u + z)) post) free block before (==→eq (c.0 + c.1) u e)
        | inr e ↦ replaced post (find (ends_at u) post) free block before (ground arith)
      ]

module _ (m : Mem) (hi u z : ℕ) (cs : List Chunk) (free : FreeList m hi cs)
    (block : Block hi u z cs) where
  released : Found (touches u z) cs → Releases m hi u z cs
  released (absent misses) =
      let apart = untouched-Apart hi u z cs block.clear misses in
      rw (alone-run m hi u z cs free block apart)
        (ends (refl, alone-Freed m hi u z cs free block apart))
  released (at pre c post path misses hit) = subst (Releases m hi u z) (sym path) (
      touched m hi u z pre c post (subst (FreeList m hi) path free)
        (subst (Block hi u z) path block) misses hit)

  -- On a list of free chunks, for any block of at least 16 bytes in the memory that is clear
  -- of them, given by its offset and length, `__lmc_free` ends in each of its cases (no
  -- neighbour, the free chunk before it, the one after it, or both in either order of the
  -- list), and frees exactly its bytes, leaving no two free chunks that touch.
  pub __lmc_free-Freed : Releases m hi u z cs
  __lmc_free-Freed = released (find (touches u z) cs)

  -- On a list of free chunks, `lmc_free` of the pointer to a block of at least 16 bytes, which
  -- lies in the memory, clear of the free chunks, and has its length in front, ends, and
  -- exactly its bytes become free: the free chunks are again separate and inside the memory,
  -- no two of them touch, they have as many bytes as before and the block together, what was
  -- clear of both is clear of them, and no byte outside the block and the old free chunks is
  -- written from byte 16 on.
  pub lmc_free-Freed :
      word m u ≡ z → Ends (λ o m'. (o ≡ walked freed) × Freed m hi u z cs m') (lmc_free (u + 8) m)
  unfolding lmc_free lmc_is_va_valid
  lmc_free-Freed header =
      let same : wsub (u + 8) 8 ≡ u = omega (arith, block.high, free.small) in
      rw
        (
          ne→== (u + 8) 0 (omega arith),
          le→leb 96 (u + 8) (omega (arith, block.low)),
          le→leb (u + 8) (word m 16 + 88) (omega (arith, block.high, block.room, free.extent)),
          same,
          header,
        )
        (Ends.bind __lmc_free-Freed λ o m' (e, f). ends (ap walked e, f))
