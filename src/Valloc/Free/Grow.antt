-- ===== src/Valloc/Free/Grow.antt =====
-- `__lmc_free` of a block that follows a free chunk: the chunk grows over the block, and over the
-- free chunk behind the block, if there is one.
use localmemcache.Base.{
  ℕ, suc, ◌+◌, ◌-◌, ◌≤◌, ◌<◌, ◌^◌, ◌≡◌, refl, ◌⊎◌, inl, inr, arith, List, [], ◌∷◌, ◌++◌, All,
  All-left, All-right, All-append, length, length-append,
}
use localmemcache.Memory.{Mem, word, set_word}
use localmemcache.Memory.Laws.{load-store_other, store_other}
use localmemcache.Word.{wadd}
use localmemcache.Cmd.{done}
use localmemcache.Cmd.Ends.{ends}
use localmemcache.Valloc.Chain.{
  Chunk, Links, Inside, Apart, Off, FreeList, Links-right, last_of, Clear-Off, Clear-mono,
  Inside-Clear, Apart-Clear,
}
use localmemcache.Valloc.Relink.{Spread}
use localmemcache.Valloc.Room.{length-le-hi}
use localmemcache.Valloc.Free.{freed, __lmc_free, lmc_compact_free_chunks}
use localmemcache.Valloc.Free.Sweep.{Quiet}
use localmemcache.Valloc.Free.Skim.{skim, ends_here}
use localmemcache.Valloc.Free.Lists.{
  All-others, All_at, All-put, Separated-at, Separated-remove, Separated-insert, Spread-insert,
  Separated-Spread, total-append, resize_mid,
}
use localmemcache.Valloc.Free.Compact.{compact-Quiet}
use localmemcache.Valloc.Free.Release.{
  Block, Freed, Freed-intro, Releases, Inside-Below, Inside-Real,
}

-- A chunk apart from `c` and from the block behind it does not touch the two together.
pub quiet :
    (hi : ℕ) (c : Chunk) (u z : ℕ) (xs : List Chunk)
    → hi < 2 ^ 63
    → c.0 + c.1 ≡ u
    → u + z ≤ hi
    → 16 ≤ c.1
    → All (Inside hi) xs
    → All (Apart c) xs
    → All (Apart (u, z)) xs
    → All (Quiet c.0 (c.1 + z)) xs
quiet hi c u z [] small e h r i a b = tt
quiet hi c u z (x ∷ xs) small e h r (i, is) (a, as') (b, bs) =
    ((ground arith, ground arith, ground arith), quiet hi c u z xs small e h r is as' bs)

-- What is apart from two neighbours is apart from the two joined.
pub join-Apart :
    (c : Chunk) (u z : ℕ) (xs : List Chunk)
    → c.0 + c.1 ≡ u
    → All (Apart c) xs
    → All (Apart (u, z)) xs
    → All (Apart (c.0, c.1 + z)) xs
join-Apart c u z [] e a b = tt
join-Apart c u z (x ∷ xs) e (a, as') (b, bs) = (ground arith, join-Apart c u z xs e as' bs)

module _ (m : Mem) (hi u z : ℕ) (pre : List Chunk) (c : Chunk) (post : List Chunk)
    (free : FreeList m hi (pre ++ c ∷ post)) (block : Block hi u z (pre ++ c ∷ post))
    (meets : c.0 + c.1 ≡ u) (before : All (Apart (u, z)) pre) where
  pub Inside-c : Inside hi c
  Inside-c = All_at pre c post (Inside hi) free.inside

  pub Inside-pre : All (Inside hi) pre
  Inside-pre = All-left (Inside hi) pre (c ∷ post) free.inside

  pub Inside-post : All (Inside hi) post
  Inside-post = (All-right (Inside hi) pre (c ∷ post) free.inside).1

  pub Apart-All : All (Apart c) (pre ++ post)
  Apart-All = Separated-at pre c post free.separated

  Apart-pre : All (Apart c) pre
  Apart-pre = All-left (Apart c) pre post Apart-All

  pub Apart-post : All (Apart c) post
  Apart-post = All-right (Apart c) pre post Apart-All

  -- the chunk with the block
  unfoldable pub grown : Chunk
  grown = (c.0, c.1 + z)

  unfoldable pub m1 : Mem
  m1 = set_word m (c.0 + 8) (c.1 + z)

  Off-base : Off c.0 (c.0 + 16) ((0, 0) ∷ pre)
  Off-base = (
    inr (omega (arith, Inside-c)),
    Clear-Off hi c.0 (c.0 + 16) pre Inside-pre (
        Clear-mono c.0 (c.0 + c.1) c.0 (c.0 + 16) pre (omega arith) (omega (arith, Inside-c))
          (Apart-Clear c.0 c.1 pre Apart-pre)),
  )

  Off-post : Off c.0 (c.0 + 16) post
  Off-post = Clear-Off hi c.0 (c.0 + 16) post Inside-post (
      Clear-mono c.0 (c.0 + c.1) c.0 (c.0 + 16) post (omega arith) (omega (arith, Inside-c))
        (Apart-Clear c.0 c.1 post Apart-post))

  fits : c.1 + z < 2 ^ 63
  fits = omega (arith, Inside-c, block.high, free.small)

  pub links1 : Links m1 (((0, 0) ∷ pre) ++ (grown ∷ post)) 0
  unfolding m1 grown
  links1 =
      resize_mid m ((0, 0) ∷ pre) c post (c.1 + z) (free.head, free.dummy, free.links) Off-base
        Off-post (omega (arith, fits))

  pub spread1 : Spread (((0, 0) ∷ pre) ++ (grown ∷ post))
  unfolding grown
  spread1 =
      Spread-insert ((0, 0) ∷ pre) grown post
        (
          Clear-Off hi 0 16 (pre ++ post) (All-others pre c post (Inside hi) free.inside) (
              Clear-mono 0 88 0 16 (pre ++ post) (omega arith) (omega arith)
                (Inside-Clear hi (pre ++ post) (All-others pre c post (Inside hi) free.inside))),
          Separated-Spread hi (pre ++ post) (All-others pre c post (Inside hi) free.inside)
              (Separated-remove pre c post free.separated),
        )
        (Off-base.0, All-append _ pre post Off-base.1 Off-post)

  pub extent1 : word m1 16 ≡ word m 16
  unfolding m1
  extent1 = load-store_other 8 8 m (c.0 + 8) (c.1 + z) 16 (inl (omega (arith, Inside-c)))

  -- at most as many rounds as the walks are given
  pub length1 : length pre + suc (length post) ≤ word m 16
  length1 = omega (
    arith,
    free.extent,
    length-append pre (c ∷ post),
    length-le-hi hi (pre ++ c ∷ post) (omega (arith, free.extent)) free.inside free.separated,
  )

  pub grow-run :
      (m' : Mem) → lmc_compact_free_chunks c.0 m1 ≡ done tt m' → __lmc_free u z m ≡ done freed m'
  unfolding __lmc_free m1
  grow-run m' run =
      let k = word m 16 - length pre in
      let fuel : suc (suc (word m 16)) ≡ suc (length pre) + suc k = omega (arith, length1) in
      let sum : wadd c.0 c.1 ≡ u = omega (arith, fits, Inside-c, free.small) in
      let sum' : wadd c.1 z ≡ c.1 + z = omega (arith, fits) in
      rw
        (
          fuel,
          skim m u z (omega (arith, block.room)) (omega (arith, block.high, free.small)) (suc k) 0
              (0, 0) pre c post (free.head, free.dummy, free.links) (omega arith)
              (Inside-Below hi pre free.small Inside-pre) (inr (omega (arith, block.low))) before
              (Inside-Real hi pre Inside-pre) (omega (arith, Inside-c)),
          ends_here m u z c
              (Links-right m ((0, 0) ∷ pre) (c ∷ post) 0 (free.head, free.dummy, free.links)).1 k
              (last_of 0 pre) sum,
          sum',
          run,
        )
        refl

  pub Quiet-pre : All (Quiet c.0 (c.1 + z)) pre
  Quiet-pre =
      quiet hi c u z pre free.small meets block.high (omega (arith, Inside-c)) Inside-pre Apart-pre
        before

  fits_below : c.0 + (c.1 + z) < 2 ^ 64
  fits_below = omega (arith, block.high, free.small)

  grown_Freed : All (Apart (u, z)) post → Freed m hi u z (pre ++ c ∷ post) m1
  unfolding m1 grown
  grown_Freed after =
      Freed-intro m hi u z (pre ++ c ∷ post) free block m1 (pre ++ grown ∷ post) links1
        (All-put pre c post (Inside hi) grown free.inside
          (omega (arith, Inside-c), omega (arith, Inside-c), omega (arith, block.high)))
        (Separated-insert pre grown post (Separated-remove pre c post free.separated)
          (join-Apart c u z (pre ++ post) meets Apart-All (All-append _ pre post before after)))
        (omega (arith, total-append pre (c ∷ post), total-append pre (grown ∷ post)))
        (λ a b lt out clear.
          All-put pre c post (λ x. (b ≤ x.0) ⊎ (x.0 + x.1 ≤ a)) grown clear
            (ground (arith, All_at pre c post (λ x. (b ≤ x.0) ⊎ (x.0 + x.1 ≤ a)) clear)))
        (λ x lo out clear. store_other 8 m (c.0 + 8) (c.1 + z) x (
          ground (arith, Inside-c, All_at pre c post (λ y. (suc x ≤ y.0) ⊎ (y.0 + y.1 ≤ x)) clear)))

  pub grow_quiet : All (Apart (u, z)) post → Releases m hi u z (pre ++ c ∷ post)
  grow_quiet after =
      rw
        (grow-run m1 (
          unfold grown in
          (compact-Quiet m1 pre grown post links1 Quiet-pre (Inside-Real hi pre Inside-pre)
            (omega (arith, Inside-c)) (omega (arith, Inside-c)) fits_below
            (quiet hi c u z post free.small meets block.high (omega (arith, Inside-c)) Inside-post
              Apart-post after)
            (Inside-Real hi post Inside-post) (omega (arith, length1, extent1)))))
        (ends (refl, grown_Freed after))
