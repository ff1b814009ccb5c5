-- ===== src/Valloc/Free/Replace.antt =====
-- `__lmc_free` of a block that comes before a free chunk: the block takes the chunk's place in
-- the list, and its bytes.
use localmemcache.Base.{
  ℕ, suc, ◌+◌, ◌-◌, ◌≤◌, ◌<◌, ◌^◌, ◌≡◌, refl, ◌∙◌, ◌⊎◌, inl, inr, arith, List, [], ◌∷◌, ◌++◌, All,
  All-left, All-right, All-append, length, length-append,
}
use localmemcache.Memory.{Mem, word, set_word}
use localmemcache.Memory.Laws.{load-Same, load-store_same, load-store_other, store_other}
use localmemcache.Word.{wadd}
use localmemcache.Cmd.{done}
use localmemcache.Cmd.Ends.{ends}
use localmemcache.Valloc.Chain.{
  Chunk, first, Links, Inside, Apart, Clear, Off, FreeList, Links-left, Links-right, Links-append,
  Links-write, last_of, Clear-Off, Clear-mono, first-le, Inside-Clear, Off-mono,
}
use localmemcache.Valloc.Relink.{Spread, Spread-left, Spread-last, Off-last, relink}
use localmemcache.Valloc.Room.{length-le-hi}
use localmemcache.Valloc.Free.{freed, __lmc_free, lmc_compact_free_chunks}
use localmemcache.Valloc.Free.Sweep.{Quiet}
use localmemcache.Valloc.Free.Skim.{skim, begins_here}
use localmemcache.Valloc.Free.Lists.{
  All-others, All_at, All-put, Separated-at, Separated-remove, Separated-insert, Spread-insert,
  Separated-Spread, total-append,
}
use localmemcache.Valloc.Free.Compact.{compact-Quiet}
use localmemcache.Valloc.Free.Release.{
  Block, Freed, Freed-intro, Releases, Inside-Below, Inside-Real,
}

-- A chunk apart from the block and from the chunk `c` behind it does not touch the two together.
pub quiet :
    (hi u z : ℕ) (c : Chunk) (xs : List Chunk)
    → hi < 2 ^ 63
    → u + z ≡ c.0
    → c.0 + c.1 ≤ hi
    → All (Inside hi) xs
    → All (Apart (u, z)) xs
    → All (Apart c) xs
    → All (Quiet u (z + c.1)) xs
quiet hi u z c [] small e h i a b = tt
quiet hi u z c (x ∷ xs) small e h (i, is) (a, as') (b, bs) =
    ((ground arith, ground arith, ground arith), quiet hi u z c xs small e h is as' bs)

-- What is apart from the block and the chunk is apart from the two joined.
pub join-Apart :
    (u z : ℕ) (c : Chunk) (xs : List Chunk)
    → u + z ≡ c.0
    → All (Apart (u, z)) xs
    → All (Apart c) xs
    → All (Apart (u, z + c.1)) xs
join-Apart u z c [] e a b = tt
join-Apart u z c (x ∷ xs) e (a, as') (b, bs) = (ground arith, join-Apart u z c xs e as' bs)

module _ (m : Mem) (hi u z : ℕ) (pre : List Chunk) (c : Chunk) (post : List Chunk)
    (free : FreeList m hi (pre ++ c ∷ post)) (block : Block hi u z (pre ++ c ∷ post))
    (meets : u + z ≡ c.0) (before : All (Apart (u, z)) pre) where
  pub Inside-c : Inside hi c
  Inside-c = All_at pre c post (Inside hi) free.inside

  pub Inside-pre : All (Inside hi) pre
  Inside-pre = All-left (Inside hi) pre (c ∷ post) free.inside

  pub Inside-post : All (Inside hi) post
  Inside-post = (All-right (Inside hi) pre (c ∷ post) free.inside).1

  pub Inside-others : All (Inside hi) (pre ++ post)
  Inside-others = All-others pre c post (Inside hi) free.inside

  pub Apart-All : All (Apart c) (pre ++ post)
  Apart-All = Separated-at pre c post free.separated

  links : Links m (((0, 0) ∷ pre) ++ (c ∷ post)) 0
  links = (free.head, free.dummy, free.links)

  link_c : word m c.0 ≡ first post 0
  link_c = (Links-right m ((0, 0) ∷ pre) (c ∷ post) 0 links).0

  size_c : word m (c.0 + 8) ≡ c.1
  size_c = (Links-right m ((0, 0) ∷ pre) (c ∷ post) 0 links).1

  Clear-others : Clear u (u + z) (pre ++ post)
  Clear-others = All-others pre c post (λ x. (u + z ≤ x.0) ⊎ (x.0 + x.1 ≤ u)) block.clear

  Off-others : Off u (u + 16) (pre ++ post)
  Off-others = Clear-Off hi u (u + 16) (pre ++ post) Inside-others (
      Clear-mono u (u + z) u (u + 16) (pre ++ post) (omega arith) (omega (arith, block.room))
        Clear-others)

  pub spread3 : Spread (((0, 0) ∷ pre) ++ ((u, z + c.1) ∷ post))
  spread3 =
      Spread-insert ((0, 0) ∷ pre) (u, z + c.1) post
        (
          Clear-Off hi 0 16 (pre ++ post) Inside-others (
              Clear-mono 0 88 0 16 (pre ++ post) (omega arith) (omega arith)
                (Inside-Clear hi (pre ++ post) Inside-others)),
          Separated-Spread hi (pre ++ post) Inside-others
              (Separated-remove pre c post free.separated),
        )
        (inr (omega (arith, block.low)), Off-others)

  -- the memory when the chunks are compacted
  unfoldable pub put : Mem
  put = set_word (set_word (set_word m u (first post 0)) (u + 8) (z + c.1)) (last_of 0 pre) u

  Off-prev : Off (last_of 0 pre) (last_of 0 pre + 16) ((u, z + c.1) ∷ post)
  Off-prev = Spread-last (0, 0) pre ((u, z + c.1) ∷ post) spread3

  pub fits : z + c.1 < 2 ^ 63
  fits = omega (arith, Inside-c, meets, free.small)

  pub links3 : Links put (((0, 0) ∷ pre) ++ ((u, z + c.1) ∷ post)) 0
  unfolding put
  links3 =
      let v = first post 0 in
      let l = last_of 0 pre in
      let ma = set_word m u v in
      let mb = set_word ma (u + 8) (z + c.1) in
      let off_pre = All-left (λ x. (u + 16 ≤ x.0) ⊎ (x.0 + 16 ≤ u)) pre post Off-others in
      let Off-post = All-right (λ x. (u + 16 ≤ x.0) ⊎ (x.0 + 16 ≤ u)) pre post Off-others in
      let lo = (λ (xs : List Chunk) (o : Off u (u + 16) xs).
        Off-mono u (u + 16) u (u + 8) xs (omega arith) (omega arith) o) in
      let up = (λ (xs : List Chunk) (o : Off u (u + 16) xs).
        Off-mono u (u + 16) (u + 8) (u + 8 + 8) xs (omega arith) (omega arith) o) in
      Links-append put ((0, 0) ∷ pre) ((u, z + c.1) ∷ post) 0
        (relink mb (0, 0) pre c.0 u
          (Links-write ma (u + 8) (z + c.1) ((0, 0) ∷ pre) c.0
            (inr (omega (arith, block.low)), up pre off_pre)
            (Links-write m u v ((0, 0) ∷ pre) c.0 (inr (omega (arith, block.low)), lo pre off_pre)
              (Links-left m ((0, 0) ∷ pre) (c ∷ post) 0 links)))
          (Spread-left ((0, 0) ∷ pre) ((u, z + c.1) ∷ post) spread3)
          (omega (arith, block.high, free.small)))
        (
          load-store_other 8 8 mb l u u (ground (arith, Off-prev))
              ∙ (load-store_other 8 8 ma (u + 8) (z + c.1) u (inl (omega arith))
                  ∙ load-store_same 8 m u v
                      (omega (arith, first-le hi post Inside-post, free.small))),
          load-store_other 8 8 mb l u (u + 8) (ground (arith, Off-prev))
              ∙ load-store_same 8 ma (u + 8) (z + c.1) (omega (arith, fits)),
          Links-write mb l u post 0
              (Off-mono l (l + 16) l (l + 8) post (omega arith) (omega arith) Off-prev.1)
              (Links-write ma (u + 8) (z + c.1) post 0 (up post Off-post) (
                Links-write m u v post 0 (lo post Off-post)
                  (Links-right m ((0, 0) ∷ pre) (c ∷ post) 0 links).2)),
        )

  pub length3 : length pre + suc (length post) ≤ word m 16
  length3 = omega (
    arith,
    free.extent,
    length-append pre (c ∷ post),
    length-le-hi hi (pre ++ c ∷ post) (omega (arith, free.extent)) free.inside free.separated,
  )

  pub put-run :
      (m' : Mem) → lmc_compact_free_chunks u put ≡ done tt m' → __lmc_free u z m ≡ done freed m'
  unfolding __lmc_free put
  put-run m' run =
      let k = word m 16 - length pre in
      let fuel : suc (suc (word m 16)) ≡ suc (length pre) + suc k = omega (arith, length3) in
      let sum' : wadd z c.1 ≡ z + c.1 = omega (arith, fits) in
      let keeps : word (set_word m u (word m c.0)) (c.0 + 8) ≡ c.1 =
        load-store_other 8 8 m u (word m c.0) (c.0 + 8) (inr (omega (arith, meets, block.room)))
        ∙ size_c in
      rw
        (
          fuel,
          skim m u z (omega (arith, block.room)) (omega (arith, block.high, free.small)) (suc k) 0
              (0, 0) pre c post links (omega arith) (Inside-Below hi pre free.small Inside-pre)
              (inr (omega (arith, block.low))) before (Inside-Real hi pre Inside-pre)
              (omega (arith, Inside-c)),
          begins_here m u z c size_c k (last_of 0 pre)
              (omega (arith, meets, Inside-c, block.room, free.small))
              (omega (arith, meets, Inside-c, block.room, free.small)) keeps,
          link_c,
          sum',
          run,
        )
        refl

  -- The bytes that the three writes leave alone.
  pub put_other :
      (x : ℕ) → 16 ≤ x → (x < u) ⊎ (u + z ≤ x) → Clear x (suc x) (pre ++ c ∷ post) → put x ≡ m x
  unfolding put
  put_other x lo out clear =
      let v = first post 0 in
      let ma = set_word m u v in
      let mb = set_word ma (u + 8) (z + c.1) in
      let P = (λ (y : Chunk). (suc x ≤ y.0) ⊎ (y.0 + y.1 ≤ x)) in
      let off = Clear-Off hi x (suc x) pre Inside-pre (All-left P pre (c ∷ post) clear) in
      store_other 8 mb (last_of 0 pre) u x
        (ground (arith, Off-last x (suc x) (0, 0) pre (inr lo, off)))
      ∙ (store_other 8 ma (u + 8) (z + c.1) x (ground (arith, block.room))
          ∙ store_other 8 m u v x (ground (arith, block.room)))

  pub extent3 : word put 16 ≡ word m 16
  extent3 = load-Same 8 m put 16 λ x lo up. put_other x lo (inl (omega (arith, block.low))) (
      Clear-mono 0 88 x (suc x) (pre ++ c ∷ post) (omega arith) (omega arith)
        (Inside-Clear hi (pre ++ c ∷ post) free.inside))

  pub Quiet-pre : All (Quiet u (z + c.1)) pre
  Quiet-pre =
      quiet hi u z c pre free.small meets (omega (arith, Inside-c)) Inside-pre before
        (All-left (Apart c) pre post Apart-All)

  -- No other chunk touches the block.
  pub replace_quiet : All (Apart (u, z)) post → Releases m hi u z (pre ++ c ∷ post)
  replace_quiet after =
      rw
        (put-run put (
          compact-Quiet put pre (u, z + c.1) post links3 Quiet-pre (Inside-Real hi pre Inside-pre)
            (omega (arith, block.low)) (omega (arith, block.room))
            (omega (arith, meets, Inside-c, free.small))
            (quiet hi u z c post free.small meets (omega (arith, Inside-c)) Inside-post after
              (All-right (Apart c) pre post Apart-All))
            (Inside-Real hi post Inside-post) (omega (arith, length3, extent3))))
        (ends (refl, freed_put))
    where
      freed_put : Freed m hi u z (pre ++ c ∷ post) put
      freed_put =
          Freed-intro m hi u z (pre ++ c ∷ post) free block put (pre ++ (u, z + c.1) ∷ post) links3
            (All-put pre c post (Inside hi) (u, z + c.1) free.inside
              (block.low, omega (arith, block.room), omega (arith, meets, Inside-c)))
            (Separated-insert pre (u, z + c.1) post (Separated-remove pre c post free.separated)
              (join-Apart u z c (pre ++ post) meets (All-append _ pre post before after) Apart-All))
            (omega (arith, total-append pre (c ∷ post), total-append pre ((u, z + c.1) ∷ post)))
            (λ a b lt out clear.
              All-put pre c post (λ x. (b ≤ x.0) ⊎ (x.0 + x.1 ≤ a)) (u, z + c.1) clear
                (ground (arith, All_at pre c post (λ x. (b ≤ x.0) ⊎ (x.0 + x.1 ≤ a)) clear)))
            put_other
