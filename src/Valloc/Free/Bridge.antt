-- ===== src/Valloc/Free/Bridge.antt =====
-- `__lmc_free` of a block between two free chunks, the lower of which comes first in the list.
use localmemcache.Base.{
  ℕ, suc, ◌+◌, ◌≤◌, ◌≡◌, refl, ◌∙◌, ◌⊎◌, arith, List, ◌∷◌, ◌++◌, All, All-left, All-right,
  All-append, length-append,
}
use localmemcache.Memory.{Mem}
use localmemcache.Memory.Laws.{store_other}
use localmemcache.Cmd.{done}
use localmemcache.Cmd.Ends.{ends}
use localmemcache.Valloc.Chain.{Chunk, Inside, Apart, FreeList, Links-right, Clear-Off, first-le}
use localmemcache.Valloc.Relink.{Spread-right}
use localmemcache.Valloc.Free.{lmc_compact_free_chunks}
use localmemcache.Valloc.Free.Lists.{
  All-others, All_at, Separated-remove, Separated-insert, All-others2, Separated-at2,
  Separated-remove2, first-ne, Apart-ne, between-Apart, total-append,
}
use localmemcache.Valloc.Free.Join.{swallowed, swallowed-Links_all, swallowed_other}
use localmemcache.Valloc.Free.Compact.{compact-swallow}
use localmemcache.Valloc.Free.Grow.{
  quiet, join-Apart, Inside-c, Inside-pre, Inside-post, Apart-All, Apart-post, grown, m1, links1,
  spread1, extent1, length1, Quiet-pre, grow-run,
}
use localmemcache.Valloc.Free.Release.{Block, Freed, Freed-intro, Releases, Inside-Real}

-- The block also comes before a free chunk `a` further on in the list.
module _ (m : Mem) (hi u z : ℕ) (pre : List Chunk) (c : Chunk) (mid : List Chunk) (a : Chunk)
    (post : List Chunk) (free : FreeList m hi (pre ++ (c ∷ mid ++ a ∷ post)))
    (block : Block hi u z (pre ++ (c ∷ mid ++ a ∷ post))) (meets : c.0 + c.1 ≡ u)
    (before : All (Apart (u, z)) pre) (meets_a : u + z ≡ a.0)
    (between : All (Apart (u, z)) mid) where
  in_c : Inside hi c
  in_c = Inside-c m hi u z pre c (mid ++ a ∷ post) free block meets before

  in_after : All (Inside hi) (mid ++ a ∷ post)
  in_after = Inside-post m hi u z pre c (mid ++ a ∷ post) free block meets before

  in_a : Inside hi a
  in_a = All_at mid a post (Inside hi) in_after

  c-Apart : All (Apart c) (mid ++ a ∷ post)
  c-Apart = Apart-post m hi u z pre c (mid ++ a ∷ post) free block meets before

  a-Apart : All (Apart a) (pre ++ (mid ++ post))
  a-Apart = Separated-at2 pre mid a post (Separated-remove pre c (mid ++ a ∷ post) free.separated)

  a-Apart_mid : All (Apart a) mid
  a-Apart_mid = All-left (Apart a) mid post (All-right (Apart a) pre (mid ++ post) a-Apart)

  old : Mem
  old = m1 m hi u z pre c (mid ++ a ∷ post) free block meets before

  new : Mem
  new = swallowed old (c.0, c.1 + z) mid a post

  swallow-compact : lmc_compact_free_chunks c.0 old ≡ done tt new
  unfolding new old
  swallow-compact =
      let post' = mid ++ a ∷ post in
      compact-swallow old pre (c.0, c.1 + z) mid a post
        (unfold grown in links1 m hi u z pre c post' free block meets before)
        (unfold grown in spread1 m hi u z pre c post' free block meets before)
        (Quiet-pre m hi u z pre c post' free block meets before)
        (Inside-Real hi pre (Inside-pre m hi u z pre c post' free block meets before))
        (omega (arith, in_c)) (omega (arith, in_c)) (omega (arith, in_c, block.high, free.small))
        (quiet hi c u z mid free.small meets block.high (omega (arith, in_c))
          (All-left (Inside hi) mid (a ∷ post) in_after) (All-left (Apart c) mid (a ∷ post) c-Apart)
          between)
        (Inside-Real hi mid (All-left (Inside hi) mid (a ∷ post) in_after)) (omega (arith, in_a))
        (omega (arith, meets_a, in_c, block.room))
        (first-ne c.0 post (omega (arith, in_c)) (
          Apart-ne hi c post (omega (arith, in_c)) (All-right (Inside hi) mid (a ∷ post) in_after).1
            (All-right (Apart c) mid (a ∷ post) c-Apart).1))
        (omega (arith, in_a, in_c, block.high, free.small))
        (omega (
          arith,
          extent1 m hi u z pre c post' free block meets before,
          length1 m hi u z pre c post' free block meets before,
          length-append mid (a ∷ post),
        ))
        (ground (arith, All_at mid a post (Apart c) c-Apart, in_c, in_a))
        (omega (arith, meets, meets_a)) (omega (arith, in_a, free.small))
        (Apart-ne hi a mid (omega (arith, in_a)) (All-left (Inside hi) mid (a ∷ post) in_after)
          a-Apart_mid)

  -- the three joined
  whole : Chunk
  whole = (c.0, c.1 + z + a.1)

  All-Apart : All (Apart whole) (pre ++ (mid ++ post))
  unfolding whole
  All-Apart =
      let cs = pre ++ (mid ++ post) in
      let c-All =
        All-others2 (Apart c) pre mid a post
          (Apart-All m hi u z pre c (mid ++ a ∷ post) free block meets before) in
      join-Apart (c.0, c.1 + z) a.0 a.1 (pre ++ (mid ++ post)) (omega (arith, meets, meets_a))
        (join-Apart c u z (pre ++ (mid ++ post)) meets c-All (
          between-Apart c u z a (pre ++ (mid ++ post)) meets meets_a (omega (arith, in_c))
            (omega (arith, in_a)) (omega (arith, block.room))
            (All-others2 (λ x. (u + z ≤ x.0) ⊎ (x.0 + x.1 ≤ u)) pre mid a post
              (All-others pre c (mid ++ a ∷ post) (λ x. (u + z ≤ x.0) ⊎ (x.0 + x.1 ≤ u))
                block.clear))
            c-All a-Apart))
        a-Apart

  bridged_Freed : Freed m hi u z (pre ++ (c ∷ mid ++ a ∷ post)) new
  unfolding new old whole m1
  bridged_Freed =
      let post' = mid ++ a ∷ post in
      Freed-intro m hi u z (pre ++ (c ∷ mid ++ a ∷ post)) free block new
        (pre ++ (whole ∷ mid ++ post))
        (swallowed-Links_all old pre (c.0, c.1 + z) mid a post
          (unfold grown in links1 m hi u z pre c post' free block meets before)
          (unfold grown in spread1 m hi u z pre c post' free block meets before)
          (omega (arith, in_c, in_a, block.high, free.small))
          (omega (
            arith,
            first-le hi post (All-right (Inside hi) mid (a ∷ post) in_after).1,
            free.small,
          )))
        (All-append (Inside hi) pre (whole ∷ mid ++ post)
          (Inside-pre m hi u z pre c post' free block meets before)
          (
            (omega (arith, in_c), omega (arith, in_c), omega (arith, in_c, in_a)),
            All-others mid a post (Inside hi) in_after,
          ))
        (Separated-insert pre whole (mid ++ post)
          (Separated-remove2 pre mid a post (Separated-remove pre c post' free.separated))
          All-Apart)
        (omega (
          arith,
          total-append pre (c ∷ post'),
          total-append pre (whole ∷ mid ++ post),
          total-append mid (a ∷ post),
          total-append mid post,
        ))
        (λ l r lt out clear.
          let P = (λ (x : Chunk). (r ≤ x.0) ⊎ (x.0 + x.1 ≤ l)) in
          let (at_c, tail) = All-right P pre (c ∷ post') clear in
          All-append P pre (whole ∷ mid ++ post) (All-left P pre (c ∷ post') clear)
            (ground (arith, All_at mid a post P tail), All-others mid a post P tail))
        (λ x lo out clear.
          let P = (λ (y : Chunk). (suc x ≤ y.0) ⊎ (y.0 + y.1 ≤ x)) in
          let tail = All-right P pre (c ∷ post') clear in
          swallowed_other old (c.0, c.1 + z) mid a post
            (Links-right old ((0, 0) ∷ pre) ((c.0, c.1 + z) ∷ post') 0
              (unfold grown in links1 m hi u z pre c post' free block meets before))
            (Spread-right ((0, 0) ∷ pre) ((c.0, c.1 + z) ∷ post')
              (unfold grown in spread1 m hi u z pre c post' free block meets before))
            x
            (
              ground (arith, tail.0, in_c),
              Clear-Off hi x (suc x) mid (All-left (Inside hi) mid (a ∷ post) in_after)
                  (All-left P mid (a ∷ post) tail.1),
            )
          ∙ store_other 8 m (c.0 + 8) (c.1 + z) x (ground (arith, tail.0, in_c)))

  pub bridge : Releases m hi u z (pre ++ (c ∷ mid ++ a ∷ post))
  unfolding m1 old
  bridge =
      rw (grow-run m hi u z pre c (mid ++ a ∷ post) free block meets before new swallow-compact)
        (ends (refl, bridged_Freed))
