-- ===== src/Valloc/Free/Merge.antt =====
-- `__lmc_free` of a block between two free chunks, the upper of which comes first in the list.
use localmemcache.Base.{
  ℕ, suc, ◌+◌, ◌≤◌, ◌≡◌, refl, ◌∙◌, ◌⊎◌, inr, arith, List, ◌∷◌, ◌++◌, All, All-left, All-right,
  length-append,
}
use localmemcache.Memory.{Mem}
use localmemcache.Cmd.{done}
use localmemcache.Cmd.Ends.{ends}
use localmemcache.Valloc.Chain.{Chunk, Inside, Apart, Clear, FreeList, first-le, Clear-Off}
use localmemcache.Valloc.Relink.{Off-last}
use localmemcache.Valloc.Free.{lmc_compact_free_chunks}
use localmemcache.Valloc.Free.Sweep.{Quiet}
use localmemcache.Valloc.Free.Lists.{
  All-others, All_at, Separated-remove, total-append, All-others2, All-put2, Separated-at2,
  Separated-remove2, Separated-insert2, first-ne, between-Apart, Apart-ne,
}
use localmemcache.Valloc.Free.Join.{merged, merged-Links, merged_other}
use localmemcache.Valloc.Free.Compact.{compact-merge}
use localmemcache.Valloc.Free.Grow
use localmemcache.Valloc.Free.Replace.{
  quiet, join-Apart, Inside-c, Inside-pre, Inside-post, Inside-others, Apart-All, put, links3,
  spread3, extent3, length3, Quiet-pre, put-run, put_other,
}
use localmemcache.Valloc.Free.Release.{Block, Freed, Freed-intro, Releases, Inside-Real}

module _ (m : Mem) (hi u z : ℕ) (pre : List Chunk) (c : Chunk) (mid : List Chunk) (b : Chunk)
    (post : List Chunk) (free : FreeList m hi (pre ++ (c ∷ mid ++ b ∷ post)))
    (block : Block hi u z (pre ++ (c ∷ mid ++ b ∷ post))) (meets : u + z ≡ c.0)
    (before : All (Apart (u, z)) pre) (meets_b : b.0 + b.1 ≡ u)
    (between : All (Apart (u, z)) mid) where
  in_c : Inside hi c
  in_c = Inside-c m hi u z pre c (mid ++ b ∷ post) free block meets before

  in_after : All (Inside hi) (mid ++ b ∷ post)
  in_after = Inside-post m hi u z pre c (mid ++ b ∷ post) free block meets before

  in_b : Inside hi b
  in_b = All_at mid b post (Inside hi) in_after

  c-All : All (Apart c) (pre ++ (mid ++ b ∷ post))
  c-All = Apart-All m hi u z pre c (mid ++ b ∷ post) free block meets before

  c_others : All (Apart c) (pre ++ (mid ++ post))
  c_others = All-others2 (Apart c) pre mid b post c-All

  b_others : All (Apart b) (pre ++ (mid ++ post))
  b_others = Separated-at2 pre mid b post (Separated-remove pre c (mid ++ b ∷ post) free.separated)

  Clear-others : Clear u (u + z) (pre ++ (mid ++ post))
  Clear-others =
      let P = (λ (x : Chunk). (u + z ≤ x.0) ⊎ (x.0 + x.1 ≤ u)) in
      All-others2 P pre mid b post (All-others pre c (mid ++ b ∷ post) P block.clear)

  block_others : All (Apart (u, z)) (pre ++ (mid ++ post))
  block_others =
      between-Apart b u z c (pre ++ (mid ++ post)) meets_b meets (omega (arith, in_b))
        (omega (arith, in_c)) (omega (arith, block.room)) Clear-others b_others c_others

  after-Quiet :
      (xs : List Chunk)
      → All (Inside hi) xs
      → All (Apart (u, z)) xs
      → All (Apart c) xs
      → All (Quiet u (z + c.1)) xs
  after-Quiet xs i a k = quiet hi u z c xs free.small meets (omega (arith, in_c)) i a k

  old : Mem
  old = put m hi u z pre c (mid ++ b ∷ post) free block meets before

  new : Mem
  new = merged old pre (u, z + c.1) mid b post

  in_post : All (Inside hi) post
  in_post = (All-right (Inside hi) mid (b ∷ post) in_after).1

  merge-compact : lmc_compact_free_chunks u old ≡ done tt new
  unfolding new old
  merge-compact =
      let post' = mid ++ b ∷ post in
      let tail = All-right (Apart (u, z)) pre (mid ++ post) block_others in
      let ctail = All-right (Apart c) pre (mid ++ post) c_others in
      let upost = All-right (Apart (u, z)) mid post tail in
      compact-merge old pre (u, z + c.1) mid b post
        (links3 m hi u z pre c post' free block meets before)
        (spread3 m hi u z pre c post' free block meets before)
        (Quiet-pre m hi u z pre c post' free block meets before)
        (Inside-Real hi pre (Inside-pre m hi u z pre c post' free block meets before))
        (omega (arith, block.low)) (omega (arith, block.room))
        (omega (arith, meets, in_c, free.small))
        (after-Quiet mid (All-left (Inside hi) mid (b ∷ post) in_after) between
          (All-left (Apart c) mid post ctail))
        (Inside-Real hi mid (All-left (Inside hi) mid (b ∷ post) in_after)) (omega (arith, in_b))
        (omega (arith, meets_b, in_b))
        (first-ne u post (omega (arith, block.low))
          (Apart-ne hi (u, z) post (omega (arith, block.room)) in_post upost))
        (omega (arith, in_b, in_c, meets, meets_b, free.small))
        (omega (
          arith,
          extent3 m hi u z pre c post' free block meets before,
          length3 m hi u z pre c post' free block meets before,
          length-append mid (b ∷ post),
        ))
        meets_b (after-Quiet post in_post upost (All-right (Apart c) mid post ctail))
        (Inside-Real hi post in_post)
        (Apart-ne hi (u, z) pre (omega (arith, block.room))
          (Inside-pre m hi u z pre c post' free block meets before) before)
        (omega (
          arith,
          extent3 m hi u z pre c post' free block meets before,
          length3 m hi u z pre c post' free block meets before,
          length-append mid (b ∷ post),
        ))

  -- the three joined
  whole : Chunk
  whole = (b.0, b.1 + (z + c.1))

  merged_Freed : Freed m hi u z (pre ++ (c ∷ mid ++ b ∷ post)) new
  unfolding new old whole
  merged_Freed =
      let post' = mid ++ b ∷ post in
      Freed-intro m hi u z (pre ++ (c ∷ mid ++ b ∷ post)) free block new
        (pre ++ (mid ++ (b.0, b.1 + (z + c.1)) ∷ post))
        (merged-Links old pre (u, z + c.1) mid b post
          (links3 m hi u z pre c post' free block meets before)
          (spread3 m hi u z pre c post' free block meets before)
          (omega (arith, in_b, in_c, meets, meets_b, free.small))
          (omega (arith, first-le hi post' in_after, free.small)))
        (All-put2 (Inside hi) pre mid b (b.0, b.1 + (z + c.1)) post
          (Inside-others m hi u z pre c post' free block meets before)
          (omega (arith, in_b), omega (arith, in_b), omega (arith, in_c, meets, meets_b)))
        (Separated-insert2 pre mid (b.0, b.1 + (z + c.1)) post
          (Separated-remove2 pre mid b post (Separated-remove pre c post' free.separated))
          (Grow.join-Apart b u (z + c.1) (pre ++ (mid ++ post)) meets_b b_others
            (join-Apart u z c (pre ++ (mid ++ post)) meets block_others c_others)))
        (omega (
          arith,
          total-append pre (c ∷ post'),
          total-append pre (mid ++ (b.0, b.1 + (z + c.1)) ∷ post),
          total-append mid (b ∷ post),
          total-append mid ((b.0, b.1 + (z + c.1)) ∷ post),
        ))
        (λ l r lt out clear.
          let P = (λ (x : Chunk). (r ≤ x.0) ⊎ (x.0 + x.1 ≤ l)) in
          let tail = All-right P pre (c ∷ post') clear in
          All-put2 P pre mid b (b.0, b.1 + (z + c.1)) post (All-others pre c post' P clear)
            (ground (arith, tail.0, All_at mid b post P tail.1)))
        (λ x lo out clear.
          let P = (λ (y : Chunk). (suc x ≤ y.0) ⊎ (y.0 + y.1 ≤ x)) in
          let tail = All-right P pre (c ∷ post') clear in
          merged_other old pre (u, z + c.1) mid b post
            (links3 m hi u z pre c post' free block meets before)
            (spread3 m hi u z pre c post' free block meets before) x
            (ground (
              arith,
              Off-last x (suc x) (0, 0) pre
                  (
                    inr lo,
                    Clear-Off hi x (suc x) pre
                        (Inside-pre m hi u z pre c post' free block meets before)
                        (All-left P pre (c ∷ post') clear),
                  ),
            ))
            (ground (arith, All_at mid b post P tail.1, in_b))
          ∙ put_other m hi u z pre c post' free block meets before x lo out clear)

  pub merge : Releases m hi u z (pre ++ (c ∷ mid ++ b ∷ post))
  unfolding old
  merge =
      rw (put-run m hi u z pre c (mid ++ b ∷ post) free block meets before new merge-compact)
        (ends (refl, merged_Freed))
