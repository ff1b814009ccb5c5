-- ===== src/Valloc/Free/Compact.antt =====
-- `lmc_compact_free_chunks` as a whole, in the three situations in which it is called: nothing
-- touches the chunk, a chunk behind it in the list follows it, or one behind it comes before it.
use localmemcache.Base.{
  ℕ, suc, ◌+◌, ◌-◌, ◌≤◌, ◌<◌, ◌^◌, ◌≡◌, ◌≢◌, refl, sym, ap, arith, List, [], ◌∷◌, ◌++◌, All, length,
  true, false, if◌then◌else◌, ◌==◌,
}
use localmemcache.Memory.{Mem, word}
use localmemcache.Cmd.{Cmd, done, pure, and_then}
use localmemcache.Valloc.Chain.{Chunk, first, Links, Links-right, last_of}
use localmemcache.Valloc.Relink.{Spread, Spread-right}
use localmemcache.Valloc.Free.{Walk, lmc_compact_free_chunks, compact_loop, merge_into}
use localmemcache.Valloc.Free.Sweep.{Quiet, Real, arrive, onward, onward-All, at_swallow, at_merge1}
use localmemcache.Valloc.Free.Join.{swallowed, swallow-run, merged, merge_into-run}

last_of-last_of : (p : ℕ) (cs : List Chunk) → last_of p cs ≡ last_of (last_of p cs) cs
last_of-last_of p [] = refl
last_of-last_of p (c ∷ cs) = refl

-- the walk's variables behind `pre`, the chunk and `mid`
abbrev beyond : (pre mid : List Chunk) → Walk
beyond pre mid = record {
  chunk_p = last_of 0 pre;
  previous = last_of (last_of 0 pre) mid;
  merge1 = false;
  merge1_chunk = 0;
}

abbrev start : Walk
start = record { chunk_p = 0; previous = 0; merge1 = false; merge1_chunk = 0 }

-- what follows the walk
abbrev finish : Chunk → Walk → Cmd (Unit {0})
finish d w = if w.merge1 then merge_into d.0 d.1 w else pure tt

module _ (m : Mem) (pre : List Chunk) (d : Chunk) (rest : List Chunk)
    (links : Links m (((0, 0) ∷ pre) ++ (d ∷ rest)) 0) (quiet : All (Quiet d.0 d.1) pre)
    (reals : All Real pre) (real : Real d) (some_size : 0 < d.1) (small : d.0 + d.1 < 2 ^ 64) where
  -- the walk's variables when it leaves `d`
  abbrev past : Walk
  past = record {
    chunk_p = last_of 0 pre;
    previous = last_of 0 pre;
    merge1 = false;
    merge1_chunk = 0;
  }

  compact-arrive :
      (k : ℕ)
      → suc (suc (length pre + k)) ≡ suc (suc (word m 16))
      → lmc_compact_free_chunks d.0 m
        ≡ and_then
            ((if first rest 0 == 0 then pure past else compact_loop k d.0 d.1 (first rest 0) past)
              m)
            (finish d)
  unfolding lmc_compact_free_chunks
  compact-arrive k e =
      rw
        (
          (Links-right m ((0, 0) ∷ pre) (d ∷ rest) 0 links).1,
          ← e,
          arrive m d.0 d.1 k start (0, 0) pre d rest links
              ((λ z. real (sym z)), omega arith, omega arith) quiet reals refl real,
        )
        refl

  pub compact-Quiet :
      All (Quiet d.0 d.1) rest
      → All Real rest
      → length pre + length rest ≤ word m 16
      → lmc_compact_free_chunks d.0 m ≡ done tt m
  compact-Quiet quiets reals' fuel =
      let k = word m 16 - length pre - length rest in
      rw
        (
          compact-arrive (length rest + k) (omega arith),
          onward-All m d.0 d.1 k past rest (Links-right m ((0, 0) ∷ pre) (d ∷ rest) 0 links).2
              quiets reals' real,
        )
        refl

module _ (m : Mem) (pre : List Chunk) (d : Chunk) (mid : List Chunk) (a : Chunk) (post : List Chunk)
    (links : Links m (((0, 0) ∷ pre) ++ (d ∷ mid ++ a ∷ post)) 0)
    (spread : Spread (((0, 0) ∷ pre) ++ (d ∷ mid ++ a ∷ post))) (quiet : All (Quiet d.0 d.1) pre)
    (reals : All Real pre) (real : Real d) (some_size : 0 < d.1) (small : d.0 + d.1 < 2 ^ 64)
    (quiets : All (Quiet d.0 d.1) mid) (reals' : All Real mid) (real' : Real a) (ne : a.0 ≢ d.0)
    (ne' : first post 0 ≢ d.0) (fits : a.1 + d.1 < 2 ^ 64)
    (fuel : length pre + length mid < word m 16) where
  after_d : Links m (mid ++ a ∷ post) 0
  after_d = (Links-right m ((0, 0) ∷ pre) (d ∷ mid ++ a ∷ post) 0 links).2

  compact-reach :
      (k : ℕ)
      → length pre + (length mid + k) ≡ word m 16
      → lmc_compact_free_chunks d.0 m
        ≡ and_then (compact_loop k d.0 d.1 a.0 (beyond pre mid) m) (finish d)
  compact-reach k e =
      rw
        (
          compact-arrive m pre d (mid ++ a ∷ post) links quiet reals real some_size small
              (length mid + k) (ap (λ n. suc (suc n)) e),
          onward m d.0 d.1 k _ mid a post after_d quiets reals' real' ne,
        )
        refl

  pub compact-swallow :
      a.0 + a.1 ≢ d.0
      → d.0 + d.1 ≡ a.0
      → a.0 + a.1 < 2 ^ 64
      → All (λ c. c.0 ≢ a.0) mid
      → lmc_compact_free_chunks d.0 m ≡ done tt (swallowed m d mid a post)
  compact-swallow apart touch fits' others =
      let k = word m 16 - length pre - length mid - 1 in
      rw
        (
          compact-reach (suc k) (omega arith),
          at_swallow m d.0 d.1 k (beyond pre mid) a post (Links-right m mid (a ∷ post) 0 after_d) ne
              ne' (omega arith) (omega arith) refl,
          swallow-run m d mid a post (Links-right m ((0, 0) ∷ pre) (d ∷ mid ++ a ∷ post) 0 links)
              (Spread-right ((0, 0) ∷ pre) (d ∷ mid ++ a ∷ post) spread)
              (last_of (last_of 0 pre) mid) real reals' others (last_of-last_of (last_of 0 pre) mid)
              (omega arith),
        )
        refl

  pub compact-merge :
      a.0 + a.1 ≡ d.0
      → All (Quiet d.0 d.1) post
      → All Real post
      → All (λ c. c.0 ≢ d.0) pre
      → length pre + (length mid + suc (length post)) ≤ word m 16
      → lmc_compact_free_chunks d.0 m ≡ done tt (merged m pre d mid a post)
  compact-merge touch after reals3 others fuel' =
      let k = word m 16 - length pre - length mid - 1 - length post in
      rw
        (
          compact-reach (suc (length post + k)) (omega arith),
          at_merge1 m d.0 d.1 (length post + k) (beyond pre mid) a post
              (Links-right m mid (a ∷ post) 0 after_d) ne ne' (omega arith) refl,
          onward-All m d.0 d.1 k
              (record (beyond pre mid) { previous = a.0; merge1 = true; merge1_chunk = a.0 }) post
              (Links-right m mid (a ∷ post) 0 after_d).2 after reals3 real,
          merge_into-run m d mid a post pre
              (record {
                chunk_p = last_of 0 pre;
                previous = last_of a.0 post;
                merge1 = true;
                merge1_chunk = a.0;
              })
              links spread refl refl real reals others fits,
        )
        refl
