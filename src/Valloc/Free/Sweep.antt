-- ===== src/Valloc/Free/Sweep.antt =====
-- The walk of `lmc_compact_free_chunks` over the list of free chunks.
use localmemcache.Base.{
  ℕ, suc, ◌+◌, ◌≡◌, ◌≢◌, refl, sym, arith, List, [], ◌∷◌, ◌++◌, All, length, true, false, ◌==◌,
  if◌then◌else◌, ne→==, eq→==, Bool,
}
use Prim.Native.Nat.add
use localmemcache.Memory.{Mem, word}
use localmemcache.Word.{wadd}
use localmemcache.Cmd.{Cmd, Run, done, stopped, and_then, pure}
use localmemcache.Valloc.Chain.{Chunk, first, Links, last_of}
use localmemcache.Valloc.Free.{Walk, swallow, compact_round, compact_loop}

-- A chunk that is neither `chunk` nor touches it.
abbrev pub Quiet : (chunk c_size : ℕ) → Chunk → Type 0
Quiet chunk c_size c = (c.0 ≢ chunk) × (wadd c.0 c.1 ≢ chunk) × (wadd chunk c_size ≢ c.0)

abbrev pub Real : Chunk → Type 0
Real c = c.0 ≢ 0

module _ (m : Mem) (chunk c_size : ℕ) where
  compact_round-quiet :
      (c : ℕ) (w : Walk)
      → (c == chunk) ≡ false
      → (word m c == chunk) ≡ false
      → (wadd c (word m (c + 8)) == chunk) ≡ false
      → (wadd chunk c_size == c) ≡ false
      → compact_round chunk c_size c w m ≡ done (false, record w { previous = c }) m
  unfolding compact_round
  compact_round-quiet c w e1 e2 e3 e4 = ground arith

  step :
      (k : ℕ) (w : Walk) (x : Chunk) (rest : List Chunk)
      → Links m (x ∷ rest) 0
      → Quiet chunk c_size x
      → first rest 0 ≢ chunk
      → compact_loop (suc k) chunk c_size x.0 w m
        ≡ (if first rest 0 == 0
              then pure (record w { previous = x.0 })
              else compact_loop k chunk c_size (first rest 0) (record w { previous = x.0 }))
            m
  unfolding compact_loop
  step k w x rest (n, z, l) (q, q', q'') ne = rw (
    compact_round-quiet x.0 w (ne→== _ _ q) (rw n (ne→== _ _ ne)) (rw z (ne→== _ _ q'))
        (ne→== _ _ q''),
    n,
  )

  -- Quiet chunks are passed, and change nothing but `va_previous`.
  pub pass :
      (k : ℕ) (w : Walk) (x : Chunk) (xs : List Chunk) (y : Chunk) (ys : List Chunk)
      → Links m (x ∷ xs ++ y ∷ ys) 0
      → Quiet chunk c_size x
      → All (Quiet chunk c_size) xs
      → All Real xs
      → y.0 ≢ 0
      → y.0 ≢ chunk
      → compact_loop (suc (length xs) + k) chunk c_size x.0 w m
        ≡ compact_loop k chunk c_size y.0 (record w { previous = last_of x.0 xs }) m
  pass k w x [] y ys links q qs real y0 yc =
      rw (add.suc 0 k, add.zero k, step k w x (y ∷ ys) links q yc, ne→== _ _ y0)
  pass k w x (x2 ∷ xs) y ys links q (q2, qs) (r2, real) y0 yc =
      rw
        (
          add.suc (length (x2 ∷ xs)) k,
          step (suc (length xs) + k) w x (x2 ∷ xs ++ y ∷ ys) links q q2.0,
          ne→== _ _ r2,
        )
        (pass k (record w { previous = x.0 }) x2 xs y ys links.2 q2 qs real y0 yc)

  -- Quiet chunks to the end of the list.
  pub pass-All :
      (k : ℕ) (w : Walk) (x : Chunk) (xs : List Chunk)
      → Links m (x ∷ xs) 0
      → Quiet chunk c_size x
      → All (Quiet chunk c_size) xs
      → All Real xs
      → chunk ≢ 0
      → compact_loop (suc (length xs) + k) chunk c_size x.0 w m
        ≡ done (record w { previous = last_of x.0 xs }) m
  pass-All k w x [] links q qs real c0 =
      rw (add.suc 0 k, add.zero k, step k w x [] links q (λ e. c0 (sym e)))
  pass-All k w x (x2 ∷ xs) links q (q2, qs) (r2, real) c0 =
      rw
        (
          add.suc (length (x2 ∷ xs)) k,
          step (suc (length xs) + k) w x (x2 ∷ xs) links q q2.0,
          ne→== _ _ r2,
        )
        (pass-All k (record w { previous = x.0 }) x2 xs links.2 q2 qs real c0)

  -- The round at the chunk before `chunk`, and the one at `chunk`.
  before_chunk :
      (k : ℕ) (w : Walk) (x d : Chunk) (rest : List Chunk)
      → Links m (x ∷ d ∷ rest) 0
      → x.0 ≢ chunk
      → d.0 ≡ chunk
      → d.0 ≢ 0
      → compact_loop (suc k) chunk c_size x.0 w m
        ≡ compact_loop k chunk c_size d.0 (record w { chunk_p = x.0; previous = x.0 }) m
  unfolding compact_loop compact_round
  before_chunk k w x d rest (n, z, l) ne e d0 =
      rw (ne→== _ _ ne, n, eq→== d.0 chunk e, n, ne→== _ _ d0)

  at_chunk :
      (k : ℕ) (w : Walk) (d : Chunk) (rest : List Chunk)
      → Links m (d ∷ rest) 0
      → d.0 ≡ chunk
      → compact_loop (suc k) chunk c_size d.0 w m
        ≡ (if first rest 0 == 0 then pure w else compact_loop k chunk c_size (first rest 0) w) m
  unfolding compact_loop compact_round
  at_chunk k w d rest (n, z, l) e = rw (eq→== d.0 chunk e, n)

  -- From the descriptor, or a chunk, to what follows `chunk`.
  pub arrive :
      (k : ℕ) (w : Walk) (x : Chunk) (pre : List Chunk) (d : Chunk) (rest : List Chunk)
      → Links m (x ∷ pre ++ d ∷ rest) 0
      → Quiet chunk c_size x
      → All (Quiet chunk c_size) pre
      → All Real pre
      → d.0 ≡ chunk
      → d.0 ≢ 0
      → compact_loop (suc (suc (length pre + k))) chunk c_size x.0 w m
        ≡ (if first rest 0 == 0
              then pure (record w { chunk_p = last_of x.0 pre; previous = last_of x.0 pre })
              else compact_loop k chunk c_size
                  (first rest 0)
                  (record w { chunk_p = last_of x.0 pre; previous = last_of x.0 pre }))
            m
  arrive k w x [] d rest links q qs real e d0 = rw (
    add.zero k,
    before_chunk (suc k) w x d rest links q.0 e d0,
    at_chunk k (record w { chunk_p = x.0; previous = x.0 }) d rest links.2 e,
  )
  arrive k w x (x2 ∷ pre) d rest links q (q2, qs) (r2, real) e d0 =
      rw
        (
          add.suc (length pre) k,
          step (suc (suc (length pre + k))) w x (x2 ∷ pre ++ d ∷ rest) links q q2.0,
          ne→== _ _ r2,
        )
        (arrive k (record w { previous = x.0 }) x2 pre d rest links.2 q2 qs real e d0)

  -- Over quiet chunks, from a link to the next chunk of interest.
  pub onward :
      (k : ℕ) (w : Walk) (mid : List Chunk) (y : Chunk) (ys : List Chunk)
      → Links m (mid ++ y ∷ ys) 0
      → All (Quiet chunk c_size) mid
      → All Real mid
      → y.0 ≢ 0
      → y.0 ≢ chunk
      → (if first (mid ++ y ∷ ys) 0 == 0
            then pure w
            else compact_loop (length mid + k) chunk c_size (first (mid ++ y ∷ ys) 0) w)
          m
        ≡ compact_loop k chunk c_size y.0 (record w { previous = last_of w.previous mid }) m
  onward k w [] y ys links qs real y0 yc = rw (ne→== _ _ y0, add.zero k)
  onward k w (x ∷ mid) y ys links (q, qs) (r, real) y0 yc =
      rw (ne→== _ _ r) (pass k w x mid y ys links q qs real y0 yc)

  pub onward-All :
      (k : ℕ) (w : Walk) (xs : List Chunk)
      → Links m xs 0
      → All (Quiet chunk c_size) xs
      → All Real xs
      → chunk ≢ 0
      → (if first xs 0 == 0
            then pure w
            else compact_loop (length xs + k) chunk c_size (first xs 0) w)
          m
        ≡ done (record w { previous = last_of w.previous xs }) m
  onward-All k w [] links qs real c0 = refl
  onward-All k w (x ∷ xs) links (q, qs) (r, real) c0 =
      rw (ne→== _ _ r) (pass-All k w x xs links q qs real c0)

  compact_round-swallow :
      (c : ℕ) (w : Walk)
      → (c == chunk) ≡ false
      → (word m c == chunk) ≡ false
      → (wadd c (word m (c + 8)) == chunk) ≡ false
      → (wadd chunk c_size == c) ≡ true
      → w.merge1 ≡ false
      → compact_round chunk c_size c w m
        ≡ and_then (swallow chunk c w.previous m) (λ _. pure (true, w))
  unfolding compact_round
  compact_round-swallow c w e1 e2 e3 e4 clean = ground arith

  swallowed :
      (r : Run (Unit {0})) (w : Walk) (f : Walk → Cmd Walk)
      → and_then {A = Bool × Walk}
          (and_then r (λ _. pure (true, w)))
          (λ p. if p.0 then pure p.1 else f p.1)
        ≡ and_then r (λ _. pure w)
  swallowed (done u m') w f = refl
  swallowed (stopped e) w f = refl

  -- The round at a chunk that begins where `chunk` ends.
  pub at_swallow :
      (k : ℕ) (w : Walk) (a : Chunk) (ys : List Chunk)
      → Links m (a ∷ ys) 0
      → a.0 ≢ chunk
      → first ys 0 ≢ chunk
      → wadd a.0 a.1 ≢ chunk
      → wadd chunk c_size ≡ a.0
      → w.merge1 ≡ false
      → compact_loop (suc k) chunk c_size a.0 w m
        ≡ and_then (swallow chunk a.0 w.previous m) (λ _. pure w)
  unfolding compact_loop
  at_swallow k w a ys (n, z, l) ne ne' ne2 e clean =
      rw
        (compact_round-swallow a.0 w (ne→== _ _ ne) (rw n (ne→== _ _ ne')) (rw z (ne→== _ _ ne2))
          (eq→== _ a.0 e) clean)
        (swallowed (swallow chunk a.0 w.previous m) w _)

  compact_round-merge1 :
      (c : ℕ) (w : Walk)
      → (c == chunk) ≡ false
      → (word m c == chunk) ≡ false
      → (wadd c (word m (c + 8)) == chunk) ≡ true
      → w.merge1 ≡ false
      → compact_round chunk c_size c w m
        ≡ done (false, record w { previous = c; merge1 = true; merge1_chunk = c }) m
  unfolding compact_round
  compact_round-merge1 c w e1 e2 e3 clean = ground arith

  -- The round at a chunk that ends where `chunk` begins.
  pub at_merge1 :
      (k : ℕ) (w : Walk) (b : Chunk) (ys : List Chunk)
      → Links m (b ∷ ys) 0
      → b.0 ≢ chunk
      → first ys 0 ≢ chunk
      → wadd b.0 b.1 ≡ chunk
      → w.merge1 ≡ false
      → compact_loop (suc k) chunk c_size b.0 w m
        ≡ (let w' : Walk = record w { previous = b.0; merge1 = true; merge1_chunk = b.0 } in
              if first ys 0 == 0 then pure w' else compact_loop k chunk c_size (first ys 0) w')
            m
  unfolding compact_loop
  at_merge1 k w b ys (n, z, l) ne ne' e clean = rw (
    compact_round-merge1 b.0 w (ne→== _ _ ne) (rw n (ne→== _ _ ne')) (rw z (eq→== _ chunk e)) clean,
    n,
  )
