-- ===== src/Valloc/Free/Join.antt =====
-- The two writes of `lmc_compact_free_chunks` that take a chunk out of the list.
use localmemcache.Base.{
  ℕ, suc, ◌+◌, ◌≤◌, ◌<◌, ◌^◌, ◌≡◌, ◌≢◌, refl, sym, ◌∙◌, ◌⊎◌, inl, arith, List, [], ◌∷◌, ◌++◌, All,
  All-left, All-right, ◌==◌, if◌then◌else◌, ne→==, eq→==, subst,
}
use localmemcache.Memory.{Mem, set_word}
use localmemcache.Memory.Laws.{load-store_other, store_other}
use localmemcache.Word.{wadd}
use localmemcache.Cmd.{done}
use localmemcache.Valloc.Chain.{
  Chunk, first, Links, Off, last_of, Links-write, Links-left, Links-right, Links-append, Off-mono,
  first-append,
}
use localmemcache.Valloc.Relink.{
  Spread, Spread-left, Spread-right, Off-last, Spread-last, Spread-before, Spread-pick, relink,
  resize,
}
use localmemcache.Valloc.Free.{Walk, swallow, merge_into}
use localmemcache.Valloc.Free.Sweep.{Real}

last-Real : (d : ℕ) (mid : List Chunk) → d ≢ 0 → All Real mid → last_of d mid ≢ 0
last-Real d [] h hs = h
last-Real d (c ∷ mid) h (k, ks) = last-Real c.0 mid k ks

-- the code's choice of the chunk before `a`
chosen :
    (d p : ℕ) (a : Chunk) (mid post : List Chunk)
    → All (λ c. c.0 ≢ a.0) mid
    → p ≡ last_of p mid
    → (if first (mid ++ a ∷ post) 0 == a.0 then d else p) ≡ last_of d mid
chosen d p a [] post others same = rw (eq→== a.0 a.0 refl)
chosen d p a (c ∷ mid) post (ne, others) same = rw (ne→== _ _ ne) same

-- the memory once `a` is added to `d` and unlinked
abbrev pub swallowed : Mem → Chunk → List Chunk → Chunk → List Chunk → Mem
swallowed m d mid a post =
    set_word (set_word m (d.0 + 8) (d.1 + a.1)) (last_of d.0 mid) (first post 0)

module _ (m : Mem) (d : Chunk) (mid : List Chunk) (a : Chunk) (post : List Chunk)
    (links : Links m (d ∷ mid ++ a ∷ post) 0) (spread : Spread (d ∷ mid ++ a ∷ post)) where
  pub swallow-run :
      (p : ℕ)
      → Real d
      → All Real mid
      → All (λ c. c.0 ≢ a.0) mid
      → p ≡ last_of p mid
      → d.1 + a.1 < 2 ^ 64
      → swallow d.0 a.0 p m ≡ done tt (swallowed m d mid a post)
  unfolding swallow
  swallow-run p real reals others same fits =
      let tail = Links-right m (d ∷ mid) (a ∷ post) 0 links in
      let apart = (All-right _ mid (a ∷ post) spread.0).0 in
      let m1 = set_word m (d.0 + 8) (d.1 + a.1) in
      let sum : wadd d.1 a.1 ≡ d.1 + a.1 = omega arith in
      rw
        (
          links.1,
          tail.1,
          sum,
          load-store_other 8 8 m (d.0 + 8) (d.1 + a.1) d.0 (inl (omega arith)) ∙ links.0,
          load-store_other 8 8 m (d.0 + 8) (d.1 + a.1) a.0 (ground arith) ∙ tail.0,
          chosen d.0 p a mid post others same,
          ne→== _ 0 (last-Real d.0 mid real reals),
        )
        refl

  pub swallowed-Links :
      d.1 + a.1 < 2 ^ 64
      → first post 0 < 2 ^ 64
      → Links (swallowed m d mid a post) ((d.0, d.1 + a.1) ∷ mid ++ post) 0
  swallowed-Links fits fits' =
      let m1 = set_word m (d.0 + 8) (d.1 + a.1) in
      let whole = resize m d (mid ++ a ∷ post) 0 (d.1 + a.1) links spread.0 fits in
      let tail = Spread-right (d ∷ mid) (a ∷ post) spread in
      Links-append (swallowed m d mid a post) ((d.0, d.1 + a.1) ∷ mid) post 0
        (relink m1 (d.0, d.1 + a.1) mid a.0 (first post 0)
          (Links-left m1 ((d.0, d.1 + a.1) ∷ mid) (a ∷ post) 0 whole)
          (Spread-left (d ∷ mid) (a ∷ post) spread) fits')
        (Links-write m1 (last_of d.0 mid) (first post 0) post 0
          (Off-mono (last_of d.0 mid) (last_of d.0 mid + 16) (last_of d.0 mid) (last_of d.0 mid + 8)
            post (omega arith) (omega arith) (Spread-last d mid (a ∷ post) spread).1)
          (Links-right m1 ((d.0, d.1 + a.1) ∷ mid) (a ∷ post) 0 whole).2)

  -- Only descriptors of `d` and `mid` are written.
  pub swallowed_other : (x : ℕ) → Off x (suc x) (d ∷ mid) → swallowed m d mid a post x ≡ m x
  swallowed_other x off =
      let m1 = set_word m (d.0 + 8) (d.1 + a.1) in
      store_other 8 m1 (last_of d.0 mid) (first post 0) x
        (ground (arith, Off-last x (suc x) d mid off))
      ∙ store_other 8 m (d.0 + 8) (d.1 + a.1) x (ground arith)

-- the memory once `d` is unlinked, behind `pre`, and added to `b`
abbrev pub merged : Mem → (pre : List Chunk) → Chunk → (mid : List Chunk) → Chunk → List Chunk → Mem
merged m pre d mid b post =
    set_word (set_word m (last_of 0 pre) (first (mid ++ b ∷ post) 0)) (b.0 + 8) (b.1 + d.1)

-- The link before `d` and the fields of `b` lie apart.
link-apart :
    (pre : List Chunk) (d : Chunk) (mid : List Chunk) (b : Chunk) (post : List Chunk)
    → Spread (((0, 0) ∷ pre) ++ (d ∷ mid ++ b ∷ post))
    → (last_of 0 pre + 16 ≤ b.0) ⊎ (b.0 + 16 ≤ last_of 0 pre)
link-apart pre d mid b post spread =
    (All-right _ (d ∷ mid) (b ∷ post) (Spread-last (0, 0) pre (d ∷ mid ++ b ∷ post) spread)).0

module _ (m : Mem) (d : Chunk) (mid : List Chunk) (b : Chunk) (post : List Chunk) where
  pub merge_into-run :
      (pre : List Chunk) (w : Walk)
      → Links m (((0, 0) ∷ pre) ++ (d ∷ mid ++ b ∷ post)) 0
      → Spread (((0, 0) ∷ pre) ++ (d ∷ mid ++ b ∷ post))
      → w.chunk_p ≡ last_of 0 pre
      → w.merge1_chunk ≡ b.0
      → Real d
      → All Real pre
      → All (λ c. c.0 ≢ d.0) pre
      → b.1 + d.1 < 2 ^ 64
      → merge_into d.0 d.1 w m ≡ done tt (merged m pre d mid b post)
  unfolding merge_into
  merge_into-run [] w links spread e1 e2 real reals others fits =
      let tail = Links-right m (d ∷ mid) (b ∷ post) 0 links.2 in
      let far = link-apart [] d mid b post spread in
      let v = first (mid ++ b ∷ post) 0 in
      let sum : wadd b.1 d.1 ≡ b.1 + d.1 = omega arith in
      rw
        (
          e1,
          e2,
          links.0,
          eq→== d.0 d.0 refl,
          links.2.0,
          load-store_other 8 8 m 0 v (b.0 + 8) (ground arith) ∙ tail.1,
          sum,
        )
        refl
  merge_into-run (p ∷ ps) w links spread e1 e2 real (r, reals) (ne, others) fits =
      let rest = Links-right m ((0, 0) ∷ p ∷ ps) (d ∷ mid ++ b ∷ post) 0 links in
      let tail = Links-right m (d ∷ mid) (b ∷ post) 0 rest in
      let far = link-apart (p ∷ ps) d mid b post spread in
      let l = last_of p.0 ps in
      let v = first (mid ++ b ∷ post) 0 in
      let sum : wadd b.1 d.1 ≡ b.1 + d.1 = omega arith in
      let low = Off-last 0 16 p ps (All-left _ (p ∷ ps) (d ∷ mid ++ b ∷ post) spread.0) in
      rw
        (
          e1,
          e2,
          ne→== _ 0 (last-Real p.0 ps r reals),
          rest.0,
          load-store_other 8 8 m l v 0 (ground (arith, last-Real p.0 ps r reals)) ∙ links.0,
          ne→== _ _ ne,
          load-store_other 8 8 m l v (b.0 + 8) (ground arith) ∙ tail.1,
          sum,
        )
        refl

module _ (m : Mem) (pre : List Chunk) (d : Chunk) (mid : List Chunk) (b : Chunk) (post : List Chunk)
    (links : Links m (((0, 0) ∷ pre) ++ (d ∷ mid ++ b ∷ post)) 0)
    (spread : Spread (((0, 0) ∷ pre) ++ (d ∷ mid ++ b ∷ post))) where
  pub merged-Links :
      b.1 + d.1 < 2 ^ 64
      → first (mid ++ b ∷ post) 0 < 2 ^ 64
      → Links (merged m pre d mid b post) (((0, 0) ∷ pre) ++ (mid ++ (b.0, b.1 + d.1) ∷ post)) 0
  merged-Links fits fits' =
      let l = last_of 0 pre in
      let v = first (mid ++ b ∷ post) 0 in
      let m1 = set_word m l v in
      let z = b.1 + d.1 in
      let off =
        Off-mono l (l + 16) l (l + 8) (mid ++ b ∷ post) (omega arith) (omega arith)
          (Spread-last (0, 0) pre (d ∷ mid ++ b ∷ post) spread).1 in
      let rest =
        Links-write m l v (mid ++ b ∷ post) 0 off
          (Links-right m ((0, 0) ∷ pre) (d ∷ mid ++ b ∷ post) 0 links).2 in
      let within = (λ (cs : List Chunk) (o : Off b.0 (b.0 + 16) cs).
        Off-mono b.0 (b.0 + 16) (b.0 + 8) (b.0 + 8 + 8) cs (omega arith) (omega arith) o) in
      let inner = Spread-right ((0, 0) ∷ pre) (d ∷ mid ++ b ∷ post) spread in
      let m2 = merged m pre d mid b post in
      Links-append m2 ((0, 0) ∷ pre) (mid ++ (b.0, z) ∷ post) 0
        (subst (Links m2 ((0, 0) ∷ pre))
          (first-append mid (b ∷ post) 0 ∙ sym (first-append mid ((b.0, z) ∷ post) 0))
          (Links-write m1 (b.0 + 8) z ((0, 0) ∷ pre) v
            (within ((0, 0) ∷ pre) (Spread-pick ((0, 0) ∷ pre) (d ∷ mid) b post spread))
            (relink m (0, 0) pre d.0 v (Links-left m ((0, 0) ∷ pre) (d ∷ mid ++ b ∷ post) 0 links)
              (Spread-left ((0, 0) ∷ pre) (d ∷ mid ++ b ∷ post) spread) fits')))
        (Links-append m2 mid ((b.0, z) ∷ post) 0
          (Links-write m1 (b.0 + 8) z mid b.0 (within mid (Spread-pick mid [] b post inner.1))
            (Links-left m1 mid (b ∷ post) 0 rest))
          (resize m1 b post 0 z (Links-right m1 mid (b ∷ post) 0 rest)
            (Spread-right mid (b ∷ post) inner.1).0 fits))

  -- Only the link before `d` and the descriptor of `b` are written.
  pub merged_other :
      (x : ℕ)
      → (x < last_of 0 pre) ⊎ (last_of 0 pre + 8 ≤ x)
      → (x < b.0) ⊎ (b.0 + 16 ≤ x)
      → merged m pre d mid b post x ≡ m x
  merged_other x off off' =
      let v = first (mid ++ b ∷ post) 0 in
      store_other 8 (set_word m (last_of 0 pre) v) (b.0 + 8) (b.1 + d.1) x (ground arith)
      ∙ store_other 8 m (last_of 0 pre) v x off

  pub swallowed-Links_all :
      d.1 + b.1 < 2 ^ 64
      → first post 0 < 2 ^ 64
      → Links (swallowed m d mid b post) (((0, 0) ∷ pre) ++ ((d.0, d.1 + b.1) ∷ mid ++ post)) 0
  swallowed-Links_all fits fits' =
      let l = last_of d.0 mid in
      let m1 = set_word m (d.0 + 8) (d.1 + b.1) in
      let inner = Links-right m ((0, 0) ∷ pre) (d ∷ mid ++ b ∷ post) 0 links in
      Links-append (swallowed m d mid b post) ((0, 0) ∷ pre) ((d.0, d.1 + b.1) ∷ mid ++ post) 0
        (Links-write m1 l (first post 0) ((0, 0) ∷ pre) d.0
          (Off-mono l (l + 16) l (l + 8) ((0, 0) ∷ pre) (omega arith) (omega arith)
            (Spread-before ((0, 0) ∷ pre) d mid (b ∷ post) spread))
          (Links-write m (d.0 + 8) (d.1 + b.1) ((0, 0) ∷ pre) d.0
            (Off-mono d.0 (d.0 + 16) (d.0 + 8) (d.0 + 8 + 8) ((0, 0) ∷ pre) (omega arith)
              (omega arith) (Spread-pick ((0, 0) ∷ pre) [] d (mid ++ b ∷ post) spread))
            (Links-left m ((0, 0) ∷ pre) (d ∷ mid ++ b ∷ post) 0 links)))
        (swallowed-Links m d mid b post inner
          (Spread-right ((0, 0) ∷ pre) (d ∷ mid ++ b ∷ post) spread) fits fits')
