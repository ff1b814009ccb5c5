-- ===== src/Valloc/Fit.antt =====
-- `lmc_valloc` against its specification on the list of free chunks: first fit, taken from the
-- chunk's end.
use localmemcache.Base.{
  ℕ, zero, suc, ◌+◌, ◌-◌, ◌^◌, ◌≤◌, ◌<◌, ◌≡◌, refl, ◌∙◌, inl, inr, arith, List, [], ◌∷◌, length,
  All, ltb, if◌then◌else◌, ◌==◌, Option, none, some, Bool-cases, true, false, ge→ltb, ne→==, ltb→ge,
}
use localmemcache.Memory.{Mem, word, set_word}
use localmemcache.Memory.Laws.{Same, load-Same, load-store_same, load-store_other, store_other}
use localmemcache.Word.{wadd, wsub}
use localmemcache.Cmd.{Cmd, done, pure, and_then}
use localmemcache.Cmd.Ends
use localmemcache.Cmd.Ends.{Ends, ends}
use localmemcache.Valloc.{first_fit, take_chunk}
use localmemcache.Valloc.Chain.{
  Chunk, first, Links, Inside, Apart, Separated, Clear, Off, Clear-Off, Clear-mono, Apart-Clear,
  Links-write, Untouched, first-le,
}

-- a block's start and size, and the free chunks that are left
abbrev pub Taken : Type 0
Taken = ℕ × ℕ × List Chunk

abbrev pub keep : Chunk → Option Taken → Option Taken
keep c none = none
keep c (some (r, z, cs)) = some (r, z, c ∷ cs)

-- The specification: the first chunk of at least `s` bytes gives its last `s` bytes, or all of
-- them if fewer than 16 would be left.
unfoldable pub take : ℕ → List Chunk → Option Taken
take s [] = none
take s (c ∷ cs) =
    if ltb c.1 s
    then keep c (take s cs)
    else if ltb (c.1 - s) 16
    then some (c.0, c.1, cs)
    else some (c.0 + (c.1 - s), s, (c.0, c.1 - s) ∷ cs)

-- search and cut, as `lmc_valloc` joins them
abbrev pub cut : ℕ → ℕ × ℕ → Cmd ℕ
cut s r = if r.1 == 0 then pure 0 else take_chunk s r.0 r.1

-- What the code does for `take`'s answer, with `p` the node before the list: `r` is the result
-- and `m'` the memory.
pub data Took (m : Mem) (p pz : ℕ) (cs : List Chunk) : Option Taken → ℕ → Mem → Type 0 where
  full : Took m p pz cs none 0 m
  block :
      {r z : ℕ} {left : List Chunk} {m' : Mem}
      → Links m' ((p, pz) ∷ left) 0
      → word m' r ≡ z
      → Untouched m m' p (p + 8) cs
      → Took m p pz cs (some (r, z, left)) (r + 8) m'

module _ (m : Mem) (s p c z : ℕ) (hz : word m (c + 8) ≡ z) where
  take_chunk-whole :
      ltb (wsub z s) 16 ≡ true
      → take_chunk s p c m ≡ done (wadd c 8) (set_word (set_word m p (word m c)) c z)
  unfolding take_chunk
  take_chunk-whole small = ground arith

  take_chunk-part :
      ltb (wsub z s) 16 ≡ false
      → wsub z s < 2 ^ 64
      → (z == s) ≡ false
      → take_chunk s p c m
        ≡ done
            (wadd (wadd c (wsub z s)) 8)
            (set_word (set_word m (c + 8) (wsub z s)) (wadd c (wsub z s)) s)
  unfolding take_chunk
  take_chunk-part large fits ne =
      rw (hz, large, ne, load-store_same 8 m (c + 8) (wsub z s) fits) refl

module _ (hi : ℕ) (small : hi < 2 ^ 63) (s : ℕ) (enough : 16 ≤ s) where
  module _ (m : Mem) (p pz c z : ℕ) (cs : List Chunk) (links : Links m ((p, pz) ∷ (c, z) ∷ cs) 0)
      (alone : Clear p (p + 16) ((c, z) ∷ cs)) (inside : All (Inside hi) ((c, z) ∷ cs))
      (apart : All (Apart (c, z)) cs) where
    rest-Clear : Clear c (c + z) cs
    rest-Clear = Apart-Clear c z cs apart

    rest-Off : (a b : ℕ) → c ≤ a → b ≤ c + z → Off a b cs
    rest-Off a b l r = Clear-Off hi a b cs inside.1 (Clear-mono c (c + z) a b cs l r rest-Clear)

    link-Off : Off p (p + 8) cs
    link-Off =
        Clear-Off hi p (p + 8) cs inside.1
          (Clear-mono p (p + 16) p (p + 8) cs (omega arith) (omega arith) alone.1)

    Took-whole :
        Took m p pz ((c, z) ∷ cs) (some (c, z, cs)) (c + 8) (set_word (set_word m p (word m c)) c z)
    Took-whole =
        let m1 = set_word m p (word m c) in
        block
          (
            load-store_other 8 8 m1 c z p (ground arith)
                ∙ (load-store_same 8 m p (word m c)
                      (omega (arith, links.2.0, first-le hi cs inside.1))
                    ∙ links.2.0),
            load-store_other 8 8 m1 c z (p + 8) (ground arith)
                ∙ (load-store_other 8 8 m p (word m c) (p + 8) (ground arith) ∙ links.1),
            Links-write m1 c z cs 0 (rest-Off c (c + 8) (ground arith) (ground arith))
                (Links-write m p (word m c) cs 0 link-Off links.2.2),
          )
          (load-store_same 8 m1 c z (ground arith))
          (λ x out clear.
            store_other 8 m1 c z x (ground arith) ∙ store_other 8 m p (word m c) x out)

    Took-part :
        16 ≤ z - s
        → s ≤ z
        → Took m p pz
            ((c, z) ∷ cs)
            (some (c + (z - s), s, (c, z - s) ∷ cs))
            (c + (z - s) + 8)
            (set_word (set_word m (c + 8) (z - s)) (c + (z - s)) s)
    Took-part room fits =
        let m1 = set_word m (c + 8) (z - s) in
        let r = c + (z - s) in
        block
          (
            load-store_other 8 8 m1 r s p (ground arith)
                ∙ (load-store_other 8 8 m (c + 8) (z - s) p (ground arith) ∙ links.0),
            load-store_other 8 8 m1 r s (p + 8) (ground arith)
                ∙ (load-store_other 8 8 m (c + 8) (z - s) (p + 8) (ground arith) ∙ links.1),
            (
              load-store_other 8 8 m1 r s c (inl (omega arith))
                  ∙ (load-store_other 8 8 m (c + 8) (z - s) c (inl (omega arith)) ∙ links.2.0),
              load-store_other 8 8 m1 r s (c + 8) (inl (omega arith))
                  ∙ load-store_same 8 m (c + 8) (z - s) (omega arith),
              Links-write m1 r s cs 0 (rest-Off r (r + 8) (omega arith) (omega arith)) (
                  Links-write m (c + 8) (z - s) cs 0
                    (rest-Off (c + 8) (c + 8 + 8) (omega arith) (omega arith)) links.2.2),
            ),
          )
          (load-store_same 8 m1 r s (omega arith))
          (λ x out clear.
            store_other 8 m1 r s x (ground arith)
            ∙ store_other 8 m (c + 8) (z - s) x (ground arith))

    take_chunk-Took :
        s ≤ z → Ends (Took m p pz ((c, z) ∷ cs) (take s ((c, z) ∷ cs))) (take_chunk s p c m)
    unfolding take
    take_chunk-Took fits =
        let hz = links.2.1 in
        let e : wsub z s ≡ z - s = omega arith in
        let e' : wadd c 8 ≡ c + 8 = omega arith in
        rw (ge→ltb z s fits) (elim (Bool-cases (ltb (z - s) 16)) [
          | inl whole ↦ rw (whole, take_chunk-whole m s p c z hz (rw e whole), e') (ends Took-whole)
          | inr part ↦
              let room : 16 ≤ z - s = ltb→ge (z - s) 16 part in
              let e2 : wadd (c + (z - s)) 8 ≡ c + (z - s) + 8 = omega arith in
              let e1 : wadd c (z - s) ≡ c + (z - s) = omega arith in
              rw
                (
                  part,
                  take_chunk-part m s p c z hz (rw e part) (omega arith) (ne→== z s (omega arith)),
                  e,
                  e1,
                  e2,
                )
                (ends (Took-part room fits))
        ])

  -- The node before the list keeps its fields while a later chunk is cut.
  Took-keep :
      (m : Mem) (p pz c z : ℕ) (cs : List Chunk) (t : Option Taken) {r : ℕ} {m' : Mem}
      → Links m ((p, pz) ∷ (c, z) ∷ cs) 0
      → Clear p (p + 16) ((c, z) ∷ cs)
      → 16 ≤ z
      → Took m c z cs t r m'
      → Took m p pz ((c, z) ∷ cs) (keep (c, z) t) r m'
  Took-keep m p pz c z cs t links alone room full = full
  Took-keep m p pz c z cs t links alone room (block {m'} l e same) =
      block
        (
          load-Same 8 m m' p (spared p (p + 8) (omega arith) (omega arith)) ∙ links.0,
          load-Same 8 m m' (p + 8) (spared (p + 8) (p + 8 + 8) (omega arith) (omega arith))
              ∙ links.1,
          l,
        )
        e (λ x out clear. same x (ground arith) clear.1)
    where
      spared : (a b : ℕ) → p ≤ a → b ≤ p + 16 → Same m m' a b
      spared a b le le' x lo up =
          same x (ground arith)
            (Clear-mono p (p + 16) x (suc x) cs (omega arith) (omega arith) alone.1)

  -- One round of the search, whose chunk is too small.
  first_fit-next :
      (k : ℕ) (m : Mem) (c z : ℕ) (cs : List Chunk)
      → Links m ((c, z) ∷ cs) 0
      → All (Inside hi) cs
      → Ends (Took m c z cs (take s cs)) (and_then (first_fit k s c (first cs 0) m) (cut s))
      → Ends (Took m c z cs (take s cs)) (
          and_then
            (if◌then◌else◌ {A = Cmd (ℕ × ℕ)}
              (word m c == 0)
              (pure (c, 0))
              (first_fit k s c (word m c))
              m)
            (cut s))
  unfolding take
  first_fit-next k m c z [] links inside rest = rw (links.0) (ends full)
  first_fit-next k m c z ((d, w) ∷ ds) links inside rest =
      rw (links.0, ne→== d 0 (omega arith)) rest

  pub first_fit-Took :
      (k : ℕ) (m : Mem) (p pz : ℕ) (cs : List Chunk)
      → Links m ((p, pz) ∷ cs) 0
      → Clear p (p + 16) cs
      → All (Inside hi) cs
      → Separated cs
      → length cs < k
      → Ends (Took m p pz cs (take s cs)) (and_then (first_fit k s p (first cs 0) m) (cut s))
  unfolding first_fit take
  first_fit-Took zero m p pz cs links alone inside apart fuel = absurd (omega arith)
  first_fit-Took (suc k) m p pz [] links alone inside apart fuel = ends full
  first_fit-Took (suc k) m p pz ((c, z) ∷ cs) links alone inside (apart, aparts) fuel =
      rw (ne→== c 0 (omega arith), links.2.1)
        (elim (Bool-cases (ltb z s)) [
          | inr fits ↦
              rw (fits, ne→== c 0 (omega arith))
                (rw fits at
                  (take_chunk-Took m p pz c z cs links alone inside apart (ltb→ge z s fits)))
          | inl less ↦ rw less (
              Ends.weaken
                (first_fit-next k m c z cs links.2 inside.1 (
                  first_fit-Took k m c z cs links.2
                    (Clear-mono c (c + z) c (c + 16) cs (omega arith) (omega arith)
                      (Apart-Clear c z cs apart))
                    inside.1 aparts (omega arith)))
                λ r m' took. Took-keep m p pz c z cs _ links alone (omega arith) took)
        ])
