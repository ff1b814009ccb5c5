-- ===== src/Valloc/Alloc.antt =====
-- `lmc_valloc` as a whole: on every list of free chunks it ends, with a block or with 0.
use localmemcache.Base.{
  ℕ, suc, ◌+◌, ◌^◌, ◌≤◌, ◌<◌, ◌≡◌, ◌≢◌, refl, ◌∙◌, ◌⊎◌, arith, List, All, ltb, if◌then◌else◌,
  Option, ne→==, ap, subst,
}
use localmemcache.Memory.{Mem, word}
use localmemcache.Memory.Laws.{load-Same}
use localmemcache.Word.{wadd, lmc_max}
use localmemcache.Word.Round.{round-ge}
use localmemcache.Cmd.{done, and_then}
use localmemcache.Cmd.Ends
use localmemcache.Cmd.Ends.{Ends, ends}
use localmemcache.Valloc.{
  first_fit, lmc_min_alloc_size, lmc_valloc, request, version, min_alloc_size,
}
use localmemcache.Valloc.Chain.{Chunk, first, Clear, FreeList, Inside-Clear, Clear-mono, Untouched}
use localmemcache.Valloc.Fit.{Taken, take, Took, full, block, first_fit-Took, cut}
use localmemcache.Valloc.Room.{length-le-hi}
use localmemcache.Valloc.Take.{Each, Cut, take-Cut, take-none, take-Clear}

-- what `lmc_min_alloc_size` returns
abbrev pub least_size : Mem → ℕ
least_size m = if ltb 1 (word m version) then word m min_alloc_size else 0

min_alloc_size-least : (m : Mem) → lmc_min_alloc_size m ≡ done (least_size m) m
unfolding lmc_min_alloc_size
min_alloc_size-least m = ground arith

-- A request is long enough for the block's own size and for a free chunk's descriptor.
pub request-ge :
    (least sz : ℕ) → sz ≤ 2 ^ 62 → (sz + 8 ≤ request least sz) × (24 ≤ request least sz)
unfolding lmc_max
request-ge least sz h =
    let v = lmc_max (wadd sz 8) 24 in
    ground (
      arith,
      round-ge 63 (wadd sz 8) (omega arith) (omega arith) (omega arith),
      round-ge 63 24 (omega arith) (omega arith) (omega arith),
    )

-- What `lmc_valloc sz` does with free chunks `cs`: it hands out a block that is a part of one of
-- them, or finds each of them too short and changes nothing. What was clear of the free chunks is
-- clear of the block and of those that are left.
pub data Allocated (m : Mem) (hi : ℕ) (cs : List Chunk) (sz : ℕ) : ℕ → Mem → Type 0 where
  pool_full : All (λ c. c.1 < request (least_size m) sz) cs → Allocated m hi cs sz 0 m
  block_at :
      {m' : Mem} (r z : ℕ) (left : List Chunk)
      → FreeList m' hi left
      → word m' r ≡ z
      → sz + 8 ≤ z
      → Cut (request (least_size m) sz) hi cs (r, z, left)
      → ((a b : ℕ) → Clear a b cs → ((b ≤ r) ⊎ (r + z ≤ a)) × Clear a b left)
      → Untouched m m' 0 8 cs
      → Allocated m hi cs sz (r + 8) m'

module _ (m : Mem) (hi : ℕ) (cs : List Chunk) (free : FreeList m hi cs) (sz : ℕ)
    (some_size : sz ≢ 0) (sane : sz ≤ 2 ^ 62) where
  lmc_valloc-search :
      lmc_valloc sz m
      ≡ and_then
          (first_fit (suc (suc (word m 16))) (request (least_size m) sz) 0 (first cs 0) m)
          (cut (request (least_size m) sz))
  unfolding lmc_valloc
  lmc_valloc-search = rw (min_alloc_size-least m, free.head, ne→== sz 0 some_size)

  Took-Allocated :
      (t : Option Taken) {r : ℕ} {m' : Mem}
      → take (request (least_size m) sz) cs ≡ t
      → Each (Cut (request (least_size m) sz) hi cs) t
      → Took m 0 0 cs t r m'
      → Allocated m hi cs sz r m'
  Took-Allocated t e k full = pool_full (take-none (request (least_size m) sz) cs e)
  Took-Allocated t e k (block {r} {z} {left} {m'} links header same) =
      block_at r z left
        (record {
          head = links.0;
          dummy = links.1;
          links = links.2;
          inside = k.inside;
          separated = k.separated;
          extent =
              ap (λ t. t + 88)
                (load-Same 8 m m' 16 (λ x lo up. same x (ground arith) (
                  Clear-mono 0 88 x (suc x) cs (omega arith) (omega arith)
                    (Inside-Clear hi cs free.inside))))
              ∙ free.extent;
          small = free.small;
        })
        header (omega (arith, k.enough, (request-ge (least_size m) sz sane).0)) k
        (λ a b c.
          subst (Each λ u. ((b ≤ u.0) ⊎ (u.0 + u.1 ≤ a)) × Clear a b u.2) e
            (take-Clear (request (least_size m) sz) a b cs c))
        same

  -- For a size other than 0 and up to 2 ^ 62, `lmc_valloc` on a list of free chunks ends:
  -- either every free chunk is shorter than the rounded request, and it returns 0 and changes
  -- nothing, or it returns a block of at least the size and 8 bytes that is cut from a free
  -- chunk, the rest being a list of free chunks again, and what was clear of the free chunks
  -- is clear of the block and of those left.
  pub lmc_valloc-Allocated : Ends (Allocated m hi cs sz) (lmc_valloc sz m)
  lmc_valloc-Allocated = rw lmc_valloc-search (
      Ends.weaken
        (first_fit-Took hi free.small (request (least_size m) sz)
          (omega (arith, (request-ge (least_size m) sz sane).1)) (suc (suc (word m 16))) m 0 0 cs
          (free.head, free.dummy, free.links)
          (Clear-mono 0 88 0 16 cs (omega arith) (omega arith) (Inside-Clear hi cs free.inside))
          free.inside free.separated
          (omega (
            arith,
            free.extent,
            length-le-hi hi cs (omega (arith, free.extent)) free.inside free.separated,
          )))
        λ r m' took.
          Took-Allocated (take (request (least_size m) sz) cs) refl
            (take-Cut (request (least_size m) sz) hi cs
              (omega (arith, (request-ge (least_size m) sz sane).1)) free.inside free.separated)
            took)
