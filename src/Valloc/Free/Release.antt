-- ===== src/Valloc/Free/Release.antt =====
-- What `__lmc_free` promises, and the case in which the block touches no free chunk.
use localmemcache.Base.{
  ℕ, suc, ◌+◌, ◌-◌, ◌≤◌, ◌<◌, ◌^◌, ◌≡◌, refl, ◌∙◌, ap, ◌⊎◌, inl, inr, arith, List, ◌∷◌, All,
  All-mono, length,
}
use localmemcache.Memory.{Mem, word, set_word}
use localmemcache.Memory.Laws.{load-Same, load-store_same, load-store_other, store_other}
use localmemcache.Cmd.{done}
use localmemcache.Cmd.Ends.{Ends}
use localmemcache.Valloc.Chain.{
  Chunk, first, Links, Inside, Apart, Separated, Clear, total, FreeList, Links-write, Clear-Off,
  Clear-mono, Inside-Clear, first-le, Off-mono,
}
use localmemcache.Valloc.Room.{length-le-hi}
use localmemcache.Valloc.Free.{freed, __lmc_free}
use localmemcache.Valloc.Free.Sweep.{Real}
use localmemcache.Valloc.Free.Skim.{Below, skim-All}

-- A block in use: inside the memory, and clear of the free chunks.
pub record Block (hi u z : ℕ) (cs : List Chunk) : Type 0 where
  pub low : 88 ≤ u
  pub room : 16 ≤ z
  pub high : u + z ≤ hi
  pub clear : Clear u (u + z) cs

-- The block's bytes have become free, and no others: a list of separate chunks again, as long as
-- before together with the block, and clear of all that was clear of both. Nothing else is
-- written from byte 16 on.
pub data Freed (m : Mem) (hi u z : ℕ) (cs : List Chunk) (m' : Mem) : Type 0 where
  freed_as :
      (left : List Chunk)
      → FreeList m' hi left
      → total left ≡ total cs + z
      → ((a b : ℕ) → a < b → (b ≤ u) ⊎ (u + z ≤ a) → Clear a b cs → Clear a b left)
      → ((x : ℕ) → 16 ≤ x → (x < u) ⊎ (u + z ≤ x) → Clear x (suc x) cs → m' x ≡ m x)
      → Freed m hi u z cs m'

abbrev pub Releases : Mem → (hi u z : ℕ) → List Chunk → Type 0
Releases m hi u z cs = Ends (λ o m'. (o ≡ freed) × Freed m hi u z cs m') (__lmc_free u z m)

pub Inside-Below : (hi : ℕ) (cs : List Chunk) → hi < 2 ^ 63 → All (Inside hi) cs → All Below cs
Inside-Below hi cs small i = All-mono (Inside hi) Below cs (λ c h. omega arith) i

pub Inside-Real : (hi : ℕ) (cs : List Chunk) → All (Inside hi) cs → All Real cs
Inside-Real hi cs i = All-mono (Inside hi) Real cs (λ c h. omega arith) i

module _ (m : Mem) (hi u z : ℕ) (cs : List Chunk) (free : FreeList m hi cs)
    (block : Block hi u z cs) where
  -- From the links of the new memory and facts about lists.
  pub Freed-intro :
      (m' : Mem) (left : List Chunk)
      → Links m' ((0, 0) ∷ left) 0
      → All (Inside hi) left
      → Separated left
      → total left ≡ total cs + z
      → ((a b : ℕ) → a < b → (b ≤ u) ⊎ (u + z ≤ a) → Clear a b cs → Clear a b left)
      → ((x : ℕ) → 16 ≤ x → (x < u) ⊎ (u + z ≤ x) → Clear x (suc x) cs → m' x ≡ m x)
      → Freed m hi u z cs m'
  Freed-intro m' left links inside separated adds covers same =
      freed_as left
        (record {
          head = links.0;
          dummy = links.1;
          links = links.2;
          inside = inside;
          separated = separated;
          extent =
              ap (λ t. t + 88)
                (load-Same 8 m m' 16 λ x lo up. same x lo (inl (omega (arith, block.low))) (
                  Clear-mono 0 88 x (suc x) cs (omega arith) (omega arith)
                    (Inside-Clear hi cs free.inside)))
              ∙ free.extent;
          small = free.small;
        })
        adds covers same

  pub alone : Mem
  alone = set_word (set_word (set_word m u (first cs 0)) (u + 8) z) 0 u

  pub alone-run : All (Apart (u, z)) cs → __lmc_free u z m ≡ done freed alone
  unfolding __lmc_free alone
  alone-run apart =
      let k = word m 16 - length cs in
      let fuel : suc (suc (word m 16)) ≡ suc (length cs) + suc k = omega (
        arith,
        free.extent,
        length-le-hi hi cs (omega (arith, free.extent)) free.inside free.separated,
      ) in
      rw
        (
          fuel,
          skim-All m u z (omega (arith, block.room)) (omega (arith, block.high, free.small)) (suc k)
              0 (0, 0) cs (free.head, free.dummy, free.links) (omega arith)
              (Inside-Below hi cs free.small free.inside) (inr (omega (arith, block.low))) apart
              (Inside-Real hi cs free.inside),
          free.head,
        )
        refl

  pub alone-Freed : All (Apart (u, z)) cs → Freed m hi u z cs alone
  unfolding alone
  alone-Freed apart =
      let v = first cs 0 in
      let m1 = set_word m u v in
      let m2 = set_word m1 (u + 8) z in
      let off = Clear-Off hi u (u + z) cs free.inside block.clear in
      let within = (λ (a b : ℕ) (p : u ≤ a) (q : b ≤ u + z). Off-mono u (u + z) a b cs p q off) in
      Freed-intro alone ((u, z) ∷ cs)
        (
          load-store_same 8 m2 0 u (omega (arith, block.high, free.small)),
          load-store_other 8 8 m2 0 u 8 (inr (omega arith))
              ∙ (load-store_other 8 8 m1 (u + 8) z 8 (inl (omega (arith, block.low)))
                  ∙ (load-store_other 8 8 m u v 8 (inl (omega (arith, block.low))) ∙ free.dummy)),
          (
            load-store_other 8 8 m2 0 u u (inr (omega (arith, block.low)))
                ∙ (load-store_other 8 8 m1 (u + 8) z u (inl (omega arith))
                    ∙ load-store_same 8 m u v
                        (omega (arith, first-le hi cs free.inside, free.small))),
            load-store_other 8 8 m2 0 u (u + 8) (inr (omega (arith, block.low)))
                ∙ load-store_same 8 m1 (u + 8) z (omega (arith, block.high, free.small)),
            Links-write m2 0 u cs 0
                (Clear-Off hi 0 8 cs free.inside (
                  Clear-mono 0 88 0 8 cs (omega arith) (omega arith)
                    (Inside-Clear hi cs free.inside)))
                (Links-write m1 (u + 8) z cs 0
                  (within (u + 8) (u + 8 + 8) (omega arith) (omega (arith, block.room)))
                  (Links-write m u v cs 0
                    (within u (u + 8) (omega arith) (omega (arith, block.room))) free.links)),
          ),
        )
        ((block.low, block.room, block.high), free.inside) (apart, free.separated) (omega arith)
        (λ a b lt p c. (ground arith, c))
        (λ x lo out c.
          store_other 8 m2 0 u x (inr (omega arith))
          ∙ (store_other 8 m1 (u + 8) z x (ground (arith, block.room))
              ∙ store_other 8 m u v x (ground (arith, block.room))))
