-- ===== src/Hashtable/Strings.antt =====
-- `lmc_ht_strdup` on a heap: a copy of a string in a new block.
use localmemcache.Base.{
  ℕ, ◌+◌, ◌≤◌, ◌^◌, ◌≡◌, ◌∙◌, inl, arith, List, [], ◌∷◌, length, subst, ne→==, if◌then◌else◌, ◌==◌,
}
use localmemcache.Cmd.{done, pure, write, ◌>>=◌}
use localmemcache.Cmd.Ends
use localmemcache.Cmd.Ends.{Ends, ends}
use localmemcache.Memory.{Mem, word, set_word, copy, bytes}
use localmemcache.Memory.Laws.{load-Same, load-store_same, store_other}
use localmemcache.Memory.Copies.{copy_other, bytes-Same, length-bytes, bytes-copy}
use localmemcache.Hashtable.{Pointer, caller, pool, chars, lmc_ht_strdup}
use localmemcache.Valloc.Chain.{Chunk}
use localmemcache.Valloc.Heap.{Heap, Kept, Blocks, Grown, unchanged, new_block, lmc_valloc-Grown}
use localmemcache.Valloc.Region.{Holds, here, Holds-Same, Outside, Heap-write, Kept-fresh}
use localmemcache.Word.{wadd}

-- A string of `n` bytes behind its length, with the byte after it, in a block.
pub record Text (m : Mem) (us : List Chunk) (s n : ℕ) (t : List ℕ) : Type 0 where
  pub held : Holds s (n + 9) us
  pub len : word m s ≡ n
  pub characters : bytes (n + 1) m (s + 8) ≡ t

pub Text-Blocks :
    (m m' : Mem) (us : List Chunk) (s n : ℕ) (t : List ℕ)
    → Blocks m m' us
    → Text m us s n t
    → Text m' us s n t
Text-Blocks m m' us s n t kept text =
    let same = Holds-Same m m' s (n + 9) us kept text.held in
    record {
      held = text.held;
      len = load-Same 8 m m' s (λ x p q. same x p (omega arith)) ∙ text.len;
      characters =
          bytes-Same (n + 1) m m' (s + 8) (λ x p q. same x (omega arith) (omega arith))
          ∙ text.characters;
    }

-- what `lmc_ht_strdup` returns
pub data Copied (m : Mem) (hi : ℕ) (cs us : List Chunk) (s : Pointer) (l : ℕ)
    : ℕ → Mem → Type 0 where
  no_room : Copied m hi cs us s l 0 m
  copied :
      {m' : Mem} (r z : ℕ) (left : List Chunk)
      → Heap m' hi left ((r, z) ∷ us)
      → Kept m m' us
      → Text m' ((r, z) ∷ []) (r + 8) l (chars s (l + 1) m)
      → Copied m hi cs us s l (r + 8) m'

-- The string is in the caller's memory, or in a block.
abbrev pub Stable : Mem → List Chunk → Pointer → ℕ → Type 0
Stable m us s l = (m' : Mem) → Blocks m m' us → chars s (l + 1) m' ≡ chars s (l + 1) m

pub length-chars : (s : Pointer) (n : ℕ) (m : Mem) → length (chars s n m) ≡ n
length-chars (caller t) n m = length-bytes n t 0
length-chars (pool a) n m = length-bytes n m a

module _ (m : Mem) (hi : ℕ) (cs us : List Chunk) (heap : Heap m hi cs us) (s : Pointer) (l : ℕ)
    (short : l ≤ 2 ^ 61) (stable : Stable m us s l) where
  written :
      (m' : Mem) (r z : ℕ) (left : List Chunk)
      → Heap m' hi left ((r, z) ∷ us)
      → l + 9 + 8 ≤ z
      → Kept m m' us
      → Copied m hi cs us s l
          (r + 8)
          (copy (set_word m' (r + 8) l) (r + 8 + 8) (chars s (l + 1) (set_word m' (r + 8) l)))
  written m' r z left grown enough kept =
      let m1 = set_word m' (r + 8) l in
      let t = chars s (l + 1) m1 in
      let m2 = copy m1 (r + 8 + 8) t in
      let out1 : Outside m' m1 (r + 8) 8 = (λ x h. store_other 8 m' (r + 8) l x h) in
      let heap1 =
        Heap-write m' hi left ((r, z) ∷ us) m1 (r + 8) 8 grown (here (omega arith) (omega arith))
          out1 in
      let kept1 =
        Kept-fresh m m' m1 hi left us r z (r + 8) 8 grown out1 (omega arith) (omega arith) kept in
      let out2 : Outside m1 m2 (r + 8 + 8) (length t) = (λ x h. copy_other m1 (r + 8 + 8) t x h) in
      let n = length-chars s (l + 1) m1 in
      copied r z left
        (Heap-write m1 hi left ((r, z) ∷ us) m2 (r + 8 + 8) (length t) heap1
          (here (omega arith) (omega (arith, n))) out2)
        (Kept-fresh m m1 m2 hi left us r z (r + 8 + 8) (length t) heap1 out2 (omega arith)
          (omega (arith, n)) kept1)
        (record {
          held = here (omega arith) (omega arith);
          len =
              load-Same 8 m1 m2 (r + 8) (λ x p q. out2 x (inl (omega arith)))
              ∙ load-store_same 8 m' (r + 8) l (omega arith);
          characters =
              subst (λ k. bytes k m2 (r + 8 + 8) ≡ t) n (bytes-copy m1 (r + 8 + 8) t)
              ∙ stable m1 kept1.1;
        })

  Copied-by :
      (p : ℕ) (m' : Mem)
      → Grown m hi cs us (l + 9) p m'
      → Ends (Copied m hi cs us s l) (
          (if p == 0
              then pure 0
              else (write p l >>= λ _ m. done p (copy m (p + 8) (chars s (l + 1) m))))
            m')
  Copied-by p m' (unchanged) = ends no_room
  Copied-by p m' (new_block r z left grown enough kept) =
      rw (ne→== (r + 8) 0 (omega arith)) (ends (written m' r z left grown enough kept))

  -- On a heap, for a string of up to 2 ^ 61 bytes in the caller's memory or in a block,
  -- `lmc_ht_strdup` ends: it returns 0 and changes nothing, or a copy of the string behind its
  -- length, in a new block, and keeps the other blocks.
  pub lmc_ht_strdup-Copied : Ends (Copied m hi cs us s l) (lmc_ht_strdup s l m)
  unfolding lmc_ht_strdup
  lmc_ht_strdup-Copied =
      let n : wadd (wadd l 8) 1 ≡ l + 9 = omega arith in
      rw n
        (Ends.bind (lmc_valloc-Grown m hi cs us heap (l + 9) (omega arith) (omega arith)) Copied-by)
