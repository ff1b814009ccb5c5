-- ===== src/Hashtable/Owned.antt =====
-- A table in the blocks of a heap, and what a write elsewhere leaves of it.
use localmemcache.Base.{
  ℕ, ◌+◌, ◌≤◌, ◌<◌, sym, ◌∙◌, ◌⊎◌, inl, inr, arith, List, [], ◌∷◌, length, All, All-mono, subst,
}
use localmemcache.Memory.{Mem}
use localmemcache.Memory.Laws.{Same, load-Same}
use localmemcache.Hashtable.{bucket, lmc_ht_buckets, hash_t}
use localmemcache.Hashtable.Lookup.{Entry, Chained, Table}
use localmemcache.Valloc.Chain.{Chunk}
use localmemcache.Valloc.Heap.{Heap, InUse, Blocks}
use localmemcache.Valloc.Region.{Holds, Holds-Same, Outside}

-- The entry lies in a block, and not in the table.
abbrev pub Placed : List Chunk → ℕ → Entry → Type 0
Placed us va_ht e =
    Holds e.address 24 us × ((e.address + 24 ≤ va_ht) ⊎ (va_ht + hash_t ≤ e.address))

pub record Owned (m : Mem) (us : List Chunk) (va_ht : ℕ) (chains : ℕ → List Entry) : Type 0 where
  pub table_held : Holds va_ht hash_t us
  pub placed : (k : ℕ) → k < lmc_ht_buckets → All (Placed us va_ht) (chains k)
  pub table : Table m va_ht chains

-- The same blocks, and the descriptor up to the lock flag.
pub record Frame (m m' : Mem) (us : List Chunk) : Type 0 where
  pub descriptor : Same m m' 16 48
  pub blocks : Blocks m m' us

pub Blocks-trans :
    (m m' m'' : Mem) (us : List Chunk) → Blocks m m' us → Blocks m' m'' us → Blocks m m'' us
Blocks-trans m m' m'' [] f g = tt
Blocks-trans m m' m'' (u ∷ us) (f, fs) (g, gs) =
    ((λ x p q. g x p q ∙ f x p q), Blocks-trans m m' m'' us fs gs)

pub Frame-trans :
    (m m' m'' : Mem) (us : List Chunk) → Frame m m' us → Frame m' m'' us → Frame m m'' us
Frame-trans m m' m'' us f g = record {
  descriptor = λ x p q. g.descriptor x p q ∙ f.descriptor x p q;
  blocks = Blocks-trans m m' m'' us f.blocks g.blocks;
}

-- A write to the log.
pub Frame-log :
    (m m' : Mem) (hi : ℕ) (cs us : List Chunk) (a n : ℕ)
    → Heap m hi cs us
    → 48 ≤ a
    → a + n ≤ 88
    → Outside m m' a n
    → Frame m m' us
Frame-log m m' hi cs us a n heap lo up out = record {
  descriptor = λ x p q. out x (inl (omega arith));
  blocks =
      All-mono (InUse m hi cs) (λ b. Same m m' b.0 (b.0 + b.1)) us
        (λ b (block, e) x p q. out x (inr (omega (arith, block.low)))) heap.used;
}

pub Chained-Same :
    (m m' : Mem) (es : List Entry)
    → All (λ e. Same m m' e.address (e.address + 24)) es
    → Chained m es
    → Chained m' es
Chained-Same m m' [] s c = tt
Chained-Same m m' (e ∷ es) (s, ss) (real, link, k, v, some_value, c) = (
  real,
  load-Same 8 m m' e.address (λ x p q. s x p (omega arith)) ∙ link,
  load-Same 8 m m' (e.address + 8) (λ x p q. s x (omega arith) (omega arith)) ∙ k,
  load-Same 8 m m' (e.address + 16) (λ x p q. s x (omega arith) (omega arith)) ∙ v,
  some_value,
  Chained-Same m m' es ss c,
)

pub Owned-Blocks :
    (m m' : Mem) (us : List Chunk) (va_ht : ℕ) (chains : ℕ → List Entry)
    → Same m m' 16 24
    → Blocks m m' us
    → Owned m us va_ht chains
    → Owned m' us va_ht chains
Owned-Blocks m m' us va_ht chains size same o = record {
  table_held = o.table_held;
  placed = o.placed;
  table = record {
    heads = λ k h.
        load-Same 8 m m' (bucket va_ht k)
          (λ x p q. Holds-Same m m' va_ht hash_t us same o.table_held x (omega arith) (omega arith))
        ∙ o.table.heads k h;
    chained = λ k h.
        Chained-Same m m' (chains k)
          (All-mono (Placed us va_ht) (λ e. Same m m' e.address (e.address + 24)) (chains k)
            (λ e (held, apart). Holds-Same m m' e.address 24 us same held) (o.placed k h))
          (o.table.chained k h);
    few = λ k h.
        subst (λ t. length (chains k) ≤ t)
          (sym (load-Same 8 m m' 16 (λ x p q. size x p (omega arith)))) (o.table.few k h);
  };
}

pub Owned-Frame :
    (m m' : Mem) (us : List Chunk) (va_ht : ℕ) (chains : ℕ → List Entry)
    → Frame m m' us
    → Owned m us va_ht chains
    → Owned m' us va_ht chains
Owned-Frame m m' us va_ht chains f o =
    Owned-Blocks m m' us va_ht chains (λ x p q. f.descriptor x p (omega arith)) f.blocks o
