-- ===== src/Hashtable/Link.antt =====
-- A new entry at the head of its bucket: the last writes of `ht_set` to a table.
use localmemcache.Base.{
  ℕ, ◌+◌, ◌≤◌, ◌<◌, ◌≡◌, ◌≢◌, ◌∙◌, ◌⊎◌, inl, inr, arith, List, ◌∷◌, length, All, All-mono,
  if◌then◌else◌, ◌==◌, Bool-cases, ==→eq, ==→ne,
}
use localmemcache.Memory.{Mem, word}
use localmemcache.Memory.Laws.{Same, load-Same}
use localmemcache.Hashtable.{bucket, lmc_ht_buckets, hash_t}
use localmemcache.Hashtable.Lookup.{Entry, head_of, Chained}
use localmemcache.Hashtable.Owned.{Placed, Owned, Chained-Same}
use localmemcache.Valloc.Chain.{Chunk}
use localmemcache.Valloc.Heap.{Disjoint}
use localmemcache.Valloc.Region.{Holds, here, there, Holds-Disjoint}

abbrev pub put_entry : ℕ → Entry → (ℕ → List Entry) → ℕ → List Entry
put_entry b e chains k = if k == b then e ∷ chains k else chains k

abbrev pub ApartFrom : ℕ → ℕ → ℕ → Type 0
ApartFrom x a n = (x < a) ⊎ (a + n ≤ x)

module _ (m mf : Mem) (us : List Chunk) (va_ht b : ℕ) (chains : ℕ → List Entry) (e : Entry)
    (be : Chunk) (owned : Owned m us va_ht chains) (in_range : b < lmc_ht_buckets)
    (fresh : All (Disjoint be) us) (low : 88 ≤ be.0) (starts : be.0 + 8 ≡ e.address)
    (ends : e.address + 24 ≤ be.0 + be.1) (lows : (a n : ℕ) → Holds a n us → 88 ≤ a)
    (link : word m e.address ≡ head_of (chains b)) (key : word m (e.address + 8) ≡ e.key)
    (some_value : e.value ≢ 0) (room : length (chains b) < word m 16)
    (head : word mf (bucket va_ht b) ≡ e.address) (value : word mf (e.address + 16) ≡ e.value)
    (same : (x : ℕ)
      → ApartFrom x 48 40
      → ApartFrom x (bucket va_ht b) 8
      → ApartFrom x (e.address + 16) 8
      → ApartFrom x va_ht 8
      → mf x ≡ m x) where
  table_apart : (va_ht + hash_t ≤ be.0) ⊎ (be.0 + be.1 ≤ va_ht)
  table_apart = Holds-Disjoint va_ht hash_t be us fresh owned.table_held

  table_low : 88 ≤ va_ht
  table_low = lows va_ht hash_t owned.table_held

  old_entry : (x : Entry) → Placed us va_ht x → Same m mf x.address (x.address + 24)
  old_entry x (held, apart) y p q =
      let lo = lows x.address 24 held in
      let off = Holds-Disjoint x.address 24 be us fresh held in
      same y (inr (omega arith)) (ground (arith, in_range)) (ground (arith, starts, ends))
        (ground (arith, in_range))

  old_chain : (k : ℕ) → k < lmc_ht_buckets → Chained mf (chains k)
  old_chain k h =
      Chained-Same m mf (chains k)
        (All-mono (Placed us va_ht) (λ x. Same m mf x.address (x.address + 24)) (chains k) old_entry
          (owned.placed k h))
        (owned.table.chained k h)

  new_chain : Chained mf (e ∷ chains b)
  new_chain = (
    omega (arith, starts, low),
    load-Same 8 m mf e.address (λ x p q.
          same x (inr (omega (arith, starts, low)))
            (ground (arith, table_apart, starts, ends, in_range)) (inl (omega arith))
            (ground (arith, table_apart, starts, ends)))
        ∙ link,
    load-Same 8 m mf (e.address + 8) (λ x p q.
          same x (inr (omega (arith, starts, low)))
            (ground (arith, table_apart, starts, ends, in_range)) (inl (omega arith))
            (ground (arith, table_apart, starts, ends)))
        ∙ key,
    value,
    some_value,
    old_chain b in_range,
  )

  extent : word mf 16 ≡ word m 16
  extent = load-Same 8 m mf 16 (λ x p q.
      same x (inl (omega arith)) (inl (omega (arith, table_low))) (inl (omega (arith, starts, low)))
        (inl (omega (arith, table_low))))

  other_head : (k : ℕ) → k < lmc_ht_buckets → k ≢ b → word mf (bucket va_ht k) ≡ head_of (chains k)
  other_head k h other =
      load-Same 8 m mf (bucket va_ht k) (λ x p q.
        same x (inr (omega (arith, table_low))) (ground arith)
          (ground (arith, table_apart, starts, ends)) (inr (omega arith)))
      ∙ owned.table.heads k h

  pub linked : Owned mf (be ∷ us) va_ht (put_entry b e chains)
  linked = record {
    table_held = there owned.table_held;
    placed = λ k h.
        let old =
          All-mono (Placed us va_ht) (Placed (be ∷ us) va_ht) (chains k)
            (λ x (held, apart). (there held, apart)) (owned.placed k h) in
        elim (Bool-cases (k == b)) [
          | inl hit ↦
              rw hit (
                (here (omega (arith, starts)) ends, ground (arith, table_apart, starts, ends)),
                old,
              )
          | inr miss ↦ rw miss old
        ];
    table = record {
      heads = λ k h. elim (Bool-cases (k == b)) [
        | inl hit ↦ rw (hit, ==→eq k b hit) head
        | inr miss ↦ rw miss (other_head k h (==→ne k b miss))
      ];
      chained = λ k h. elim (Bool-cases (k == b)) [
        | inl hit ↦ rw (hit, ==→eq k b hit) new_chain
        | inr miss ↦ rw miss (old_chain k h)
      ];
      few = λ k h. elim (Bool-cases (k == b)) [
        | inl hit ↦ rw (hit, ==→eq k b hit, extent) (omega (arith, room))
        | inr miss ↦ rw (miss, extent) (owned.table.few k h)
      ];
    };
  }
