-- ===== src/Hashtable/Iterate.antt =====
-- `ht_hash_iterate` from a status on: which pairs are left for a status, and the visits of the loops
-- over the buckets and over one chain.
use localmemcache.Base.{
  ℕ, zero, suc, ◌+◌, ◌-◌, ◌≤◌, ◌<◌, ◌≡◌, refl, ◌∙◌, ap, inl, inr, arith, Bool, true, false, List,
  [], ◌∷◌, ◌++◌, length, drop, drop_none, ltb, ne→==, ge→ltb, lt→ltb, Bool-cases, ltb→lt, ltb→ge,
}
use localmemcache.Cmd.{Cmd, done}
use localmemcache.Cmd.Ends
use localmemcache.Cmd.Ends.{Ends, ends}
use localmemcache.Memory.{Mem, word}
use localmemcache.Hashtable.{lmc_ht_buckets}
use localmemcache.Hashtable.Lookup.{Entry, head_of, Chained}
use localmemcache.Hashtable.Walks.{IterStatus, Slice, visit, chain_loop}

-- the calls of `iter` for the entries, one after the other
abbrev pub visit_all : {X : Type 0} → (X → ℕ → ℕ → X) → X → List Entry → X
visit_all f x [] = x
visit_all f x (e ∷ es) = visit_all f (f x e.key e.value) es

-- the entries still to visit, with `left` buckets from bucket `k`, without the first `ofs`
abbrev pub pending : (ℕ → List Entry) → (left k ofs : ℕ) → List Entry
pending chains zero k ofs = []
pending chains (suc left) k ofs = drop ofs (chains k) ++ pending chains left (k + 1) 0

abbrev pub pending_at : (ℕ → List Entry) → IterStatus → List Entry
pending_at chains s = pending chains (lmc_ht_buckets - s.bucket_ofs) s.bucket_ofs s.ofs

-- What a walk along a chain does: it visits all of `todo`, or the first of them, and the slice is
-- full.
pub data Walked {X : Type 0} (f : X → ℕ → ℕ → X) (m : Mem) (base c : ℕ) (x : X) (todo : List Entry)
    (after : ℕ → List Entry) : Bool × Slice X → Mem → Type 0 where
  whole :
      (item count : ℕ)
      → count ≡ c + length todo
      → count ≤ 999
      → Walked f m base c x todo after
          (false, record { item_c = item; slice_counter = count; ctx = visit_all f x todo })
          m
  part :
      (item count : ℕ) (now later : List Entry)
      → todo ≡ now ++ later
      → c + length now ≡ 1000
      → base < item
      → after item ≡ later
      → Walked f m base c x todo after
          (true, record { item_c = item; slice_counter = count; ctx = visit_all f x now })
          m

abbrev pub rest_of : List Entry → ℕ → ℕ → List Entry
rest_of es i j = drop (j - i) es

rest_of-step :
    (e : Entry) (es : List Entry) (i j : ℕ) → i < j → rest_of (e ∷ es) i j ≡ rest_of es (i + 1) j
rest_of-step e es i j h = let split : j - i ≡ suc (j - (i + 1)) = omega arith in rw split refl

module _ {X : Type 0} {f : X → ℕ → ℕ → X} {m : Mem} where
  Walked-visit :
      (i c : ℕ) (x : X) (e : Entry) (es : List Entry) (r : Bool × Slice X) (m' : Mem)
      → Walked f m (i + 1) (c + 1) (f x e.key e.value) es (rest_of es (i + 1)) r m'
      → Walked f m i c x (e ∷ es) (rest_of (e ∷ es) i) r m'
  Walked-visit i c x e es r m' (whole item count n up) = whole item count (omega arith) up
  Walked-visit i c x e es r m' (part item count now later split n past left) =
      part item count (e ∷ now) later (ap (λ l. e ∷ l) split) (omega arith) (omega arith)
        (rest_of-step e es i item (omega arith) ∙ left)

  Walked-skip :
      (i c : ℕ) (x : X) (e : Entry) (es todo : List Entry) (r : Bool × Slice X) (m' : Mem)
      → Walked f m (i + 1) c x todo (rest_of es (i + 1)) r m'
      → Walked f m i c x todo (rest_of (e ∷ es) i) r m'
  Walked-skip i c x e es todo r m' (whole item count n up) = whole item count n up
  Walked-skip i c x e es todo r m' (part item count now later split n past left) =
      part item count now later split n (omega arith)
        (rest_of-step e es i item (omega arith) ∙ left)

-- What a call does: it visits all the entries that are left, or the next 1000.
pub data Iterated {X : Type 0} (f : X → ℕ → ℕ → X) (m : Mem) (chains : ℕ → List Entry) (c : ℕ)
    (x : X) (todo : List Entry) : ℕ × IterStatus × X → Mem → Type 0 where
  finished :
      (s : IterStatus)
      → c + length todo ≤ 999
      → pending_at chains s ≡ []
      → Iterated f m chains c x todo (1, s, visit_all f x todo) m
  sliced :
      (s : IterStatus) (now later : List Entry)
      → todo ≡ now ++ later
      → c + length now ≡ 1000
      → pending_at chains s ≡ later
      → Iterated f m chains c x todo (2, s, visit_all f x now) m

module _ {X : Type 0} (iter : X → (va_key va_value : ℕ) → Cmd X) (f : X → ℕ → ℕ → X) (m : Mem)
    (quiet : (x : X) (k v : ℕ) → iter x k v m ≡ done (f x k v) m) where
  visit-done :
      (ofs i c : ℕ) (x : X) (e : Entry)
      → ofs ≤ i
      → word m (e.address + 8) ≡ e.key
      → word m (e.address + 16) ≡ e.value
      → visit iter ofs e.address (record { item_c = i; slice_counter = c; ctx = x }) m
        ≡ done
            (
              ltb 999 (c + 1),
              record { item_c = i + 1; slice_counter = c + 1; ctx = f x e.key e.value },
            )
            m
  unfolding visit
  visit-done ofs i c x e behind k v =
      rw (lt→ltb ofs (i + 1) (omega arith), k, v, quiet x e.key e.value) refl

  -- Past the offset every entry is visited.
  visit-Walked :
      (ofs i c : ℕ) (x : X) (es : List Entry) (k : ℕ)
      → ofs ≤ i
      → c ≤ 999
      → length es < k
      → Chained m es
      → Ends
          (Walked f m i c x es (rest_of es i))
          (chain_loop iter k ofs (head_of es) (record { item_c = i; slice_counter = c; ctx = x }) m)
  unfolding chain_loop
  visit-Walked ofs i c x es zero behind room few l = ground arith
  visit-Walked ofs i c x [] (suc k) behind room few l = ends (whole i c (omega arith) room)
  visit-Walked ofs i c x (e ∷ es) (suc k) behind room few (real, link, k_at, v_at, some_value, l) =
      elim (Bool-cases (ltb 999 (c + 1))) [
        | inl full ↦
            rw (ne→== e.address 0 real, visit-done ofs i c x e behind k_at v_at, full)
              (ends (
                part (i + 1) (c + 1) (e ∷ []) es refl (omega (arith, ltb→lt 999 (c + 1) full))
                  (omega arith)
                  (rest_of-step e es i (i + 1) (omega arith)
                    ∙ drop_none (i + 1 - (i + 1)) es (omega arith))))
        | inr more ↦
            rw (ne→== e.address 0 real, visit-done ofs i c x e behind k_at v_at, more, link)
              (Ends.weaken
                (visit-Walked ofs (i + 1) (c + 1) (f x e.key e.value) es k (omega arith)
                  (ltb→ge 999 (c + 1) more) (omega arith) l)
                (Walked-visit i c x e es))
      ]

  -- Before the offset none is.
  pub skip-Walked :
      (d ofs i c : ℕ) (x : X) (es : List Entry) (k : ℕ)
      → ofs ≡ i + d
      → c ≤ 999
      → length es < k
      → Chained m es
      → Ends
          (Walked f m i c x (drop d es) (rest_of es i))
          (chain_loop iter k ofs (head_of es) (record { item_c = i; slice_counter = c; ctx = x }) m)
  unfolding chain_loop visit
  skip-Walked zero ofs i c x es k at_i room few l =
      visit-Walked ofs i c x es k (omega arith) room few l
  skip-Walked (suc d) ofs i c x es zero at_i room few l = ground arith
  skip-Walked (suc d) ofs i c x [] (suc k) at_i room few l = ends (whole i c (omega arith) room)
  skip-Walked (suc d) ofs i c x (e ∷ es) (suc k) at_i room few
        (real, link, k_at, v_at, some_value, l) =
      rw (ne→== e.address 0 real, ge→ltb ofs (i + 1) (omega arith), link)
        (Ends.weaken (skip-Walked d ofs (i + 1) c x es k (omega arith) room (omega arith) l)
          (Walked-skip i c x e es (drop d es)))
