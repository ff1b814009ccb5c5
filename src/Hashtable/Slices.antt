-- ===== src/Hashtable/Slices.antt =====
-- A call of `ht_hash_iterate` as a whole: the next slice of the pairs that are left.
use localmemcache.Base.{
  ℕ, zero, suc, ◌+◌, ◌-◌, ◌≤◌, ◌<◌, ◌≡◌, refl, sym, ◌∙◌, ap, arith, Bool, List, [], ◌∷◌, ◌++◌,
  length, length-append, drop, subst, if◌then◌else◌,
}
use localmemcache.Cmd.{Cmd, done, pure}
use localmemcache.Cmd.Ends
use localmemcache.Cmd.Ends.{Ends, ends}
use localmemcache.Memory.{Mem, word}
use localmemcache.Hashtable.{lmc_ht_buckets}
use localmemcache.Hashtable.Lookup.{Entry, Table}
use localmemcache.Hashtable.Walks.{IterStatus, Slice, iterate_loop, ht_hash_iterate}
use localmemcache.Hashtable.Iterate.{
  visit_all, pending, pending_at, Walked, whole, part, Iterated, finished, sliced, skip-Walked,
  rest_of,
}

append_assoc : (xs ys zs : List Entry) → (xs ++ ys) ++ zs ≡ xs ++ (ys ++ zs)
append_assoc [] ys zs = refl
append_assoc (x ∷ xs) ys zs = ap (λ l. x ∷ l) (append_assoc xs ys zs)

visit_all-append :
    {X : Type 0} (f : X → ℕ → ℕ → X) (x : X) (xs ys : List Entry)
    → visit_all f x (xs ++ ys) ≡ visit_all f (visit_all f x xs) ys
visit_all-append f x [] ys = refl
visit_all-append f x (e ∷ xs) ys = visit_all-append f (f x e.key e.value) xs ys

module _ {X : Type 0} (iter : X → (va_key va_value : ℕ) → Cmd X) (f : X → ℕ → ℕ → X) (m : Mem)
    (quiet : (x : X) (k v : ℕ) → iter x k v m ≡ done (f x k v) m) (va_ht : ℕ)
    (chains : ℕ → List Entry) (table : Table m va_ht chains) where
  Iterated-append :
      (c count : ℕ) (x : X) (xs ys : List Entry) (r : ℕ × IterStatus × X) (m' : Mem)
      → count ≡ c + length xs
      → Iterated f m chains count (visit_all f x xs) ys r m'
      → Iterated f m chains c x (xs ++ ys) r m'
  Iterated-append c count x xs ys r m' n (finished s up none_left) =
      subst (λ y. Iterated f m chains c x (xs ++ ys) (1, s, y) m) (visit_all-append f x xs ys)
        (finished s (omega (arith, length-append xs ys)) none_left)
  Iterated-append c count x xs ys r m' n (sliced s now later split up left) =
      subst (λ y. Iterated f m chains c x (xs ++ ys) (2, s, y) m) (visit_all-append f x xs now)
        (sliced s (xs ++ now) later (ap (λ l. xs ++ l) split ∙ sym (append_assoc xs now later))
          (omega (arith, length-append xs now)) left)

  -- What is to be shown of the loop with `left` buckets from bucket `k`.
  Goal : (left k : ℕ) → Type 0
  Goal left k =
      (ofs c : ℕ) (x : X)
      → c ≤ 999
      → Ends (Iterated f m chains c x (pending chains left k ofs)) (
          iterate_loop iter left va_ht k (record { ofs = ofs; bucket_ofs = k })
            (record { item_c = 0; slice_counter = c; ctx = x }) m)

  onward :
      (left k ofs c : ℕ) (x : X) (r : Bool × Slice X) (m' : Mem)
      → k + suc left ≡ lmc_ht_buckets
      → Goal left (k + 1)
      → Walked f m 0 c x (drop ofs (chains k)) (rest_of (chains k) 0) r m'
      → Ends (Iterated f m chains c x (pending chains (suc left) k ofs)) (
          (if r.0
              then pure (2, (record { ofs = r.1.item_c; bucket_ofs = k }), r.1.ctx)
              else iterate_loop iter left va_ht
                  (k + 1)
                  (record { ofs = 0; bucket_ofs = k + 1 })
                  (record r.1 { item_c = 0 }))
            m')
  unfolding Goal
  onward left k ofs c x r m' total rest (whole item count n up) =
      Ends.weaken (rest 0 count (visit_all f x (drop ofs (chains k))) up) λ r' m'' i.
        Iterated-append c count x (drop ofs (chains k)) (pending chains left (k + 1) 0) r' m'' n i
  onward left k ofs c x r m' total rest (part item count now later split n past after) =
      let here : lmc_ht_buckets - k ≡ suc left = omega arith in
      let whole_item : item - 0 ≡ item = omega arith in
      ends (
        sliced (record { ofs = item; bucket_ofs = k }) now (later ++ pending chains left (k + 1) 0)
          (ap (λ l. l ++ pending chains left (k + 1) 0) split
            ∙ append_assoc now later (pending chains left (k + 1) 0))
          n
          (rw here (
            ap (λ l. l ++ pending chains left (k + 1) 0)
              (ap (λ j. drop j (chains k)) (sym whole_item) ∙ after))))

  iterate_loop-Iterated : (left k : ℕ) → k + left ≡ lmc_ht_buckets → Goal left k
  unfolding iterate_loop Goal
  iterate_loop-Iterated zero k total ofs c x room =
      let here : lmc_ht_buckets - k ≡ 0 = omega arith in
      ends (finished (record { ofs = ofs; bucket_ofs = k }) (omega arith) (rw here refl))
  iterate_loop-Iterated (suc left) k total ofs c x room =
      let in_range : k < lmc_ht_buckets = omega arith in
      rw (table.heads k in_range) (
        Ends.bind
          (skip-Walked iter f m quiet ofs ofs 0 c x (chains k) (suc (suc (word m 16))) (omega arith)
            room (omega (arith, table.few k in_range)) (table.chained k in_range))
          λ r m' w.
            onward left k ofs c x r m' total (iterate_loop-Iterated left (k + 1) (omega arith)) w)

  -- For a function that does not change the memory and a status within the table, a call of
  -- `ht_hash_iterate` ends; it visits in their order all pairs that are left for the status,
  -- if these are less than 1000, and returns 1 with a status for which none is left, or it
  -- visits the next 1000 and returns 2 with a status for which exactly the others are left.
  pub ht_hash_iterate-Iterated :
      (x : X) (status : IterStatus)
      → status.bucket_ofs ≤ lmc_ht_buckets
      → Ends
          (Iterated f m chains 0 x (pending_at chains status))
          (ht_hash_iterate iter va_ht x status m)
  unfolding ht_hash_iterate Goal
  ht_hash_iterate-Iterated x status in_range =
      iterate_loop-Iterated (lmc_ht_buckets - status.bucket_ofs) status.bucket_ofs (omega arith)
        status.ofs 0 x (omega arith)
