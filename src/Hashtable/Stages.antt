-- ===== src/Hashtable/Stages.antt =====
-- The stages of `ht_insert` before the last, from the end: the entry, the key, the value and the
-- log. Each may find the pool full.
use localmemcache.Base.{
  ℕ, ◌+◌, ◌≤◌, ◌<◌, ◌^◌, ◌≡◌, refl, sym, ◌∙◌, inr, arith, List, [], ◌∷◌, ◌++◌, length, subst, ne→==,
  if◌then◌else◌, ◌==◌,
}
use localmemcache.Cmd.{◌>>◌, write}
use localmemcache.Cmd.Ends
use localmemcache.Cmd.Ends.{Ends, ends}
use localmemcache.Errors.{Status}
use localmemcache.Memory.{Mem, word, set_word, bytes}
use localmemcache.Memory.Laws.{load-Same, load-store_same, load-store_other, store_other}
use localmemcache.Hashtable.{caller, hash_t, insert_failed, link_entry, insert_entry, insert_key}
use localmemcache.Hashtable.Filled.{log_cleared, log_cleared-same, Heap-log_cleared}
use localmemcache.Hashtable.Insert.{Inserted, Counted, not_stored, bucket_at, link_entry-Inserted}
use localmemcache.Hashtable.Lookup.{Entry}
use localmemcache.Hashtable.Owned.{Owned, Frame, Frame-trans, Frame-log, Owned-Frame}
use localmemcache.Hashtable.Strings.{
  Text, Text-Blocks, Copied, no_room, copied, lmc_ht_strdup-Copied,
}
use localmemcache.Valloc.{lmc_log_finish}
use localmemcache.Valloc.Chain.{Chunk}
use localmemcache.Valloc.Heap.{Heap, Kept, Grown, unchanged, new_block, lmc_valloc-Grown}
use localmemcache.Valloc.Region.{Holds-Same, Heap-log, Outside}

-- The number of entries, which stands at the head of the table.
pub count-Frame :
    (m m' : Mem) (us : List Chunk) (va_ht : ℕ) (chains : ℕ → List Entry)
    → Owned m us va_ht chains
    → Frame m m' us
    → word m' va_ht ≡ word m va_ht
count-Frame m m' us va_ht chains owned f =
    load-Same 8 m m' va_ht
      λ x p q. Holds-Same m m' va_ht hash_t us f.blocks owned.table_held x p (omega arith)

pub Counted-Frame :
    (m0 m m' : Mem) (us : List Chunk) (va_ht : ℕ) (chains : ℕ → List Entry) (count : ℕ)
    → Owned m us va_ht chains
    → Frame m m' us
    → Counted m0 m va_ht count
    → Counted m0 m' va_ht count
Counted-Frame m0 m m' us va_ht chains count owned f (n, same) =
    (count-Frame m m' us va_ht chains owned f ∙ n, λ x p q. f.descriptor x p q ∙ same x p q)

Frame-Kept : (m m' : Mem) (us : List Chunk) → Kept m m' us → Frame m m' us
Frame-Kept m m' us kept = record { descriptor = λ x p q. kept.0 x p (omega arith); blocks = kept.1 }

module _ (hi : ℕ) (us : List Chunk) (va_ht : ℕ) (chains : ℕ → List Entry) (key : Mem) (n_key : ℕ)
    (value : Mem) (n_value : ℕ) (count : ℕ) (m0 : Mem) where
  abbrev pub Result : Status → Mem → Type 0
  Result = Inserted hi us va_ht chains count m0 key n_key value n_value

  Heap-older : (m : Mem) (cs extra : List Chunk) → Heap m hi cs (extra ++ us) → Heap m hi cs us
  Heap-older m cs [] heap = heap
  Heap-older m cs (b ∷ extra) heap =
      Heap-older m cs extra
        (record { free = heap.free; used = heap.used.1; disjoint = heap.disjoint.1 })

  -- `goto failed`
  pub failed-Inserted :
      (m : Mem) (cs extra : List Chunk)
      → Heap m hi cs (extra ++ us)
      → Owned m us va_ht chains
      → Counted m0 m va_ht count
      → Ends Result (insert_failed m)
  unfolding insert_failed lmc_log_finish
  failed-Inserted m cs extra heap owned n =
      let f : Frame m (log_cleared m) us =
        Frame-log m (log_cleared m) hi cs us 48 40 (Heap-older m cs extra heap) (omega arith)
          (omega arith) (λ x h. log_cleared-same m x h) in
      ends (
        not_stored cs extra (Heap-log_cleared m hi cs (extra ++ us) heap)
          (Owned-Frame m (log_cleared m) us va_ht chains f owned)
          (Counted-Frame m0 m (log_cleared m) us va_ht chains count owned f n))

  module _ (bk bv : Chunk) (k v : ℕ) where
    entry_by :
        (m : Mem) (cs : List Chunk)
        → Heap m hi cs (bk ∷ bv ∷ us)
        → Owned m us va_ht chains
        → Counted m0 m va_ht count
        → Text m (bk ∷ []) k n_key (bytes (n_key + 1) key 0)
        → Text m (bv ∷ []) v n_value (bytes (n_value + 1) value 0)
        → word m 64 ≡ k
        → word m 72 ≡ v
        → length (chains (bucket_at key n_key)) < word m 16
        → (p : ℕ) (m' : Mem) → Grown m hi cs (bk ∷ bv ∷ us) 24 p m'
        → Ends Result ((if p == 0 then insert_failed else link_entry va_ht (caller key) n_key p) m')
    entry_by m cs heap owned n kt vt kl vl room p m' (unchanged) =
        failed-Inserted m cs (bk ∷ bv ∷ []) heap owned n
    entry_by m cs heap owned n kt vt kl vl room p m' (new_block r z left grown enough kept) =
        let f : Frame m m' us = record {
          descriptor = λ x p q. kept.0 x p (omega arith);
          blocks = kept.1.1.1;
        } in
        rw (ne→== (r + 8) 0 (omega arith)) (
          subst
            (λ c.
              Ends (Inserted hi us va_ht chains c m0 key n_key value n_value)
                (link_entry va_ht (caller key) n_key (r + 8) m'))
            (count-Frame m m' us va_ht chains owned f ∙ n.0)
            (link_entry-Inserted m' hi left us va_ht chains key n_key value n_value (r, z) bk bv k v
              grown (Owned-Frame m m' us va_ht chains f owned) enough
              (Text-Blocks m m' (bk ∷ []) k n_key (bytes (n_key + 1) key 0) (kept.1.0, tt) kt)
              (Text-Blocks m m' (bv ∷ []) v n_value (bytes (n_value + 1) value 0) (kept.1.1.0, tt)
                vt)
              (load-Same 8 m m' 64 (λ x p q. kept.0 x (omega arith) (omega arith)) ∙ kl)
              (load-Same 8 m m' 72 (λ x p q. kept.0 x (omega arith) (omega arith)) ∙ vl)
              (subst (λ t. length (chains (bucket_at key n_key)) < t)
                (sym (load-Same 8 m m' 16 (λ x p q. kept.0 x p (omega arith)))) room)
              m0 (λ x p q. f.descriptor x p q ∙ n.1 x p q)))

    insert_entry-Inserted :
        (m : Mem) (cs : List Chunk)
        → Heap m hi cs (bk ∷ bv ∷ us)
        → Owned m us va_ht chains
        → Counted m0 m va_ht count
        → Text m (bk ∷ []) k n_key (bytes (n_key + 1) key 0)
        → Text m (bv ∷ []) v n_value (bytes (n_value + 1) value 0)
        → word m 64 ≡ k
        → word m 72 ≡ v
        → length (chains (bucket_at key n_key)) < word m 16
        → Ends Result (insert_entry va_ht (caller key) n_key m)
    unfolding insert_entry
    insert_entry-Inserted m cs heap owned n kt vt kl vl room =
        Ends.bind (lmc_valloc-Grown m hi cs (bk ∷ bv ∷ us) heap 24 (omega arith) (omega arith))
          (entry_by m cs heap owned n kt vt kl vl room)

  module _ (bv : Chunk) (v : ℕ) (short : n_key ≤ 2 ^ 61) where
    key_by :
        (m : Mem) (cs : List Chunk)
        → Heap m hi cs (bv ∷ us)
        → Owned m us va_ht chains
        → Counted m0 m va_ht count
        → Text m (bv ∷ []) v n_value (bytes (n_value + 1) value 0)
        → word m 72 ≡ v
        → length (chains (bucket_at key n_key)) < word m 16
        → (p : ℕ) (m' : Mem) → Copied m hi cs (bv ∷ us) (caller key) n_key p m'
        → Ends Result (
            (write 64 p
                >> (if p == 0 then insert_failed else insert_entry va_ht (caller key) n_key))
              m')
    key_by m cs heap owned n vt vl room p m' (no_room) =
        let m1 = set_word m 64 0 in
        let out : Outside m m1 64 8 = (λ x h. store_other 8 m 64 0 x h) in
        let f =
          Frame-log m m1 hi cs us 64 8 (Heap-older m cs (bv ∷ []) heap) (omega arith) (omega arith)
            out in
        failed-Inserted m1 cs (bv ∷ [])
          (Heap-log m hi cs (bv ∷ us) m1 64 8 heap (omega arith) (omega arith) out)
          (Owned-Frame m m1 us va_ht chains f owned)
          (Counted-Frame m0 m m1 us va_ht chains count owned f n)
    key_by m cs heap owned n vt vl room p m' (copied r z left grown kept kt) =
        let m1 = set_word m' 64 (r + 8) in
        let out : Outside m' m1 64 8 = (λ x h. store_other 8 m' 64 (r + 8) x h) in
        let g =
          Frame-log m' m1 hi left ((r, z) ∷ bv ∷ us) 64 8 grown (omega arith) (omega arith) out in
        let f =
          Frame-trans m m' m1 us
            (record { descriptor = λ x p q. kept.0 x p (omega arith); blocks = kept.1.1 })
            (record { descriptor = g.descriptor; blocks = g.blocks.1.1 }) in
        rw (ne→== (r + 8) 0 (omega arith)) (
          insert_entry-Inserted (r, z) bv (r + 8) v m1 left
            (Heap-log m' hi left ((r, z) ∷ bv ∷ us) m1 64 8 grown (omega arith) (omega arith) out)
            (Owned-Frame m m1 us va_ht chains f owned)
            (Counted-Frame m0 m m1 us va_ht chains count owned f n)
            (Text-Blocks m' m1 ((r, z) ∷ []) (r + 8) n_key (bytes (n_key + 1) key 0)
              (g.blocks.0, tt) kt)
            (Text-Blocks m' m1 (bv ∷ []) v n_value (bytes (n_value + 1) value 0) (g.blocks.1.0, tt)
              (Text-Blocks m m' (bv ∷ []) v n_value (bytes (n_value + 1) value 0) (kept.1.0, tt)
                vt))
            (load-store_same 8 m' 64 (r + 8)
              (omega (arith, grown.used.0.0.high, grown.used.0.0.room, grown.free.small)))
            (load-store_other 8 8 m' 64 (r + 8) 72 (inr (omega arith))
              ∙ (load-Same 8 m m' 72 (λ x p q. kept.0 x (omega arith) (omega arith)) ∙ vl))
            (subst (λ t. length (chains (bucket_at key n_key)) < t)
              (sym (load-Same 8 m m1 16 (λ x p q. f.descriptor x p (omega arith)))) room))

    pub insert_key-Inserted :
        (m : Mem) (cs : List Chunk)
        → Heap m hi cs (bv ∷ us)
        → Owned m us va_ht chains
        → Counted m0 m va_ht count
        → Text m (bv ∷ []) v n_value (bytes (n_value + 1) value 0)
        → word m 72 ≡ v
        → length (chains (bucket_at key n_key)) < word m 16
        → Ends Result (insert_key va_ht (caller key) n_key m)
    unfolding insert_key
    insert_key-Inserted m cs heap owned n vt vl room =
        Ends.bind
          (lmc_ht_strdup-Copied m hi cs (bv ∷ us) heap (caller key) n_key short (λ m' kept. refl))
          (key_by m cs heap owned n vt vl room)
