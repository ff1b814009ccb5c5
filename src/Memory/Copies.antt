-- ===== src/Memory/Copies.antt =====
-- Strings of bytes in memory: `copy`, which is `memcpy`, and `bytes`, which reads them again.
use localmemcache.Base.{
  ℕ, zero, suc, ◌+◌, ◌≤◌, ◌<◌, ◌≡◌, refl, sym, ap, ◌∙◌, ◌⊎◌, inl, arith, List, [], ◌∷◌, length,
  take, subst,
}
use localmemcache.Memory.{Mem, set_byte, copy, bytes}
use localmemcache.Memory.Laws.{Same}

pub copy_other :
    (m : Mem) (a : ℕ) (bs : List ℕ) (x : ℕ) → (x < a) ⊎ (a + length bs ≤ x) → copy m a bs x ≡ m x
unfolding copy
copy_other m a [] x h = refl
copy_other m a (b ∷ bs) x h = ground (arith, copy_other (set_byte m a b) (a + 1) bs x)

pub bytes-Same : (n : ℕ) (m m' : Mem) (a : ℕ) → Same m m' a (a + n) → bytes n m' a ≡ bytes n m a
unfolding bytes
bytes-Same zero m m' a h = refl
bytes-Same (suc n) m m' a h =
    rw
      (
        h a (omega arith) (omega arith),
        bytes-Same n m m' (a + 1) (λ x p q. h x (omega arith) (omega arith)),
      )
      refl

pub length-bytes : (n : ℕ) (m : Mem) (a : ℕ) → length (bytes n m a) ≡ n
unfolding bytes
length-bytes zero m a = refl
length-bytes (suc n) m a = ap suc (length-bytes n m (a + 1))

pub bytes-copy : (m : Mem) (a : ℕ) (bs : List ℕ) → bytes (length bs) (copy m a bs) a ≡ bs
unfolding bytes copy
bytes-copy m a [] = refl
bytes-copy m a (b ∷ bs) =
    let m' = set_byte m a b in
    rw (copy_other m' (a + 1) bs a (inl (omega arith)), first, bytes-copy m' (a + 1) bs) refl
  where
    first : set_byte m a b a ≡ b
    first = ground arith

take-bytes : (n : ℕ) (m : Mem) (a : ℕ) → take n (bytes (suc n) m a) ≡ bytes n m a
unfolding bytes
take-bytes zero m a = refl
take-bytes (suc n) m a = ap (λ l. m a ∷ l) (take-bytes n m (a + 1))

pub bytes-shorter :
    (n : ℕ) (m m' : Mem) (a a' : ℕ)
    → bytes (n + 1) m a ≡ bytes (n + 1) m' a'
    → bytes n m a ≡ bytes n m' a'
bytes-shorter n m m' a a' e =
    let one : n + 1 ≡ suc n = omega arith in
    let e' = subst (λ k. bytes k m a ≡ bytes k m' a') one e in
    sym (take-bytes n m a) ∙ (ap (λ l. take n l) e' ∙ take-bytes n m' a')
