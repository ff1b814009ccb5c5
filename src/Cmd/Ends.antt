-- ===== src/Cmd/Ends.antt =====
-- Total correctness of a run: it ends, and its value and memory satisfy a postcondition.
use localmemcache.Base.{◌≡◌}
use localmemcache.Cmd.{RunOn, done, StateCmd, and_then}

pub data Ends {S A : Type 0} (P : A → S → Type 0) : RunOn S A → Type 0 where
  ends : {a : A} {m : S} → P a m → Ends P (done a m)

module _ {S A : Type 0} {P : A → S → Type 0} where
  pub bind :
      {B : Type 0} {Q : B → S → Type 0} {r : RunOn S A} {k : A → StateCmd S B}
      → Ends P r
      → ((a : A) (m : S) → P a m → Ends Q (k a m))
      → Ends Q (and_then r k)
  bind (ends p) next = next _ _ p

  pub weaken :
      {Q : A → S → Type 0} {r : RunOn S A} → Ends P r → ((a : A) (m : S) → P a m → Q a m) → Ends Q r
  weaken (ends p) imp = ends (imp _ _ p)

  pub both :
      {Q : A → S → Type 0} {r : RunOn S A} → Ends P r → Ends Q r → Ends (λ a m. P a m × Q a m) r
  both (ends p) (ends q) = ends (p, q)

  -- What a run that ends gives as plain equations.
  pub outcome : {r : RunOn S A} → Ends P r → (a : A) × (m : S) × (r ≡ done a m) × P a m
  outcome (ends {a} {m} p) = (a, m, λ i. done a m, p)
