-- ===== src/Lock.antt =====
-- src/lmc_lock.c on Linux: named semaphores. A semaphore is its value. What other processes do
-- while this one waits is the argument of type `Wait`; `sem_open` and `malloc` do not fail here,
-- and the caller gives a place for the error.
use localmemcache.Base.{
  ℕ, zero, suc, ◌+◌, ◌-◌, ◌/◌, ◌%◌, ◌^◌, ◌≡◌, refl, arith, ltb, ◌==◌, if◌then◌else◌, Bool, true,
  false, not, ◌&&◌, ==→eq, false≢true, sym, ◌∙◌, subst, Bool-cases, Option, none, some, List, [],
  ◌∷◌, Option-cases, eq→==, ne→==, inl, inr, take,
}
use localmemcache.Common.{lmc_hash, lmc_clean_string, lmc_is_filename}
use localmemcache.Errors.{Status, ok, failed, lock_timed_out, lock_error}

-- the end of a wait for a semaphore of value 0
pub data Wait : Type 0 where
  posted timed_out interrupted : Wait

abbrev pub sem_value_max : ℕ
sem_value_max = 2 ^ 31 - 1

abbrev pub sem_trywait : ℕ → Bool × ℕ
sem_trywait zero = (false, 0)
sem_trywait (suc v) = (true, v)

abbrev pub sem_post : ℕ → Bool × ℕ
sem_post v = if ltb v sem_value_max then (true, v + 1) else (false, v)

abbrev pub sem_timedwait : Wait → ℕ → Wait × ℕ
sem_timedwait w zero = (w, 0)
sem_timedwait w (suc v) = (posted, v)

unfoldable pub lmc_is_locked : ℕ → Bool × ℕ
lmc_is_locked v =
    let (taken, v') = sem_trywait v in if not taken then (true, v') else (false, (sem_post v').1)

unfoldable pub lmc_sem_timed_wait : Wait → ℕ → Wait × ℕ
lmc_sem_timed_wait w v = sem_timedwait w v

unfoldable pub lmc_sem_timed_wait_mandatory : Wait → ℕ → Wait × ℕ
lmc_sem_timed_wait_mandatory w v = sem_timedwait w v

unfoldable pub lmc_is_lock_working : Wait → ℕ → Bool × ℕ
lmc_is_lock_working w v =
    let (r, v') = lmc_sem_timed_wait w v in
    elim r [ posted ↦ (true, (sem_post v').1) | _ ↦ (false, v') ]

-- `while (v > 1) { sem_wait(l->sem); sem_getvalue(l->sem, &v); }`
unfoldable pub repair_loop : ℕ → ℕ
repair_loop zero = zero
repair_loop (suc zero) = suc zero
repair_loop (suc (suc v)) = repair_loop (suc v)

unfoldable pub lmc_lock_repair : ℕ → ℕ
lmc_lock_repair v = repair_loop (if v == 0 then (sem_post v).1 else v)

unfoldable pub lmc_lock_get_value : ℕ → ℕ
lmc_lock_get_value v = v

-- what `lmc_lock_obtain` makes of the end of a wait
unfoldable pub obtained : Wait × ℕ → Status × ℕ
obtained (posted, v) = (ok, v)
obtained (timed_out, v) = (failed lock_timed_out, v)
obtained (interrupted, v) = (failed lock_error, v)

unfoldable pub lmc_lock_obtain : Wait → ℕ → Status × ℕ
lmc_lock_obtain w v =
    let (taken, v') = sem_trywait v in
    if taken then (ok, v') else obtained (lmc_sem_timed_wait w v')

unfoldable pub lmc_lock_obtain_mandatory : Wait → ℕ → Status × ℕ
lmc_lock_obtain_mandatory w v = obtained (lmc_sem_timed_wait_mandatory w v)

unfoldable pub lmc_lock_release : ℕ → Status × ℕ
lmc_lock_release v =
    let (done, v') = sem_post v in if done then (ok, v') else (failed lock_error, v')

-- `%zX`
hex_digit : ℕ → ℕ
hex_digit d = if ltb d 10 then b'0' + d else b'A' + (d - 10)

unfoldable pub hex : ℕ → ℕ → List ℕ → List ℕ
unfolding hex_digit
hex zero v ds = ds
hex (suc k) v ds =
    let rest = hex k (v / 16) (hex_digit (v % 16) ∷ ds) in
    if ltb v 16 then hex_digit v ∷ ds else rest

-- `snprintf` keeps 14 characters.
unfoldable pub lmc_namespacify : List ℕ → List ℕ
lmc_namespacify s =
    let cs = if lmc_is_filename s then lmc_clean_string s else s in
    take 14 (b'/' ∷ b'l' ∷ b'm' ∷ b'c' ∷ b'-' ∷ hex 16 (lmc_hash cs) [])

abbrev pub same_name : List ℕ → List ℕ → Bool
same_name [] [] = true
same_name (c ∷ cs) (d ∷ ds) = (c == d) && same_name cs ds
same_name cs ds = false

pub same_name_refl : (cs : List ℕ) → same_name cs cs ≡ true
same_name_refl [] = refl
same_name_refl (c ∷ cs) = rw (eq→== c c refl) (same_name_refl cs)

both : (a b : Bool) → (a && b) ≡ true → (a ≡ true) × (b ≡ true)
both true b h = (refl, h)
both false b h = absurd (false≢true h)

pub same_name→eq : (cs ds : List ℕ) → same_name cs ds ≡ true → cs ≡ ds
same_name→eq [] [] h = refl
same_name→eq (c ∷ cs) (d ∷ ds) h =
    let (e, es) = both (c == d) (same_name cs ds) h in rw (==→eq c d e, same_name→eq cs ds es) refl
same_name→eq [] (d ∷ ds) h = absurd (false≢true h)
same_name→eq (c ∷ cs) [] h = absurd (false≢true h)

pub same_name_sym : (cs ds : List ℕ) → same_name cs ds ≡ false → same_name ds cs ≡ false
same_name_sym cs ds h = elim (Bool-cases (same_name ds cs)) [
  | inr e ↦ e
  | inl e ↦ absurd (
      false≢true (
        sym h
        ∙ subst (λ n. same_name cs n ≡ true) (sym (same_name→eq ds cs e)) (same_name_refl cs)))
]

-- the semaphores of the system, by name
abbrev pub Semaphores : Type 0
Semaphores = List ℕ → Option ℕ

abbrev pub put : List ℕ → ℕ → Semaphores → Semaphores
put name v sems n = if same_name n name then some v else sems n

-- the semaphore's name, and the semaphores with it
unfoldable pub lmc_lock_init : List ℕ → ℕ → Semaphores → List ℕ × Semaphores
lmc_lock_init ns init sems =
    let name = lmc_namespacify ns in
    (name, elim (sems name) [ none ↦ put name init sems | some v ↦ sems ])

repair_at : List ℕ × Semaphores → Semaphores
repair_at (name, sems) = elim (sems name) [
  | none ↦ sems
  | some v ↦ put name (lmc_lock_repair v) sems
]

-- `lmc_lock_init` makes a name of `ns` for the second time here.
unfoldable pub lmc_clear_namespace_lock : List ℕ → Semaphores → Semaphores
unfolding repair_at
lmc_clear_namespace_lock ns sems = repair_at (lmc_lock_init (lmc_namespacify ns) 1 sems)

repair_loop-one : (v : ℕ) → repair_loop (suc v) ≡ 1
unfolding repair_loop
repair_loop-one zero = refl
repair_loop-one (suc v) = repair_loop-one v

repaired : (v : ℕ) → lmc_lock_repair v ≡ 1
unfolding lmc_lock_repair
repaired zero = repair_loop-one 0
repaired (suc v) = rw (ne→== (suc v) 0 (omega arith)) (repair_loop-one v)

-- Whatever the value of a semaphore, it is 1 after `lmc_lock_repair`, and then
-- `lmc_lock_obtain` takes it without a wait.
pub lmc_lock_repair-one :
    (w : Wait) (v : ℕ) → (lmc_lock_repair v ≡ 1) × (lmc_lock_obtain w (lmc_lock_repair v) ≡ (ok, 0))
unfolding lmc_lock_obtain
lmc_lock_repair-one w v = (repaired v, rw (repaired v) refl)

-- `lmc_clear_namespace_lock ns` changes no semaphore but the one whose name is made from the
-- name of `ns`, so not that of `ns` where the two differ.
pub lmc_clear_namespace_lock-other :
    (ns name : List ℕ) (sems : Semaphores)
    → same_name name (lmc_namespacify (lmc_namespacify ns)) ≡ false
    → lmc_clear_namespace_lock ns sems name ≡ sems name
unfolding lmc_clear_namespace_lock lmc_lock_init repair_at
lmc_clear_namespace_lock-other ns name sems other =
    let second = lmc_namespacify (lmc_namespacify ns) in
    elim (Option-cases (sems second)) [
      | inl e ↦ rw (e, same_name_refl second, other, e, other) refl
      | inr (v, e) ↦ rw (e, e, other, e) refl
    ]
