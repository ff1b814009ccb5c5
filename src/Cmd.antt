-- ===== src/Cmd.antt =====
-- Code that reads and writes a state, mostly the mapped memory: it ends with a value and the state,
-- or it stops.
pub mod Ends
use localmemcache.Base.{ℕ, Bool, if◌then◌else◌}
use localmemcache.Memory.{Mem, word, set_word, int, set_int}

-- `aborted` is a call of `abort`; `out_of_fuel` stands for a loop that does not end, `null_pointer` for a
-- use of a null pointer.
pub data Fault : Type 0 where
  out_of_fuel aborted null_pointer : Fault

pub data RunOn (S A : Type 0) : Type 0 where
  done : A → S → RunOn S A
  stopped : Fault → RunOn S A

-- code with a state of type `S`
abbrev pub StateCmd : Type 0 → Type 0 → Type 0
StateCmd S A = S → RunOn S A

abbrev pub Run : Type 0 → Type 0
Run = RunOn Mem

abbrev pub Cmd : Type 0 → Type 0
Cmd = StateCmd Mem

abbrev pub pure : {S A : Type 0} → A → StateCmd S A
pure a m = done a m

abbrev pub stop : {S A : Type 0} → Fault → StateCmd S A
stop e m = stopped e

abbrev pub and_then : {S A B : Type 0} → RunOn S A → (A → StateCmd S B) → RunOn S B
and_then (done a m) f = f a m
and_then (stopped e) f = stopped e

infixl 5 ◌>>=◌ ◌>>◌
abbrev pub ◌>>=◌ : {S A B : Type 0} → StateCmd S A → (A → StateCmd S B) → StateCmd S B
◌>>=◌ c f m = and_then (c m) f

abbrev pub ◌>>◌ : {S B : Type 0} → StateCmd S (Unit {0}) → StateCmd S B → StateCmd S B
c >> k = c >>= λ _. k

-- a `size_t` and an `int` of the mapped memory
abbrev pub read : ℕ → Cmd ℕ
read a m = done (word m a) m

abbrev pub write : ℕ → ℕ → Cmd (Unit {0})
write a v m = done tt (set_word m a v)

abbrev pub read_int : ℕ → Cmd ℕ
read_int a m = done (int m a) m

abbrev pub write_int : ℕ → ℕ → Cmd (Unit {0})
write_int a v m = done tt (set_int m a v)

-- `if (b) c;`
abbrev pub when : Bool → Cmd (Unit {0}) → Cmd (Unit {0})
when b c = if b then c else pure tt
