-- ===== src/System.antt =====
-- What the library asks of the operating system: named semaphores, files that are mapped, and
-- system calls that may fail. What other processes do during a wait is a part of the environment.
pub mod Laws
use localmemcache.Base.{
  ℕ, ◌+◌, max, ◌==◌, if◌then◌else◌, Bool, true, false, Option, none, some, List,
}
use localmemcache.Cmd.{Cmd, RunOn, StateCmd, done, stopped, pure, ◌>>=◌}
use localmemcache.Lock.{Wait, Semaphores, put, same_name, lmc_lock_init}
use localmemcache.Memory.{Mem, set_byte}

-- What a path leads to. A regular file is the number of its inode.
pub data Node : Type 0 where
  directory : Node
  regular : ℕ → Node

-- The bytes of a file are seen by every process that maps it, also after the file is unlinked.
-- `clock` counts the system calls that the environment has a say in.
pub record World : Type 0 where
  pub sems : Semaphores
  pub paths : List ℕ → Option Node
  pub contents : ℕ → Mem
  pub st_size : ℕ → ℕ
  pub next_inode : ℕ
  pub clock : ℕ

-- `refuses` says which system calls fail, `others` what other processes do during a wait, and `wait`
-- how it ends if they leave the semaphore at 0. `root` is the value of LMC_NAMESPACES_ROOT_PATH.
pub record Env : Type 0 where
  pub root : Option (List ℕ)
  pub directory_size : ℕ
  pub refuses : ℕ → Bool
  pub others : ℕ → World → World
  pub wait : ℕ → Wait

abbrev pub Sys : Type 0 → Type 0
Sys = StateCmd World

abbrev pub tick : World → World
tick w = record w { clock = w.clock + 1 }

abbrev pub syscall : Env → Sys Bool
syscall env w = done (env.refuses w.clock) (tick w)

abbrev pub value_or_zero : Option ℕ → ℕ
value_or_zero none = 0
value_or_zero (some v) = v

abbrev pub sem_value : World → List ℕ → ℕ
sem_value w name = value_or_zero (w.sems name)

abbrev pub with_sem : {A : Type 0} → List ℕ → World → A × ℕ → RunOn World A
with_sem name w (a, v) = done a (record w { sems = put name v w.sems })

unfoldable pub on_sem : {A : Type 0} → List ℕ → (ℕ → A × ℕ) → Sys A
on_sem name f w = with_sem name w (f (sem_value w name))

-- The same for code that waits while the semaphore is 0.
unfoldable pub waiting : {A : Type 0} → Env → List ℕ → (Wait → ℕ → A × ℕ) → Sys A
unfolding on_sem
waiting env name f w =
    on_sem name (f (env.wait w.clock))
      (if sem_value w name == 0 then env.others w.clock (tick w) else w)

abbrev pub on_sems : {A : Type 0} → (Semaphores → A × Semaphores) → Sys A
on_sems f w = let (a, s) = f w.sems in done a (record w { sems = s })

unfoldable pub open_lock : List ℕ → Sys (List ℕ)
open_lock ns = on_sems (lmc_lock_init ns 1)

abbrev pub set_contents : World → ℕ → Mem → World
set_contents w i m = record w { contents = λ j. if j == i then m else w.contents j }

abbrev pub with_contents : {A : Type 0} → World → ℕ → RunOn Mem A → RunOn World A
with_contents w i (done a m) = done a (set_contents w i m)
with_contents w i (stopped f) = stopped f

-- Code over the mapped bytes of a file.
abbrev pub on_file : {A : Type 0} → ℕ → Cmd A → Sys A
on_file i c w = with_contents w i (c (w.contents i))

abbrev pub set_path : List ℕ → Option Node → World → World
set_path fn node w = record w { paths = λ p. if same_name p fn then node else w.paths p }

abbrev pub mkdir : Env → List ℕ → Sys (Unit {0})
mkdir env fn = do
  refused ← syscall env
  if refused then pure tt else λ w. done tt (set_path fn (some directory) w)

abbrev pub unlink : Env → List ℕ → Sys Bool
unlink env fn = do
  refused ← syscall env
  if refused then pure false else λ w. done true (set_path fn none w)

-- an empty file at a path that leads nowhere
abbrev pub new_file : List ℕ → World → World
new_file fn w =
    let i = w.next_inode in
    set_path fn (some (regular i)) (record w {
      contents = λ j. if j == i then (λ _. 0) else w.contents j;
      st_size = λ j. if j == i then 0 else w.st_size j;
      next_inode = i + 1;
    })

-- `close(open(fn, O_CREAT, 0777))`
abbrev pub touch : Env → List ℕ → Sys (Unit {0})
touch env fn = do
  refused ← syscall env
  if refused then pure tt else λ w.
      done tt (elim (w.paths fn) [ none ↦ new_file fn w | some node ↦ w ])

abbrev inode_of : Option Node → Option ℕ
inode_of (some (regular i)) = some i
inode_of n = none

-- `open(fn, O_RDWR)`
abbrev pub open_rdwr : Env → List ℕ → Sys (Option ℕ)
open_rdwr env fn = do
  refused ← syscall env
  if refused then pure none else λ w. done (inode_of (w.paths fn)) w

-- one byte at an offset, which makes the file longer where it ends before it
abbrev pub written : World → ℕ → ℕ → ℕ → World
written w i ofs b = record w {
  contents = λ j. if j == i then set_byte (w.contents i) ofs b else w.contents j;
  st_size = λ j. if j == i then max (w.st_size i) (ofs + 1) else w.st_size j;
}

abbrev pub write_at : Env → (i ofs b : ℕ) → Sys Bool
write_at env i ofs b = do
  refused ← syscall env
  if refused then pure false else λ w. done true (written w i ofs b)
