-- ===== src/Shm/Attach.antt =====
-- `lmc_shm_create` for a file that is there, where no system call fails.
use localmemcache.Base.{
  ℕ, ◌+◌, ◌-◌, ◌≤◌, ◌<◌, ◌^◌, max, ◌≡◌, refl, ap, arith, none, some, false, true, List, eq→==, take,
  lt→ltb, ge→ltb,
}
use localmemcache.Cmd.{done}
use localmemcache.Cmd.Ends.{Ends, ends, outcome}
use localmemcache.Lock.{same_name_refl}
use localmemcache.Memory.{Mem, set_byte}
use localmemcache.Shm.{
  LmcShm, lmc_shm_create, map_file, lmc_shm_ensure_namespace_file, lmc_shm_ensure_root_path,
  lmc_does_namespace_exist, lmc_does_file_exist, lmc_file_path_for_namespace,
  lmc_namespace_root_path, lmc_namespace_size, lmc_file_size, int_as_size,
}
use localmemcache.System.{Env, World, directory, regular, new_file, tick}
use localmemcache.Word.{wsub}

-- Files that are there, and an operating system that refuses nothing.
pub record Ready (env : Env) (ns : List ℕ) (i : ℕ) (w : World) : Type 0 where
  pub allowed : (t : ℕ) → env.refuses t ≡ false
  pub root : w.paths (lmc_namespace_root_path env.root) ≡ some directory
  pub file : w.paths (lmc_file_path_for_namespace env.root ns) ≡ some (regular i)

-- the handle of a file
abbrev pub mapped : List ℕ → (size i : ℕ) → LmcShm
mapped ns size i = record { namespace = ns; size = size; fd = i }

-- Everything but the clock is as in `w`, up to the file `i`, whose bytes are `m`.
pub record Rewritten (w : World) (i : ℕ) (m : Mem) (z : ℕ) (w' : World) : Type 0 where
  pub sems : w'.sems ≡ w.sems
  pub paths : w'.paths ≡ w.paths
  pub bytes : w'.contents i ≡ m
  pub length : w'.st_size i ≡ z

module _ (env : Env) (ns : List ℕ) (i : ℕ) (w : World) (ready : Ready env ns i w) where
  pub namespace_there : lmc_does_namespace_exist env ns w ≡ done true w
  unfolding lmc_does_namespace_exist lmc_does_file_exist
  namespace_there = rw ready.file refl

  pub size_as_int : lmc_namespace_size env ns w ≡ done (int_as_size (w.st_size i)) w
  unfolding lmc_namespace_size lmc_does_file_exist lmc_file_size
  size_as_int = rw (ready.file, ready.file) refl

  file_ensured : lmc_shm_ensure_namespace_file env ns w ≡ done tt w
  unfolding lmc_shm_ensure_namespace_file lmc_shm_ensure_root_path lmc_does_file_exist
  file_ensured = rw (ready.root, namespace_there) refl

  -- For a file that is there, a name of at most 1022 characters and a size from 1 to 2 ^ 63,
  -- where the root directory is there and no system call fails, `lmc_shm_create` returns a
  -- handle; the byte at the last offset of that size is 0 then, whatever it was, the file is
  -- as long as the longer of both, and its other bytes, the paths and the semaphores are the
  -- same.
  pub lmc_shm_create-writes :
      (size : ℕ)
      → take 1022 ns ≡ ns
      → 0 < size
      → size ≤ 2 ^ 63
      → Ends
          (λ r w'.
            (r ≡ some (mapped ns size i))
            × Rewritten w i (set_byte (w.contents i) (size - 1) 0) (max (w.st_size i) size) w')
          (lmc_shm_create env ns size w)
  unfolding lmc_shm_create map_file
  lmc_shm_create-writes size short positive small =
      let offset : wsub size 1 ≡ size - 1 = omega arith in
      let last : size - 1 + 1 ≡ size = omega arith in
      rw
        (
          short,
          file_ensured,
          ready.allowed w.clock,
          ready.file,
          ready.allowed (w.clock + 1),
          offset,
          lt→ltb (size - 1) (2 ^ 63) (omega arith),
          ready.allowed (w.clock + 1 + 1),
          ready.allowed (w.clock + 1 + 1 + 1),
        )
        (ends (
          ap (λ n. some (mapped n size i)) short,
          record {
            sems = refl;
            paths = refl;
            bytes = rw (eq→== i i refl) refl;
            length = rw (eq→== i i refl, last) refl;
          },
        ))

  pub lmc_shm_create-negative :
      (size : ℕ)
      → take 1022 ns ≡ ns
      → 2 ^ 63 ≤ wsub size 1
      → Ends
          (λ r w'. (r ≡ none) × Rewritten w i (w.contents i) (w.st_size i) w')
          (lmc_shm_create env ns size w)
  unfolding lmc_shm_create map_file
  lmc_shm_create-negative size short large =
      rw
        (
          short,
          file_ensured,
          ready.allowed w.clock,
          ready.file,
          ready.allowed (w.clock + 1),
          ge→ltb (wsub size 1) (2 ^ 63) large,
        )
        (ends (refl, record { sems = refl; paths = refl; bytes = refl; length = refl }))

-- The file is not there, and is made.
module _ (env : Env) (ns : List ℕ) (w : World) (allowed : (t : ℕ) → env.refuses t ≡ false)
    (root : w.paths (lmc_namespace_root_path env.root) ≡ some directory)
    (missing : w.paths (lmc_file_path_for_namespace env.root ns) ≡ none) where
  file_made :
      Ends
        (λ _ w'. w' ≡ new_file (lmc_file_path_for_namespace env.root ns) (tick w))
        (lmc_shm_ensure_namespace_file env ns w)
  unfolding lmc_shm_ensure_namespace_file lmc_shm_ensure_root_path lmc_does_file_exist
      lmc_does_namespace_exist
  file_made = rw (root, missing, allowed w.clock, missing) (ends refl)

  pub lmc_shm_create-new :
      (size : ℕ)
      → take 1022 ns ≡ ns
      → 0 < size
      → size ≤ 2 ^ 63
      → Ends
          (λ r w'.
            (r ≡ some (mapped ns size w.next_inode))
            × (w'.sems ≡ w.sems)
            × (w'.contents w.next_inode ≡ set_byte (λ _. 0) (size - 1) 0)
            × (w'.paths (lmc_file_path_for_namespace env.root ns) ≡ some (regular w.next_inode)))
          (lmc_shm_create env ns size w)
  unfolding lmc_shm_create map_file
  lmc_shm_create-new size short positive small =
      let i = w.next_inode in
      let fn = lmc_file_path_for_namespace env.root ns in
      let offset : wsub size 1 ≡ size - 1 = omega arith in
      let (x, w1, run, e) = outcome file_made in
      rw
        (
          short,
          run,
          e,
          allowed (w.clock + 1),
          same_name_refl fn,
          allowed (w.clock + 1 + 1),
          offset,
          lt→ltb (size - 1) (2 ^ 63) (omega arith),
          allowed (w.clock + 1 + 1 + 1),
          allowed (w.clock + 1 + 1 + 1 + 1),
        )
        (ends (
          ap (λ n. some (mapped n size i)) short,
          refl,
          rw (eq→== i i refl) refl,
          rw (same_name_refl fn) refl,
        ))
