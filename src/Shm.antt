-- ===== src/Shm.antt =====
-- src/lmc_shm.c: the files of pools, and mapping them. `calloc` does not fail here, and the caller
-- gives a place for the error, which always has the type `ShmError`.
pub mod Attach
use localmemcache.Base.{
  ℕ, ◌+◌, ◌-◌, ◌%◌, ◌^◌, ltb, ◌==◌, if◌then◌else◌, Bool, true, false, not, Option, none, some, List,
  ◌∷◌, [], ◌++◌, take,
}
use localmemcache.Cmd.{done, pure, ◌>>=◌, ◌>>◌}
use localmemcache.Common.{lmc_is_filename}
use localmemcache.Errors.{Status, ok, failed, shm_error}
use localmemcache.System.{
  Env, Node, directory, regular, World, Sys, syscall, mkdir, unlink, touch, open_rdwr, write_at,
}
use localmemcache.Word.{wsub, size_max}

unfoldable pub lmc_namespace_root_path : Option (List ℕ) → List ℕ
lmc_namespace_root_path (some ep) = ep
lmc_namespace_root_path none =
    b'/' ∷ b'v' ∷ b'a' ∷ b'r' ∷ b'/' ∷ b't' ∷ b'm' ∷ b'p' ∷ b'/' ∷ b'l' ∷ b'o' ∷ b'c' ∷ b'a' ∷ b'l'
    ∷ b'm' ∷ b'e' ∷ b'm' ∷ b'c' ∷ b'a' ∷ b'c' ∷ b'h' ∷ b'e' ∷ []

-- `ep` is the value of LMC_NAMESPACES_ROOT_PATH.
unfoldable pub lmc_file_path_for_namespace : (ep : Option (List ℕ)) (ns : List ℕ) → List ℕ
lmc_file_path_for_namespace ep ns =
    if lmc_is_filename ns
    then take 1022 ns
    else take 1022 (lmc_namespace_root_path ep ++ b'/' ∷ ns ++ b'.' ∷ b'l' ∷ b'm' ∷ b'c' ∷ [])

abbrev exists : Option Node → Bool
exists none = false
exists (some node) = true

unfoldable pub lmc_does_file_exist : List ℕ → Sys Bool
lmc_does_file_exist fn w = done (exists (w.paths fn)) w

-- the value of an `int` as a `size_t`, for the low 32 bits of a number
abbrev pub int_as_size : ℕ → ℕ
int_as_size v = let b = v % 2 ^ 32 in if ltb b (2 ^ 31) then b else size_max - 2 ^ 32 + b

abbrev pub st_size_of : Env → World → Option Node → ℕ
st_size_of env w none = 0
st_size_of env w (some directory) = env.directory_size
st_size_of env w (some (regular i)) = w.st_size i

-- The result is an `int`, which its callers make a `size_t`.
unfoldable pub lmc_file_size : Env → List ℕ → Sys ℕ
lmc_file_size env fn w = done (int_as_size (st_size_of env w (w.paths fn))) w

unfoldable pub lmc_shm_ensure_root_path : Env → Sys (Unit {0})
lmc_shm_ensure_root_path env = do
  e ← lmc_does_file_exist (lmc_namespace_root_path env.root)
  if e then pure tt else mkdir env (lmc_namespace_root_path env.root)

unfoldable pub lmc_does_namespace_exist : Env → List ℕ → Sys Bool
lmc_does_namespace_exist env ns = lmc_does_file_exist (lmc_file_path_for_namespace env.root ns)

unfoldable pub lmc_namespace_size : Env → List ℕ → Sys ℕ
lmc_namespace_size env ns = do
  let fn = lmc_file_path_for_namespace env.root ns
  e ← lmc_does_file_exist fn
  if e then lmc_file_size env fn else pure 0

unfoldable pub lmc_clean_namespace : Env → List ℕ → Sys Status
lmc_clean_namespace env ns = do
  lmc_shm_ensure_root_path env
  e ← lmc_does_namespace_exist env ns
  if not e then pure ok else do
    removed ← unlink env (lmc_file_path_for_namespace env.root ns)
    pure (if removed then ok else failed shm_error)

unfoldable pub lmc_shm_ensure_namespace_file : Env → List ℕ → Sys (Unit {0})
lmc_shm_ensure_namespace_file env ns = do
  lmc_shm_ensure_root_path env
  e ← lmc_does_namespace_exist env ns
  if e then pure tt else touch env (lmc_file_path_for_namespace env.root ns)

-- `lmc_shm_t`. The open file `fd`, which is mapped at `base`, is its inode.
pub record LmcShm : Type 0 where
  pub namespace : List ℕ
  pub size : ℕ
  pub fd : ℕ

-- From `lseek` on: a byte 0 is written at the end of the file, which is mapped then. An offset of
-- 2 ^ 63 or more is negative.
unfoldable pub map_file : Env → (ns : List ℕ) (size fd : ℕ) → Sys (Option LmcShm)
map_file env ns size fd = do
  seek_refused ← syscall env
  if seek_refused then pure none else if not (ltb (wsub size 1) (2 ^ 63)) then pure none else do
    done_writing ← write_at env fd (wsub size 1) 0
    if not done_writing then pure none else do
      map_refused ← syscall env
      pure (if map_refused then none else some (record { namespace = ns; size = size; fd = fd }))

-- `none` is a null pointer, with the error `ShmError`.
unfoldable pub lmc_shm_create : Env → (namespace : List ℕ) (size : ℕ) → Sys (Option LmcShm)
lmc_shm_create env namespace size = do
  let ns = take 1022 namespace
  lmc_shm_ensure_namespace_file env ns
  fd ← open_rdwr env (lmc_file_path_for_namespace env.root ns)
  elim fd [ none ↦ pure none | some i ↦ map_file env ns size i ]

unfoldable pub lmc_shm_destroy : Env → LmcShm → Sys Status
lmc_shm_destroy env mc = do refused ← syscall env; pure (if refused then failed shm_error else ok)
