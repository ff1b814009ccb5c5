-- ===== src/Errors.antt =====
-- src/lmc_error.c: the record of an error, and the error types of its callers. A text is the list of
-- its bytes; a null pointer is `none`.
use localmemcache.Base.{
  ℕ, Bool, true, false, if◌then◌else◌, Option, none, some, List, [], ◌∷◌, ◌++◌, take,
}

pub data ErrorType : Type 0 where
  memory_pool_full shm_lock_failed shm_unlock_failed arg_error lock_timed_out lock_error : ErrorType
  db_version_not_supported shm_error recovery_failed : ErrorType
  -- The call has failed without an error of its own.
  not_reported : ErrorType

-- what an operation that may fail returns: 1, or 0 with the type of the error it has put in `e`
pub data Status : Type 0 where
  ok : Status
  failed : ErrorType → Status

-- the type in `e` when a call with this status follows an error
abbrev pub later : ErrorType → Status → ErrorType
later e ok = e
later e (failed e') = e'

-- `lmc_error_t`
pub record LmcError : Type 0 where
  pub error_str : List ℕ
  pub error_type : List ℕ
  pub error_number : ℕ

-- `snprintf` keeps 1022 characters. Without a place for the error the result is `LMC_OK`, which is
-- `true` here. `errno` is the value of that variable.
unfoldable pub lmc_handle_error_with_err_string :
    (errno : ℕ) (ctx error_msg error_type : List ℕ) (handle : Option (List ℕ))
    → Option LmcError
    → Bool × Option LmcError
lmc_handle_error_with_err_string errno ctx error_msg error_type handle none = (true, none)
lmc_handle_error_with_err_string errno ctx error_msg error_type handle (some e) =
    let h : List ℕ = elim handle [
      | none ↦ []
      | some s ↦ take 1022 (b' ' ∷ b'\'' ∷ s ++ b'\'' ∷ [])
    ] in
    (
      false,
      some (record {
        error_str = take 1022 (ctx ++ h ++ b':' ∷ b' ' ∷ error_msg);
        error_type = take 1022 error_type;
        error_number = errno;
      }),
    )

-- `strerror` is the function of that name.
unfoldable pub lmc_handle_error :
    (strerror : ℕ → List ℕ) (errno : ℕ) (check : Bool) (ctx error_type : List ℕ)
    (handle : Option (List ℕ))
    → Option LmcError
    → Bool × Option LmcError
lmc_handle_error strerror errno check ctx error_type handle e =
    if check
    then lmc_handle_error_with_err_string errno ctx (strerror errno) error_type handle e
    else (true, e)
