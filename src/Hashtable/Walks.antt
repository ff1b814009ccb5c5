-- ===== src/Hashtable/Walks.antt =====
-- The walks of src/lmc_hashtable.c over the whole table: iteration in slices, a random pair, and
-- the check of the memory.
use localmemcache.Base.{
  ℕ, zero, suc, ◌+◌, ◌-◌, ◌%◌, ltb, ◌==◌, if◌then◌else◌, Bool, true, false, not, Option, none, some,
}
use localmemcache.Cmd.{Cmd, pure, stop, out_of_fuel, aborted, ◌>>=◌, ◌>>◌, read}
use localmemcache.Hashtable.{
  lmc_ht_buckets, bucket, va_next, va_key, va_value, lmc_string_data, lmc_string_len,
}
use localmemcache.Memory.{Mem}
use localmemcache.Valloc.{rounds}
use localmemcache.Valloc.Usage.{
  lmc_um_new_mem_usage_bitmap, lmc_um_mark_allocated, lmc_um_find_leaks,
}

-- `ht_iter_status_t`: where the next call goes on
pub record IterStatus : Type 0 where
  pub ofs : ℕ
  pub bucket_ofs : ℕ

-- what the loops of `ht_hash_iterate` keep, and the state `ctx` of the function they call
pub record Slice (X : Type 0) : Type 0 where
  pub item_c : ℕ
  pub slice_counter : ℕ
  pub ctx : X

module _ {X : Type 0} (iter : X → (va_key va_value : ℕ) → Cmd X) where
  -- One round of the inner loop; the `Bool` says whether the slice is full.
  unfoldable pub visit : (ofs va_hr : ℕ) → Slice X → Cmd (Bool × Slice X)
  visit ofs va_hr s =
      let item = s.item_c + 1 in
      if not (ltb ofs item) then pure (false, record s { item_c = item }) else do
        k ← read (va_key va_hr)
        v ← read (va_value va_hr)
        x ← iter s.ctx k v
        pure (
          ltb 999 (s.slice_counter + 1),
          record { item_c = item; slice_counter = s.slice_counter + 1; ctx = x },
        )

  unfoldable pub chain_loop : ℕ → (ofs va_hr : ℕ) → Slice X → Cmd (Bool × Slice X)
  chain_loop zero ofs va_hr s = stop out_of_fuel
  chain_loop (suc k) ofs va_hr s = if va_hr == 0 then pure (false, s) else do
    (full, s') ← visit ofs va_hr s
    if full then pure (true, s') else do n ← read (va_next va_hr); chain_loop k ofs n s'

  -- The outer loop, with `left` buckets still to visit. The result is 1, or 2 for a full slice.
  unfoldable pub iterate_loop : (left va_ht k : ℕ) → IterStatus → Slice X → Cmd (ℕ × IterStatus × X)
  iterate_loop zero va_ht k status s = pure (1, status, s.ctx)
  iterate_loop (suc left) va_ht k status s = do
    va_hr ← read (bucket va_ht k)
    fuel ← rounds
    (full, s') ← chain_loop fuel status.ofs va_hr s
    if full
        then pure (2, record status { ofs = s'.item_c }, s'.ctx)
        else iterate_loop left va_ht (k + 1)
            (record { ofs = 0; bucket_ofs = status.bucket_ofs + 1 }) (record s' { item_c = 0 })

  unfoldable pub ht_hash_iterate : ℕ → X → IterStatus → Cmd (ℕ × IterStatus × X)
  ht_hash_iterate va_ht x status =
      iterate_loop (lmc_ht_buckets - status.bucket_ofs) va_ht status.bucket_ofs status
        (record { item_c = 0; slice_counter = 0; ctx = x })

-- The loops of `ht_random_pair`: how many buckets are filled,
unfoldable pub count_filled : (left va_ht k filled : ℕ) → Cmd ℕ
count_filled zero va_ht k filled = pure filled
count_filled (suc left) va_ht k filled = do
  b ← read (bucket va_ht k)
  count_filled left va_ht (k + 1) (if b == 0 then filled else filled + 1)

-- the filled bucket of number `bnr`, and how long its chain is.
unfoldable pub pick_bucket : (left va_ht k bnr : ℕ) → Cmd ℕ
pick_bucket zero va_ht k bnr = stop aborted
pick_bucket (suc left) va_ht k bnr = do
  b ← read (bucket va_ht k)
  if b == 0
      then pick_bucket left va_ht (k + 1) bnr
      else if ltb bnr 1
      then pure k
      else pick_bucket left va_ht (k + 1) (bnr - 1)

unfoldable pub chain_length : ℕ → (va_hr pair_counter : ℕ) → Cmd ℕ
chain_length zero va_hr pair_counter = stop out_of_fuel
chain_length (suc k) va_hr pair_counter =
    if va_hr == 0
    then pure pair_counter
    else do n ← read (va_next va_hr); chain_length k n (pair_counter + 1)

unfoldable pub pick_entry : ℕ → (va_hr random_pair : ℕ) → Cmd ℕ
pick_entry zero va_hr random_pair = stop out_of_fuel
pick_entry (suc k) va_hr random_pair =
    if va_hr == 0
    then stop aborted
    else if ltb random_pair 1
    then pure va_hr
    else do n ← read (va_next va_hr); pick_entry k n (random_pair - 1)

-- where a string is, and how long it is
pub record StringAt : Type 0 where
  pub data_at : ℕ
  pub n : ℕ

abbrev string_at : ℕ → Cmd StringAt
string_at s = do l ← lmc_string_len s; pure (record { data_at = lmc_string_data s; n = l })

-- The end of `ht_random_pair`, for the filled bucket `rk`. `rand2` is what the second call of
-- `rand` returns.
unfoldable pub random_entry : (rand2 va_ht rk : ℕ) → Cmd (Option (StringAt × StringAt))
random_entry rand2 va_ht rk = do
  head ← read (bucket va_ht rk)
  fuel ← rounds
  pair_counter ← chain_length fuel head 0
  hr ← pick_entry fuel head (rand2 % pair_counter)
  k ← read (va_key hr)
  v ← read (va_value hr)
  key ← string_at k
  value ← string_at v
  pure (some (key, value))

unfoldable pub ht_random_pair : (rand1 rand2 va_ht : ℕ) → Cmd (Option (StringAt × StringAt))
ht_random_pair rand1 rand2 va_ht = do
  filled_buckets ← count_filled lmc_ht_buckets va_ht 0 0
  if filled_buckets == 0 then pure none else do
    rk ← pick_bucket lmc_ht_buckets va_ht 0 (rand1 % filled_buckets)
    random_entry rand2 va_ht rk

-- `if (!lmc_um_mark_allocated(...)) goto failed;`
abbrev and_mark : Option Mem → ℕ → Cmd (Option Mem)
and_mark none va = pure none
and_mark (some bf) va = lmc_um_mark_allocated bf va

unfoldable pub mark_chain : ℕ → Mem → ℕ → Cmd (Option Mem)
mark_chain zero bf va_hr = stop out_of_fuel
mark_chain (suc fuel) bf va_hr = if va_hr == 0 then pure (some bf) else do
  entry ← lmc_um_mark_allocated bf va_hr
  k ← read (va_key va_hr)
  key ← and_mark entry k
  v ← read (va_value va_hr)
  value ← and_mark key v
  elim value [ none ↦ pure none | some bf' ↦ do n ← read (va_next va_hr); mark_chain fuel bf' n ]

unfoldable pub mark_buckets : (left va_ht k : ℕ) → Mem → Cmd (Option Mem)
mark_buckets zero va_ht k bf = pure (some bf)
mark_buckets (suc left) va_ht k bf = do
  va_hr ← read (bucket va_ht k)
  fuel ← rounds
  marked ← mark_chain fuel bf va_hr
  elim marked [ none ↦ pure none | some bf' ↦ mark_buckets left va_ht (k + 1) bf' ]

unfoldable pub ht_check_memory : ℕ → Cmd Bool
ht_check_memory va_ht = do
  fresh ← lmc_um_new_mem_usage_bitmap
  table ← and_mark fresh va_ht
  elim table [
    | none ↦ pure false
    | some bf ↦ do
      marked ← mark_buckets lmc_ht_buckets va_ht 0 bf
      elim marked [ none ↦ pure false | some bf' ↦ do lmc_um_find_leaks bf'; pure true ]
  ]
