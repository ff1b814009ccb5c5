-- ===== src/Valloc/Status.antt =====
-- `lmc_status` on a list of free chunks.
use localmemcache.Base.{
  ℕ, zero, suc, ◌+◌, ◌-◌, ◌≤◌, ◌<◌, ◌^◌, max, ◌≡◌, refl, ◌⊎◌, inl, inr, arith, List, [], ◌∷◌, All,
  length, ltb, le→leb, if◌then◌else◌, ne→==,
}
use localmemcache.Memory.{Mem, word}
use localmemcache.Word.{wadd, wsub}
use localmemcache.Cmd.{Run, done}
use localmemcache.Valloc.{
  MemStatus, status_loop, lmc_status, lmc_is_va_valid, lmc_total_shm_size, md_first_free,
}
use localmemcache.Valloc.Chain.{Chunk, first, Links, Inside, FreeList, total}
use localmemcache.Valloc.Room.{total-le-hi, length-le-hi}

-- the size of the largest chunk
abbrev pub largest : List Chunk → ℕ
largest [] = 0
largest (c ∷ cs) = max c.1 (largest cs)

-- what `lmc_status` has to report of a memory of `hi` bytes
abbrev pub report : ℕ → List Chunk → MemStatus
report hi cs = record {
  free_chunks = length cs;
  total_mem = hi - 88;
  total_free_mem = total cs;
  total_shm_size = hi;
  free_mem = total cs - 8;
  largest_chunk = largest cs;
}

max_step : (a b c : ℕ) → max (if ltb a b then b else a) c ≡ max a (max b c)
max_step a b c = ground arith

total_cases : (hi : ℕ) (cs : List Chunk) → All (Inside hi) cs → (total cs ≡ 0) ⊎ (16 ≤ total cs)
total_cases hi [] i = inl refl
total_cases hi (c ∷ cs) (i, is) = inr (omega arith)

spare :
    (t : ℕ) → (t ≡ 0) ⊎ (8 ≤ t) → t < 2 ^ 63 → (if ltb 0 (0 + t) then wsub (0 + t) 8 else 0) ≡ t - 8
spare t h small = ground arith

same_triple :
    (m : Mem) {a b c a' b' c' : ℕ}
    → a ≡ a'
    → b ≡ b'
    → c ≡ c'
    → ◌≡◌ {A = Run (ℕ × ℕ × ℕ)} (done (a, b, c) m) (done (a', b', c') m)
same_triple m p q r = λ i. done (p i, q i, r i) m

module _ (m : Mem) (hi : ℕ) (extent : word m 16 + 88 ≡ hi) (small : hi < 2 ^ 63) where
  status_loop-total :
      (k : ℕ) (cs : List Chunk) (free big chunks : ℕ)
      → Links m cs 0
      → All (Inside hi) cs
      → length cs < k
      → free + total cs < 2 ^ 64
      → status_loop k (first cs 0) free big chunks m
        ≡ done (free + total cs, max big (largest cs), chunks + length cs) m
  unfolding status_loop lmc_is_va_valid
  status_loop-total zero cs free big chunks links i fuel fits = absurd (omega arith)
  status_loop-total (suc k) [] free big chunks links i fuel fits =
      same_triple m (omega arith) (omega arith) (omega arith)
  status_loop-total (suc k) (c ∷ cs) free big chunks (n, z, l) (i, is) fuel fits =
      let sum : wadd free c.1 ≡ free + c.1 = omega arith in
      rw
        (
          ne→== c.0 0 (omega arith),
          le→leb c.0 (word m 16 + 88) (omega arith),
          z,
          n,
          sum,
          status_loop-total k cs (free + c.1) (if ltb big c.1 then c.1 else big) (chunks + 1) l is
              (omega arith) (omega arith),
        )
        (same_triple m (omega arith) (max_step big c.1 (largest cs)) (omega arith))

-- On a list of free chunks `lmc_status` does not abort, changes nothing, and reports the
-- number of chunks, their bytes, the largest of them and the size of the memory.
pub lmc_status-report :
    (m : Mem) (hi : ℕ) (cs : List Chunk) → FreeList m hi cs → lmc_status m ≡ done (report hi cs) m
unfolding lmc_status md_first_free lmc_total_shm_size
lmc_status-report m hi cs free =
    let room = total-le-hi hi cs (omega (arith, free.extent)) free.inside free.separated in
    let few = length-le-hi hi cs (omega (arith, free.extent)) free.inside free.separated in
    let shm : wadd (word m 16) 88 ≡ hi = omega (arith, free.extent, free.small) in
    rw
      (
        shm,
        free.head,
        status_loop-total m hi free.extent free.small (suc (suc (word m 16))) cs 0 0 0 free.links
            free.inside (omega (arith, few, free.extent)) (omega (arith, room, free.small)),
      )
      (λ i.
        done
          (record {
            free_chunks = zero_left (length cs) i;
            total_mem = extent_left i;
            total_free_mem = zero_left (total cs) i;
            total_shm_size = hi;
            free_mem = spare (total cs) some_free (omega (arith, room, free.small)) i;
            largest_chunk = zero_max (largest cs) i;
          })
          m)
  where
    zero_left : (n : ℕ) → 0 + n ≡ n
    zero_left n = omega arith

    zero_max : (n : ℕ) → max 0 n ≡ n
    zero_max n = omega arith

    extent_left : word m 16 ≡ hi - 88
    extent_left = omega (arith, free.extent)

    some_free : (total cs ≡ 0) ⊎ (8 ≤ total cs)
    some_free = ground (arith, total_cases hi cs free.inside)
