-- ===== src/Memory.antt =====
-- The mapped memory: bytes at the addresses `base + va`, and the machine's reads and writes of
-- numbers in it, least significant byte first.
pub mod Copies
pub mod Laws
use localmemcache.Base.{
  ℕ, zero, suc, ◌+◌, ◌-◌, ◌*◌, ◌/◌, ◌%◌, ◌^◌, ltb, leb, ◌==◌, if◌then◌else◌, ◌&&◌, ◌≡◌, refl, List,
  [], ◌∷◌,
}

abbrev pub Mem : Type 0
Mem = ℕ → ℕ

abbrev pub set_byte : Mem → ℕ → ℕ → Mem
set_byte m a v x = if x == a then v else m x

-- the number in the `n` bytes from `a`
unfoldable pub load : ℕ → Mem → ℕ → ℕ
load zero m a = 0
load (suc n) m a = m a + 256 * load n m (a + 1)

unfoldable pub store : ℕ → Mem → ℕ → ℕ → Mem
store zero m a v = m
store (suc n) m a v = store n (set_byte m a (v % 256)) (a + 1) (v / 256)

-- `*(size_t *)` and `*(int *)`
abbrev pub word : Mem → ℕ → ℕ
word = load 8

abbrev pub set_word : Mem → ℕ → ℕ → Mem
set_word = store 8

abbrev pub int : Mem → ℕ → ℕ
int = load 4

abbrev pub set_int : Mem → ℕ → ℕ → Mem
set_int = store 4

-- `memset`
unfoldable pub fill : Mem → ℕ → ℕ → ℕ → Mem
fill m a v n x = if leb a x && ltb x (a + n) then v else m x

-- `memcpy` from a string of bytes
unfoldable pub copy : Mem → ℕ → List ℕ → Mem
copy m a [] = m
copy m a (b ∷ bs) = copy (set_byte m a b) (a + 1) bs

-- the `n` bytes from `a`
unfoldable pub bytes : ℕ → Mem → ℕ → List ℕ
bytes zero m a = []
bytes (suc n) m a = m a ∷ bytes n m (a + 1)

store_runs : word (set_word (λ _. 0) 3 0x1234567) 3 ≡ 0x1234567
unfolding load store
store_runs = refl
