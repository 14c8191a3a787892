-- ===== src/MmCg45/Size.antt =====
-- The classes and the block sizes of mm-cg45.c.
use malloc_lab.Base.{ℕ, zero, suc, ◌+◌, ◌*◌, ◌%◌, ◌-◌, ◌^◌, ◌≤◌, ◌<◌, ◌≡◌, ◌⊎◌, refl, arith}
use native.Mathlib.Numerals.{unary_clauses}
use malloc_lab.Base.Bits.{bit_and_mask}
use malloc_lab.Mm.Macros.{word}
use malloc_lab.MmCg45.{climb, get_list_index, block_size}
use malloc_lab.MmCg45.Macros.{align}

-- Where the loop stops, which begins with the limit of the list `index`.
abbrev Stops : ℕ → ℕ → ℕ → ℕ → Type 0
Stops left size index r =
    (index ≤ r)
    × (r ≤ index + left)
    × ((size ≤ 2 ^ (r + 5)) ⊎ (r ≡ index + left))
    × ((r ≡ index) ⊎ (2 ^ (r + 4) < size))

pow_mono : (k n : ℕ) → n ≤ k → 2 ^ n ≤ 2 ^ k
pow_mono zero n h = ground arith
pow_mono (suc k) n h = ground (arith, pow_mono k n)

pow_suc : (n : ℕ) → 2 ^ (n + 1) ≡ 2 ^ n * 2
pow_suc n = simp unary_clauses (ground arith)

-- The limit does not wrap.
double : (n : ℕ) → n + 1 < 26 → 2 ^ n * 2 % 0x1_0000_0000 ≡ 2 ^ (n + 1)
double n h = omega (arith, pow_mono 26 (n + 1), pow_suc n)

climb-Stops :
    (left size limit index : ℕ)
    → limit ≡ 2 ^ (index + 5)
    → index + left ≤ 15
    → Stops left size index (climb left size limit index)
unfolding climb
climb-Stops zero size limit index e low = ground arith
climb-Stops (suc left) size limit index e low =
    ground (arith, double (index + 5), climb-Stops left size (word (limit * 2)) (index + 1))

-- `get_list_index` is the index of one of the sixteen lists, and the first whose blocks may have
-- `size` bytes: those of list `index` have at most `2 ^ (index + 5)`, but for the last list.
pub get_list_index_bounds :
    (size : ℕ)
    → (get_list_index size < 16)
      × ((size ≤ 2 ^ (get_list_index size + 5)) ⊎ (get_list_index size ≡ 15))
      × ((get_list_index size ≡ 0) ⊎ (2 ^ (get_list_index size + 4) < size))
unfolding get_list_index
get_list_index_bounds size = omega (arith, climb-Stops 15 size 32 0 refl (omega arith))

align_lem : (n : ℕ) → n + 7 < 0x1_0000_0000 → align n ≡ n + 7 - (n + 7) % 8
unfolding align
align_lem n h = omega (arith, bit_and_mask ((n + 7) % 0x1_0000_0000))

-- The block for a request that leaves 11 below the top of a `size_t` is a multiple of 8 of at
-- least 16 bytes, with room for the request and its header, and the smallest such.
pub block_size_bounds :
    (size : ℕ)
    → size + 11 < 0x1_0000_0000
    → (size + 4 ≤ block_size size)
      × (16 ≤ block_size size)
      × (block_size size % 8 ≡ 0)
      × ((block_size size ≡ 16) ⊎ (block_size size < size + 12))
block_size_bounds size h = ground (arith, align_lem (size + 4))
