-- ===== src/MmDs2/Size.antt =====
-- The block sizes of mm-ds2.c.
use malloc_lab.Base.{ℕ, ◌+◌, ◌%◌, ◌-◌, ◌≤◌, ◌<◌, ◌≡◌, ◌⊎◌, ◌↔◌, arith}
use malloc_lab.Base.Bits.{bit_and_mask}
use malloc_lab.MmDs2.{block_size}
use malloc_lab.MmDs2.Macros.{align}

pub align_lem : (n : ℕ) → n + 7 < 0x1_0000_0000 → align n ≡ n + 7 - (n + 7) % 8
unfolding align
align_lem n h = omega (arith, bit_and_mask ((n + 7) % 0x1_0000_0000))

-- The block for a request that leaves 11 below the top of a `size_t` is a multiple of 8 of at
-- least 16 bytes, with room for the request and one tag, and the smallest such.
pub block_size_bounds :
    (size : ℕ)
    → size + 11 < 0x1_0000_0000
    → (size + 4 ≤ block_size size)
      × (16 ≤ block_size size)
      × (block_size size % 8 ≡ 0)
      × ((block_size size ≡ 16) ⊎ (block_size size < size + 12))
block_size_bounds size h = ground (arith, align_lem (size + 4))

-- For a request that leaves 11 below the top of a `size_t`, the payload of the block that
-- `mm_malloc` of mm-ds2.c computes reaches into the footer of the block exactly when it has more
-- than 8 bytes, from 1 to 4 more than a multiple of 8.
pub block_size_overlap :
    (size : ℕ)
    → size + 11 < 0x1_0000_0000
    → (block_size size < size + 8) ↔ ((8 < size) × (1 ≤ size % 8) × (size % 8 ≤ 4))
block_size_overlap size h =
    (λ e. ground (arith, align_lem (size + 4)), λ e. ground (arith, align_lem (size + 4)))
