-- ===== src/Mm/Adjust.antt =====
-- `adjust_block` of mm.c.
use malloc_lab.Base.{ℕ, ◌+◌, ◌%◌, ◌≤◌, ◌<◌, ◌≡◌, ◌⊎◌, arith}
use malloc_lab.Mm.{adjust_block}

-- The block that `adjust_block` computes is a multiple of 8, has room for the request and both
-- tags, and is the smallest such block of at least 16 bytes, for each request that leaves 15
-- below the top of a `size_t`.
pub adjust_block_bounds :
    (size : ℕ)
    → size + 15 < 0x1_0000_0000
    → (size + 8 ≤ adjust_block size)
      × (16 ≤ adjust_block size)
      × (adjust_block size % 8 ≡ 0)
      × ((adjust_block size ≡ 16) ⊎ (adjust_block size < size + 16))
unfolding adjust_block
adjust_block_bounds size h = ground arith

-- A request that does not leave 15 below the top of a `size_t` wraps to a block of 16 bytes.
pub adjust_block_wraps :
    (size : ℕ) → 0x1_0000_0000 ≤ size + 15 → size < 0x1_0000_0000 → adjust_block size ≡ 16
unfolding adjust_block
adjust_block_wraps size h g = ground arith
