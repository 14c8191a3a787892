-- ===== src/MmCg45/Flags.antt =====
-- The flags of a header in mm-cg45.c.
use malloc_lab.Base.{ℕ, ◌+◌, ◌-◌, ◌*◌, ◌/◌, ◌%◌, ◌≤◌, ◌<◌, ◌≡◌, ◌⊎◌, ◌≢◌, arith}
use malloc_lab.Base.Bits.{
  bit_and_mask, bit_and_one, bit_and_two, bit_and_not_two, bit_or_two, bit_or_flag,
}
use malloc_lab.Memory.{Memory, get, put, get-put}
use malloc_lab.Mm.Macros.{get_size, get_alloc}
use malloc_lab.MmCg45.Macros.{pack, get_prev_alloc, clear_prev_alloc}

pub pack_lem :
    (size prev_alloc alloc : ℕ)
    → size % 8 ≡ 0
    → prev_alloc ≤ 1
    → alloc ≤ 1
    → pack size prev_alloc alloc ≡ size + 2 * prev_alloc + alloc
unfolding pack
pack_lem size prev_alloc alloc round p a = ground (
  arith,
  bit_or_two size,
  bit_or_flag size 0,
  bit_or_flag size alloc,
  bit_or_flag (size + 2) alloc,
)

-- What the macros read from a word.
pub reads :
    (m : Memory) (p : ℕ)
    → get m p < 0x1_0000_0000
    → (get_size m p ≡ get m p - get m p % 8)
      × (get_alloc m p ≡ get m p % 2)
      × (get_prev_alloc m p ≡ get m p / 2 % 2)
unfolding get_size get_alloc get_prev_alloc
reads m p h = omega (arith, bit_and_mask (get m p), bit_and_one (get m p), bit_and_two (get m p))

-- A header that is written as `pack` makes it is read back by the three macros, for a size that is
-- a multiple of 8 and flags that are 0 or 1.
pub pack_reads :
    (m : Memory) (p size prev_alloc alloc : ℕ)
    → size % 8 ≡ 0
    → size < 0x1_0000_0000
    → prev_alloc ≤ 1
    → alloc ≤ 1
    → (get_size (put m p (pack size prev_alloc alloc)) p ≡ size)
      × (get_prev_alloc (put m p (pack size prev_alloc alloc)) p ≡ prev_alloc)
      × (get_alloc (put m p (pack size prev_alloc alloc)) p ≡ alloc)
pack_reads m p size prev_alloc alloc round low f g =
    let stored : get (put m p (pack size prev_alloc alloc)) p ≡ size + 2 * prev_alloc + alloc =
      ground (arith, pack_lem size prev_alloc alloc, get-put m p (pack size prev_alloc alloc)) in
    omega (arith, stored, reads (put m p (pack size prev_alloc alloc)) p)

-- To clear the flag for the block before keeps the size and the own flag of a header, if its
-- block is allocated or has a size.
pub clear_prev_alloc_reads :
    (m : Memory) (p : ℕ)
    → get m p < 0x1_0000_0000
    → (get_alloc m p ≡ 1) ⊎ (get_size m p ≢ 0)
    → (get_prev_alloc (clear_prev_alloc m p) p ≡ 0)
      × (get_size (clear_prev_alloc m p) p ≡ get_size m p)
      × (get_alloc (clear_prev_alloc m p) p ≡ get_alloc m p)
unfolding clear_prev_alloc
clear_prev_alloc_reads m p low h = ground (
  arith,
  reads m p low,
  bit_and_not_two (get m p) low,
  bit_and_mask (get m p) low,
  get-put m p (get m p - 2 * (get m p / 2 % 2)),
  reads (put m p (get m p - 2 * (get m p / 2 % 2))) p,
  pack_reads m p 0 0 1,
)
