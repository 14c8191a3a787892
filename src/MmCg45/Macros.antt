-- ===== src/MmCg45/Macros.antt =====
-- The constants and macros of mm-cg45.c on the i386: a header tells whether its block is allocated
-- and whether the block before it is. Those that are the same as in mm.c are taken from there.
use Prim.Native.Nat.{bit_and, bit_or}
use malloc_lab.Base.{ℕ, ◌+◌, ◌-◌, ◌/◌, if◌then◌else◌}
use malloc_lab.Memory.{Memory, get, put}
use malloc_lab.Mm.Macros.{mask, word, truthy, ptr_size}

abbrev pub alignment : ℕ
alignment = 8

abbrev pub list_count : ℕ
list_count = 16

-- `ALIGN`, in `size_t` arithmetic.
unfoldable pub align : ℕ → ℕ
align size = bit_and (word (size + (alignment - 1))) mask

unfoldable pub pack : ℕ → ℕ → ℕ → ℕ
pack size prev_alloc alloc =
    bit_or (bit_or size (if truthy prev_alloc then 0x2 else 0x0))
      (if truthy alloc then 0x1 else 0x0)

unfoldable pub get_prev_alloc : Memory → ℕ → ℕ
get_prev_alloc m p = bit_and (get m p) 0x2 / 2

abbrev pub next_free : Memory → ℕ → ℕ
next_free m bp = get m bp

abbrev pub prev_free : Memory → ℕ → ℕ
prev_free m bp = get m (bp + ptr_size)

abbrev pub set_next_free : Memory → ℕ → ℕ → Memory
set_next_free m bp q = put m bp q

abbrev pub set_prev_free : Memory → ℕ → ℕ → Memory
set_prev_free m bp p = put m (bp + ptr_size) p

-- The flag of the block before, in the header at `next_hdr`: cleared and set. The epilogue, which
-- has no size, is written anew.
unfoldable pub clear_prev_alloc : Memory → ℕ → Memory
clear_prev_alloc m next_hdr =
    if truthy (bit_and (get m next_hdr) mask)
    then put m next_hdr (bit_and (get m next_hdr) 0xffff_fffd)
    else put m next_hdr (pack 0 0 1)

unfoldable pub set_prev_alloc : Memory → ℕ → Memory
set_prev_alloc m next_hdr =
    if truthy (bit_and (get m next_hdr) mask)
    then put m next_hdr (bit_or (get m next_hdr) 0x2)
    else put m next_hdr (pack 0 1 1)
