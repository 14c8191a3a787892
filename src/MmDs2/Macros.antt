-- ===== src/MmDs2/Macros.antt =====
-- The constants and macros of mm-ds2.c that mm.c does not have; the others are those of mm.c.
use Prim.Native.Nat.{bit_and}
use malloc_lab.Base.{ℕ, ◌+◌, ◌-◌, ◌^◌}
use malloc_lab.Memory.{Memory, get, put}
use malloc_lab.Mm.Macros.{mask, word, wsize}

abbrev pub alignment : ℕ
alignment = 8

abbrev pub min_block : ℕ
min_block = 16

abbrev pub max_heap_blocks : ℕ
max_heap_blocks = 2 ^ 12

abbrev pub num_lists : ℕ
num_lists = 12

-- `ALIGN`, in `size_t` arithmetic.
unfoldable pub align : ℕ → ℕ
align size = bit_and (word (size + (alignment - 1))) mask

abbrev pub prev_free : Memory → ℕ → ℕ
prev_free m bp = get m bp

abbrev pub next_free : Memory → ℕ → ℕ
next_free m bp = get m (bp + wsize)

abbrev pub set_prev_free : Memory → ℕ → ℕ → Memory
set_prev_free m bp p = put m bp p

abbrev pub set_next_free : Memory → ℕ → ℕ → Memory
set_next_free m bp q = put m (bp + wsize) q
