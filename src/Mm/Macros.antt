-- ===== src/Mm/Macros.antt =====
-- The constants and macros of mm.c on the i386, where a word, a pointer and a `size_t` have four
-- bytes. `size_t` arithmetic wraps at `2 ^ 32`; a pointer that leaves the address space is
-- undefined behaviour in C and has no meaning here.
use Prim.Native.Nat.{bit_and, bit_or}
use malloc_lab.Base.{ℕ, ◌+◌, ◌-◌, ◌*◌, ◌%◌, ◌^◌, Bool, not, ltb, ◌==◌, if◌then◌else◌}
use malloc_lab.Memory.{Memory, get, put}

abbrev pub wsize : ℕ
wsize = 4

abbrev pub dsize : ℕ
dsize = 2 * wsize

abbrev pub ptr_size : ℕ
ptr_size = 4

-- `~0x7` as a `size_t`.
abbrev pub mask : ℕ
mask = 0xffff_fff8

abbrev pub min_block_size : ℕ
min_block_size = bit_and (2 * wsize + 2 * ptr_size + (dsize - 1)) mask

abbrev pub chunksize : ℕ
chunksize = 2 ^ 12

abbrev pub alignment : ℕ
alignment = dsize

abbrev pub null : ℕ
null = 0

-- `size_t` arithmetic.
abbrev pub word : ℕ → ℕ
word n = n % 0x1_0000_0000

abbrev pub sub_word : ℕ → ℕ → ℕ
sub_word a b = (a + 0x1_0000_0000 - b) % 0x1_0000_0000

-- A C condition on a number.
abbrev pub truthy : ℕ → Bool
truthy n = not (n == 0)

abbrev pub max_of : ℕ → ℕ → ℕ
max_of x y = if ltb y x then x else y

unfoldable pub pack : ℕ → ℕ → ℕ
pack size alloc = bit_or size alloc

unfoldable pub get_size : Memory → ℕ → ℕ
get_size m p = bit_and (get m p) mask

unfoldable pub get_alloc : Memory → ℕ → ℕ
get_alloc m p = bit_and (get m p) 1

abbrev pub hdrp : ℕ → ℕ
hdrp bp = bp - wsize

abbrev pub ftrp : Memory → ℕ → ℕ
ftrp m bp = bp + get_size m (hdrp bp) - dsize

abbrev pub prev_blkp : Memory → ℕ → ℕ
prev_blkp m bp = bp - get_size m (bp - dsize)

abbrev pub next_blkp : Memory → ℕ → ℕ
next_blkp m bp = bp + get_size m (bp - wsize)

abbrev pub pred_ptr : ℕ → ℕ
pred_ptr bp = bp

abbrev pub succ_ptr : ℕ → ℕ
succ_ptr bp = bp + ptr_size

abbrev pub get_pred : Memory → ℕ → ℕ
get_pred m bp = get m (pred_ptr bp)

abbrev pub get_succ : Memory → ℕ → ℕ
get_succ m bp = get m (succ_ptr bp)

abbrev pub set_header : Memory → ℕ → ℕ → ℕ → Memory
set_header m bp sz alloc = put m (hdrp bp) (pack sz alloc)

abbrev pub set_footer : Memory → ℕ → ℕ → ℕ → Memory
set_footer m bp sz alloc = put m (ftrp m bp) (pack sz alloc)

abbrev pub set_pred : Memory → ℕ → ℕ → Memory
set_pred m bp p = put m (pred_ptr bp) p

abbrev pub set_succ : Memory → ℕ → ℕ → Memory
set_succ m bp q = put m (succ_ptr bp) q
