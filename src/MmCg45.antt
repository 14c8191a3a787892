-- ===== src/MmCg45.antt =====
-- mm-cg45.c: an allocator with sixteen free lists, one for each class of sizes, whose allocated
-- blocks have no footer: a header holds a flag for the block before it. The state is the
-- simulated heap of memlib.c with the bytes of memory and the globals of mm-cg45.c, of which the
-- array `seg_free_lists` is a function of the index. The walks over a free list run on fuel, and
-- `none` is a walk that has not ended.
pub mod Extend
pub mod Flags
pub mod Macros
pub mod Size
mod Tests
use malloc_lab.Base.{
  ℕ, zero, suc, ◌+◌, ◌*◌, ◌-◌, Bool, true, false, ◌&&◌, not, Option, none, some, ltb, leb, ◌==◌,
  if◌then◌else◌,
}
use malloc_lab.Memory.{Memory, get, put, memcpy}
use malloc_lab.Memlib.{Vm, mem_sbrk}
use malloc_lab.Mm.{◌>>=◌}
use malloc_lab.Mm.Macros.{
  wsize, dsize, chunksize, null, word, sub_word, truthy, max_of, get_size, get_alloc, hdrp,
}
use malloc_lab.Mdriver.{assign}
use Macros.{
  list_count, align, pack, get_prev_alloc, prev_free, next_free, set_prev_free, set_next_free,
  clear_prev_alloc, set_prev_alloc,
}

pub record Heap : Type 0 where
  pub vm : Vm
  pub bytes : Memory
  pub seg_free_lists : ℕ → ℕ
  pub heap_start : ℕ

abbrev pub write : Heap → Memory → Heap
write h m = record h { bytes = m }

abbrev pub set_list : Heap → ℕ → ℕ → Heap
set_list h index p = record h { seg_free_lists = assign h.seg_free_lists index p }

-- The loop of `get_list_index`, with `left` steps before the last list.
pub climb : ℕ → ℕ → ℕ → ℕ → ℕ
climb zero size limit index = index
climb (suc left) size limit index =
    let rest = climb left size (word (limit * 2)) (index + 1) in
    if ltb limit size then rest else index

unfoldable pub get_list_index : ℕ → ℕ
unfolding climb
get_list_index size = climb (list_count - 1) size 32 0

unfoldable pub insert_free_block : ℕ → Heap → Heap
insert_free_block bp h =
    let size = get_size h.bytes (hdrp bp) in
    let index = get_list_index size in
    let head = h.seg_free_lists index in
    let h = if truthy head then write h (set_prev_free h.bytes head bp) else h in
    let h = write h (set_next_free h.bytes bp head) in
    let h = write h (set_prev_free h.bytes bp null) in set_list h index bp

unfoldable pub remove_free_block : ℕ → Heap → Heap
remove_free_block bp h =
    let size = get_size h.bytes (hdrp bp) in
    let index = get_list_index size in
    let prev = prev_free h.bytes bp in
    let next = next_free h.bytes bp in
    let h =
      if truthy prev then write h (set_next_free h.bytes prev next) else set_list h index next in
    if truthy next then write h (set_prev_free h.bytes next prev) else h

-- A free neighbour before the header `hdr` leaves its list; the result is the header, the size
-- and the flag of the block from there on.
pub absorb_prev : ℕ → ℕ → Heap → ℕ × ℕ × ℕ × Heap
absorb_prev hdr size h =
    let prev_ftr = hdr - wsize in
    let prev_size = get_size h.bytes prev_ftr in
    let prev_hdr = hdr - prev_size in
    let prev_bp = prev_hdr + wsize in
    let h = remove_free_block prev_bp h in
    (prev_hdr, word (size + prev_size), get_prev_alloc h.bytes prev_hdr, h)

-- A free neighbour at the header `next_hdr` leaves its list; the result is the size of both.
pub absorb_next : ℕ → ℕ → Heap → ℕ × Heap
absorb_next next_hdr size h =
    let next_bp = next_hdr + wsize in
    let next_size = get_size h.bytes next_hdr in
    let h = remove_free_block next_bp h in (word (size + next_size), h)

-- The header and the footer of a free block.
abbrev pub write_free : ℕ → ℕ → ℕ → Heap → Heap
write_free hdr size prev_alloc h =
    let h = write h (put h.bytes hdr (pack size prev_alloc 0)) in
    write h (put h.bytes (hdr + size - wsize) (pack size prev_alloc 0))

unfoldable pub coalesce : ℕ → Heap → ℕ × Heap
unfolding absorb_prev absorb_next
coalesce bp h =
    let hdr = hdrp bp in
    let size = get_size h.bytes hdr in
    let prev_alloc = get_prev_alloc h.bytes hdr in
    let next_hdr = hdr + size in
    let next_alloc = get_alloc h.bytes next_hdr in
    let (hdr, size, prev_alloc, h) =
      if truthy prev_alloc then (hdr, size, prev_alloc, h) else absorb_prev hdr size h in
    let (size', h) = if truthy next_alloc then (size, h) else absorb_next next_hdr size h in
    let next_hdr = if truthy next_alloc then next_hdr else hdr + size' in
    let h = write_free hdr size' prev_alloc h in
    (hdr + wsize, write h (clear_prev_alloc h.bytes next_hdr))

-- What `extend_heap` does with the `asize` new bytes from `bp` on.
pub found_block : ℕ → ℕ → Heap → ℕ × Heap
found_block bp asize h =
    let prev_alloc = get_prev_alloc h.bytes bp in
    let h = write_free bp asize prev_alloc h in
    let h = write h (put h.bytes (bp + asize) (pack 0 0 1)) in
    let (new_block_bp, h) =
      if truthy prev_alloc then (bp + wsize, h) else coalesce (bp + wsize) h in
    (new_block_bp, insert_free_block new_block_bp h)

unfoldable pub extend_heap : ℕ → Heap → ℕ × Heap
unfolding found_block
extend_heap bytes h =
    let asize = align bytes in
    let asize = if ltb asize dsize then dsize else asize in
    let (area, vm) = mem_sbrk asize h.vm in
    let h = record h { vm = vm } in
    elim area [ none ↦ (null, h) | some bp ↦ found_block bp asize h ]

-- The loop over `seg_free_lists` in `mm_init`, with `left` lists from `i` on.
pub clear_lists : ℕ → ℕ → Heap → Heap
clear_lists zero i h = h
clear_lists (suc left) i h = clear_lists left (i + 1) (set_list h i null)

-- What `mm_init` writes at the start of the heap.
pub prologue : ℕ → Heap → Heap
prologue heap h =
    let h = write h (put h.bytes heap 0) in
    let h = write h (put h.bytes (heap + 1 * wsize) (pack dsize 1 1)) in
    let h = write h (put h.bytes (heap + 2 * wsize) (pack dsize 1 1)) in
    let h = write h (put h.bytes (heap + 3 * wsize) (pack 0 1 1)) in
    record h { heap_start = heap + 2 * wsize }

-- `true` is the result 0, and `false` is -1: the heap could not be set up.
unfoldable pub mm_init : Heap → Bool × Heap
unfolding clear_lists prologue
mm_init h =
    let h = clear_lists list_count 0 h in
    let (area, vm) = mem_sbrk (4 * wsize) h.vm in
    let h = record h { vm = vm } in
    elim area [
      | none ↦ (false, h)
      | some heap ↦
          let (bp, h) = extend_heap chunksize (prologue heap h) in
          if bp == null then (false, h) else (true, h)
    ]

-- The inner loop of `find_fit`: the first block from `bp` on with at least `asize` bytes.
pub scan : ℕ → Memory → ℕ → ℕ → Option ℕ
scan zero m asize bp = none
scan (suc fuel) m asize bp =
    let rest = scan fuel m asize (next_free m bp) in
    if bp == null then some null else if leb asize (get_size m (hdrp bp)) then some bp else rest

-- The outer loop, with `left` lists from `i` on.
pub search_lists : ℕ → ℕ → ℕ → Heap → Option ℕ
search_lists zero i asize h = some null
search_lists (suc left) i asize h =
    let rest = search_lists left (i + 1) asize h in
    scan h.vm.brk h.bytes asize (h.seg_free_lists i) >>= λ bp.
    (if bp == null then rest else some bp)

unfoldable pub find_fit : ℕ → Heap → Option ℕ
unfolding scan search_lists
find_fit asize h =
    let index = get_list_index asize in search_lists (list_count - index) index asize h

-- The bytes from the header `new_hdr` on become a free block behind an allocated one.
abbrev pub split_off : ℕ → ℕ → Heap → Heap
split_off new_hdr remain_size h =
    let h = write_free new_hdr remain_size 1 h in
    write h (clear_prev_alloc h.bytes (new_hdr + remain_size))

unfoldable pub place : ℕ → ℕ → Heap → Heap
place bp asize h =
    let current_size = get_size h.bytes (hdrp bp) in
    let prev_alloc = get_prev_alloc h.bytes (hdrp bp) in
    let h = remove_free_block bp h in
    if leb (dsize * 2) (sub_word current_size asize)
    then (let h = write h (put h.bytes (hdrp bp) (pack asize prev_alloc 1)) in
        let new_hdr = hdrp bp + asize in
        let h = split_off new_hdr (sub_word current_size asize) h in
        insert_free_block (new_hdr + wsize) h)
    else (let h = write h (put h.bytes (hdrp bp) (pack current_size prev_alloc 1)) in
        write h (set_prev_alloc h.bytes (hdrp bp + current_size)))

-- The size of the block for a request.
abbrev pub block_size : ℕ → ℕ
block_size size =
    if leb size dsize
    then dsize * 2
    else (let asize = align (word (size + wsize)) in
        if ltb asize (dsize * 2) then dsize * 2 else asize)

unfoldable pub mm_malloc : ℕ → Heap → Option (ℕ × Heap)
mm_malloc size h = if size == 0 then some (null, h) else (do
  let asize = block_size size
  bp ← find_fit asize h
  if truthy bp
      then some (bp, place bp asize h)
      else (let (bp, h) = extend_heap (max_of asize chunksize) h in
          if bp == null then some (null, h) else some (bp, place bp asize h)))

-- A block that is not on a list is coalesced and put on one.
abbrev pub coalesce_insert : ℕ → Heap → Heap
coalesce_insert bp h = let (bp, h) = coalesce bp h in insert_free_block bp h

unfoldable pub mm_free : ℕ → Heap → Heap
mm_free ptr h =
    if ptr == null
    then h
    else (let hdr = hdrp ptr in
        let size = get_size h.bytes hdr in
        let prev_alloc = get_prev_alloc h.bytes hdr in
        let h = write h (put h.bytes hdr (pack size prev_alloc 0)) in
        let h = write h (put h.bytes (ptr + size - dsize) (pack size prev_alloc 0)) in
        let h = write h (clear_prev_alloc h.bytes (hdr + size)) in coalesce_insert ptr h)

-- The block shrinks to `asize` bytes, if what is left over can be a block.
pub shrink : ℕ → ℕ → ℕ → ℕ → Heap → Heap
shrink hdr asize old_size prev_alloc h =
    let remaining = sub_word old_size asize in
    if leb (dsize * 2) remaining
    then (let new_hdr = hdr + asize in
        let h = write h (put h.bytes hdr (pack asize prev_alloc 1)) in
        coalesce_insert (new_hdr + wsize) (split_off new_hdr remaining h))
    else h

-- The block takes in the free block behind it, and gives back what it does not need.
pub grow : ℕ → ℕ → ℕ → ℕ → Heap → Heap
grow hdr asize old_size prev_alloc h =
    let next_hdr = hdr + old_size in
    let next_size = get_size h.bytes next_hdr in
    let h = remove_free_block (next_hdr + wsize) h in
    let combined_size = word (old_size + next_size) in
    let h = write h (put h.bytes hdr (pack combined_size prev_alloc 1)) in
    let remaining = sub_word combined_size asize in
    if leb (dsize * 2) remaining
    then (let split_hdr = hdr + asize in
        insert_free_block (split_hdr + wsize) (split_off split_hdr remaining h))
    else write h (set_prev_alloc h.bytes (hdr + combined_size))

-- The heap grows behind the last block, which takes in what is new.
pub extend_last : ℕ → ℕ → ℕ → ℕ → ℕ → Heap → Option (ℕ × Heap)
extend_last ptr hdr asize old_size prev_alloc h =
    let extend_size = max_of (sub_word asize old_size) chunksize in
    let (bp, h) = extend_heap extend_size h in
    if bp == null then some (null, h) else some (ptr, grow hdr asize old_size prev_alloc h)

-- A new block, the bytes of the old one copied to it, the old block freed.
pub move_block : ℕ → ℕ → Heap → Option (ℕ × Heap)
move_block ptr size h = do
  (new_ptr, h) ← mm_malloc size h
  if new_ptr == null
      then some (null, h)
      else (let copy_size = sub_word (get_size h.bytes (hdrp ptr)) wsize in
          let copy_size = if ltb size copy_size then size else copy_size in
          let h = write h (memcpy h.bytes new_ptr ptr copy_size) in some (new_ptr, mm_free ptr h))

unfoldable pub mm_realloc : ℕ → ℕ → Heap → Option (ℕ × Heap)
unfolding shrink grow extend_last move_block
mm_realloc ptr size h =
    if ptr == null
    then mm_malloc size h
    else if size == 0
    then some (null, mm_free ptr h)
    else (let asize = block_size size in
        let hdr = hdrp ptr in
        let old_size = get_size h.bytes hdr in
        let prev_alloc = get_prev_alloc h.bytes hdr in
        let next_hdr = hdr + old_size in
        let next_alloc = get_alloc h.bytes next_hdr in
        let next_size = get_size h.bytes next_hdr in
        if leb asize old_size
        then some (ptr, shrink hdr asize old_size prev_alloc h)
        else if not (truthy next_alloc) && leb asize (word (old_size + next_size))
        then some (ptr, grow hdr asize old_size prev_alloc h)
        else if get_size h.bytes next_hdr == 0
        then extend_last ptr hdr asize old_size prev_alloc h
        else move_block ptr size h)
