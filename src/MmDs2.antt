-- ===== src/MmDs2.antt =====
-- mm-ds2.c: an allocator with boundary tags and twelve free lists, one for each class of sizes.
-- The state is the simulated heap of memlib.c with the bytes of memory and the globals of
-- mm-ds2.c, of which the array `seg_list` is a function of the index. The walks over a free list
-- run on fuel, and `none` is a walk that has not ended.
pub mod Check
pub mod Index
pub mod Lists
pub mod Macros
pub mod Size
mod Tests
use malloc_lab.Base.{
  ℕ, zero, suc, ◌+◌, ◌*◌, ◌/◌, ◌%◌, ◌-◌, ◌^◌, Bool, true, false, ◌&&◌, not, Option, none, some, ltb,
  leb, ◌==◌, if◌then◌else◌,
}
use malloc_lab.Memory.{Memory, get, put, memcpy}
use malloc_lab.Memlib.{Vm, mem_sbrk}
use malloc_lab.Mm.{◌>>=◌}
use malloc_lab.Mm.Macros.{
  wsize, dsize, chunksize, null, word, sub_word, truthy, max_of, pack, get_size, get_alloc, hdrp,
  ftrp, prev_blkp, next_blkp,
}
use malloc_lab.Mdriver.{assign}
use Macros.{min_block, num_lists, align, prev_free, next_free, set_prev_free, set_next_free}

pub record Heap : Type 0 where
  pub vm : Vm
  pub bytes : Memory
  pub heap_listp : ℕ
  pub seg_list : ℕ → ℕ

abbrev pub write : Heap → Memory → Heap
write h m = record h { bytes = m }

abbrev pub set_list : Heap → ℕ → ℕ → Heap
set_list h idx p = record h { seg_list = assign h.seg_list idx p }

-- The loop of `get_index`, with `left` steps before the last list.
pub climb : ℕ → ℕ → ℕ → ℕ
climb zero size idx = idx
climb (suc left) size idx =
    let rest = climb left size (idx + 1) in if ltb (2 ^ (idx + 4)) size then rest else idx

unfoldable pub get_index : ℕ → ℕ
unfolding climb
get_index size = let size = if ltb size 16 then 16 else size in climb (num_lists - 1) size 0

unfoldable pub add_free_block : ℕ → Heap → Heap
add_free_block bp h =
    let idx = get_index (get_size h.bytes (hdrp bp)) in
    let h = write h (set_next_free h.bytes bp (h.seg_list idx)) in
    let h = write h (set_prev_free h.bytes bp null) in
    let h =
      if truthy (h.seg_list idx) then write h (set_prev_free h.bytes (h.seg_list idx) bp) else h in
    set_list h idx bp

unfoldable pub remove_free_block : ℕ → Heap → Heap
remove_free_block bp h =
    let idx = get_index (get_size h.bytes (hdrp bp)) in
    let h =
      if truthy (prev_free h.bytes bp)
      then write h (set_next_free h.bytes (prev_free h.bytes bp) (next_free h.bytes bp))
      else set_list h idx (next_free h.bytes bp) in
    if truthy (next_free h.bytes bp)
    then write h (set_prev_free h.bytes (next_free h.bytes bp) (prev_free h.bytes bp))
    else h

-- The inner loop of `find_fit`: the first block from `bp` on with at least `asize` bytes.
pub scan : ℕ → Memory → ℕ → ℕ → Option ℕ
scan zero m asize bp = none
scan (suc fuel) m asize bp =
    let rest = scan fuel m asize (next_free m bp) in
    if bp == null then some null else if leb asize (get_size m (hdrp bp)) then some bp else rest

-- The outer loop, with `left` lists from `idx` on.
pub search_lists : ℕ → ℕ → ℕ → Heap → Option ℕ
search_lists zero idx asize h = some null
search_lists (suc left) idx asize h =
    let rest = search_lists left (idx + 1) asize h in
    scan h.vm.brk h.bytes asize (h.seg_list idx) >>= λ bp. (if bp == null then rest else some bp)

unfoldable pub find_fit : ℕ → Heap → Option ℕ
unfolding scan search_lists
find_fit asize h = let idx = get_index asize in search_lists (num_lists - idx) idx asize h

-- The header and then the footer, found through the header.
abbrev pub mark : ℕ → ℕ → ℕ → Heap → Heap
mark bp size alloc h =
    let h = write h (put h.bytes (hdrp bp) (pack size alloc)) in
    write h (put h.bytes (ftrp h.bytes bp) (pack size alloc))

-- A free neighbour leaves its list, and its size is added.
pub absorb : ℕ → ℕ → Heap → ℕ × Heap
absorb neighbour size h =
    let h = remove_free_block neighbour h in (word (size + get_size h.bytes (hdrp neighbour)), h)

unfoldable pub coalesce : ℕ → Heap → ℕ × Heap
unfolding absorb
coalesce bp h =
    let prev = prev_blkp h.bytes bp in
    let next = next_blkp h.bytes bp in
    let prev_alloc = get_alloc h.bytes (hdrp prev) in
    let next_alloc = get_alloc h.bytes (hdrp next) in
    let size = get_size h.bytes (hdrp bp) in
    let (size, h) = if truthy prev_alloc then (size, h) else absorb prev size h in
    let bp = if truthy prev_alloc then bp else prev in
    let (size, h) = if truthy next_alloc then (size, h) else absorb next size h in
    (bp, add_free_block bp (mark bp size 0 h))

-- What follows the block at `bp` becomes a free block of `size` bytes.
abbrev pub free_rest : ℕ → ℕ → Heap → Heap
free_rest bp size h =
    let new_bp = next_blkp h.bytes bp in let (_, h) = coalesce new_bp (mark new_bp size 0 h) in h

unfoldable pub place : ℕ → ℕ → Heap → Heap
place bp asize h =
    let csize = get_size h.bytes (hdrp bp) in
    let h = remove_free_block bp h in
    if leb min_block (sub_word csize asize)
    then free_rest bp (sub_word csize asize) (mark bp asize 1 h)
    else mark bp csize 1 h

-- What `extend_heap` does with the `size` new bytes from `bp` on.
pub found_block : ℕ → ℕ → Heap → ℕ × Heap
found_block bp size h =
    let h = mark bp size 0 h in
    let h = write h (put h.bytes (hdrp (next_blkp h.bytes bp)) (pack 0 1)) in coalesce bp h

unfoldable pub extend_heap : ℕ → Heap → ℕ × Heap
unfolding found_block
extend_heap words h =
    let size = if truthy (words % 2) then word ((words + 1) * wsize) else word (words * wsize) in
    let (area, vm) = mem_sbrk size h.vm in
    let h = record h { vm = vm } in elim area [ none ↦ (null, h) | some bp ↦ found_block bp size h ]

-- The loop over `seg_list` in `mm_init`, with `left` lists from `i` on.
pub clear_lists : ℕ → ℕ → Heap → Heap
clear_lists zero i h = h
clear_lists (suc left) i h = clear_lists left (i + 1) (set_list h i null)

-- What `mm_init` writes at the start `p` of the heap.
pub prologue : ℕ → Heap → Heap
prologue p h =
    let h = write h (put h.bytes p 0) in
    let h = write h (put h.bytes (p + wsize) (pack dsize 1)) in
    let h = write h (put h.bytes (p + 2 * wsize) (pack dsize 1)) in
    let h = write h (put h.bytes (p + 3 * wsize) (pack 0 1)) in
    record h { heap_listp = p + 2 * wsize }

-- `true` is the result 0, and `false` is -1: the heap could not be set up.
unfoldable pub mm_init : Heap → Bool × Heap
unfolding clear_lists prologue
mm_init h =
    let h = clear_lists num_lists 0 h in
    let (area, vm) = mem_sbrk (4 * wsize) h.vm in
    let h = record h { vm = vm } in
    elim area [
      | none ↦ (false, record h { heap_listp = 0xffff_ffff })
      | some p ↦
          let (bp, h) = extend_heap (chunksize / wsize) (prologue p h) in
          if bp == null then (false, h) else (true, h)
    ]

-- The size of the block for a request.
abbrev pub block_size : ℕ → ℕ
block_size size =
    let asize = align (word (size + wsize)) in if ltb asize min_block then min_block else asize

unfoldable pub mm_malloc : ℕ → Heap → Option (ℕ × Heap)
mm_malloc size h = if size == 0 then some (null, h) else (do
  let asize = block_size size
  bp ← find_fit asize h
  if truthy bp
      then some (bp, place bp asize h)
      else (let (bp, h) = extend_heap (max_of asize chunksize / wsize) h in
          if bp == null then some (null, h) else some (bp, place bp asize h)))

unfoldable pub mm_free : ℕ → Heap → Heap
mm_free bp h =
    if bp == null
    then h
    else (let size = get_size h.bytes (hdrp bp) in let (_, h) = coalesce bp (mark bp size 0 h) in h)

-- The block shrinks to `new_size` bytes, if what is left over can be a block.
pub shrink : ℕ → ℕ → ℕ → Heap → Heap
shrink ptr new_size diff h =
    if leb min_block diff then free_rest ptr diff (mark ptr new_size 1 h) else h

-- The block takes in the free block `next`, and gives back what it does not need.
pub grow : ℕ → ℕ → ℕ → ℕ → Heap → Heap
grow ptr next total new_size h =
    let h = remove_free_block next h in
    let h = mark ptr total 1 h in shrink ptr new_size (sub_word total new_size) h

-- A new block, the bytes of the old one copied to it, the old block freed.
pub move_block : ℕ → ℕ → ℕ → Heap → Option (ℕ × Heap)
move_block ptr size old_size h = do
  (new_ptr, h) ← mm_malloc size h
  if new_ptr == null
      then some (null, h)
      else (let h = write h (memcpy h.bytes new_ptr ptr (sub_word old_size wsize)) in
          some (new_ptr, mm_free ptr h))

unfoldable pub mm_realloc : ℕ → ℕ → Heap → Option (ℕ × Heap)
unfolding shrink grow move_block
mm_realloc ptr size h =
    if ptr == null
    then mm_malloc size h
    else if size == 0
    then some (null, mm_free ptr h)
    else (let old_size = get_size h.bytes (hdrp ptr) in
        let new_size = align (word (size + wsize)) in
        if new_size == old_size
        then some (ptr, h)
        else if ltb new_size old_size
        then some (ptr, shrink ptr new_size (sub_word old_size new_size) h)
        else (let next = next_blkp h.bytes ptr in
            let total = word (old_size + get_size h.bytes (hdrp next)) in
            if not (truthy (get_alloc h.bytes (hdrp next))) && leb new_size total
            then some (ptr, grow ptr next total new_size h)
            else move_block ptr size old_size h))
