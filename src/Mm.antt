-- ===== src/Mm.antt =====
-- mm.c: the allocator with boundary tags, an explicit free list and a next-fit rover. The state
-- is the simulated heap of memlib.c with the bytes of memory and the three globals of mm.c; a
-- function returns the new state with its result, `NULL` is 0. The loops of `find_fit` run on
-- fuel, and `none` is a loop that has not ended; `(void *)-1` of `mem_sbrk` is `none` of its own.
pub mod Macros
pub mod Extend
pub mod FindFit
pub mod Frame
pub mod Free
pub mod FreeList
pub mod Adjust
pub mod Check
pub mod Client
pub mod Coalesce
pub mod Fresh
pub mod Grows
pub mod Init
pub mod Layout
pub mod Live
pub mod Malloc
pub mod Payload
pub mod Place
pub mod Realloc
pub mod Tags
pub mod Zip
mod Tests
use malloc_lab.Base.{
  ℕ, zero, suc, ◌+◌, ◌-◌, ◌*◌, ◌/◌, ◌%◌, Bool, true, false, ◌||◌, ◌&&◌, not, Option, none, some,
  ltb, leb, ◌==◌, if◌then◌else◌,
}
use malloc_lab.Memory.{Memory, get, put, memcpy}
use malloc_lab.Memlib.{Vm, mem_sbrk}
use Macros.{
  wsize, dsize, min_block_size, chunksize, null, word, sub_word, truthy, max_of, pack, get_size,
  get_alloc, hdrp, ftrp, prev_blkp, next_blkp, get_pred, get_succ, set_header, set_footer, set_pred,
  set_succ,
}

pub record Heap : Type 0 where
  pub vm : Vm
  pub bytes : Memory
  pub heap_listp : ℕ
  pub free_list_head : ℕ
  pub rover : ℕ

infixl 5 ◌>>=◌
abbrev pub ◌>>=◌ : {A B : Type 0} → Option A → (A → Option B) → Option B
none >>= k = none
some a >>= k = k a

abbrev pub write : Heap → Memory → Heap
write h m = record h { bytes = m }

abbrev pub roam : Heap → ℕ → Heap
roam h p = record h { rover = p }

unfoldable pub adjust_block : ℕ → ℕ
adjust_block size =
    let asize = word (dsize * (word (size + dsize + (dsize - 1)) / dsize)) in
    if ltb asize min_block_size then min_block_size else asize

unfoldable pub insert_node : ℕ → Heap → Heap
insert_node bp h =
    let h = write h (set_succ h.bytes bp h.free_list_head) in
    let h = write h (set_pred h.bytes bp null) in
    let h = if h.rover == null then roam h bp else h in
    let h = if truthy h.free_list_head then write h (set_pred h.bytes h.free_list_head bp) else h in
    record h { free_list_head = bp }

unfoldable pub remove_node : ℕ → Heap → Heap
remove_node bp h =
    let pred = get_pred h.bytes bp in
    let succ = get_succ h.bytes bp in
    let h =
      if truthy pred
      then write h (set_succ h.bytes pred succ)
      else record h { free_list_head = succ } in
    let h = if truthy succ then write h (set_pred h.bytes succ pred) else h in
    if h.rover == bp
    then roam h (if truthy succ then succ else if truthy pred then pred else h.free_list_head)
    else h

-- The loops over the free list: from `bp` to the end or to `stop`, the first block of at least
-- `asize` bytes, `NULL` if there is none.
pub seek : ℕ → Memory → ℕ → ℕ → ℕ → Option ℕ
seek zero m asize stop bp = none
seek (suc fuel) m asize stop bp =
    let rest = seek fuel m asize stop (get_succ m bp) in
    if bp == null || bp == stop
    then some null
    else if leb asize (get_size m (hdrp bp))
    then some bp
    else rest

-- A free block takes 16 bytes, so a walk over the list takes fewer steps than the heap has bytes.
abbrev pub fuel : Heap → ℕ
fuel h = h.vm.brk

unfoldable pub find_fit_ff : ℕ → Heap → Option ℕ
unfolding seek
find_fit_ff asize h = seek (fuel h) h.bytes asize null h.free_list_head

unfoldable pub find_fit : ℕ → Heap → Option (ℕ × Heap)
unfolding seek
find_fit asize h = do
  let h = if truthy h.rover then h else roam h h.free_list_head
  bp ← seek (fuel h) h.bytes asize null h.rover
  if truthy bp then some (bp, roam h bp) else (do
    bp ← seek (fuel h) h.bytes asize h.rover h.free_list_head
    if truthy bp then some (bp, roam h bp) else some (null, h))

-- The header and then the footer, found through the header.
abbrev pub mark : ℕ → ℕ → ℕ → Heap → Heap
mark bp size alloc h =
    let h = write h (set_header h.bytes bp size alloc) in write h (set_footer h.bytes bp size alloc)

unfoldable pub place : ℕ → ℕ → Heap → Heap
place bp asize h =
    let csize = get_size h.bytes (hdrp bp) in
    let h = remove_node bp h in
    let h = if h.rover == bp then roam h (get_succ h.bytes bp) else h in
    if leb min_block_size (sub_word csize asize)
    then (let h = mark bp asize 1 h in
        let bp = next_blkp h.bytes bp in
        let h = mark bp (sub_word csize asize) 0 h in insert_node bp h)
    else mark bp csize 1 h

-- `remove_node` of a neighbour, and the rover moved off it.
pub unlist : (Memory → ℕ) → ℕ → Heap → Heap
unlist neighbour bp h =
    let h = remove_node (neighbour h.bytes) h in
    if h.rover == neighbour h.bytes then roam h bp else h

-- The four cases: the allocation bits of the previous and of the next block.
pub merge : Bool → Bool → ℕ → ℕ → Heap → ℕ × Heap
merge true true bp size h = (bp, h)
merge true false bp size h =
    let h = unlist (λ m. next_blkp m bp) bp h in
    let size = word (size + get_size h.bytes (hdrp (next_blkp h.bytes bp))) in
    (bp, mark bp size 0 h)
merge false true bp size h =
    let h = unlist (λ m. prev_blkp m bp) bp h in
    let size = word (size + get_size h.bytes (hdrp (prev_blkp h.bytes bp))) in
    let bp = prev_blkp h.bytes bp in (bp, mark bp size 0 h)
merge false false bp size h =
    let h = unlist (λ m. prev_blkp m bp) bp h in
    let h = unlist (λ m. next_blkp m bp) bp h in
    let both =
      get_size h.bytes (hdrp (prev_blkp h.bytes bp))
      + get_size h.bytes (hdrp (next_blkp h.bytes bp)) in
    let size = word (size + both) in let bp = prev_blkp h.bytes bp in (bp, mark bp size 0 h)

unfoldable pub coalesce : ℕ → Heap → ℕ × Heap
unfolding merge unlist
coalesce bp h =
    let prev_alloc = get_alloc h.bytes (hdrp (prev_blkp h.bytes bp)) in
    let next_alloc = get_alloc h.bytes (hdrp (next_blkp h.bytes bp)) in
    let size = get_size h.bytes (hdrp bp) in merge (truthy prev_alloc) (truthy next_alloc) bp size h

unfoldable pub mm_free : ℕ → Heap → Heap
mm_free bp h =
    let size = get_size h.bytes (hdrp bp) in
    let h = mark bp size 0 h in let (bp, h) = coalesce bp h in insert_node bp h

-- What `extend_heap` does with the `size` new bytes from `bp` on.
pub found_block : ℕ → ℕ → Heap → ℕ × Heap
found_block bp size h =
    let h = write h (put h.bytes (hdrp bp) (pack size 0)) in
    let h = write h (put h.bytes (ftrp h.bytes bp) (pack size 0)) in
    let h = write h (put h.bytes (hdrp (next_blkp h.bytes bp)) (pack 0 1)) in coalesce bp h

unfoldable pub extend_heap : ℕ → Heap → ℕ × Heap
unfolding found_block
extend_heap words h =
    let size = if truthy (words % 2) then word ((words + 1) * wsize) else word (words * wsize) in
    let (area, vm) = mem_sbrk size h.vm in
    let h = record h { vm = vm } in elim area [ none ↦ (null, h) | some bp ↦ found_block bp size h ]

-- What `mm_init` writes at the start `p` of the heap.
pub prologue : ℕ → Heap → Heap
prologue p h =
    let h = record h { heap_listp = p } in
    let h = write h (put h.bytes p 0) in
    let h = write h (put h.bytes (p + 1 * wsize) (pack dsize 1)) in
    let h = write h (put h.bytes (p + 2 * wsize) (pack dsize 1)) in
    let h = write h (put h.bytes (p + 3 * wsize) (pack 0 1)) in
    record h { heap_listp = h.heap_listp + 2 * wsize }

-- `true` is the result 0, and `false` is -1: the heap could not be set up. `(void *)-1` is assigned
-- before it is tested.
unfoldable pub mm_init : Heap → Bool × Heap
unfolding prologue
mm_init h =
    let (area, vm) = mem_sbrk (4 * wsize) h.vm in
    let h = record h { vm = vm } in
    elim area [
      | none ↦ (false, record h { heap_listp = 0xffff_ffff })
      | some p ↦
          let h = prologue p h in
          let (bp, h) = extend_heap (chunksize / wsize) h in
          if bp == null
          then (false, h)
          else (let (bp, h) = extend_heap 4 h in
              if bp == null then (false, h) else (true, roam h h.free_list_head))
    ]

unfoldable pub mm_malloc : ℕ → Heap → Option (ℕ × Heap)
mm_malloc size h = if size == 0 then some (null, h) else (do
  let asize = adjust_block size
  (bp, h) ← find_fit asize h
  if truthy bp
      then some (bp, place bp asize h)
      else (let (bp, h) = extend_heap (max_of asize chunksize / wsize) h in
          if bp == null
          then some (null, h)
          else (let h = insert_node bp h in some (bp, place bp asize h))))

-- A new block, the payload moved to it, the old block freed.
pub move_block : ℕ → ℕ → ℕ → Heap → Option (ℕ × Heap)
move_block ptr size oldsize h = do
  (newptr, h) ← mm_malloc size h
  if newptr == null
      then some (null, h)
      else (let copy_size = sub_word oldsize dsize in
          let copy_size = if ltb size copy_size then size else copy_size in
          let h = write h (memcpy h.bytes newptr ptr copy_size) in some (newptr, mm_free ptr h))

unfoldable pub mm_realloc : ℕ → ℕ → Heap → Option (ℕ × Heap)
unfolding move_block
mm_realloc ptr size h =
    if ptr == null
    then mm_malloc size h
    else if size == 0
    then some (null, mm_free ptr h)
    else (let oldsize = get_size h.bytes (hdrp ptr) in
        let asize = adjust_block size in
        if leb asize oldsize
        then some (ptr, h)
        else (let next = next_blkp h.bytes ptr in
            if not (truthy (get_alloc h.bytes (hdrp next)))
              && leb asize (word (oldsize + get_size h.bytes (hdrp next)))
            then (let h = remove_node next h in
                let newsize = word (oldsize + get_size h.bytes (hdrp next)) in
                let h = write h (put h.bytes (hdrp ptr) (pack newsize 1)) in
                let h = write h (put h.bytes (ftrp h.bytes ptr) (pack newsize 1)) in some (ptr, h))
            else move_block ptr size oldsize h))
