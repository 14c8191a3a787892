-- ===== src/Mm/Check.antt =====
-- `mm_checkheap` of mm.c, which is compiled with `DEBUG`: the number of errors that it finds. Its
-- loops over the heap run on fuel, and `none` is a loop that has not ended.
use malloc_lab.Base.{
  ℕ, zero, suc, ◌+◌, ◌%◌, Bool, true, false, not, ◌||◌, ◌&&◌, Option, none, some, ltb, ◌==◌,
  if◌then◌else◌,
}
use malloc_lab.Memory.{Memory}
use malloc_lab.Memlib.{mem_heap_lo, mem_heap_hi}
use malloc_lab.Mm.{Heap, fuel, ◌>>=◌}
use malloc_lab.Mm.Macros.{
  null, dsize, alignment, min_block_size, truthy, get_size, get_alloc, hdrp, ftrp, next_blkp,
  get_pred, get_succ,
}

abbrev pub max_heap_blocks : ℕ
max_heap_blocks = 4096

-- An error is counted where the test holds.
abbrev count : Bool → ℕ
count b = if b then 1 else 0

-- 1-A to 1-D, and 3-B.
abbrev out_of_bounds : Heap → ℕ → Bool
out_of_bounds h bp = ltb (hdrp bp) (mem_heap_lo h.vm) || ltb (mem_heap_hi h.vm) (ftrp h.bytes bp)

-- 0.
pub check_prologue : Heap → ℕ
check_prologue h =
    let p = hdrp h.heap_listp in
    count (not (get_size h.bytes p == dsize) || not (truthy (get_alloc h.bytes p)))

-- 1, for one block.
pub check_block : Heap → ℕ → ℕ
check_block h bp =
    let m = h.bytes in
    let hsize = get_size m (hdrp bp) in
    let halloc = get_alloc m (hdrp bp) in
    let fsize = get_size m (ftrp m bp) in
    let falloc = get_alloc m (ftrp m bp) in
    let nxt = next_blkp m bp in
    count (not (hsize == fsize))
    + count (not (halloc == falloc))
    + count (not (bp % alignment == 0))
    + count (ltb hsize min_block_size)
    + count (out_of_bounds h bp)
    + count (
        not (truthy halloc)
        && (ltb 0 (get_size m (hdrp nxt)) && not (truthy (get_alloc m (hdrp nxt)))))

-- 1: the errors, and where the walk ends.
pub check_blocks : ℕ → Heap → ℕ → ℕ → Option (ℕ × ℕ)
check_blocks zero h bp errors = none
check_blocks (suc n) h bp errors =
    let rest = check_blocks n h (next_blkp h.bytes bp) (errors + check_block h bp) in
    if ltb 0 (get_size h.bytes (hdrp bp)) then rest else some (errors, bp)

-- 2.
pub check_epilogue : Heap → ℕ → ℕ
check_epilogue h bp =
    count (not (get_size h.bytes (hdrp bp) == 0) || not (truthy (get_alloc h.bytes (hdrp bp))))

-- 3-A to 3-C, for one node.
pub check_node : Heap → ℕ → ℕ
check_node h f =
    let m = h.bytes in
    let p = get_pred m f in
    let s = get_succ m f in
    count (truthy (get_alloc m (hdrp f)))
    + count (out_of_bounds h f)
    + count (truthy p && not (get_succ m p == f))
    + count (truthy s && not (get_pred m s == f))

-- 3: `left` more nodes may follow before the list counts as a cycle.
pub check_list : ℕ → Heap → ℕ → ℕ → ℕ
check_list zero h f errors = if f == null then errors else errors + check_node h f + 1
check_list (suc left) h f errors =
    let rest = check_list left h (get_succ h.bytes f) (errors + check_node h f) in
    if f == null then errors else rest

-- 4: whether a block is on the list, and the errors of all blocks from `bp` on.
pub is_listed : ℕ → Memory → ℕ → ℕ → Option Bool
is_listed zero m f bp = none
is_listed (suc n) m f bp =
    let rest = is_listed n m (get_succ m f) bp in
    if f == null then some false else if f == bp then some true else rest

pub check_listed : ℕ → Heap → ℕ → ℕ → Option ℕ
check_listed zero h bp errors = none
check_listed (suc n) h bp errors =
    let next = check_listed n h (next_blkp h.bytes bp) in
    let found = is_listed (fuel h) h.bytes h.free_list_head bp in
    if not (ltb 0 (get_size h.bytes (hdrp bp)))
    then some errors
    else if truthy (get_alloc h.bytes (hdrp bp))
    then next errors
    else (found >>= λ found. next (errors + count (not found)))

unfoldable pub mm_checkheap : Heap → Option ℕ
unfolding check_prologue check_blocks check_block check_epilogue check_list check_node check_listed
    is_listed
mm_checkheap h =
    check_blocks (fuel h) h (next_blkp h.bytes h.heap_listp) (check_prologue h) >>= λ (errors, bp).
    (let errors = check_list max_heap_blocks h h.free_list_head (errors + check_epilogue h bp) in
      check_listed (fuel h) h h.heap_listp errors)
