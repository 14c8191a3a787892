-- ===== src/MmDs2/Check.antt =====
-- `mm_checkheap` of mm-ds2.c: the messages that it prints, in order, without the number of the
-- line that calls it. A message carries the pointer that it shows.
pub mod Reports
use malloc_lab.Base.{
  ℕ, zero, suc, ◌+◌, ◌%◌, Bool, true, false, not, ◌||◌, ◌&&◌, List, [], ◌∷◌, ◌++◌, ltb, ◌==◌,
  if◌then◌else◌,
}
use malloc_lab.Memory.{get}
use malloc_lab.Memlib.{mem_heap_lo, mem_heap_hi}
use malloc_lab.Mm.Macros.{
  dsize, truthy, pack, get_size, get_alloc, hdrp, ftrp, next_blkp, prev_blkp,
}
use malloc_lab.MmDs2.{Heap}
use malloc_lab.MmDs2.Macros.{max_heap_blocks}

pub data Message : Type 0 where
  bad_prologue_header : ℕ → Message
  bad_prologue_footer : ℕ → Message
  bad_epilogue_header : ℕ → Message
  size_mismatch : ℕ → Message
  alloc_mismatch : ℕ → Message
  alignment_error : ℕ → Message
  too_small : ℕ → Message
  allocated_previous : ℕ → Message
  allocated_next : ℕ → Message
  out_of_bounds : ℕ → Message
  uncoalesced : ℕ → ℕ → Message
  heap_cycle : ℕ → Message
  errors_detected : ℕ → Message

-- A message is printed where the test holds.
abbrev pub print : Bool → Message → List Message
print b message = if b then message ∷ [] else []

-- 1.
pub check_prologue : Heap → List Message
check_prologue h =
    let bp = h.heap_listp in
    print (not (get h.bytes (hdrp bp) == pack dsize 1)) (bad_prologue_header bp)
    ++ print (not (get h.bytes (ftrp h.bytes bp) == pack dsize 1)) (bad_prologue_footer bp)

-- The test that counts as an error.
abbrev pub is_uncoalesced : Heap → ℕ → Bool
is_uncoalesced h bp =
    not (truthy (get_alloc h.bytes (hdrp bp)))
    && not (truthy (get_alloc h.bytes (hdrp (next_blkp h.bytes bp))))

-- 2-2 to 2-4, for one block.
abbrev pub check_tags : Heap → ℕ → List Message
check_tags h bp =
    let m = h.bytes in
    let hsize = get_size m (hdrp bp) in
    let halloc = get_alloc m (hdrp bp) in
    let fsize = get_size m (ftrp m bp) in
    let falloc = get_alloc m (ftrp m bp) in
    print (not (hsize == fsize)) (size_mismatch bp)
    ++ print (not (halloc == falloc)) (alloc_mismatch bp)
    ++ print (not (bp % dsize == 0)) (alignment_error bp)
    ++ print (ltb hsize dsize) (too_small bp)

-- 2-5.
abbrev pub has_allocated_next : Heap → ℕ → Bool
has_allocated_next h bp =
    not (truthy (get_alloc h.bytes (hdrp bp)))
    && truthy (get_alloc h.bytes (hdrp (next_blkp h.bytes bp)))

abbrev pub check_neighbours : Heap → ℕ → List Message
check_neighbours h bp =
    let m = h.bytes in
    print (not (truthy (get_alloc m (hdrp bp))) && truthy (get_alloc m (hdrp (prev_blkp m bp))))
      (allocated_previous bp)
    ++ print (has_allocated_next h bp) (allocated_next bp)

-- 2-6.
abbrev pub check_bounds : Heap → ℕ → List Message
check_bounds h bp =
    print (ltb (hdrp bp) (mem_heap_lo h.vm) || ltb (mem_heap_hi h.vm) (ftrp h.bytes bp))
      (out_of_bounds bp)

-- The checks of one block, with the first addition.
unfoldable pub check_block : Heap → ℕ → List Message
check_block h bp =
    check_tags h bp
    ++ check_neighbours h bp
    ++ check_bounds h bp
    ++ print (is_uncoalesced h bp) (uncoalesced bp (next_blkp h.bytes bp))

-- What follows the loop.
abbrev pub summary : ℕ → List Message
summary errors = print (truthy errors) (errors_detected errors)

-- The loop from `bp` on, of which `left` more blocks may follow before it counts as a cycle. The
-- case 2-1 of a block without a size is never reached, since the loop has ended there.
pub check_blocks : ℕ → Heap → ℕ → ℕ → List Message
check_blocks zero h bp errors =
    if not (ltb 0 (get_size h.bytes (hdrp bp)))
    then summary errors
    else check_block h bp
      ++ (heap_cycle bp ∷ summary (errors + (if is_uncoalesced h bp then 2 else 1)))
check_blocks (suc left) h bp errors =
    let rest =
      check_blocks left h (next_blkp h.bytes bp)
        (errors + (if is_uncoalesced h bp then 1 else 0)) in
    if not (ltb 0 (get_size h.bytes (hdrp bp))) then summary errors else check_block h bp ++ rest

unfoldable pub mm_checkheap : Heap → List Message
unfolding check_prologue check_blocks
mm_checkheap h = check_prologue h ++ check_blocks (max_heap_blocks + 1) h h.heap_listp 0
