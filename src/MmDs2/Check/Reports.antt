-- ===== src/MmDs2/Check/Reports.antt =====
-- What the messages of `mm_checkheap` of mm-ds2.c say about free blocks.
use malloc_lab.Base.{
  ℕ, zero, suc, ◌+◌, ◌≡◌, refl, inl, inr, Bool, Bool-cases, true, false, List, [], ◌∷◌, ◌++◌, arith,
  ltb, if◌then◌else◌,
}
use malloc_lab.Memory.{Memory}
use malloc_lab.Mm.Macros.{truthy, get_size, get_alloc, hdrp, next_blkp}
use malloc_lab.Mm.FreeList.{has}
use malloc_lab.MmDs2.{Heap}
use malloc_lab.MmDs2.Macros.{max_heap_blocks}
use malloc_lab.MmDs2.Check.{
  Message, check_block, check_blocks, check_prologue, mm_checkheap, print, is_uncoalesced,
  heap_cycle, summary, check_tags, check_neighbours, check_bounds, has_allocated_next, uncoalesced,
  allocated_next,
}

-- The blocks that the loop comes to, from `bp` on.
unfoldable pub visits : ℕ → Memory → ℕ → List ℕ
visits zero m bp = if ltb 0 (get_size m (hdrp bp)) then bp ∷ [] else []
visits (suc left) m bp =
    let rest = visits left m (next_blkp m bp) in
    if ltb 0 (get_size m (hdrp bp)) then bp ∷ rest else []

append_empty : (xs ys : List Message) → xs ++ ys ≡ [] → (xs ≡ []) × (ys ≡ [])
append_empty [] ys e = (refl, e)
append_empty (x ∷ xs) ys e = cc

print_nothing : (b : Bool) (message : Message) → print b message ≡ [] → b ≡ false
print_nothing true message e = cc
print_nothing false message e = refl

-- A free block is reported, whatever stands behind it.
check_block_silent :
    (h : Heap) (bp : ℕ) → check_block h bp ≡ [] → truthy (get_alloc h.bytes (hdrp bp)) ≡ true
unfolding check_block
check_block_silent h bp e =
    let (front, behind) =
      append_empty (check_tags h bp ++ check_neighbours h bp ++ check_bounds h bp)
        (print (is_uncoalesced h bp) (uncoalesced bp (next_blkp h.bytes bp))) e in
    let (inner, _) =
      append_empty (check_tags h bp ++ check_neighbours h bp) (check_bounds h bp) front in
    let (_, neighbours) = append_empty (check_tags h bp) (check_neighbours h bp) inner in
    let (_, next) =
      append_empty _ (print (has_allocated_next h bp) (allocated_next bp)) neighbours in
    ground (
      arith,
      print_nothing (is_uncoalesced h bp) (uncoalesced bp (next_blkp h.bytes bp)) behind,
      print_nothing (has_allocated_next h bp) (allocated_next bp) next,
    )

check_blocks_silent :
    (left : ℕ) (h : Heap) (p errors bp : ℕ)
    → check_blocks left h p errors ≡ []
    → has bp (visits left h.bytes p) ≡ true
    → truthy (get_alloc h.bytes (hdrp bp)) ≡ true
unfolding check_blocks visits
check_blocks_silent zero h p errors bp e on =
    elim (Bool-cases (ltb 0 (get_size h.bytes (hdrp p)))) [
      | inl t ↦ ground (
        arith,
        append_empty (check_block h p)
            (heap_cycle p ∷ summary (errors + (if is_uncoalesced h p then 2 else 1))),
        check_block_silent h p,
      )
      | inr f ↦ absurd (ground arith)
    ]
check_blocks_silent (suc left) h p errors bp e on = ground (
  arith,
  append_empty (check_block h p)
      (check_blocks left h (next_blkp h.bytes p) (errors + (if is_uncoalesced h p then 1 else 0))),
  check_block_silent h p,
  check_blocks_silent left h (next_blkp h.bytes p) (errors + (if is_uncoalesced h p then 1 else 0))
      bp,
)

-- `mm_checkheap` of mm-ds2.c prints nothing only where each block that it comes to is allocated:
-- it reports every free block, whether the block behind it is allocated or free.
pub mm_checkheap_silent :
    (h : Heap) (bp : ℕ)
    → mm_checkheap h ≡ []
    → has bp (visits (max_heap_blocks + 1) h.bytes h.heap_listp) ≡ true
    → truthy (get_alloc h.bytes (hdrp bp)) ≡ true
unfolding mm_checkheap
mm_checkheap_silent h bp e on =
    check_blocks_silent (max_heap_blocks + 1) h h.heap_listp 0 bp
      (append_empty (check_prologue h) _ e).1 on
