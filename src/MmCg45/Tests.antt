-- ===== src/MmCg45/Tests.antt =====
-- mm-cg45.c on small heaps.
use malloc_lab.MmCg45.Extend.{extend_heap_start}
use malloc_lab.MmCg45.Flags.{clear_prev_alloc_reads}
use malloc_lab.Base.{arith, inr, ◌+◌, ◌%◌, ℕ, ◌-◌, ◌≡◌, refl, Option, none, some}
use malloc_lab.Memory.{Memory, get, put}
use malloc_lab.Mm.{◌>>=◌}
use malloc_lab.Memlib.{mem_sbrk}
use malloc_lab.Mm.Macros.{get_size, get_alloc}
use malloc_lab.MmCg45.{
  Heap, mm_init, mm_malloc, mm_realloc, get_list_index, place, find_fit, coalesce, extend_heap,
  insert_free_block, remove_free_block,
}
use malloc_lab.MmCg45.Macros.{align, pack, get_prev_alloc, clear_prev_alloc, set_prev_alloc}

abbrev empty : Heap
empty = record {
  vm = record { start_brk = 4096; brk = 4096; max_addr = 1000000 };
  bytes = λ _. 0;
  seg_free_lists = λ _. 0;
  heap_start = 0;
}

get_list_index_test : (get_list_index 32 ≡ 0) × (get_list_index 33 ≡ 1) × (get_list_index 4096 ≡ 7)
unfolding get_list_index
get_list_index_test = (refl, refl, refl)

abbrev ready : Heap
unfolding mm_init extend_heap coalesce insert_free_block remove_free_block get_list_index get put
    pack get_size get_alloc get_prev_alloc clear_prev_alloc mem_sbrk align
ready = (mm_init empty).1

-- The first free block starts 4 bytes after a multiple of 8, and the epilogue is at the break.
mm_init_test : (ready.seg_free_lists 7 ≡ 4116) × (ready.vm.brk ≡ 8208) × (get ready.bytes 8208 ≡ 1)
unfolding ready mm_init extend_heap coalesce insert_free_block remove_free_block get_list_index get
    put pack get_size get_alloc get_prev_alloc clear_prev_alloc mem_sbrk align
mm_init_test = (refl, refl, refl)

-- `mm_realloc` grows a block in place: its header still has the size of both blocks (4096), and
-- the part that is split off from it is on a free list.
abbrev grown : Option (ℕ × Heap)
unfolding ready mm_init extend_heap coalesce insert_free_block remove_free_block get_list_index get
    put pack get_size get_alloc get_prev_alloc clear_prev_alloc set_prev_alloc mem_sbrk align
    mm_malloc mm_realloc find_fit place
grown = mm_malloc 100 ready >>= λ (p, h). mm_realloc p 200 h

seen : Option (ℕ × Heap) → ℕ × ℕ × ℕ
unfolding get get_size
seen none = (0, 0, 0)
seen (some (p, h)) = (p, get_size h.bytes (p - 4), h.seg_free_lists 7)

grown_test : seen grown ≡ (4116, 4096, 4324)
unfolding seen grown ready mm_init extend_heap coalesce insert_free_block remove_free_block
    get_list_index get put pack get_size get_alloc get_prev_alloc clear_prev_alloc set_prev_alloc
    mem_sbrk align mm_malloc mm_realloc find_fit place
grown_test = refl

-- The heap that `mm_init` hands to `extend_heap`.
abbrev bare : Heap
bare = record {
  vm = record { start_brk = 4096; brk = 4112; max_addr = 1000000 };
  bytes = put (put (put (λ _. 0) 4100 11) 4104 11) 4108 3;
  seg_free_lists = λ _. 0;
  heap_start = 4104;
}

bare_epilogue : get_size bare.bytes 4108 ≡ 0
unfolding get_size get put
bare_epilogue = refl

align_test : align 4096 ≡ 4096
unfolding align
align_test = refl

extend_heap_start_example :
    ((extend_heap 4096 bare).0 ≡ 4112 + 4) × ((extend_heap 4096 bare).0 % 8 ≡ 4)
extend_heap_start_example =
    extend_heap_start 4096 bare (omega arith) bare_epilogue refl (omega (arith, align_test))
      (omega (arith, align_test)) (omega (arith, align_test))

-- A header of 24 bytes, allocated, behind an allocated block.
abbrev header : Memory
header = put (λ _. 0) 4112 27

header_word : get header 4112 ≡ 27
unfolding get put
header_word = refl

header_size : get_size header 4112 ≡ 24
unfolding get_size get put
header_size = refl

cleared_reads :
    (get_prev_alloc (clear_prev_alloc header 4112) 4112 ≡ 0)
    × (get_size (clear_prev_alloc header 4112) 4112 ≡ get_size header 4112)
    × (get_alloc (clear_prev_alloc header 4112) 4112 ≡ get_alloc header 4112)
cleared_reads =
    clear_prev_alloc_reads header 4112 (omega (arith, header_word))
      (inr (omega (arith, header_size)))
