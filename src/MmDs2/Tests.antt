-- ===== src/MmDs2/Tests.antt =====
-- mm-ds2.c on small heaps.
use malloc_lab.Base.{
  true, List, if◌then◌else◌, ◌==◌, ◌↔◌, ◌⊎◌, inl, inr, ==-cases, ◌≤◌, ◌<◌, ◌%◌, ◌^◌, ap, ◌∙◌, sym,
  arith, ℕ, ◌+◌, ◌-◌, ◌≡◌, refl, Option, none, some, [], ◌∷◌,
}
use malloc_lab.Mm.FreeList.{has, Clear}
use malloc_lab.MmDs2.Lists.{IsSegregated, pushed, dropped}
use malloc_lab.MmDs2.Lists.Add.{IsBeside, add_free_block-IsSegregated, index}
use malloc_lab.MmDs2.Lists.Remove.{remove_free_block-IsSegregated}
use malloc_lab.MmDs2.Lists.FindFit.{Finds, find_fit-Finds}
use malloc_lab.MmDs2.Size.{block_size_overlap}
use malloc_lab.MmDs2.Index.{get_index_bounds}
use malloc_lab.MmDs2.Check.Reports.{visits, mm_checkheap_silent}
use malloc_lab.Memory.{get, put, Apart}
use malloc_lab.Mm.{◌>>=◌}
use malloc_lab.Memlib.{mem_heap_lo, mem_heap_hi, mem_sbrk}
use malloc_lab.Mm.Macros.{truthy, hdrp, pack, get_size, get_alloc}
use malloc_lab.MmDs2.{
  Heap, mm_init, mm_malloc, mm_free, mm_realloc, get_index, place, find_fit, coalesce, extend_heap,
  add_free_block, remove_free_block, block_size,
}
use malloc_lab.MmDs2.Macros.{align, max_heap_blocks}
use malloc_lab.MmDs2.Check.{allocated_next, allocated_previous, mm_checkheap, check_block}

abbrev empty : Heap
empty = record {
  vm = record { start_brk = 4096; brk = 4096; max_addr = 1000000 };
  bytes = λ _. 0;
  heap_listp = 0;
  seg_list = λ _. 0;
}

abbrev ready : Heap
unfolding mm_init extend_heap coalesce add_free_block remove_free_block get_index get put pack
    get_size get_alloc mem_sbrk align
ready = (mm_init empty).1

get_index_test :
    (get_index 16 ≡ 0) × (get_index 17 ≡ 1) × (get_index 4096 ≡ 8) × (get_index 99999 ≡ 11)
unfolding get_index
get_index_test = (refl, refl, refl, refl)

mm_init_test : (ready.heap_listp ≡ 4104) × (ready.seg_list 8 ≡ 4112) × (get ready.bytes 4108 ≡ 4096)
unfolding ready mm_init extend_heap coalesce add_free_block remove_free_block get_index get put pack
    get_size get_alloc mem_sbrk align
mm_init_test = (refl, refl, refl)

checkheap_test : mm_checkheap ready ≡ allocated_previous 4112 ∷ allocated_next 4112 ∷ []
unfolding ready mm_init extend_heap coalesce add_free_block remove_free_block get_index get put pack
    get_size get_alloc mem_sbrk align mm_checkheap check_block mem_heap_lo mem_heap_hi
checkheap_test = refl

-- `mm_realloc` shrinks a block to 8 bytes, which have no room for links: `mm_free` of it then
-- writes a link over the header behind it.
abbrev shrunk : Option (ℕ × Heap)
unfolding ready mm_init extend_heap coalesce add_free_block remove_free_block get_index get put pack
    get_size get_alloc mem_sbrk align mm_malloc mm_realloc mm_free find_fit place
shrunk = mm_malloc 40 ready >>= λ (p, h). mm_malloc 40 h >>= λ (q, h).
    mm_realloc q 4 h >>= λ (q, h). mm_malloc 32 h >>= λ (r, h). some (q, mm_free q h)

seen : Option (ℕ × Heap) → ℕ × ℕ × ℕ
unfolding get get_size
seen none = (0, 0, 0)
seen (some (q, h)) = (q, get_size h.bytes (q - 4), get h.bytes (q + 4))

shrunk_test : seen shrunk ≡ (4160, 8, 0)
unfolding seen shrunk ready mm_init extend_heap coalesce add_free_block remove_free_block get_index
    get put pack get_size get_alloc mem_sbrk align mm_malloc mm_realloc mm_free find_fit place
shrunk_test = refl

-- A free block of 24 bytes on list 1, and one of 32 bytes that is not on a list yet.
abbrev sample : Heap
sample = record {
  vm = record { start_brk = 4096; brk = 4184; max_addr = 1000000 };
  bytes = put (put (put (λ _. 0) 4108 24) 4128 24) 4140 32;
  heap_listp = 4104;
  seg_list = λ i. if i == 1 then 4112 else 0;
}

abbrev nodes : ℕ → List ℕ
nodes i = if i == 1 then 4112 ∷ [] else []

only : (i x : ℕ) → has x (nodes i) ≡ true → (x ≡ 4112) × (i ≡ 1)
only i x on = ground arith

clear_nodes : (j a k : ℕ) → Apart a k 4112 8 → Clear a k (nodes j)
clear_nodes j a k h = ground arith

sample-IsSegregated : IsSegregated sample nodes
unfolding get_index get_size get put
sample-IsSegregated = record {
  links = λ i lt. elim (==-cases i 1) [
    | inl (_, t) ↦ rw t (refl, omega arith, omega arith, refl, tt, refl)
    | inr (_, f) ↦ rw f refl
  ];
  apart = λ i j x lt lt' on. ground (arith, only i x on, ==-cases j 1);
  headers = λ i j x lt lt' on. clear_nodes j (x - 4) 4 (omega (arith, only i x on));
  classes = λ i x lt on.
      ap (λ y. get_index (get_size sample.bytes (y - 4))) (only i x on).0
      ∙ (let class : get_index (get_size sample.bytes 4108) ≡ 1 = refl in class)
      ∙ sym (only i x on).1;
  within = λ i x lt on. omega (arith, only i x on);
}

sample-IsBeside : IsBeside 4144 sample nodes
sample-IsBeside = record {
  low = omega arith;
  high = omega arith;
  top = omega arith;
  clear = λ j lt. clear_nodes j 4144 8 (omega arith);
  header = λ j lt. clear_nodes j 4140 4 (omega arith);
  headers = λ j x lt on. omega (arith, only j x on);
}

find_fit-Finds_example : Finds sample nodes 20 0 (find_fit 20 sample)
find_fit-Finds_example = find_fit-Finds sample nodes sample-IsSegregated (omega arith) 20

add_free_block-IsSegregated_example :
    IsSegregated (add_free_block 4144 sample) (pushed nodes (index sample 4144) 4144)
add_free_block-IsSegregated_example =
    add_free_block-IsSegregated 4144 sample nodes sample-IsSegregated sample-IsBeside

remove_free_block-IsSegregated_example :
    IsSegregated (remove_free_block 4112 sample) (dropped nodes 1 4112)
remove_free_block-IsSegregated_example =
    remove_free_block-IsSegregated 4112 sample nodes sample-IsSegregated 1 (omega arith) refl

get_index_bounded :
    (get_index 33 < 12)
    × ((33 ≤ 2 ^ (get_index 33 + 4)) ⊎ (get_index 33 ≡ 11))
    × ((get_index 33 ≡ 0) ⊎ (2 ^ (get_index 33 + 3) < 33))
get_index_bounded = get_index_bounds 33

block_size_overlap_example : (block_size 12 < 12 + 8) ↔ ((8 < 12) × (1 ≤ 12 % 8) × (12 % 8 ≤ 4))
block_size_overlap_example = block_size_overlap 12 (omega arith)

-- A heap of the prologue and the epilogue only.
abbrev bare : Heap
bare = record {
  vm = record { start_brk = 4096; brk = 4112; max_addr = 1000000 };
  bytes = put (put (put (λ _. 0) 4100 9) 4104 9) 4108 1;
  heap_listp = 4104;
  seg_list = λ _. 0;
}

bare_silent : mm_checkheap bare ≡ []
unfolding mm_checkheap check_block get put pack get_size get_alloc mem_heap_lo mem_heap_hi
bare_silent = refl

bare_visited : has 4104 (visits (max_heap_blocks + 1) bare.bytes 4104) ≡ true
unfolding visits get_size get put
bare_visited = refl

mm_checkheap_silent_example : truthy (get_alloc bare.bytes (hdrp 4104)) ≡ true
mm_checkheap_silent_example = mm_checkheap_silent bare 4104 bare_silent bare_visited
