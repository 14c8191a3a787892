-- ===== src/Mm/Live/Tests.antt =====
-- The contents of the blocks of the sample heap of mm.c.
use malloc_lab.Base.{ℕ, ◌+◌, ◌≡◌, refl, inl, Option, none, some, [], ◌∷◌, arith}
use malloc_lab.Memory.{get, put}
use malloc_lab.Mm.{
  Heap, mm_malloc, mm_free, mm_realloc, coalesce, extend_heap, place, find_fit, insert_node,
  remove_node, adjust_block,
}
use malloc_lab.Mm.Macros.{pack, get_size, get_alloc}
use malloc_lab.Mm.Tests.{sample, sample_blocks, sample-IsHeap}
use malloc_lab.Mm.Live.Represents.{Represents}
use malloc_lab.Mm.Live.Keeps.{mm_malloc_contents, mm_free_contents}
use malloc_lab.Mm.Live.Move.Keeps.{mm_realloc_contents, mm_realloc_others}

sample-Represents : Represents sample ((4112, 24) ∷ (4168, 16) ∷ [])
sample-Represents = record {
  blocks = sample_blocks;
  nodes = 4136 ∷ [];
  heap = sample-IsHeap;
  view = refl;
}

abbrev heap_of : Option (ℕ × Heap) → Heap
heap_of none = sample
heap_of (some k) = k.1

abbrev served : Heap
served = heap_of (mm_malloc 24 sample)

served_run : mm_malloc 24 sample ≡ some (4136, served)
unfolding mm_malloc coalesce extend_heap place find_fit insert_node remove_node adjust_block pack
    get_size get_alloc get put
served_run = refl

mm_malloc_contents_example : served.bytes 4112 ≡ sample.bytes 4112
mm_malloc_contents_example =
    mm_malloc_contents sample ((4112, 24) ∷ (4168, 16) ∷ []) 24 4112 24 (4136, served)
      sample-Represents (λ e. omega arith) (omega arith) served_run (inl (refl, refl)) 4112
      (omega arith) (omega arith)

mm_free_contents_example : (mm_free 4168 sample).bytes 4112 ≡ sample.bytes 4112
mm_free_contents_example =
    mm_free_contents sample ((4112, 24) ∷ []) 4168 16 [] sample-Represents 4112 24
      (inl (refl, refl)) 4112 (omega arith) (omega arith)

abbrev widened : Heap
widened = heap_of (mm_realloc 4112 40 sample)

widened_run : mm_realloc 4112 40 sample ≡ some (4112, widened)
unfolding mm_realloc mm_malloc mm_free coalesce extend_heap place find_fit insert_node remove_node
    adjust_block pack get_size get_alloc get put
widened_run = refl

mm_realloc_contents_example : widened.bytes (4112 + 3) ≡ sample.bytes (4112 + 3)
mm_realloc_contents_example =
    mm_realloc_contents sample [] 4112 24 ((4168, 16) ∷ []) sample-Represents 40 (λ e. omega arith)
      (omega arith) (4112, widened) widened_run (λ e. omega arith) 3 (omega arith) (omega arith)

mm_realloc_others_example : widened.bytes 4168 ≡ sample.bytes 4168
mm_realloc_others_example =
    mm_realloc_others sample [] 4112 24 ((4168, 16) ∷ []) sample-Represents 40 (λ e. omega arith)
      (omega arith) (4112, widened) widened_run 4168 16 4168 (inl (refl, refl)) (omega arith)
      (omega arith)
