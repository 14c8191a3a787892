-- ===== src/Mm/Tests.antt =====
-- mm.c on a small heap: an allocated block of 24 bytes, a free one of 32, an allocated one of 16.
use malloc_lab.Base.{
  ℕ, ◌+◌, ◌-◌, ◌*◌, ◌%◌, ◌^◌, ◌≤◌, ◌<◌, ◌≡◌, refl, ◌⊎◌, inl, inr, true, false, Option, some, List,
  [], ◌∷◌, arith, if◌then◌else◌,
}
use malloc_lab.Memory.{Memory, get, put}
use malloc_lab.Mm.Realloc.{Reallocs, mm_realloc-Reallocs}
use malloc_lab.Mm.Check.{mm_checkheap}
use malloc_lab.Memlib.{mem_heap_lo, mem_heap_hi, mem_sbrk}
use malloc_lab.Mm.{
  Heap, mm_init, mm_malloc, mm_free, coalesce, extend_heap, place, find_fit, insert_node,
  remove_node, adjust_block, mark, roam, ◌>>=◌,
}
use malloc_lab.Mm.Macros.{pack, get_size, get_alloc, truthy}
use malloc_lab.Mm.FreeList.{Links, has}
use malloc_lab.Mm.Layout.{Block, block, IsBlock}
use malloc_lab.Mm.Zip.{Zip}
use malloc_lab.Mm.Zip.Mark.{mark-Zip}
use malloc_lab.Mm.Free.{mm_free-IsHeap, freed_blocks, freed_nodes}
use malloc_lab.Mm.Fresh.{IsFresh}
use malloc_lab.Mm.Init.{IsUntouched, mm_init-IsFresh}
use malloc_lab.Mm.Malloc.{Mallocs, mm_malloc-Mallocs}
use malloc_lab.Mm.Live.{IsApart, live-IsApart}
use malloc_lab.Mm.Live.Malloc.{Served, mm_malloc-Served}
use malloc_lab.Mm.Live.Free.{Freed, mm_free-Freed}
use malloc_lab.Mm.Live.First.{mm_malloc-Served_first}
use malloc_lab.Mm.Coalesce.Merge.{Merged}
use malloc_lab.Mm.Coalesce.Whole.{coalesce-Merged}
use malloc_lab.Mm.Place.{place-Zip}
use malloc_lab.Mm.FindFit.Next.{next_fit, start, find_fit-next_fit}
use malloc_lab.Mm.FreeList.Insert.{insert_node-Links}
use malloc_lab.Mm.FreeList.Remove.{remove_node-Links, remove_node-rover}
use malloc_lab.Mm.Extend.{extend_heap-Merged}
use malloc_lab.Mm.Adjust.{adjust_block_bounds, adjust_block_wraps}
use malloc_lab.Mm.Zip.Move.{IsHeap, move_right, leave_out, to_end}

abbrev tags : Memory → ℕ → ℕ → ℕ → Memory
tags m p size alloc = put (put m (p + size - 8) (size + alloc)) (p - 4) (size + alloc)

abbrev sample_bytes : Memory
sample_bytes =
    put
      (put
        (put
          (tags (tags (tags (put (put (put (λ _. 0) 4104 9) 4100 9) 4180 1) 4112 24 1) 4136 32 0)
            4168 16 1)
          4136 0)
        4140 0)
      4112 7

abbrev pub sample : Heap
sample = record {
  vm = record { start_brk = 4096; brk = 4184; max_addr = 1000000 };
  bytes = sample_bytes;
  heap_listp = 4104;
  free_list_head = 4136;
  rover = 4136;
}

abbrev pub sample_blocks : List Block
sample_blocks = block 24 true ∷ block 32 false ∷ block 16 true ∷ []

pub sample-IsHeap : IsHeap sample sample_blocks (4136 ∷ [])
unfolding get put
sample-IsHeap = record {
  space = record {
    framed = record {
      aligned = refl;
      within = omega arith;
      top = omega arith;
      prologue_header = refl;
      prologue_footer = refl;
      epilogue = refl;
    };
    back = refl;
    fits = omega arith;
    tiles = (
      record {
        start = omega arith;
        aligned = refl;
        big = omega arith;
        round = refl;
        header = refl;
        footer = refl;
      },
      (
        record {
          start = omega arith;
          aligned = refl;
          big = omega arith;
          round = refl;
          header = refl;
          footer = refl;
        },
        (
          record {
            start = omega arith;
            aligned = refl;
            big = omega arith;
            round = refl;
            header = refl;
            footer = refl;
          },
          refl,
        ),
      ),
    );
  };
  nodes = record {
    links = (refl, omega arith, omega arith, refl, tt, refl);
    same = λ x. ground arith;
    count = refl;
    roams = inr refl;
  };
}

-- Seen from the free block, and from behind the last block.
sample-Zip :
    Zip sample (block 24 true ∷ []) 4136 4136 (block 32 false ∷ block 16 true ∷ []) (4136 ∷ [])
sample-Zip = move_right (block 24 true) sample-IsHeap

sample_end :
    Zip sample (block 16 true ∷ block 32 false ∷ block 24 true ∷ []) 4184 4184 [] (4136 ∷ [])
sample_end = to_end sample [] 4112 sample_blocks (4136 ∷ []) sample-IsHeap

-- The first block marked as free, and not yet coalesced.
released :
    Zip (mark 4112 24 0 sample) [] 4112 4136 (block 32 false ∷ block 16 true ∷ []) (4136 ∷ [])
    × IsBlock (mark 4112 24 0 sample).bytes 4112 (block 24 false)
released =
    mark-Zip 24 false (leave_out (block 24 true) sample-IsHeap refl) (omega arith) (omega arith)
      refl

-- The first address of the heap before anything is written there.
abbrev pub untouched : Heap
untouched = record {
  vm = record { start_brk = 4096; brk = 4096; max_addr = 4096 + 20 * 2 ^ 20 };
  bytes = λ _. 0;
  heap_listp = 0;
  free_list_head = 0;
  rover = 0;
}

pub untouched-IsUntouched : IsUntouched untouched
unfolding get
untouched-IsUntouched = record {
  empty = refl;
  aligned = refl;
  top = omega arith;
  no_head = refl;
  no_rover = refl;
  no_pred = refl;
  no_succ = refl;
}

-- `mm_init`, three calls of `mm_malloc` and one of `mm_free`: the addresses of the blocks, and the
-- head of the free list.
run : Option (ℕ × ℕ × ℕ × ℕ)
unfolding mm_init mm_malloc mm_free coalesce extend_heap place find_fit insert_node remove_node
    adjust_block pack get_size get_alloc get put mem_sbrk
run = do
  let h = (mm_init untouched).1
  (p, h) ← mm_malloc 100 h
  (q, h) ← mm_malloc 24 h
  (r, h) ← mm_malloc 30 h
  let h = mm_free q h
  some (p, q, r, h.free_list_head)

run_lem : run ≡ some (4112, 4224, 4256, 4224)
unfolding run
run_lem = refl

mm_malloc-Served_example :
    (k : ℕ × Heap) × (mm_malloc 24 sample ≡ some k)
    × (Served sample sample_blocks 24 k
        ⊎ ((k.0 ≡ 0) × IsHeap k.1 sample_blocks (4136 ∷ []) × (k.1.bytes ≡ sample.bytes)))
mm_malloc-Served_example =
    mm_malloc-Served sample sample_blocks (4136 ∷ []) 24 sample-IsHeap (λ e. omega arith)
      (omega arith)

mm_free-Freed_example : Freed sample 4168 ((4112, 24) ∷ []) []
mm_free-Freed_example =
    mm_free-Freed sample sample_blocks (4136 ∷ []) 4168 16 ((4112, 24) ∷ []) [] sample-IsHeap refl

mm_malloc-Served_first_example :
    (k : ℕ × Heap) × (mm_malloc 100
        (mm_init-IsFresh untouched untouched-IsUntouched (omega arith)).0
      ≡ some k)
    × (Served (mm_init-IsFresh untouched untouched-IsUntouched (omega arith)).0 [] 100 k
        ⊎ ((k.0 ≡ 0) × IsFresh k.1 4112))
mm_malloc-Served_first_example =
    mm_malloc-Served_first (mm_init-IsFresh untouched untouched-IsUntouched (omega arith)).0 4112
      100 (mm_init-IsFresh untouched untouched-IsUntouched (omega arith)).2 (λ e. omega arith)
      (omega arith)

mm_init-IsFresh_example : (h : Heap) × (mm_init untouched ≡ (true, h)) × IsFresh h 4112
mm_init-IsFresh_example = mm_init-IsFresh untouched untouched-IsUntouched (omega arith)

mm_free-IsHeap_example :
    IsHeap
      (mm_free 4112 sample)
      (freed_blocks [] 24 (block 32 false ∷ block 16 true ∷ []))
      (freed_nodes [] 4112 24 (block 32 false ∷ block 16 true ∷ []) (4136 ∷ []))
mm_free-IsHeap_example =
    mm_free-IsHeap sample [] 24 (block 32 false ∷ block 16 true ∷ []) (4136 ∷ []) sample-IsHeap

mm_malloc-Mallocs_example :
    (k : ℕ × Heap) × (mm_malloc 24 sample ≡ some k)
    × Mallocs sample sample_blocks (4136 ∷ []) (adjust_block 24) k
mm_malloc-Mallocs_example =
    mm_malloc-Mallocs sample sample_blocks (4136 ∷ []) 24 sample-IsHeap (λ e. omega arith)
      (omega arith)

sample_ordered : IsApart 4112 ((4112, 24) ∷ (4168, 16) ∷ []) 4184
sample_ordered = live-IsApart sample sample_blocks (4136 ∷ []) sample-IsHeap

coalesce-Merged_example :
    Merged (coalesce 4112 (mark 4112 24 0 sample)) 4112 56 [] (block 16 true ∷ []) []
coalesce-Merged_example =
    coalesce-Merged (mark 4112 24 0 sample) [] 4112 24 (block 32 false ∷ block 16 true ∷ [])
      (4136 ∷ []) released.0 released.1

place-Zip_example :
    Zip
      (place 4136 16 sample)
      (block 24 true ∷ [])
      4136
      4136
      (block 16 true ∷ block 16 false ∷ block 16 true ∷ [])
      (4152 ∷ [])
place-Zip_example =
    place-Zip sample (block 24 true ∷ []) 4136 (block 32 false) (block 16 true ∷ []) (4136 ∷ [])
      sample-Zip refl 16 (omega arith) (omega arith) refl

find_fit-next_fit_example :
    let bp = next_fit sample.bytes 24 (start sample) (4136 ∷ []) in
    find_fit 24 sample ≡ some (bp, roam sample (if truthy bp then bp else start sample))
find_fit-next_fit_example =
    find_fit-next_fit sample 24 (4136 ∷ []) sample-IsHeap.nodes.links (inr refl) (omega arith)

insert_node-Links_example :
    Links
      (insert_node 4112 sample).bytes
      0
      (insert_node 4112 sample).free_list_head
      (4112 ∷ 4136 ∷ [])
insert_node-Links_example =
    insert_node-Links 4112 sample (4136 ∷ []) (omega arith) (omega arith) (inl (omega arith), tt)
      sample-IsHeap.nodes.links

remove_node-Links_example :
    Links (remove_node 4136 sample).bytes 0 (remove_node 4136 sample).free_list_head []
remove_node-Links_example = remove_node-Links 4136 sample (4136 ∷ []) sample-IsHeap.nodes.links refl

remove_node_keeps_rover :
    ((remove_node 4136 sample).rover ≡ 0) ⊎ (has (remove_node 4136 sample).rover [] ≡ true)
remove_node_keeps_rover =
    remove_node-rover 4136 sample (4136 ∷ []) sample-IsHeap.nodes.links refl (inr refl)

extend_heap-Merged_example :
    Merged
      (extend_heap 1024 sample)
      4184
      4096
      (block 16 true ∷ block 32 false ∷ block 24 true ∷ [])
      []
      (4136 ∷ [])
extend_heap-Merged_example =
    extend_heap-Merged sample (block 16 true ∷ block 32 false ∷ block 24 true ∷ []) 4184 (4136 ∷ [])
      sample_end 4096 (omega arith) refl (omega arith) 1024 refl refl (omega arith)

adjust_block_bounds_example :
    (21 + 8 ≤ adjust_block 21)
    × (16 ≤ adjust_block 21)
    × (adjust_block 21 % 8 ≡ 0)
    × ((adjust_block 21 ≡ 16) ⊎ (adjust_block 21 < 21 + 16))
adjust_block_bounds_example = adjust_block_bounds 21 (omega arith)

adjust_block_wraps_example : adjust_block 0xffff_fff1 ≡ 16
adjust_block_wraps_example = adjust_block_wraps 0xffff_fff1 (omega arith) (omega arith)

-- `mm_checkheap` finds nothing wrong with the sample.
sample_checked : mm_checkheap sample ≡ some 0
unfolding mm_checkheap get_size get_alloc get put mem_heap_lo mem_heap_hi
sample_checked = refl

mm_realloc-Reallocs_example :
    Reallocs sample [] 4112 24 (block 32 false ∷ block 16 true ∷ []) (4136 ∷ []) 40
mm_realloc-Reallocs_example =
    mm_realloc-Reallocs sample [] 4112 24 (block 32 false ∷ block 16 true ∷ []) (4136 ∷ []) 40
      sample-IsHeap (λ e. omega arith)
