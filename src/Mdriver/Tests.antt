-- ===== src/Mdriver/Tests.antt =====
-- The driver of mdriver.c on mm.c and a short trace.
use malloc_lab.Base.{
  Bool, Option, none, ◌+◌, ◌-◌, ◌*◌, ◌^◌, ◌≡◌, refl, true, false, some, List, [], ◌∷◌, inr, arith,
}
use malloc_lab.Memory.{get, put, memcpy, memset}
use malloc_lab.Memlib.{mem_sbrk, mem_reset_brk, mem_heap_lo, mem_heap_hi}
use malloc_lab.Mm.{
  Heap, mm_init, mm_malloc, mm_free, mm_realloc, coalesce, extend_heap, place, find_fit,
  insert_node, remove_node, adjust_block,
}
use malloc_lab.Mm.Macros.{pack, get_size, get_alloc}
use malloc_lab.Mdriver.{
  stops, malloc_error, ◌>>=◌, returns, Range, alloc, free, realloc, TraceOp, Trace, Errors,
}
use malloc_lab.Mdriver.MmAllocator.{mm_allocator, mm_allocator-IsGrowing}
use malloc_lab.Mdriver.Ensures.{Ensures}
use malloc_lab.Mdriver.Ranges.{add_range}
use malloc_lab.Mdriver.Ranges.Accepts.{IsPayload, add_range-accepts, add_range-IsPayload}
use malloc_lab.Mdriver.Ranges.Kept.{IsKept}
use malloc_lab.Mdriver.Valid.{
  preserved, eval_mm_valid, valid_step, valid_alloc, valid_realloc, valid_free, check_alloc,
  check_realloc, remember, compare_moved,
}
use malloc_lab.Mdriver.Valid.Counted.{counted, eval_mm_valid-counted}
use malloc_lab.Mdriver.Valid.Keeps.{eval_mm_valid-IsKept}
use malloc_lab.Mdriver.Valid.Fills.{is_filled, preserved-is_filled, preserved_high}
use malloc_lab.Mdriver.Util.{eval_mm_util}
use malloc_lab.Mdriver.Speed.{eval_mm_speed}
use malloc_lab.Mdriver.Speed.Same.{load, eval_mm_speed-util}
use malloc_lab.Mdriver.ReadTrace.{numeral, read_trace}
use malloc_lab.Mdriver.ReadTrace.Roundtrip.{lines, read_trace-lines}

abbrev untouched : Heap
untouched = record {
  vm = record { start_brk = 4096; brk = 4096; max_addr = 4096 + 20 * 2 ^ 20 };
  bytes = λ _. 0;
  heap_listp = 0;
  free_list_head = 0;
  rover = 0;
}

-- `a 0 100`, `a 1 24`, `r 0 200`, `f 1`.
abbrev short_ops : List TraceOp
short_ops =
    record { type = alloc; index = 0; size = 100 }
    ∷ record { type = alloc; index = 1; size = 24 }
    ∷ record { type = realloc; index = 0; size = 200 }
    ∷ record { type = free; index = 1; size = 0 }
    ∷ []

abbrev short_trace : Trace
short_trace = record {
  sugg_heapsize = 20000;
  num_ids = 2;
  num_ops = 4;
  weight = 1;
  ops = short_ops;
  blocks = λ _. 0;
  block_sizes = λ _. 0;
}

abbrev no_errors : Errors
no_errors = record { errors = 0; reports = [] }

-- A payload of 8 bytes is kept, and a larger one around it is taken as well.
abbrev inner : Range
inner = record { lo = 4120; hi = 4127 }

enclosing-IsPayload : IsPayload 4096 8191 4112 64 (inner ∷ [])
enclosing-IsPayload = record {
  positive = omega arith;
  int = omega arith;
  aligned = refl;
  low = omega arith;
  high = omega arith;
  passes = (inr (omega arith, omega arith), tt);
}

add_range-accepts_example :
    add_range (λ _. true) 4096 8191 4112 64 0 5 (inner ∷ []) no_errors
    ≡ returns (true, record { lo = 4112; hi = 4175 } ∷ inner ∷ [], no_errors)
add_range-accepts_example =
    add_range-accepts (λ _. true) 4096 8191 4112 64 0 5 (inner ∷ []) no_errors enclosing-IsPayload
      refl

add_range-IsPayload_example :
    IsPayload 4096 8191 4112 64 (inner ∷ [])
    × (record { lo = 4112; hi = 4175 } ∷ inner ∷ []
        ≡ record { lo = 4112; hi = 4112 + 64 - 1 } ∷ inner ∷ [])
    × (no_errors ≡ no_errors)
add_range-IsPayload_example =
    add_range-IsPayload (λ _. true) 4096 8191 4112 64 0 5 (inner ∷ []) no_errors
      (record { lo = 4112; hi = 4175 } ∷ inner ∷ []) no_errors add_range-accepts_example

eval_mm_valid_counts :
    Ensures
      (eval_mm_valid mm_allocator (λ _. true) 0 short_trace untouched [] no_errors)
      (λ k. k.1.errors.errors ≡ counted 0 k.0)
eval_mm_valid_counts =
    eval_mm_valid-counted mm_allocator (λ _. true) 0 short_trace untouched [] no_errors

eval_mm_valid-IsKept_example :
    Ensures (eval_mm_valid mm_allocator (λ _. true) 0 short_trace untouched [] no_errors) (λ k.
      IsKept (mm_allocator.mem_heap_lo k.1.heap) (mm_allocator.mem_heap_hi k.1.heap) k.1.ranges)
eval_mm_valid-IsKept_example =
    eval_mm_valid-IsKept mm_allocator (λ _. true) 0 mm_allocator-IsGrowing short_trace untouched []
      no_errors

preserved_filled : preserved (λ _. 5) 4112 261 16 ≡ is_filled (λ _. 5) 4112 261 16
preserved_filled = preserved-is_filled (λ _. 5) 4112 261 16 (λ _. omega arith) (omega arith)

-- All the bytes are what they were filled with, and the comparison fails.
preserved_high_example : preserved (λ _. 200) 4112 200 16 ≡ false
preserved_high_example = preserved_high (λ _. 200) 4112 200 15 (λ _. omega arith) (omega arith)

eval_mm_speed-util_example :
    eval_mm_speed mm_allocator short_trace untouched
    ≡ (eval_mm_util mm_allocator short_trace untouched >>= λ k. load mm_allocator k.1)
eval_mm_speed-util_example = eval_mm_speed-util mm_allocator short_trace untouched

read_trace-lines_example :
    read_trace
      (λ _. true)
      (λ _. 0)
      (some (numeral 20000 ∷ numeral 2 ∷ numeral 4 ∷ numeral 1 ∷ lines short_ops))
    ≡ returns short_trace
read_trace-lines_example =
    read_trace-lines (λ _. true) (λ _. 0) 20000 2 1 short_ops (λ _. refl) refl

-- The verdict on mm.c: 1 for the short trace, and 0 for a trace in which a block of the index 128 is
-- reallocated, although its bytes are kept.
verdict : List TraceOp → Option Bool
unfolding eval_mm_valid valid_step valid_alloc valid_realloc valid_free check_alloc check_realloc
    remember compare_moved add_range malloc_error mm_allocator mm_init mm_malloc mm_free mm_realloc
    coalesce extend_heap place find_fit insert_node remove_node adjust_block pack get_size get_alloc
    get put memcpy memset mem_sbrk mem_reset_brk mem_heap_lo mem_heap_hi
verdict ops =
    elim (eval_mm_valid mm_allocator (λ _. true) 0 (record short_trace { ops = ops }) untouched []
      no_errors) [ returns k ↦ some k.0 | stops s ↦ none ]

verdict_short : verdict short_ops ≡ some true
unfolding verdict
verdict_short = refl

verdict_128 :
    verdict (
      record { type = alloc; index = 128; size = 24 }
      ∷ record { type = realloc; index = 128; size = 200 }
      ∷ [])
    ≡ some false
unfolding verdict
verdict_128 = refl
