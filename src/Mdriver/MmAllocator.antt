-- ===== src/Mdriver/MmAllocator.antt =====
-- mm.c and memlib.c as the allocator that the driver of mdriver.c is built with.
use malloc_lab.Base.{arith, ap, refl}
use malloc_lab.Memlib.{mem_reset_brk, mem_heap_lo, mem_heap_hi, mem_heapsize}
use malloc_lab.Mm.{Heap, mm_init, mm_malloc, mm_realloc, mm_free}
use malloc_lab.Mm.Grows.{mm_malloc-Grows, mm_realloc-Grows, mm_free-vm}
use malloc_lab.Mdriver.{Allocator}
use malloc_lab.Mdriver.Valid.Keeps.{IsGrowing}

unfoldable pub mm_allocator : Allocator Heap
mm_allocator = record {
  mem_reset_brk = λ h. record h { vm = mem_reset_brk h.vm };
  mem_heap_lo = λ h. mem_heap_lo h.vm;
  mem_heap_hi = λ h. mem_heap_hi h.vm;
  mem_heapsize = λ h. mem_heapsize h.vm;
  mm_init = mm_init;
  mm_malloc = mm_malloc;
  mm_realloc = mm_realloc;
  mm_free = mm_free;
  bytes = λ h. h.bytes;
  write = λ h m. record h { bytes = m };
}

-- The heap of mm.c and memlib.c starts at a fixed address, and under `mm_malloc`, `mm_realloc`,
-- `mm_free` and writes to memory its end moves up only, from any state.
pub mm_allocator-IsGrowing : IsGrowing mm_allocator
unfolding mm_allocator mem_heap_lo mem_heap_hi
mm_allocator-IsGrowing = record {
  malloc_lo = λ size h k e. (mm_malloc-Grows size h k e).start;
  malloc_hi = λ size h k e. omega (arith, (mm_malloc-Grows size h k e).brk);
  realloc_lo = λ p size h k e. (mm_realloc-Grows p size h k e).start;
  realloc_hi = λ p size h k e. omega (arith, (mm_realloc-Grows p size h k e).brk);
  free_lo = λ p h. ap (λ v. v.start_brk) (mm_free-vm p h);
  free_hi = λ p h. omega (arith, ap (λ v. v.brk) (mm_free-vm p h));
  write_lo = λ h m. refl;
  write_hi = λ h m. omega arith;
}
