-- ===== src/MmCg45/Extend.antt =====
-- `extend_heap` of mm-cg45.c: where the new block starts.
use malloc_lab.Base.{
  ℕ, ◌+◌, ◌-◌, ◌%◌, ◌≤◌, ◌<◌, ◌≡◌, refl, ap, ◌∙◌, inl, inr, Bool-cases, Option, none, some, arith,
  if◌then◌else◌, ltb,
}
use malloc_lab.Memory.{Memory, get, put, get-put-Apart}
use malloc_lab.Memlib.{Vm, mem_sbrk}
use malloc_lab.Memlib.Sbrk.{mem_sbrk_moves}
use malloc_lab.Mm.Macros.{get_size, truthy}
use malloc_lab.Mm.Tags.{get_size_same}
use malloc_lab.MmCg45.{Heap, extend_heap, found_block, coalesce, absorb_prev}
use malloc_lab.MmCg45.Macros.{align, pack, get_prev_alloc}

-- In front of the new block stands the old epilogue, which has no size, so that nothing is merged
-- with it.
coalesce_start :
    (p : ℕ) (h : Heap) → 4 ≤ p → get_size h.bytes (p - 4) ≡ 0 → (coalesce (p + 4) h).0 ≡ p + 4
unfolding coalesce absorb_prev
coalesce_start p h low e = elim (Bool-cases (truthy (get_prev_alloc h.bytes (p + 4 - 4)))) [
  | inl t ↦ rw t (omega arith)
  | inr f ↦
      let before : get_size h.bytes (p + 4 - 4 - 4) ≡ 0 =
        ap (get_size h.bytes) (let at : p + 4 - 4 - 4 ≡ p - 4 = omega arith in at) ∙ e in
      rw (f, before) (omega arith)
]

found_block_start :
    (p n : ℕ) (h : Heap)
    → 4 ≤ p
    → 8 ≤ n
    → get_size h.bytes (p - 4) ≡ 0
    → (found_block p n h).0 ≡ p + 4
unfolding found_block
found_block_start p n h low big e = elim (Bool-cases (truthy (get_prev_alloc h.bytes p))) [
  | inl t ↦ rw t refl
  | inr f ↦ rw f (coalesce_start p _ low (get_size_same _ h.bytes (p - 4) kept ∙ e))
]
  where
    flag : ℕ
    flag = get_prev_alloc h.bytes p

    one : Memory
    one = put h.bytes p (pack n flag 0)

    two : Memory
    two = put one (p + n - 4) (pack n flag 0)

    kept : get (put two (p + n) (pack 0 0 1)) (p - 4) ≡ get h.bytes (p - 4)
    kept = ground (
      arith,
      get-put-Apart two (p + n) (pack 0 0 1) (p - 4),
      get-put-Apart one (p + n - 4) (pack n flag 0) (p - 4),
      get-put-Apart h.bytes p (pack n flag 0) (p - 4),
    )

-- The two halves of `extend_heap`: the size, and what follows `mem_sbrk`.
abbrev bytes_of : ℕ → ℕ
bytes_of bytes = if ltb (align bytes) 8 then 8 else align bytes

abbrev body : ℕ → Heap → Option ℕ × Vm → ℕ × Heap
body asize h (none, vm) = (0, record h { vm = vm })
body asize h (some bp, vm) = found_block bp asize (record h { vm = vm })

body_cases :
    (asize : ℕ) (h : Heap) (area : Option ℕ) (vm : Vm)
    → (elim area [
      | none ↦ (0, record h { vm = vm })
      | some bp ↦ found_block bp asize (record h { vm = vm })
    ])
      ≡ body asize h (area, vm)
body_cases asize h none vm = refl
body_cases asize h (some bp) vm = refl

extend_heap-body :
    (bytes : ℕ) (h : Heap)
    → extend_heap bytes h ≡ body (bytes_of bytes) h (mem_sbrk (bytes_of bytes) h.vm)
unfolding extend_heap
extend_heap-body bytes h =
    body_cases (bytes_of bytes) h (mem_sbrk (bytes_of bytes) h.vm).0
      (mem_sbrk (bytes_of bytes) h.vm).1

new_block_start :
    (bytes : ℕ) (h : Heap)
    → 4 ≤ h.vm.brk
    → get_size h.bytes (h.vm.brk - 4) ≡ 0
    → 8 ≤ align bytes
    → align bytes < 0x8000_0000
    → h.vm.brk + align bytes ≤ h.vm.max_addr
    → (extend_heap bytes h).0 ≡ h.vm.brk + 4
new_block_start bytes h low epilogue big positive room =
    let enough : bytes_of bytes ≡ align bytes = ground arith in
    ap (λ k. k.0)
      (extend_heap-body bytes h
        ∙ ap (λ n. body n h (mem_sbrk n h.vm)) enough
        ∙ ap (body (align bytes) h) (mem_sbrk_moves (align bytes) h.vm positive room))
    ∙ found_block_start h.vm.brk (align bytes) _ low big epilogue

-- `extend_heap` of mm-cg45.c, on a heap whose last word is an epilogue, for a request that fits,
-- returns the break plus 4, whatever the flags are: where the break is a multiple of 8 the new
-- block is not aligned.
pub extend_heap_start :
    (bytes : ℕ) (h : Heap)
    → 4 ≤ h.vm.brk
    → get_size h.bytes (h.vm.brk - 4) ≡ 0
    → h.vm.brk % 8 ≡ 0
    → 8 ≤ align bytes
    → align bytes < 0x8000_0000
    → h.vm.brk + align bytes ≤ h.vm.max_addr
    → ((extend_heap bytes h).0 ≡ h.vm.brk + 4) × ((extend_heap bytes h).0 % 8 ≡ 4)
extend_heap_start bytes h low epilogue aligned big positive room =
    let start = new_block_start bytes h low epilogue big positive room in
    (start, omega (arith, start))
