-- ===== src/Mm/Init.antt =====
-- `mm_init` of mm.c.
use malloc_lab.Base.{
  ℕ, ◌+◌, ◌-◌, ◌%◌, ◌≤◌, ◌<◌, ◌≡◌, refl, inl, sym, ap, ◌∙◌, subst, Bool, true, false, [], Option,
  none, some, arith, if◌then◌else◌, ◌==◌, ==-ne,
}
use malloc_lab.Memory.{Memory, get, put, get-put, get-put-Apart}
use malloc_lab.Memlib.{Vm, mem_sbrk}
use malloc_lab.Memlib.Sbrk.{mem_sbrk_moves}
use malloc_lab.Mm.{Heap, mm_init, prologue, extend_heap, roam, merge}
use malloc_lab.Mm.Macros.{null, pack}
use malloc_lab.Mm.Tags.{pack_tag}
use malloc_lab.Mm.Layout.{block, IsBlock}
use malloc_lab.Mm.Zip.{Zip, first}
use malloc_lab.Mm.Extend.{
  extended, extended_inside, extended-Zip, extended-IsBlock, extend_heap-coalesce,
}
use malloc_lab.Mm.Coalesce.Whole.{coalesce-merge}
use malloc_lab.Mm.Fresh.{IsFresh, larger, larger-IsFresh, extend_heap-larger}

-- What the allocator finds when it is first started: an empty heap in an aligned area below the top
-- of the address space, no free list, and zero bytes where the first block's links will stand.
pub record IsUntouched (h : Heap) : Type 0 where
  pub empty : h.vm.brk ≡ h.vm.start_brk
  pub aligned : h.vm.start_brk % 8 ≡ 0
  pub top : h.vm.max_addr < 0x1_0000_0000
  pub no_head : h.free_list_head ≡ 0
  pub no_rover : h.rover ≡ 0
  pub no_pred : get h.bytes (h.vm.start_brk + 16) ≡ 0
  pub no_succ : get h.bytes (h.vm.start_brk + 20) ≡ 0

-- The words that `mm_init` writes at the start of the heap.
abbrev written : Memory → ℕ → Memory
written m p = put (put (put (put m p 0) (p + 4) 9) (p + 8) 9) (p + 12) 1

prologue-written :
    (p : ℕ) (h : Heap) → prologue p h ≡ record h { bytes = written h.bytes p; heap_listp = p + 8 }
unfolding prologue
prologue-written p h =
    ap
      (λ s. record h {
        bytes = put (put (put (put h.bytes p 0) (p + 4) s) (p + 8) s) (p + 12) (pack 0 1);
        heap_listp = p + 8;
      })
      (pack_tag 8 true refl)
    ∙ ap
        (λ s. record h {
          bytes = put (put (put (put h.bytes p 0) (p + 4) 9) (p + 8) 9) (p + 12) s;
          heap_listp = p + 8;
        })
        (pack_tag 0 true refl)

module _ (m : Memory) (p : ℕ) where
  written_header : get (written m p) (p + 4) ≡ 9
  written_header = ground (
    arith,
    get-put-Apart (put (put (put m p 0) (p + 4) 9) (p + 8) 9) (p + 12) 1 (p + 4),
    get-put-Apart (put (put m p 0) (p + 4) 9) (p + 8) 9 (p + 4),
    get-put (put m p 0) (p + 4) 9,
  )

  written_footer : get (written m p) (p + 8) ≡ 9
  written_footer = ground (
    arith,
    get-put-Apart (put (put (put m p 0) (p + 4) 9) (p + 8) 9) (p + 12) 1 (p + 8),
    get-put (put (put m p 0) (p + 4) 9) (p + 8) 9,
  )

  written_epilogue : get (written m p) (p + 12) ≡ 1
  written_epilogue = get-put _ (p + 12) 1 (omega arith)

  written_kept : (a : ℕ) → p + 16 ≤ a → get (written m p) a ≡ get m a
  written_kept a lo = ground (
    arith,
    get-put-Apart (put (put (put m p 0) (p + 4) 9) (p + 8) 9) (p + 12) 1 a,
    get-put-Apart (put (put m p 0) (p + 4) 9) (p + 8) 9 a,
    get-put-Apart (put m p 0) (p + 4) 9 a,
    get-put-Apart m p 0 a,
  )

-- The calls of `mm_init`.
abbrev set_up : ℕ × Heap → Bool × Heap
set_up k =
    if k.0 == null
    then (false, k.1)
    else (let (bp, h) = extend_heap 4 k.1 in
        if bp == null then (false, h) else (true, roam h h.free_list_head))

abbrev init_body : Heap → Option ℕ × Vm → Bool × Heap
init_body h (none, vm) = (false, record h { vm = vm; heap_listp = 0xffff_ffff })
init_body h (some p, vm) = set_up (extend_heap 1024 (prologue p (record h { vm = vm })))

init_cases :
    (h : Heap) (area : Option ℕ) (vm : Vm)
    → (elim area [
      | none ↦ (false, record h { vm = vm; heap_listp = 0xffff_ffff })
      | some p ↦ set_up (extend_heap 1024 (prologue p (record h { vm = vm })))
    ])
      ≡ init_body h (area, vm)
init_cases h none vm = refl
init_cases h (some p) vm = refl

mm_init-body : (h : Heap) → mm_init h ≡ init_body h (mem_sbrk 16 h.vm)
unfolding mm_init
mm_init-body h = init_cases h (mem_sbrk 16 h.vm).0 (mem_sbrk 16 h.vm).1

module _ (h : Heap) (u : IsUntouched h) (room : h.vm.start_brk + 4128 ≤ h.vm.max_addr) where
  -- The heap with its prologue and epilogue and no block.
  bare : Heap
  bare = record h {
    vm = record h.vm { brk = h.vm.brk + 16 };
    bytes = written h.bytes h.vm.brk;
    heap_listp = h.vm.brk + 8;
  }

  bare-Zip : Zip bare [] (first h.vm) (first h.vm) [] []
  unfolding bare
  bare-Zip = record {
    space = record {
      framed = record {
        aligned = u.aligned;
        within = omega (arith, u.empty);
        top = u.top;
        prologue_header =
            ap (get (written h.bytes h.vm.brk))
              (let e : h.vm.start_brk + 4 ≡ h.vm.brk + 4 = omega (arith, u.empty) in e)
            ∙ written_header h.bytes h.vm.brk;
        prologue_footer =
            ap (get (written h.bytes h.vm.brk))
              (let e : h.vm.start_brk + 8 ≡ h.vm.brk + 8 = omega (arith, u.empty) in e)
            ∙ written_footer h.bytes h.vm.brk;
        epilogue =
            ap (get (written h.bytes h.vm.brk))
              (let e : h.vm.brk + 16 - 4 ≡ h.vm.brk + 12 = omega arith in e)
            ∙ written_epilogue h.bytes h.vm.brk;
      };
      back = refl;
      fits = omega arith;
      tiles = omega (arith, u.empty);
    };
    nodes = record { links = u.no_head; same = λ x. refl; count = refl; roams = inl u.no_rover };
  }

  bare_room : bare.vm.brk + 4096 ≤ bare.vm.max_addr
  unfolding bare
  bare_room = omega (arith, u.empty)

  first_aligned : first h.vm % 8 ≡ 0
  first_aligned = omega (arith, u.aligned)

  -- The heap after the first `extend_heap`.
  chunk : Heap
  chunk = extended bare (first h.vm) 4096

  chunk-Zip : Zip chunk [] (first h.vm) (first h.vm + 4096) [] []
  unfolding chunk
  chunk-Zip =
      extended-Zip bare [] (first h.vm) (first h.vm) [] bare-Zip 4096 first_aligned (omega arith)
        (omega arith) bare_room

  chunk-IsBlock : IsBlock chunk.bytes (first h.vm) (block 4096 false)
  unfolding chunk
  chunk-IsBlock =
      extended-IsBlock bare [] (first h.vm) (first h.vm) [] bare-Zip 4096 first_aligned
        (omega arith) (omega arith) bare_room

  merge_nothing : merge true true (first h.vm) 4096 chunk ≡ (first h.vm, chunk)
  unfolding merge
  merge_nothing = refl

  chunk_made : extend_heap 1024 bare ≡ (first h.vm, chunk)
  unfolding chunk
  chunk_made =
      extend_heap-coalesce bare [] (first h.vm) (first h.vm) [] bare-Zip 4096 first_aligned
        (omega arith) (omega arith) bare_room 1024 (omega arith) (omega arith) (omega arith)
      ∙ coalesce-merge chunk [] (first h.vm) 4096 [] [] chunk-Zip chunk-IsBlock
      ∙ merge_nothing

  chunk_link : (a : ℕ) → first h.vm ≤ a → a ≤ first h.vm + 4 → get chunk.bytes a ≡ get h.bytes a
  unfolding chunk bare
  chunk_link a lo hi =
      extended_inside bare [] (first h.vm) (first h.vm) [] bare-Zip 4096 first_aligned (omega arith)
        (omega arith) bare_room a lo (omega arith)
      ∙ written_kept h.bytes h.vm.brk a (omega (arith, u.empty))

  chunk-vm : chunk.vm ≡ record h.vm { brk = first h.vm + 4096 }
  unfolding chunk bare extended
  chunk-vm = ap (λ b. record h.vm { brk = b }) (omega (arith, u.empty))

  chunk-IsFresh : IsFresh chunk 4096
  chunk-IsFresh = record {
    zip = subst (λ v. Zip chunk [] (first v) v.brk [] []) (sym chunk-vm) chunk-Zip;
    tags =
        subst (λ v. IsBlock chunk.bytes (first v) (block 4096 false)) (sym chunk-vm) chunk-IsBlock;
    ends = subst (λ v. v.brk ≡ first v + 4096) (sym chunk-vm) refl;
    no_pred =
        subst (λ v. get chunk.bytes (first v) ≡ 0) (sym chunk-vm)
          (chunk_link (first h.vm) (omega arith) (omega arith) ∙ u.no_pred);
    no_succ =
        subst (λ v. get chunk.bytes (first v + 4) ≡ 0) (sym chunk-vm)
          (chunk_link (first h.vm + 4) (omega arith) (omega arith)
            ∙ ap (get h.bytes) (omega arith)
            ∙ u.no_succ);
  }

  chunk_room : chunk.vm.brk + 16 ≤ chunk.vm.max_addr
  chunk_room = subst (λ v. v.brk + 16 ≤ v.max_addr) (sym chunk-vm) (omega arith)

  -- The heap after the second `extend_heap`, 16 bytes larger.
  ready : Heap
  ready = larger chunk 4096 16

  ready-IsFresh : IsFresh ready 4112
  unfolding ready
  ready-IsFresh = larger-IsFresh chunk 4096 chunk-IsFresh 16 (omega arith) (omega arith) chunk_room

  ready_made : extend_heap 4 chunk ≡ (first h.vm, ready)
  unfolding ready
  ready_made =
      extend_heap-larger chunk 4096 chunk-IsFresh 16 (omega arith) (omega arith) chunk_room 4 refl
        refl (omega arith)
      ∙ ap (λ v. (first v, ready)) chunk-vm

  init_runs : mm_init h ≡ (true, roam ready ready.free_list_head)
  unfolding bare
  init_runs =
      mm_init-body h
      ∙ ap (init_body h) (mem_sbrk_moves 16 h.vm (omega arith) (omega (arith, u.empty)))
      ∙ ap (λ k. set_up (extend_heap 1024 k))
          (prologue-written h.vm.brk (record h { vm = record h.vm { brk = h.vm.brk + 16 } }))
      ∙ ap set_up chunk_made
      ∙ rw (==-ne (first h.vm) 0 (omega arith), ready_made, ==-ne (first h.vm) 0 (omega arith)) refl

pub IsFresh-roam : (h : Heap) (c : ℕ) → IsFresh h c → IsFresh (roam h h.free_list_head) c
IsFresh-roam h c f = record {
  zip = record {
    space = f.zip.space;
    nodes = record {
      links = f.zip.nodes.links;
      same = f.zip.nodes.same;
      count = f.zip.nodes.count;
      roams = inl f.zip.nodes.links;
    };
  };
  tags = f.tags;
  ends = f.ends;
  no_pred = f.no_pred;
  no_succ = f.no_succ;
}

-- On an empty heap at a multiple of 8 below 2 ^ 32, with no free list, zero bytes where the links
-- of its first block will stand, and 4128 bytes of room, `mm_init` succeeds and leaves one free
-- block of 4112 bytes, which is on no list.
pub mm_init-IsFresh :
    (h : Heap)
    → IsUntouched h
    → h.vm.start_brk + 4128 ≤ h.vm.max_addr
    → (h' : Heap) × (mm_init h ≡ (true, h')) × IsFresh h' 4112
mm_init-IsFresh h u room = (
  roam (ready h u room) (ready h u room).free_list_head,
  init_runs h u room,
  IsFresh-roam (ready h u room) 4112 (ready-IsFresh h u room),
)
