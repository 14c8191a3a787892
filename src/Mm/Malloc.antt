-- ===== src/Mm/Malloc.antt =====
-- `mm_malloc` of mm.c.
pub mod Keeps
use malloc_lab.Base.{
  ℕ, ◌+◌, ◌-◌, ◌*◌, ◌/◌, ◌%◌, ◌≤◌, ◌<◌, ◌≡◌, refl, ◌≢◌, ◌⊎◌, inl, inr, sym, ap, ◌∙◌, subst, true,
  false, List, [], ◌∷◌, arith, if◌then◌else◌, some, ◌==◌, ==-cases, ==-ne, leb-cases, reverse_aux,
  Bool-cases,
}
use malloc_lab.Mm.{Heap, mm_malloc, adjust_block, find_fit, place, extend_heap, insert_node, roam}
use malloc_lab.Mm.Macros.{truthy, max_of, chunksize, wsize, get_size, hdrp}
use malloc_lab.Mm.FreeList.{has, Links, node_range}
use malloc_lab.Memory.{Memory}
use malloc_lab.Mm.Layout.{Block, block, Tiles-le}
use malloc_lab.Mm.Zip.{Zip, first, Space_range}
use malloc_lab.Mm.Zip.Mark.{place_bounds}
use malloc_lab.Mm.Zip.Move.{IsHeap, locate, to_end}
use malloc_lab.Mm.Adjust.{adjust_block_bounds}
use malloc_lab.Mm.FindFit.Next.{
  next_fit, start, find_fit-next_fit, next_fit-fits, next_fit_none, fuel_enough,
}
use malloc_lab.Mm.Coalesce.{absorbed, beyond, unlisted_prev}
use malloc_lab.Mm.Coalesce.Merge.{Merged}
use malloc_lab.Mm.Extend.{extend_heap-Merged, extend_heap_fails}
use malloc_lab.Mm.Place.{placed, placed_nodes, place-Zip}
use malloc_lab.Mm.Free.{insert-Merged}
use malloc_lab.Mm.Tags.{header-size}

-- What `mm_malloc` does to a heap of the blocks `bs`, for a block of `asize` bytes: it takes a free
-- block, or a new one at the end, or gives up where no block fits and the heap cannot grow.
pub data Mallocs (h : Heap) (bs : List Block) (xs : List ℕ) (asize : ℕ) (result : ℕ × Heap)
    : Type 0 where
  fitted :
      (ls : List Block) (size : ℕ) (rs : List Block)
      → bs ≡ reverse_aux ls (block size false ∷ rs)
      → asize ≤ size
      → Zip result.1 ls result.0 result.0
          (placed size asize rs)
          (placed_nodes result.0 size asize xs)
      → Mallocs h bs xs asize result
  grew :
      (size : ℕ)
      → size ≡ absorbed (reverse_aux bs []) + max_of asize chunksize
      → ((y : ℕ) → has y xs ≡ true → get_size h.bytes (hdrp y) < asize)
      → Zip result.1 (beyond (reverse_aux bs [])) result.0 result.0 (placed size asize []) (
          placed_nodes result.0 size asize
            (result.0 ∷ unlisted_prev (reverse_aux bs []) h.vm.brk xs))
      → Mallocs h bs xs asize result
  refused :
      result.0 ≡ 0
      → IsHeap result.1 bs xs
      → result.1.bytes ≡ h.bytes
      → ((y : ℕ) → has y xs ≡ true → get_size h.bytes (hdrp y) < asize)
      → (0x8000_0000 ≤ max_of asize chunksize) ⊎ (h.vm.max_addr < h.vm.brk + max_of asize chunksize)
      → Mallocs h bs xs asize result

-- What `mm_malloc` makes of the result of `extend_heap`.
abbrev pub after_extend : ℕ → ℕ × Heap → ℕ × Heap
after_extend asize k = if k.0 == 0 then (0, k.1) else (k.0, place k.0 asize (insert_node k.0 k.1))

-- The branches of `mm_malloc`, each with what its calls return.
module _ (size : ℕ) (h h' : Heap) (some_size : size ≢ 0) (bp : ℕ)
    (found : find_fit (adjust_block size) h ≡ some (bp, h')) where
  branch_found : bp ≢ 0 → mm_malloc size h ≡ some (bp, place bp (adjust_block size) h')
  unfolding mm_malloc
  branch_found ne = rw (==-ne size 0 some_size, found, ==-ne bp 0 ne)

  pub branch_grew :
      bp ≡ 0
      → let k = extend_heap (max_of (adjust_block size) chunksize / wsize) h' in
        mm_malloc size h
        ≡ some (
            if k.0 == 0
            then (0, k.1)
            else (k.0, place k.0 (adjust_block size) (insert_node k.0 k.1)))
  unfolding mm_malloc
  branch_grew e =
      rw (==-ne size 0 some_size, found, e)
        (elim (==-cases k.0 0) [ inl (_, t) ↦ rw t | inr (_, f) ↦ rw f ])
    where
      k : ℕ × Heap
      k = extend_heap (max_of (adjust_block size) chunksize / wsize) h'

Zip-roam :
    (h : Heap) (r : ℕ) (ls : List Block) (p q : ℕ) (rs : List Block) (xs : List ℕ)
    → Zip h ls p q rs xs
    → (r ≡ 0) ⊎ (has r xs ≡ true)
    → Zip (roam h r) ls p q rs xs
Zip-roam h r ls p q rs xs z on = record {
  space = z.space;
  nodes = record { links = z.nodes.links; same = z.nodes.same; count = z.nodes.count; roams = on };
}

head_listed : (m : Memory) (p : ℕ) (xs : List ℕ) → Links m 0 p xs → (p ≡ 0) ⊎ (has p xs ≡ true)
head_listed m p [] l = inl l
head_listed m p (x ∷ xs) l = ground arith

module _ (h : Heap) (bs : List Block) (xs : List ℕ) (z : IsHeap h bs xs) (asize : ℕ)
    (big : 16 ≤ asize) (round : asize % 8 ≡ 0) where
  found : ℕ
  found = next_fit h.bytes asize (start h) xs

  no_null : has 0 xs ≡ false
  no_null = elim (Bool-cases (has 0 xs)) [
    | inl e ↦ absurd (omega (arith, node_range h.bytes 0 h.free_list_head 0 xs z.nodes.links e))
    | inr e ↦ e
  ]

  -- The heap after `find_fit`.
  sought : Heap
  sought = roam h (if truthy found then found else start h)

  find_fit-sought : find_fit asize h ≡ some (found, sought)
  unfolding found sought
  find_fit-sought =
      find_fit-next_fit h asize xs z.nodes.links z.nodes.roams
        (fuel_enough h [] (first h.vm) (first h.vm) bs xs z)

  hits : found ≢ 0 → (has found xs ≡ true) × (asize ≤ get_size h.bytes (hdrp found))
  unfolding found
  hits ne = next_fit-fits h.bytes asize (start h) xs ne

  sought-IsHeap : IsHeap sought bs xs
  unfolding sought
  sought-IsHeap = Zip-roam h _ [] (first h.vm) (first h.vm) bs xs z (elim (==-cases found 0) [
    | inl (e, t) ↦
        rw t (ground (arith, z.nodes.roams, head_listed h.bytes h.free_list_head xs z.nodes.links))
    | inr (ne, f) ↦ rw f (inr (hits ne).0)
  ])

  fitted_place : found ≢ 0 → Mallocs h bs xs asize (found, place found asize sought)
  unfolding sought
  fitted_place ne =
      let at = locate sought found bs xs (hits ne).0 sought-IsHeap in
      let size = header-size h.bytes found at.here at.zip.space.tiles.0 (
        omega (
          arith,
          place_bounds at.zip,
          Tiles-le _ _ _ _ at.zip.space.tiles.1,
          Space_range at.zip.space,
          at.zip.space.framed.within,
          at.zip.space.framed.top,
          at.zip.space.tiles.0.start,
        )) in
      fitted at.before at.here.size at.behind
        (at.split ∙ ap (λ a. reverse_aux at.before (block at.here.size a ∷ at.behind)) at.free)
        (omega (arith, hits ne, size))
        (place-Zip sought at.before found at.here at.behind xs at.zip at.free asize
          (omega (arith, hits ne, size)) big round)

  nothing_fits : found ≡ 0 → (y : ℕ) → has y xs ≡ true → get_size h.bytes (hdrp y) < asize
  unfolding found
  nothing_fits e y i = next_fit_none h.bytes asize (start h) y xs no_null e i

  more : ℕ
  more = max_of asize chunksize

  more_lem :
      (16 ≤ more) × (more % 8 ≡ 0) × (asize ≤ more) × (more ≡ 4 * (more / 4)) × ((more / 4) % 2 ≡ 0)
  unfolding more
  more_lem = ground arith

  more_low : asize < 0x1_0000_0000 → more < 0x1_0000_0000
  unfolding more
  more_low low = ground arith

  grown : ℕ × Heap
  grown = extend_heap (more / wsize) sought

  abbrev taken : ℕ × Heap → ℕ × Heap
  taken = after_extend asize

  ends : List Block
  ends = reverse_aux bs []

  -- The new block, which is on no list yet, is put on the list and allocated.
  grow_taken :
      (k : ℕ × Heap) (p : ℕ)
      → Merged k p (absorbed ends + more) (beyond ends) [] (unlisted_prev ends h.vm.brk xs)
      → ((y : ℕ) → has y xs ≡ true → get_size h.bytes (hdrp y) < asize)
      → Mallocs h bs xs asize (k.0, place k.0 asize (insert_node k.0 k.1))
  unfolding more ends
  grow_taken k p m none_fits =
      let fits : asize ≤ absorbed ends + more = omega (arith, more_lem) in
      grew (absorbed ends + more) refl none_fits (
        subst
          (λ t.
            Zip (place k.0 asize (insert_node k.0 k.1)) (beyond ends) t t
              (placed (absorbed ends + more) asize [])
              (placed_nodes t (absorbed ends + more) asize (t ∷ unlisted_prev ends h.vm.brk xs)))
          (sym m.at)
          (subst
            (λ t.
              Zip (place t asize (insert_node k.0 k.1)) (beyond ends) p p
                (placed (absorbed ends + more) asize [])
                (placed_nodes p (absorbed ends + more) asize (p ∷ unlisted_prev ends h.vm.brk xs)))
            (sym m.at)
            (place-Zip (insert_node k.0 k.1) (beyond ends) p (block (absorbed ends + more) false) []
              (p ∷ unlisted_prev ends h.vm.brk xs)
              (insert-Merged k p (absorbed ends + more) (beyond ends) []
                (unlisted_prev ends h.vm.brk xs) m)
              refl asize fits big round)))

  grow_room :
      found ≡ 0
      → more < 0x8000_0000
      → h.vm.brk + more ≤ h.vm.max_addr
      → Mallocs h bs xs asize (taken grown)
  unfolding sought ends grown
  grow_room e positive room =
      let m =
        extend_heap-Merged sought ends h.vm.brk xs
          (to_end sought [] (first h.vm) bs xs sought-IsHeap) more more_lem.0 more_lem.1 room
          (more / 4) more_lem.3 more_lem.4 positive in
      rw (==-ne grown.0 0 (omega (arith, m.at, m.tags.start)))
        (grow_taken grown (h.vm.brk - absorbed ends) m (nothing_fits e))

  grow_refused :
      found ≡ 0
      → (0x8000_0000 ≤ more) ⊎ (h.vm.max_addr < h.vm.brk + more)
      → more < 0x1_0000_0000
      → Mallocs h bs xs asize (taken grown)
  unfolding sought more grown
  grow_refused e over low =
      subst (λ k. Mallocs h bs xs asize (taken k))
        (sym (
          extend_heap_fails (more / 4) sought more_lem.4 (omega (arith, more_lem))
            (ground (arith, more_lem, over))))
        (refused refl sought-IsHeap refl (nothing_fits e) over)

  grow : found ≡ 0 → asize < 0x1_0000_0000 → Mallocs h bs xs asize (taken grown)
  grow e low = elim (leb-cases 0x8000_0000 more) [
    | inl (over, _) ↦ grow_refused e (inl over) (omega (arith, more_low low))
    | inr (under, _) ↦ elim (leb-cases (h.vm.brk + more) h.vm.max_addr) [
      | inl (room, _) ↦ grow_room e under room
      | inr (over, _) ↦ grow_refused e (inr over) (omega (arith, more_low low))
    ]
  ]

  outcome : ℕ × Heap
  outcome = if truthy found then (found, place found asize sought) else taken grown

  outcome-Mallocs : asize < 0x1_0000_0000 → Mallocs h bs xs asize outcome
  unfolding outcome
  outcome-Mallocs low = elim (==-cases found 0) [
    | inl (e, t) ↦ rw t (grow e low)
    | inr (ne, f) ↦ rw f (fitted_place ne)
  ]

  outcome_runs :
      (size : ℕ)
      → size ≢ 0
      → find_fit (adjust_block size) h ≡ some (found, sought)
      → adjust_block size ≡ asize
      → mm_malloc size h ≡ some outcome
  unfolding grown outcome more
  outcome_runs size ne hit e = elim (==-cases found 0) [
    | inl (e', t) ↦ rw t (
        branch_grew size h sought ne found hit e'
        ∙ ap (λ a. some (after_extend a (extend_heap (max_of a chunksize / wsize) sought))) e)
    | inr (ne', f) ↦ rw f (
        branch_found size h sought ne found hit ne'
        ∙ ap (λ a. some (found, place found a sought)) e)
  ]

-- On a well-formed heap `mm_malloc` of a request of at least one byte that `adjust_block` does
-- not wrap returns; it places the block in a free block that is large enough, or in a new one of
-- at least 4096 bytes at the end if no free block is, or gives up, with the bytes unchanged, if
-- no free block is large enough and the heap cannot grow.
pub mm_malloc-Mallocs :
    (h : Heap) (bs : List Block) (xs : List ℕ) (size : ℕ)
    → IsHeap h bs xs
    → size ≢ 0
    → size + 15 < 0x1_0000_0000
    → (result : ℕ × Heap) × (mm_malloc size h ≡ some result)
      × Mallocs h bs xs (adjust_block size) result
mm_malloc-Mallocs h bs xs size z ne low = (
  outcome h bs xs z (adjust_block size) bounds.1 bounds.2,
  outcome_runs h bs xs z (adjust_block size) bounds.1 bounds.2 size ne
      (find_fit-sought h bs xs z (adjust_block size) bounds.1 bounds.2) refl,
  outcome-Mallocs h bs xs z (adjust_block size) bounds.1 bounds.2 (omega (arith, bounds)),
)
  where
    bounds :
        (size + 8 ≤ adjust_block size)
        × (16 ≤ adjust_block size)
        × (adjust_block size % 8 ≡ 0)
        × ((adjust_block size ≡ 16) ⊎ (adjust_block size < size + 16))
    bounds = adjust_block_bounds size low
