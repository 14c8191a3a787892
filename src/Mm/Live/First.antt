-- ===== src/Mm/Live/First.antt =====
-- The first `mm_malloc` of mm.c after `mm_init`: the free block that `mm_init` leaves is on no list,
-- so it is not found, but `extend_heap` merges it with what it adds.
use malloc_lab.Base.{
  ℕ, ◌+◌, ◌*◌, ◌/◌, ◌%◌, ◌≤◌, ◌<◌, ◌≡◌, refl, ap, ◌∙◌, subst, ◌≢◌, ◌⊎◌, inl, inr, false, [], ◌∷◌,
  arith, if◌then◌else◌, ==-ne, leb-cases, some,
}
use malloc_lab.Mm.{Heap, mm_malloc, adjust_block, find_fit, place, extend_heap, insert_node, roam}
use malloc_lab.Mm.Macros.{truthy, max_of, chunksize, wsize}
use malloc_lab.Mm.Layout.{block, IsBlock}
use malloc_lab.Mm.Zip.{Zip, first}
use malloc_lab.Mm.Zip.Insert.{insert_node-Zip}
use malloc_lab.Mm.Place.{placed, placed_nodes, place-Zip}
use malloc_lab.Mm.Adjust.{adjust_block_bounds}
use malloc_lab.Mm.FindFit.Next.{start, next_fit_empty, find_fit-next_fit, fuel_enough}
use malloc_lab.Mm.Extend.{extend_heap_fails}
use malloc_lab.Mm.Malloc.{after_extend, branch_grew}
use malloc_lab.Mm.Grows.{mm_malloc-Grows}
use malloc_lab.Mm.Fresh.{IsFresh, larger, larger-vm, larger-IsFresh, extend_heap-larger}
use malloc_lab.Mm.Init.{IsFresh-roam}
use malloc_lab.Mm.Live.Malloc.{Served, placed-Served}

abbrev calm : Heap → Heap
calm h = roam h h.free_list_head

module _ (h : Heap) (c : ℕ) (f : IsFresh h c) where
  find_fit_nothing : (asize : ℕ) → find_fit asize h ≡ some (0, calm h)
  find_fit_nothing asize =
      find_fit-next_fit h asize [] f.zip.nodes.links f.zip.nodes.roams
        (fuel_enough _ _ _ _ _ _ f.zip)
      ∙ ap (λ p. some (p, roam h (if truthy p then p else start h)))
          (next_fit_empty h.bytes asize (start h))
      ∙ ap (λ r. some (0, roam h r))
          (let e : start h ≡ h.free_list_head = ground (arith, f.zip.nodes.roams) in e)

  module _ (asize : ℕ) (big : 16 ≤ asize) (round : asize % 8 ≡ 0)
      (low : asize < 0x1_0000_0000) where
    more : ℕ
    more = max_of asize chunksize

    more_lem :
        (16 ≤ more)
        × (more % 8 ≡ 0)
        × (asize ≤ more)
        × (more ≡ 4 * (more / 4))
        × ((more / 4) % 2 ≡ 0)
        × (more < 0x1_0000_0000)
    unfolding more
    more_lem = ground arith

    calm-IsFresh : IsFresh (calm h) c
    calm-IsFresh = IsFresh-roam h c f

    new : Heap
    new = larger (calm h) c more

    module _ (room : h.vm.brk + more ≤ h.vm.max_addr) where
      new-IsFresh : IsFresh new (c + more)
      unfolding new
      new-IsFresh = larger-IsFresh (calm h) c calm-IsFresh more more_lem.0 more_lem.1 room

      start_same : new.vm.start_brk ≡ h.vm.start_brk
      unfolding new
      start_same =
          ap (λ v. v.start_brk) (larger-vm (calm h) c calm-IsFresh more more_lem.0 more_lem.1 room)

      first_same : first new.vm ≡ first h.vm
      first_same = omega (arith, start_same)

      placed-Zip :
          Zip
            (place (first h.vm) asize (insert_node (first h.vm) new))
            []
            (first h.vm)
            (first h.vm)
            (placed (c + more) asize [])
            (placed_nodes (first h.vm) (c + more) asize (first h.vm ∷ []))
      placed-Zip =
          place-Zip (insert_node (first h.vm) new) [] (first h.vm) (block (c + more) false) []
            (first h.vm ∷ [])
            (insert_node-Zip new [] (first h.vm) (c + more) [] []
              (subst (λ q. Zip new [] q (q + (c + more)) [] []) first_same
                (subst (λ e. Zip new [] (first new.vm) e [] []) new-IsFresh.ends new-IsFresh.zip))
              (subst (λ q. IsBlock new.bytes q (block (c + more) false)) first_same
                new-IsFresh.tags))
            refl asize (omega (arith, more_lem)) big round

      -- The heap grows, and the new block is all that is allocated.
      grows :
          more < 0x8000_0000
          → (size : ℕ) → size ≢ 0
          → adjust_block size ≡ asize
          → mm_malloc size h
            ≡ some (first h.vm, place (first h.vm) asize (insert_node (first h.vm) new))
      unfolding new more
      grows positive size ne e =
          branch_grew size h (calm h) ne 0 (find_fit_nothing (adjust_block size)) refl
          ∙ ap (λ a. some (after_extend a (extend_heap (max_of a chunksize / wsize) (calm h)))) e
          ∙ ap (λ k. some (after_extend asize k))
              (extend_heap-larger (calm h) c calm-IsFresh more more_lem.0 more_lem.1 room (more / 4)
                more_lem.3 more_lem.4 positive)
          ∙ rw (==-ne (first h.vm) 0 (omega arith)) refl

      first-Served :
          (size : ℕ)
          → size + 8 ≤ asize
          → mm_malloc size h
            ≡ some (first h.vm, place (first h.vm) asize (insert_node (first h.vm) new))
          → Served h [] size (first h.vm, place (first h.vm) asize (insert_node (first h.vm) new))
      first-Served size large runs =
          placed-Served h [] size asize large _ (mm_malloc-Grows size h _ runs).start [] []
            (c + more) _ (omega (arith, more_lem)) placed-Zip refl

    -- The heap cannot grow.
    refuses :
        (0x8000_0000 ≤ more) ⊎ (h.vm.max_addr < h.vm.brk + more)
        → (size : ℕ) → size ≢ 0
        → adjust_block size ≡ asize
        → mm_malloc size h ≡ some (0, calm h)
    unfolding more
    refuses over size ne e =
        branch_grew size h (calm h) ne 0 (find_fit_nothing (adjust_block size)) refl
        ∙ ap (λ a. some (after_extend a (extend_heap (max_of a chunksize / wsize) (calm h)))) e
        ∙ ap (λ k. some (after_extend asize k))
            (extend_heap_fails (more / 4) (calm h) more_lem.4 (omega (arith, more_lem))
              (ground (arith, more_lem, over)))

    outcome :
        (size : ℕ)
        → size ≢ 0
        → adjust_block size ≡ asize
        → size + 8 ≤ asize
        → (k : ℕ × Heap) × (mm_malloc size h ≡ some k)
          × (Served h [] size k ⊎ ((k.0 ≡ 0) × IsFresh k.1 c))
    outcome size ne e large = elim (leb-cases 0x8000_0000 more) [
      | inl (over, _) ↦ (_, refuses (inl over) size ne e, inr (refl, calm-IsFresh))
      | inr (under, _) ↦ elim (leb-cases (h.vm.brk + more) h.vm.max_addr) [
        | inl (room, _) ↦
            let runs = grows room under size ne e in
            (_, runs, inl (first-Served room size large runs))
        | inr (over, _) ↦ (_, refuses (inr over) size ne e, inr (refl, calm-IsFresh))
      ]
    ]

-- On the heap that `mm_init` leaves, with one free block that is on no list, `mm_malloc` of a
-- request of at least one byte that does not wrap returns; either its result is the one allocated
-- block, of at least `size + 8` bytes at a multiple of 8, in a well-formed heap; or the result is
-- `NULL`, and the heap is still of that kind.
pub mm_malloc-Served_first :
    (h : Heap) (c size : ℕ)
    → IsFresh h c
    → size ≢ 0
    → size + 15 < 0x1_0000_0000
    → (k : ℕ × Heap) × (mm_malloc size h ≡ some k)
      × (Served h [] size k ⊎ ((k.0 ≡ 0) × IsFresh k.1 c))
mm_malloc-Served_first h c size f ne low =
    let b = adjust_block_bounds size low in
    outcome h c f (adjust_block size) b.1 b.2 (omega (arith, b)) size ne refl b.0
