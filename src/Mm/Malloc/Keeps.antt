-- ===== src/Mm/Malloc/Keeps.antt =====
-- What `mm_malloc` of mm.c does not write: the payload of each allocated block.
use malloc_lab.Base.{
  ℕ, ◌+◌, ◌-◌, ◌*◌, ◌/◌, ◌%◌, ◌≤◌, ◌<◌, ◌≡◌, refl, ◌≢◌, ◌⊎◌, inl, inr, sym, ap, ◌∙◌, subst, false,
  List, [], ◌∷◌, arith, some, ==-cases, leb-cases, reverse_aux-reverse_aux-nil,
}
use malloc_lab.Memory.{put}
use malloc_lab.Mm.{Heap, mm_malloc, adjust_block, place, extend_heap, insert_node}
use malloc_lab.Mm.FreeList.{Clear}
use malloc_lab.Mm.Layout.{Block, block, Tiles-le}
use malloc_lab.Mm.Zip.{Zip, first, Space_range}
use malloc_lab.Mm.Zip.Move.{IsHeap, locate, to_end}
use malloc_lab.Mm.Tags.{header-size}
use malloc_lab.Mm.Zip.Mark.{place_bounds}
use malloc_lab.Mm.Adjust.{adjust_block_bounds}
use malloc_lab.Mm.Coalesce.{absorbed, beyond, unlisted_prev}
use malloc_lab.Mm.Coalesce.Merge.{Merged}
use malloc_lab.Mm.Extend.{
  extended, extended-Zip, extended-IsBlock, extend_heap-coalesce, extend_heap-Merged,
  extend_heap_fails,
}
use malloc_lab.Mm.Place.Keeps.{place-Keeps}
use malloc_lab.Mm.Frame.{Keeps, Keeps-trans, Keeps-put}
use malloc_lab.Mm.Frame.Coalesce.{coalesce-Keeps, insert-Keeps, unlisted-Clear}
use malloc_lab.Mm.Free.{insert-Merged}
use malloc_lab.Mm.Live.{live, live_back, Zip-live}
use malloc_lab.Mm.Live.In.{In, In-++, found_before, found_beside, In-Clear}
use malloc_lab.Mm.Malloc.{
  found, sought, sought-IsHeap, hits, more, more_lem, more_low, ends, outcome, grown, after_extend,
  outcome_runs, find_fit-sought,
}

extended-Keeps :
    (a k : ℕ) (h : Heap) (q n : ℕ)
    → a + k + 4 ≤ q
    → 8 ≤ n
    → Keeps a k h.bytes (extended h q n).bytes
unfolding extended
extended-Keeps a k h q n far big =
    Keeps-trans a k h.bytes (put h.bytes (q - 4) n) _
      (Keeps-put a k h.bytes (q - 4) n (omega arith))
      (Keeps-trans a k (put h.bytes (q - 4) n) (put (put h.bytes (q - 4) n) (q + n - 8) n) _
        (Keeps-put a k (put h.bytes (q - 4) n) (q + n - 8) n (omega arith))
        (Keeps-put a k (put (put h.bytes (q - 4) n) (q + n - 8) n) (q + n - 4) 1 (omega arith)))

module _ (h : Heap) (bs : List Block) (xs : List ℕ) (z : IsHeap h bs xs) (asize : ℕ)
    (big : 16 ≤ asize) (round : asize % 8 ≡ 0) (p n : ℕ) (i : In p n (live (first h.vm) bs)) where
  abbrev g : Heap
  g = sought h bs xs z asize big round

  w : IsHeap g bs xs
  w = sought-IsHeap h bs xs z asize big round

  clear : (16 ≤ n) × Clear p (n - 8) xs
  clear = In-Clear h bs xs p n z i

  fitted-Keeps :
      found h bs xs z asize big round ≢ 0
      → Keeps p (n - 8) h.bytes (place (found h bs xs z asize big round) asize g).bytes
  unfolding sought
  fitted-Keeps ne =
      let at =
        locate g (found h bs xs z asize big round) bs xs (hits h bs xs z asize big round ne).0 w in
      let size = header-size h.bytes _ at.here at.zip.space.tiles.0 (
        omega (
          arith,
          place_bounds at.zip,
          Tiles-le _ _ _ _ at.zip.space.tiles.1,
          Space_range at.zip.space,
          at.zip.space.framed.within,
          at.zip.space.framed.top,
          at.zip.space.tiles.0.start,
        )) in
      let far =
        found_beside g at.before _ at.here at.behind xs p n at.zip at.free
          (subst (λ l. In p n (live (first h.vm) l)) at.split i) in
      place-Keeps g at.before (found h bs xs z asize big round) at.here at.behind xs at.zip at.free
        asize (omega (arith, hits h bs xs z asize big round ne, size)) big round p (n - 8) clear.1
        (omega (arith, far, clear.0, at.zip.space.tiles.0.start))

  abbrev es : List Block
  es = ends h bs xs z asize big round

  whole : Zip g es h.vm.brk h.vm.brk [] xs
  unfolding sought ends
  whole = to_end g [] (first h.vm) bs xs w

  -- The other block ends before a free block at the end of the heap.
  below : p + n ≤ h.vm.brk - absorbed es
  unfolding sought ends
  below =
      elim (In-++ p n (live_back h.vm.brk es []) [] (
        subst (In p n)
          (ap (live (first h.vm)) (sym (reverse_aux-reverse_aux-nil bs []))
            ∙ Zip-live g es h.vm.brk [] xs whole)
          i)) [
            | inl low ↦ found_before h.bytes (first h.vm) h.vm.brk es p n whole.space.back low
            | inr none ↦ absurd none
          ]

  abbrev m : ℕ
  m = more h bs xs z asize big round

  abbrev lem : (16 ≤ m) × (m % 8 ≡ 0) × (asize ≤ m) × (m ≡ 4 * (m / 4)) × ((m / 4) % 2 ≡ 0)
  lem = more_lem h bs xs z asize big round

  abbrev start : ℕ
  start = h.vm.brk - absorbed es

  module _ (positive : m < 0x8000_0000) (room : h.vm.brk + m ≤ h.vm.max_addr) where
    abbrev k : ℕ × Heap
    k = extend_heap (m / 4) g

    merged : Merged k start (absorbed es + m) (beyond es) [] (unlisted_prev es h.vm.brk xs)
    unfolding sought
    merged =
        extend_heap-Merged g es h.vm.brk xs whole m lem.0 lem.1 room (m / 4) lem.3 lem.4 positive

    k-Keeps : Keeps p (n - 8) h.bytes k.1.bytes
    unfolding sought
    k-Keeps =
        let aligned : h.vm.brk % 8 ≡ 0 = omega (arith, place_bounds whole) in
        subst (λ (t : ℕ × Heap). Keeps p (n - 8) h.bytes t.1.bytes)
          (sym (
            extend_heap-coalesce g es h.vm.brk h.vm.brk xs whole m aligned lem.0 lem.1 room (m / 4)
              lem.3 lem.4 positive))
          (Keeps-trans p (n - 8) h.bytes (extended g h.vm.brk m).bytes _
            (extended-Keeps p (n - 8) g h.vm.brk m (omega (arith, below, clear.0))
              (omega (arith, lem)))
            (coalesce-Keeps p (n - 8) (extended g h.vm.brk m) es h.vm.brk m [] xs
              (extended-Zip g es h.vm.brk h.vm.brk xs whole m aligned lem.0 lem.1 room)
              (extended-IsBlock g es h.vm.brk h.vm.brk xs whole m aligned lem.0 lem.1 room) clear.1
              (inl (omega (arith, below, clear.0)))))

    clear_ends : Clear p (n - 8) (unlisted_prev es h.vm.brk xs)
    clear_ends = unlisted-Clear p (n - 8) es [] h.vm.brk 0 xs clear.1

    taken-Keeps :
        Keeps p (n - 8) (insert_node k.0 k.1).bytes (place k.0 asize (insert_node k.0 k.1)).bytes
    taken-Keeps =
        subst
          (λ t.
            Keeps p (n - 8) (insert_node k.0 k.1).bytes (place t asize (insert_node k.0 k.1)).bytes)
          (sym merged.at)
          (place-Keeps (insert_node k.0 k.1) (beyond es) start (block (absorbed es + m) false) []
            (start ∷ unlisted_prev es h.vm.brk xs)
            (insert-Merged k start (absorbed es + m) (beyond es) [] (unlisted_prev es h.vm.brk xs)
              merged)
            refl asize (omega (arith, lem)) big round p (n - 8)
            (inl (omega (arith, below, clear.0)), clear_ends) (inl (omega (arith, below, clear.0))))

    room-Keeps : Keeps p (n - 8) h.bytes (place k.0 asize (insert_node k.0 k.1)).bytes
    room-Keeps = Keeps-trans p (n - 8) h.bytes k.1.bytes _ k-Keeps (
        Keeps-trans p (n - 8) k.1.bytes (insert_node k.0 k.1).bytes _
          (insert-Keeps p (n - 8) k start (absorbed es + m) (beyond es) []
            (unlisted_prev es h.vm.brk xs) merged clear_ends (inl (omega (arith, below, clear.0))))
          taken-Keeps)

  refused-Keeps :
      asize < 0x1_0000_0000
      → (0x8000_0000 ≤ m) ⊎ (h.vm.max_addr < h.vm.brk + m)
      → Keeps p (n - 8) h.bytes (after_extend asize (extend_heap (m / 4) g)).1.bytes
  unfolding sought
  refused-Keeps low over =
      subst (λ t. Keeps p (n - 8) h.bytes (after_extend asize t).1.bytes)
        (sym (
          extend_heap_fails (m / 4) g lem.4
            (omega (arith, lem, more_low h bs xs z asize big round low))
            (ground (arith, lem, over))))
        λ b lo hi. refl

  grow-Keeps :
      asize < 0x1_0000_0000
      → Keeps p (n - 8) h.bytes (after_extend asize (extend_heap (m / 4) g)).1.bytes
  grow-Keeps low = elim (leb-cases 0x8000_0000 m) [
    | inl (over, _) ↦ refused-Keeps low (inl over)
    | inr (under, _) ↦ elim (leb-cases (h.vm.brk + m) h.vm.max_addr) [
      | inl (room, _) ↦ elim (==-cases (extend_heap (m / 4) g).0 0) [
        | inl (_, t) ↦ rw t (k-Keeps under room)
        | inr (_, f) ↦ rw f (room-Keeps under room)
      ]
      | inr (over, _) ↦ refused-Keeps low (inr over)
    ]
  ]

  outcome-Keeps :
      asize < 0x1_0000_0000 → Keeps p (n - 8) h.bytes (outcome h bs xs z asize big round).1.bytes
  unfolding outcome grown
  outcome-Keeps low = elim (==-cases (found h bs xs z asize big round) 0) [
    | inl (e, t) ↦ rw t (grow-Keeps low)
    | inr (ne, f) ↦ rw f (fitted-Keeps ne)
  ]

-- The payload of each allocated block stays as it is.
pub malloc-Keeps :
    (h : Heap) (bs : List Block) (xs : List ℕ) (size p n : ℕ) (k : ℕ × Heap)
    → IsHeap h bs xs
    → size ≢ 0
    → size + 15 < 0x1_0000_0000
    → mm_malloc size h ≡ some k
    → In p n (live (first h.vm) bs)
    → Keeps p (n - 8) h.bytes k.1.bytes
malloc-Keeps h bs xs size p n k z ne low runs i =
    let b = adjust_block_bounds size low in
    let does =
      outcome_runs h bs xs z (adjust_block size) b.1 b.2 size ne
        (find_fit-sought h bs xs z (adjust_block size) b.1 b.2) refl in
    subst (λ (t : ℕ × Heap). Keeps p (n - 8) h.bytes t.1.bytes)
      (let same : outcome h bs xs z (adjust_block size) b.1 b.2 ≡ k = cc in same)
      (outcome-Keeps h bs xs z (adjust_block size) b.1 b.2 p n i (omega (arith, b)))
