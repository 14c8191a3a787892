-- ===== src/Mm/Live/Move/Keeps.antt =====
-- The contents of the allocated blocks of mm.c, under `mm_realloc`.
use malloc_lab.Base.{
  ℕ, ◌+◌, ◌-◌, ◌≤◌, ◌<◌, ◌≡◌, refl, ◌≢◌, ◌⊎◌, inl, inr, sym, ap, ◌∙◌, subst, true, List, [], ◌∷◌,
  ◌++◌, arith, some, if◌then◌else◌, ltb, ==-ne, ==-refl,
}
use malloc_lab.Memory.{Memory, memcpy, Apart}
use malloc_lab.Mm.{Heap, mm_malloc, mm_free, mm_realloc, move_block, mark, remove_node}
use malloc_lab.Mm.Macros.{sub_word}
use malloc_lab.Mm.FreeList.{has, Clear}
use malloc_lab.Mm.Layout.{Block, block, free_at}
use malloc_lab.Mm.Realloc.{Reallocs, left, widened, moved, mm_realloc-Reallocs}
use malloc_lab.Mm.Zip.{Zip, first}
use malloc_lab.Mm.Zip.Mark.{place_bounds}
use malloc_lab.Mm.Zip.Move.{leave_out}
use malloc_lab.Mm.Coalesce.{absorbed, beyond, unlisted_next}
use malloc_lab.Mm.Live.Free.{Found}
use malloc_lab.Mm.Frame.{Keeps, Keeps-trans, mark-Keeps, remove_node-Keeps}
use malloc_lab.Mm.Live.{Live, live-IsApart, IsApart}
use malloc_lab.Mm.Live.In.{In, In-Clear}
use malloc_lab.Mm.Live.Inserts.{Inserts, Inserts-between, Inserts-split, Inserts-swap}
use malloc_lab.Mm.Live.Beside.{Disjoint-In, Inserts-In, Inserts-self, Inserts-Stands}
use malloc_lab.Mm.Live.Represents.{Represents, found}
use malloc_lab.Mm.Live.Keeps.{
  clear_payload, apart_found, found_more, mm_malloc-Keeps, mm_free-Keeps,
}
use malloc_lab.Mm.Live.Move.{
  Holds, Holds-result, malloc-Holds, copied, copied-Represents, runs_move, memcpy-Outside,
}

memcpy_in : (m : Memory) (to from n i : ℕ) → i < n → memcpy m to from n (to + i) ≡ m (from + i)
unfolding memcpy
memcpy_in m to from n i lt =
    let e : from + (to + i - to) ≡ from + i = omega arith in ground (arith, ap m e)

some-inj : (j k : ℕ × Heap) → some j ≡ some k → j ≡ k
some-inj j k e = cc

-- A free neighbour is on the list.
free_near : (x : ℕ) (rs : List Block) → 0 < absorbed rs → free_at x x rs ≡ true
free_near x [] more = absurd (omega arith)
free_near x (b ∷ rs) more = ground (arith, ==-refl x)

listed_behind :
    (h : Heap) (ls : List Block) (q m : ℕ) (rs : List Block) (xs : List ℕ)
    → Zip h ls q (q + m) rs xs
    → m < m + absorbed rs
    → has (q + m) xs ≡ true
listed_behind h ls q m rs xs z more =
    ground (arith, z.nodes.same (q + m), free_near (q + m) rs (omega arith))

-- A heap before `mm_realloc` of the block of `m` bytes at `q`, and one after it: the payload of
-- each other block is the same, and so are the bytes of the payload that fit the new block.
record Carries (h : Heap) (rest : Live) (q m size : ℕ) (k : ℕ × Heap) : Type 0 where
  others : (p n : ℕ) → In p n rest → Keeps p (n - 8) h.bytes k.1.bytes
  contents : (i : ℕ) → i < size → i + 8 < m → k.0 ≢ 0 → k.1.bytes (k.0 + i) ≡ h.bytes (q + i)

found_here : (p n : ℕ) (low high : Live) → In p n (low ++ ((p, n) ∷ high))
found_here p n [] high = inl (refl, refl)
found_here p n (x ∷ low) high = inr (found_here p n low high)

module _ (h : Heap) (low : Live) (q m : ℕ) (high : Live) (r : Represents h (low ++ ((q, m) ∷ high)))
    (size : ℕ) (some_size : size ≢ 0) (fits : size + 15 < 0x1_0000_0000) (k : ℕ × Heap)
    (runs : mm_malloc size h ≡ some k) (s : Holds (low ++ ((q, m) ∷ high)) size k) where
  abbrev c : Heap
  c = copied h low q m high r size some_size fits k

  abbrev copy : ℕ
  copy = if ltb size (sub_word m 8) then size else sub_word m 8

  copied_at : (i : ℕ) → i < copy → c.bytes (k.0 + i) ≡ k.1.bytes (q + i)
  unfolding copied
  copied_at i lt = memcpy_in k.1.bytes k.0 q copy i lt

  copied_beside : (b : ℕ) → Apart k.0 copy b 1 → c.bytes b ≡ k.1.bytes b
  unfolding copied
  copied_beside b apart = memcpy-Outside k.1.bytes k.0 q copy b apart

  abbrev swapped :
      (rest : Live) × Inserts (k.0, s.block_size) (low ++ high) rest × Inserts (q, m) rest s.after
  swapped =
      Inserts-swap (q, m) (k.0, s.block_size) (low ++ high) _ s.after
        (Inserts-between (q, m) low high) s.inserts

  -- `mm_free` of the old block keeps the payloads of the blocks that are left.
  freed-Keeps : (p n : ℕ) → In p n swapped.0 → Keeps p (n - 8) c.bytes (mm_free q c).bytes
  freed-Keeps p n i =
      let (l, rs, before, at) = Inserts-split (q, m) swapped.0 s.after swapped.2 in
      mm_free-Keeps c l q m rs
        (subst (Represents c) at (copied-Represents h low q m high r size some_size fits k s)) p n
        (subst (In p n) before i)

  -- The new block does not overlap an old one.
  new_Apart : (p n : ℕ) → In p n (low ++ ((q, m) ∷ high)) → Apart k.0 s.block_size p n
  new_Apart p n i =
      Disjoint-In (k.0, s.block_size) _ p n
        (Inserts-Stands (k.0, s.block_size) (first k.1.vm) _ s.after k.1.vm.brk s.inserts
          (subst (λ l. IsApart (first k.1.vm) l k.1.vm.brk) s.heap.view
            (live-IsApart k.1 s.heap.blocks s.heap.nodes s.heap.heap))).beside
        i

  malloc_kept : (p n : ℕ) → In p n (low ++ ((q, m) ∷ high)) → Keeps p (n - 8) h.bytes k.1.bytes
  malloc_kept p n i = mm_malloc-Keeps h _ size p n k r some_size fits runs i

  m_low : m < 0x1_0000_0000
  m_low = omega (arith, place_bounds (leave_out (block m true) (found h low q m high r).zip refl))

  moves-Carries : Carries h (low ++ high) q m size (k.0, mm_free q c)
  moves-Carries = record {
    others = λ p n i.
        let i' = found_more p n low high (q, m) i in
        Keeps-trans p (n - 8) h.bytes k.1.bytes _ (malloc_kept p n i') (
          Keeps-trans p (n - 8) k.1.bytes c.bytes _
            (λ b lo hi. copied_beside b (ground (arith, new_Apart p n i', s.enough)))
            (freed-Keeps p n (Inserts-In (k.0, s.block_size) _ _ p n swapped.1 i)));
    contents = λ i lt lt' ne.
        freed-Keeps k.0 s.block_size (Inserts-self k.0 s.block_size _ _ swapped.1) (k.0 + i)
          (omega arith) (omega (arith, s.enough))
        ∙ copied_at i (ground (arith, m_low))
        ∙ malloc_kept q m (found_here q m low high) (q + i) (omega arith) (omega arith);
  }

module _ (h : Heap) (low : Live) (q m : ℕ) (high : Live) (r : Represents h (low ++ ((q, m) ∷ high)))
    (size : ℕ) (some_size : size ≢ 0) (fits : size + 15 < 0x1_0000_0000) where
  abbrev f : Found h q m low high r.nodes
  f = found h low q m high r

  stays-Carries : Carries h (low ++ high) q m size (q, h)
  stays-Carries = record { others = λ p n i b lo hi. refl; contents = λ i lt lt' ne. refl }

  -- The block grows into the free block behind it.
  widens-Keeps :
      (a k : ℕ)
      → Clear a k r.nodes
      → m < m + absorbed f.behind
      → Zip
          (mark q (m + absorbed f.behind) 1 (remove_node (q + m) h))
          f.before
          q
          q
          (block (m + absorbed f.behind) true ∷ beyond f.behind)
          (unlisted_next f.behind (q + m) r.nodes)
      → (a + k + 4 ≤ q) ⊎ (q + m + absorbed f.behind ≤ a + 4) ⊎ ((q ≤ a) × (a + k + 8 ≤ q + m))
      → Keeps a k h.bytes (mark q (m + absorbed f.behind) 1 (remove_node (q + m) h)).bytes
  widens-Keeps a k clear more z far =
      Keeps-trans a k h.bytes (remove_node (q + m) h).bytes _
        (remove_node-Keeps a k (q + m) h r.nodes f.zip.nodes.links
          (listed_behind h f.before q m f.behind r.nodes (leave_out (block m true) f.zip refl) more)
          clear)
        (mark-Keeps a k (remove_node (q + m) h) q (m + absorbed f.behind) true z.space.tiles.0.round
          (omega (
            arith,
            place_bounds (leave_out (block (m + absorbed f.behind) true) z refl),
            z.space.tiles.0.start,
          ))
          (omega (arith, far, z.space.tiles.0.start))
          (omega (arith, far, z.space.tiles.0.start, z.space.tiles.0.big, f.zip.space.tiles.0.big)))

  widens-Carries :
      (h' : Heap)
      → h' ≡ mark q (m + absorbed f.behind) 1 (remove_node (q + m) h)
      → m < m + absorbed f.behind
      → Zip h' f.before q q
          (block (m + absorbed f.behind) true ∷ beyond f.behind)
          (unlisted_next f.behind (q + m) r.nodes)
      → Carries h (low ++ high) q m size (q, h')
  widens-Carries h' e more z =
      let z' =
        subst
          (λ g.
            Zip g f.before q q (block (m + absorbed f.behind) true ∷ beyond f.behind)
              (unlisted_next f.behind (q + m) r.nodes))
          e z in
      subst (λ g. Carries h (low ++ high) q m size (q, g)) (sym e)
        (record {
          others = λ p n i.
              let c = clear_payload h low q m high r p n i in
              widens-Keeps p (n - 8) c.1 more z'
                (omega (arith, c.0, apart_found h low q m high r p n i));
          contents = λ i lt lt' ne.
              widens-Keeps q (m - 8) own.1 more z' (inr (inr (omega arith, omega (arith, own.0))))
                (q + i) (omega arith) (omega arith);
        })
    where
      own : (16 ≤ m) × Clear q (m - 8) r.nodes
      own =
          In-Clear h r.blocks r.nodes q m r.heap
            (subst (In q m) (sym r.view) (found_here q m low high))

  move_block-Carries :
      (k : ℕ × Heap) → move_block q size m h ≡ some k → Carries h (low ++ high) q m size k
  move_block-Carries k runs =
      let (k', mallocs, does) = malloc-Holds h _ size r some_size fits in
      elim does [
        | inl s ↦
            let moved_to = runs_move h low q m high r size some_size fits k' mallocs in
            subst (Carries h (low ++ high) q m size)
              (some-inj _ _ (
                sym
                  (rw (==-ne k'.0 0 (λ e. omega (arith, e, Holds-result _ size k' s))) at moved_to)
                ∙ runs))
              (moves-Carries h low q m high r size some_size fits k' mallocs s)
        | inr (e, w) ↦
            let refused : move_block q size m h ≡ some (0, k'.1) =
              runs_move h low q m high r size some_size fits k' mallocs ∙ ground arith in
            subst (Carries h (low ++ high) q m size) (some-inj _ _ (sym refused ∙ runs)) (record {
              others = λ p n i.
                  mm_malloc-Keeps h _ size p n k' r some_size fits mallocs
                    (found_more p n low high (q, m) i);
              contents = λ i lt lt' ne. absurd (ne refl);
            })
      ]

  mm_realloc-Carries :
      (k : ℕ × Heap) → mm_realloc q size h ≡ some k → Carries h (low ++ high) q m size k
  mm_realloc-Carries k runs =
      go (mm_realloc-Reallocs h f.before q m f.behind r.nodes size f.zip some_size)
    where
      go : Reallocs h f.before q m f.behind r.nodes size → Carries h (low ++ high) q m size k
      go (left le stays) =
          subst (Carries h (low ++ high) q m size) (some-inj _ _ (sym stays ∙ runs)) stays-Carries
      go (widened h' lt le grows e z) =
          subst (Carries h (low ++ high) q m size) (some-inj _ _ (sym grows ∙ runs))
            (widens-Carries h' e (omega arith) z)
      go (moved lt goes) = move_block-Carries k (sym goes ∙ runs)

  -- `mm_realloc` of an allocated block of a well-formed heap, for a request of at least one byte
  -- that does not wrap: where the result is not `NULL`, each byte of the old payload that the
  -- request has room for is at its place in the new one.
  pub mm_realloc_contents :
      (k : ℕ × Heap)
      → mm_realloc q size h ≡ some k
      → k.0 ≢ 0
      → (i : ℕ) → i < size
      → i + 8 < m
      → k.1.bytes (k.0 + i) ≡ h.bytes (q + i)
  mm_realloc_contents k runs ne i lt lt' = (mm_realloc-Carries k runs).contents i lt lt' ne

  -- `mm_realloc` of an allocated block of a well-formed heap, for a request of at least one byte
  -- that does not wrap, leaves each byte of the payload of each other allocated block as it is,
  -- whether its result is `NULL` or not.
  pub mm_realloc_others :
      (k : ℕ × Heap)
      → mm_realloc q size h ≡ some k
      → (p n b : ℕ) → In p n (low ++ high)
      → p ≤ b
      → b + 8 < p + n
      → k.1.bytes b ≡ h.bytes b
  mm_realloc_others k runs p n b on lo hi =
      (mm_realloc-Carries k runs).others p n on b lo (omega arith)
