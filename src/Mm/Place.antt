-- ===== src/Mm/Place.antt =====
-- `place` of mm.c: a free block leaves the free list and is allocated, with what is left over split
-- off as a new free block if it is large enough to be one.
pub mod Keeps
use malloc_lab.Base.{
  ℕ, ◌+◌, ◌-◌, ◌%◌, ◌≤◌, ◌≡◌, inl, inr, ap, ◌∙◌, subst, true, false, List, ◌∷◌, arith,
  if◌then◌else◌, leb, leb-cases, ◌==◌, ==-ne, ◌≢◌,
}
use malloc_lab.Mm.{Heap, place, mark, roam, insert_node, remove_node}
use malloc_lab.Mm.Macros.{get_size, sub_word, next_blkp, get_succ}
use malloc_lab.Mm.Tags.{header-size}
use malloc_lab.Mm.FreeList.{without}
use malloc_lab.Mm.Layout.{Block, block, IsBlock}
use malloc_lab.Mm.Zip.{Zip}
use malloc_lab.Mm.Zip.Mark.{place_bounds, mark-Zip}
use malloc_lab.Mm.Zip.Move.{move_left, take_in, take_left}
use malloc_lab.Mm.Zip.Insert.{insert_node-Zip}
use malloc_lab.Mm.Zip.Remove.{remove_next}
use malloc_lab.Mm.Coalesce.Cases.{next_blkp-block}
use malloc_lab.Mm.Coalesce.Merge.{rover_gone}

-- The blocks in the place of a free block of `size` bytes, and what joins the free list.
abbrev pub placed : ℕ → ℕ → List Block → List Block
placed size asize rs =
    if leb 16 (size - asize)
    then block asize true ∷ block (size - asize) false ∷ rs
    else block size true ∷ rs

abbrev pub placed_nodes : ℕ → ℕ → ℕ → List ℕ → List ℕ
placed_nodes q size asize xs =
    if leb 16 (size - asize) then (q + asize) ∷ without q xs else without q xs

module _ (h : Heap) (ls : List Block) (q : ℕ) (b : Block) (rs : List Block) (xs : List ℕ)
    (z : Zip h ls q q (b ∷ rs) xs) (free : b.alloc ≡ false) (asize : ℕ) (fits : asize ≤ b.size)
    (big : 16 ≤ asize) (round : asize % 8 ≡ 0) where
  after : Heap
  after = remove_node q h

  pub gone :
      Zip (remove_node q h) ls q (q + b.size) rs (without q xs)
      × IsBlock (remove_node q h).bytes q b
  gone = remove_next h ls q q b rs xs z free

  pub sizes : (b.size + 8 ≤ 0x1_0000_0000) × (b.size % 8 ≡ 0)
  sizes = omega (arith, place_bounds gone.0, z.space.tiles.0.start, z.space.tiles.0.round)

  pub front : Heap
  front = mark q asize 1 (remove_node q h)

  front-Zip :
      Zip front ls q (q + b.size) rs (without q xs) × IsBlock front.bytes q (block asize true)
  unfolding front
  front-Zip = mark-Zip asize true gone.0 (omega arith) big round

  pub rest : Heap
  rest = mark (q + asize) (b.size - asize) 0 front

  pub rest-Zip :
      16 ≤ b.size - asize
      → Zip rest
          (block asize true ∷ ls)
          (q + asize)
          (q + asize + (b.size - asize))
          rs
          (without q xs)
        × IsBlock rest.bytes (q + asize) (block (b.size - asize) false)
  unfolding rest
  rest-Zip room =
      mark-Zip (b.size - asize) false
        (subst (λ t. Zip front (block asize true ∷ ls) (q + asize) t rs (without q xs)) end
          (take_left asize front-Zip.0 (omega arith) front-Zip.1))
        (omega arith) room (omega (arith, sizes))
    where
      end : q + b.size ≡ q + asize + (b.size - asize)
      end = omega arith

  split-Zip :
      16 ≤ b.size - asize
      → Zip
          (insert_node (q + asize) rest)
          ls
          q
          q
          (block asize true ∷ block (b.size - asize) false ∷ rs)
          ((q + asize) ∷ without q xs)
  split-Zip room =
      subst
        (λ t.
          Zip (insert_node (q + asize) rest) ls t t
            (block asize true ∷ block (b.size - asize) false ∷ rs) ((q + asize) ∷ without q xs))
        (let e : q + asize - asize ≡ q = omega arith in e)
        (move_left (block asize true) (
          insert_node-Zip rest (block asize true ∷ ls) (q + asize) (b.size - asize) rs
            (without q xs) (rest-Zip room).0 (rest-Zip room).1))

  whole-Zip : Zip (mark q b.size 1 (remove_node q h)) ls q q (block b.size true ∷ rs) (without q xs)
  whole-Zip =
      let m = mark-Zip b.size true gone.0 (omega arith) z.space.tiles.0.big sizes.1 in
      take_in b.size m.0 m.1

  -- `place` with its reads evaluated.
  pub place-branches : place q asize h ≡ (
      if leb 16 (b.size - asize)
      then insert_node (q + asize) rest
      else mark q b.size 1 (remove_node q h))
  unfolding place front rest after
  place-branches =
      ap (λ s. run s (if after.rover == q then roam after (get_succ after.bytes q) else after))
        size_lem
      ∙ ap (run b.size) (rw (==-ne after.rover q stays))
      ∙ ap (λ p. tail p (sub_word b.size asize))
          (next_blkp-block front.bytes q asize true front-Zip.1 (omega (arith, sizes)))
      ∙ ap (tail (q + asize)) left_lem
    where
      run : ℕ → Heap → Heap
      run s k =
          if leb 16 (sub_word s asize)
          then (let k = mark q asize 1 k in
              let p = next_blkp k.bytes q in insert_node p (mark p (sub_word s asize) 0 k))
          else mark q s 1 k

      tail : ℕ → ℕ → Heap
      tail p left =
          if leb 16 left
          then insert_node p (mark p left 0 front)
          else mark q b.size 1 (remove_node q h)

      size_lem : get_size h.bytes (q - 4) ≡ b.size
      size_lem = header-size h.bytes q b z.space.tiles.0 sizes.0

      left_lem : sub_word b.size asize ≡ b.size - asize
      left_lem = omega (arith, sizes)

      stays : after.rover ≢ q
      stays =
          rover_gone h after q xs z.nodes.links (omega (arith, z.space.tiles.0.start))
            gone.0.nodes.roams

  -- place of a free block of a well-formed heap, for `asize` at most its size, at least 16 and a
  -- multiple of 8, allocates `asize` bytes at its start and puts the rest on the free list if it
  -- has at least 16 bytes, and allocates the whole block if not; the heap stays well formed.
  pub place-Zip :
      Zip (place q asize h) ls q q (placed b.size asize rs) (placed_nodes q b.size asize xs)
  place-Zip = rw place-branches (elim (leb-cases 16 (b.size - asize)) [
    | inl (room, t) ↦ rw t (split-Zip room)
    | inr (none, f) ↦ rw f whole-Zip
  ])
