-- ===== src/Mm/Place/Keeps.antt =====
-- What `place` of mm.c does not write.
use malloc_lab.Base.{
  ℕ, ◌+◌, ◌-◌, ◌%◌, ◌≤◌, ◌≡◌, ◌⊎◌, inl, inr, true, false, List, ◌∷◌, arith, subst, sym, leb-cases,
}
use malloc_lab.Mm.{Heap, place, mark, insert_node, remove_node}
use malloc_lab.Mm.FreeList.{has, without, Clear, Clear-without}
use malloc_lab.Mm.Layout.{Block}
use malloc_lab.Mm.Zip.{Zip}
use malloc_lab.Mm.Place.{front, rest, rest-Zip, sizes, place-branches}
use malloc_lab.Mm.Frame.{Keeps, Keeps-trans, mark-Keeps, insert_node-Keeps, remove_node-Keeps}

module _ (h : Heap) (ls : List Block) (q : ℕ) (b : Block) (rs : List Block) (xs : List ℕ)
    (z : Zip h ls q q (b ∷ rs) xs) (free : b.alloc ≡ false) (asize : ℕ) (fits : asize ≤ b.size)
    (big : 16 ≤ asize) (round : asize % 8 ≡ 0) (a k : ℕ) (clear : Clear a k xs)
    (far : (a + k + 4 ≤ q) ⊎ (q + b.size ≤ a + 4)) where
  listed : has q xs ≡ true
  listed = ground (arith, z.nodes.same q)

  low : 16 ≤ q
  low = z.space.tiles.0.start

  removed-Keeps : Keeps a k h.bytes (remove_node q h).bytes
  removed-Keeps = remove_node-Keeps a k q h xs z.nodes.links listed clear

  whole-Keeps : Keeps a k h.bytes (mark q b.size 1 (remove_node q h)).bytes
  whole-Keeps = Keeps-trans a k h.bytes (remove_node q h).bytes _ removed-Keeps (
      mark-Keeps a k (remove_node q h) q b.size true z.space.tiles.0.round
        (sizes h ls q b rs xs z free asize fits big round).0 (omega (arith, far, low))
        (omega (arith, far, low, z.space.tiles.0.big)))

  abbrev f : Heap
  f = front h ls q b rs xs z free asize fits big round

  abbrev r : Heap
  r = rest h ls q b rs xs z free asize fits big round

  front-Keeps : Keeps a k (remove_node q h).bytes f.bytes
  unfolding front
  front-Keeps =
      mark-Keeps a k (remove_node q h) q asize true round
        (omega (arith, sizes h ls q b rs xs z free asize fits big round)) (omega (arith, far, low))
        (omega (arith, far, low))

  rest-Keeps : 16 ≤ b.size - asize → Keeps a k f.bytes r.bytes
  unfolding rest
  rest-Keeps room =
      mark-Keeps a k f (q + asize) (b.size - asize) false
        (omega (arith, sizes h ls q b rs xs z free asize fits big round))
        (omega (arith, sizes h ls q b rs xs z free asize fits big round)) (omega (arith, far, low))
        (omega (arith, far, low))

  split-Keeps : 16 ≤ b.size - asize → Keeps a k h.bytes (insert_node (q + asize) r).bytes
  split-Keeps room = Keeps-trans a k h.bytes (remove_node q h).bytes _ removed-Keeps (
      Keeps-trans a k (remove_node q h).bytes f.bytes _ front-Keeps (
        Keeps-trans a k f.bytes r.bytes _ (rest-Keeps room) (
          insert_node-Keeps a k (q + asize) r (without q xs)
            (rest-Zip h ls q b rs xs z free asize fits big round room).0.nodes.links
            (Clear-without a k q xs clear) (omega (arith, far, low)))))

  pub place-Keeps : Keeps a k h.bytes (place q asize h).bytes
  place-Keeps =
      subst (λ (g : Heap). Keeps a k h.bytes g.bytes)
        (sym (place-branches h ls q b rs xs z free asize fits big round))
        (elim (leb-cases 16 (b.size - asize)) [
          | inl (room, t) ↦ rw t (split-Keeps room)
          | inr (none, n) ↦ rw n whole-Keeps
        ])
