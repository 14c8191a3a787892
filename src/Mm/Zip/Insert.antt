-- ===== src/Mm/Zip/Insert.antt =====
-- `insert_node` of mm.c, seen from the place of the block that it adds to the free list.
use malloc_lab.Base.{ℕ, ◌+◌, ◌≤◌, ◌≡◌, sym, subst, inr, false, List, [], ◌∷◌, arith}
use malloc_lab.Mm.{Heap, insert_node}
use malloc_lab.Mm.FreeList.{Clear}
use malloc_lab.Mm.FreeList.Insert.{
  inserted, insert_node-bytes, insert_node-Links, insert_node-rover,
}
use malloc_lab.Mm.Layout.{Block, block, IsBlock, IsBlock-put}
use malloc_lab.Mm.Zip.{
  Space, Zip, node_bounds, Space_range, Space-put, Space-put_node, Clear-of_nodes,
}

insert_node-vm : (bp : ℕ) (h : Heap) → (insert_node bp h).vm ≡ h.vm
unfolding insert_node
insert_node-vm bp h = ground arith

module _ (h : Heap) (ls : List Block) (q n : ℕ) (rs : List Block) where
  inserted-Space :
      (xs : List ℕ)
      → Zip h ls q (q + n) rs xs
      → 16 ≤ n
      → Space h.vm (inserted h.bytes q h.free_list_head xs) ls q (q + n) rs
  inserted-Space [] z w =
      Space-put (Space-put z.space (q + 4) h.free_list_head (omega arith) (omega arith)) q 0
        (omega arith) (omega arith)
  inserted-Space (x ∷ xs) z w =
      Space-put_node
        (Space-put (Space-put z.space (q + 4) h.free_list_head (omega arith) (omega arith)) q 0
          (omega arith) (omega arith))
        x h.free_list_head q (ground (arith, z.nodes.same x)) (ground (arith, z.nodes.links))
        (ground (arith, z.nodes.links))

  inserted-IsBlock :
      (xs : List ℕ)
      → Zip h ls q (q + n) rs xs
      → IsBlock h.bytes q (block n false)
      → IsBlock (inserted h.bytes q h.free_list_head xs) q (block n false)
  inserted-IsBlock [] z i =
      IsBlock-put _ q q 0 _ (omega arith) (omega arith)
        (IsBlock-put _ q (q + 4) _ _ (omega arith) (omega arith) i)
  inserted-IsBlock (x ∷ xs) z i =
      let far = node_bounds z.space x (ground (arith, z.nodes.same x)) in
      IsBlock-put _ q h.free_list_head q _ (ground (arith, far, z.nodes.links))
        (ground (arith, far, z.nodes.links))
        (IsBlock-put _ q q 0 _ (omega arith) (omega arith)
          (IsBlock-put _ q (q + 4) _ _ (omega arith) (omega arith) i))

  -- With its tags written as those of a free block, what was left out of the view joins the blocks
  -- and the free list.
  pub insert_node-Zip :
      (xs : List ℕ)
      → Zip h ls q (q + n) rs xs
      → IsBlock h.bytes q (block n false)
      → Zip (insert_node q h) ls q q (block n false ∷ rs) (q ∷ xs)
  insert_node-Zip xs z i = record {
    space = rw (insert_node-vm q h) (
        subst (λ m. Space h.vm m ls q q (block n false ∷ rs))
          (sym (insert_node-bytes q h xs z.nodes.links))
          (record {
            framed = s.framed;
            back = s.back;
            fits = omega arith;
            tiles = (inserted-IsBlock xs z i, s.tiles);
          }));
    nodes = record {
      links =
          insert_node-Links q h xs (omega (arith, i.start))
            (omega (arith, Space_range z.space, z.space.framed.within, z.space.framed.top, i.big))
            clear z.nodes.links;
      same = λ x. ground (arith, z.nodes.same x);
      count = omega (arith, z.nodes.count);
      roams = inr (insert_node-rover q h xs z.nodes.roams);
    };
  }
    where
      s : Space h.vm (inserted h.bytes q h.free_list_head xs) ls q (q + n) rs
      s = inserted-Space xs z i.big

      clear : Clear q 8 xs
      clear =
          Clear-of_nodes z.space q 8 xs (omega arith) (omega (arith, i.big))
            λ x e. ground (arith, z.nodes.same x)
