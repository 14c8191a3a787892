-- ===== src/Mm/Coalesce/Merge.antt =====
-- The four cases of `coalesce` of mm.c: each leaves one free block in the place of the block and
-- its free neighbours.
use malloc_lab.Base.{
  ℕ, ◌+◌, ◌-◌, ◌%◌, ◌≤◌, ◌<◌, ◌≡◌, ◌≢◌, ◌⊎◌, sym, ap, ◌∙◌, true, false, List, ◌∷◌, arith,
}
use malloc_lab.Mm.{Heap, unlist, mark, remove_node}
use malloc_lab.Mm.Macros.{get_size, prev_blkp, next_blkp, hdrp}
use malloc_lab.Mm.Tags.{header-size}
use malloc_lab.Mm.FreeList.{has, without, Links, has-without}
use malloc_lab.Mm.Layout.{Block, block, IsBlock, Tiles-le}
use malloc_lab.Mm.Zip.{Zip, Space_range}
use malloc_lab.Mm.Zip.Mark.{mark-Zip, place_bounds}
use malloc_lab.Mm.Zip.Remove.{remove_next, remove_prev, removed-IsBlock}
use malloc_lab.Mm.Coalesce.Cases.{prev_blkp-block, next_blkp-block, unlist_lem}

-- The state after `coalesce`: the block is now the `s` bytes at `p`, free and on no list yet.
pub record Merged (result : ℕ × Heap) (p s : ℕ) (ls rs : List Block) (xs : List ℕ) : Type 0 where
  pub at : result.0 ≡ p
  pub zip : Zip result.1 ls p (p + s) rs xs
  pub tags : IsBlock result.1.bytes p (block s false)

-- A node that is gone is not where the rover stands.
pub rover_gone :
    (h : Heap) (k : Heap) (x : ℕ) (xs : List ℕ)
    → Links h.bytes 0 h.free_list_head xs
    → 0 < x
    → (k.rover ≡ 0) ⊎ (has k.rover (without x xs) ≡ true)
    → k.rover ≢ x
rover_gone h k x xs l pos r = ground (arith, has-without h.bytes 0 h.free_list_head x x xs l)

-- The block with its neighbours, marked as one.
pub marked :
    (h : Heap) (ls : List Block) (q n r : ℕ) (rs : List Block) (xs : List ℕ)
    → Zip h ls q r rs xs
    → r ≡ q + n
    → 16 ≤ n
    → n % 8 ≡ 0
    → Zip (mark q n 0 h) ls q r rs xs × IsBlock (mark q n 0 h).bytes q (block n false)
marked h ls q n r rs xs z e big round = mark-Zip n false z (omega arith) big round

-- The next block is taken in.
module _ (h : Heap) (ls : List Block) (q r : ℕ) (d : Block) (rs : List Block) (xs : List ℕ)
    (z : Zip h ls q r (d ∷ rs) xs) (free : d.alloc ≡ false) where
  pub listed_next : has r xs ≡ true
  listed_next = ground (arith, z.nodes.same r)

  pub sizes_next : r + d.size < 0x1_0000_0000
  sizes_next = omega (
    arith,
    Space_range z.space,
    z.space.framed.within,
    z.space.framed.top,
    Tiles-le h.bytes (r + d.size) h.vm.brk rs z.space.tiles.1,
  )

  -- `p` is the block that is being coalesced, and `bp` where the rover would go.
  pub unlist_next :
      (p n bp : ℕ)
      → q ≤ p
      → r ≡ p + n
      → IsBlock h.bytes p (block n false)
      → unlist (λ m. next_blkp m p) bp h ≡ remove_node r h
  unlist_next p n bp le e i =
      unlist_lem (λ m. next_blkp m p) bp r h
        (next_blkp-block h.bytes p n false i (omega (arith, sizes_next)) ∙ sym e)
        (next_blkp-block (remove_node r h).bytes p n false
            (removed-IsBlock h ls q r (d ∷ rs) xs z r listed_next p (block n false) le (omega arith)
              i)
            (omega (arith, sizes_next))
          ∙ sym e)
        (rover_gone h (remove_node r h) r xs z.nodes.links (omega (arith, i.start))
          (remove_next h ls q r d rs xs z free).0.nodes.roams)

  pub size_next :
      (p n : ℕ)
      → q ≤ p
      → r ≡ p + n
      → IsBlock h.bytes p (block n false)
      → get_size (remove_node r h).bytes (hdrp (next_blkp (remove_node r h).bytes p)) ≡ d.size
  size_next p n le e i =
      ap (λ (t : ℕ). get_size (remove_node r h).bytes (t - 4))
        (next_blkp-block (remove_node r h).bytes p n false
            (removed-IsBlock h ls q r (d ∷ rs) xs z r listed_next p (block n false) le (omega arith)
              i)
            (omega (arith, sizes_next))
          ∙ sym e)
      ∙ header-size (remove_node r h).bytes r d (remove_next h ls q r d rs xs z free).1
          (omega (arith, sizes_next, i.start))

-- The block before is taken in.
module _ (h : Heap) (c : Block) (ls : List Block) (q r : ℕ) (rs : List Block) (xs : List ℕ)
    (z : Zip h (c ∷ ls) q r rs xs) (free : c.alloc ≡ false) where
  pub listed_prev : has (q - c.size) xs ≡ true
  listed_prev = ground (arith, z.nodes.same (q - c.size))

  pub gone_prev :
      Zip (remove_node (q - c.size) h) ls (q - c.size) r rs (without (q - c.size) xs)
      × IsBlock (remove_node (q - c.size) h).bytes (q - c.size) c
  gone_prev = remove_prev h c ls q r rs xs z free

  pub low_prev : q < 0x1_0000_0000
  low_prev = omega (arith, place_bounds z, z.space.fits)

  pub unlist_prev : (bp : ℕ) → unlist (λ m. prev_blkp m q) bp h ≡ remove_node (q - c.size) h
  unlist_prev bp =
      unlist_lem (λ m. prev_blkp m q) bp (q - c.size) h
        (prev_blkp-block h.bytes q c z.space.back.0 z.space.back.1 low_prev)
        (prev_blkp-block (remove_node (q - c.size) h).bytes q c z.space.back.0 gone_prev.1 low_prev)
        (rover_gone h (remove_node (q - c.size) h) (q - c.size) xs z.nodes.links
          (omega (arith, z.space.back.1.start)) gone_prev.0.nodes.roams)

  pub size_prev :
      get_size
        (remove_node (q - c.size) h).bytes
        (hdrp (prev_blkp (remove_node (q - c.size) h).bytes q))
      ≡ c.size
  size_prev =
      ap (λ (t : ℕ). get_size (remove_node (q - c.size) h).bytes (t - 4))
        (prev_blkp-block (remove_node (q - c.size) h).bytes q c z.space.back.0 gone_prev.1 low_prev)
      ∙ header-size (remove_node (q - c.size) h).bytes (q - c.size) c gone_prev.1
          (omega (arith, low_prev, z.space.back.1.start))
