-- ===== src/Mm/Frame/Coalesce.antt =====
-- What `coalesce` and `mm_free` of mm.c do not write.
use malloc_lab.Base.{
  ℕ, ◌+◌, ◌-◌, ◌≤◌, ◌<◌, ◌≡◌, refl, ◌⊎◌, inl, inr, true, false, List, [], ◌∷◌, arith, subst, sym,
}
use malloc_lab.Mm.{Heap, mark, insert_node, remove_node, merge, coalesce, mm_free}
use malloc_lab.Mm.Macros.{get_size}
use malloc_lab.Mm.Tags.{header-size}
use malloc_lab.Mm.FreeList.{without, Clear, Clear-without}
use malloc_lab.Mm.Layout.{Block, block, IsBlock}
use malloc_lab.Mm.Zip.{Zip, first}
use malloc_lab.Mm.Zip.Mark.{place_bounds, mark-Zip}
use malloc_lab.Mm.Zip.Move.{leave_out}
use malloc_lab.Mm.Coalesce.{near, absorbed, unlisted_prev, unlisted_next}
use malloc_lab.Mm.Coalesce.Merge.{Merged, listed_next, sizes_next, gone_prev, listed_prev}
use malloc_lab.Mm.Coalesce.Result.{merge-next, merge-prev, merge-both}
use malloc_lab.Mm.Coalesce.Whole.{Stays, Joins, side, coalesce-merge, coalesce-Merged}
use malloc_lab.Mm.Live.{absorbed_low}
use malloc_lab.Mm.Frame.{Keeps, Keeps-trans, mark-Keeps, remove_node-Keeps, insert_node-Keeps}

module _ (a k : ℕ) where
  none-Keeps : (h : Heap) (q n : ℕ) → Keeps a k h.bytes (merge true true q n h).1.bytes
  unfolding merge
  none-Keeps h q n b lo hi = refl

  next-Keeps :
      (h : Heap) (ls : List Block) (q n : ℕ) (d : Block) (rs : List Block) (xs : List ℕ)
      → Zip h ls q (q + n) (d ∷ rs) xs
      → IsBlock h.bytes q (block n false)
      → d.alloc ≡ false
      → Clear a k xs
      → (a + k + 4 ≤ q) ⊎ (q + n + d.size ≤ a + 4)
      → Keeps a k h.bytes (merge true false q n h).1.bytes
  next-Keeps h ls q n d rs xs z i free c far =
      subst (λ (t : ℕ × Heap). Keeps a k h.bytes t.1.bytes)
        (sym (merge-next h q n xs i ls d rs z free))
        (Keeps-trans a k h.bytes (remove_node (q + n) h).bytes _
          (remove_node-Keeps a k (q + n) h xs z.nodes.links
            (listed_next h ls q (q + n) d rs xs z free) c)
          (mark-Keeps a k (remove_node (q + n) h) q (n + d.size) false
            (omega (arith, i.round, z.space.tiles.0.round))
            (omega (arith, sizes_next h ls q (q + n) d rs xs z free, i.start))
            (omega (arith, far, i.start)) (omega (arith, far, i.start, i.big))))

  prev-Keeps :
      (h : Heap) (c : Block) (ls : List Block) (q n : ℕ) (rs : List Block) (xs : List ℕ)
      → Zip h (c ∷ ls) q (q + n) rs xs
      → IsBlock h.bytes q (block n false)
      → c.alloc ≡ false
      → Clear a k xs
      → (a + k + 4 ≤ q - c.size) ⊎ (q + n ≤ a + 4)
      → Keeps a k h.bytes (merge false true q n h).1.bytes
  prev-Keeps h c ls q n rs xs z i free clear far =
      subst (λ (t : ℕ × Heap). Keeps a k h.bytes t.1.bytes)
        (sym (merge-prev h q n xs i c ls rs z free))
        (Keeps-trans a k h.bytes (remove_node (q - c.size) h).bytes _
          (remove_node-Keeps a k (q - c.size) h xs z.nodes.links
            (listed_prev h c ls q (q + n) rs xs z free) clear)
          (mark-Keeps a k (remove_node (q - c.size) h) (q - c.size) (c.size + n) false
            (omega (arith, i.round, z.space.back.1.round))
            (omega (arith, place_bounds z, z.space.back.0, z.space.back.1.start))
            (omega (arith, far, z.space.back.0, z.space.back.1.start))
            (omega (arith, far, z.space.back.0, z.space.back.1.start, i.big))))

  both-Keeps :
      (h : Heap) (c : Block) (ls : List Block) (q n : ℕ) (d : Block) (rs : List Block) (xs : List ℕ)
      → Zip h (c ∷ ls) q (q + n) (d ∷ rs) xs
      → IsBlock h.bytes q (block n false)
      → c.alloc ≡ false
      → d.alloc ≡ false
      → Clear a k xs
      → (a + k + 4 ≤ q - c.size) ⊎ (q + n + d.size ≤ a + 4)
      → Keeps a k h.bytes (merge false false q n h).1.bytes
  both-Keeps h c ls q n d rs xs z i free free' clear far =
      let gone = gone_prev h c ls q (q + n) (d ∷ rs) xs z free in
      subst (λ (t : ℕ × Heap). Keeps a k h.bytes t.1.bytes)
        (sym (merge-both h q n xs i c ls d rs z free free'))
        (Keeps-trans a k h.bytes (remove_node (q - c.size) h).bytes _
          (remove_node-Keeps a k (q - c.size) h xs z.nodes.links
            (listed_prev h c ls q (q + n) (d ∷ rs) xs z free) clear)
          (Keeps-trans a k (remove_node (q - c.size) h).bytes
            (remove_node (q + n) (remove_node (q - c.size) h)).bytes _
            (remove_node-Keeps a k (q + n) (remove_node (q - c.size) h) (without (q - c.size) xs)
              gone.0.nodes.links
              (listed_next _ ls (q - c.size) (q + n) d rs (without (q - c.size) xs) gone.0 free')
              (Clear-without a k (q - c.size) xs clear))
            (mark-Keeps a k (remove_node (q + n) (remove_node (q - c.size) h)) (q - c.size)
              (c.size + n + d.size) false
              (omega (arith, i.round, z.space.back.1.round, z.space.tiles.0.round))
              (omega (
                arith,
                sizes_next h (c ∷ ls) q (q + n) d rs xs z free',
                z.space.back.0,
                z.space.back.1.start,
              ))
              (omega (arith, far, z.space.back.0, z.space.back.1.start))
              (omega (arith, far, z.space.back.0, z.space.back.1.start, i.big)))))

  merge-Keeps :
      (h : Heap) (ls : List Block) (q n : ℕ) (rs : List Block) (xs : List ℕ)
      → Zip h ls q (q + n) rs xs
      → IsBlock h.bytes q (block n false)
      → Clear a k xs
      → (a + k + 4 ≤ q - absorbed ls) ⊎ (q + n + absorbed rs ≤ a + 4)
      → Stays ls ⊎ ((c : Block) × (ls' : List Block) × Joins c ls' ls)
      → Stays rs ⊎ ((d : Block) × (rs' : List Block) × Joins d rs' rs)
      → Keeps a k h.bytes (merge (near ls) (near rs) q n h).1.bytes
  merge-Keeps h ls q n rs xs z i clear far (inl s) (inl t) =
      rw (s.near_lem, t.near_lem) (none-Keeps h q n)
  merge-Keeps h ls q n rs xs z i clear far (inl s) (inr (d, rs', t)) =
      rw (s.near_lem, t.near_lem)
        (next-Keeps h ls q n d rs' xs (subst (λ r. Zip h ls q (q + n) r xs) t.split z) i t.free
          clear (omega (arith, far, s.absorbed_lem, t.absorbed_lem)))
  merge-Keeps h ls q n rs xs z i clear far (inr (c, ls', s)) (inl t) =
      rw (s.near_lem, t.near_lem)
        (prev-Keeps h c ls' q n rs xs (subst (λ l. Zip h l q (q + n) rs xs) s.split z) i s.free
          clear (omega (arith, far, s.absorbed_lem, t.absorbed_lem)))
  merge-Keeps h ls q n rs xs z i clear far (inr (c, ls', s)) (inr (d, rs', t)) =
      rw (s.near_lem, t.near_lem)
        (both-Keeps h c ls' q n d rs' xs
          (subst (λ l. Zip h l q (q + n) (d ∷ rs') xs) s.split
            (subst (λ r. Zip h ls q (q + n) r xs) t.split z))
          i s.free t.free clear (omega (arith, far, s.absorbed_lem, t.absorbed_lem)))

  pub coalesce-Keeps :
      (h : Heap) (ls : List Block) (q n : ℕ) (rs : List Block) (xs : List ℕ)
      → Zip h ls q (q + n) rs xs
      → IsBlock h.bytes q (block n false)
      → Clear a k xs
      → (a + k + 4 ≤ q - absorbed ls) ⊎ (q + n + absorbed rs ≤ a + 4)
      → Keeps a k h.bytes (coalesce q h).1.bytes
  coalesce-Keeps h ls q n rs xs z i clear far =
      subst (λ (t : ℕ × Heap). Keeps a k h.bytes t.1.bytes)
        (sym (coalesce-merge h ls q n rs xs z i))
        (merge-Keeps h ls q n rs xs z i clear far (side ls) (side rs))

  pub unlisted-Clear :
      (ls rs : List Block) (q r : ℕ) (xs : List ℕ)
      → Clear a k xs
      → Clear a k (unlisted_next rs r (unlisted_prev ls q xs))
  unlisted-Clear [] [] q r xs c = c
  unlisted-Clear [] (d ∷ rs) q r xs c = ground (arith, Clear-without a k r xs)
  unlisted-Clear (b ∷ ls) [] q r xs c = ground (arith, Clear-without a k (q - b.size) xs)
  unlisted-Clear (b ∷ ls) (d ∷ rs) q r xs c = ground (
    arith,
    Clear-without a k (q - b.size) xs,
    Clear-without a k r xs,
    Clear-without a k r (without (q - b.size) xs),
  )

  -- A merged block that is put on the list.
  pub insert-Keeps :
      (m : ℕ × Heap) (p s : ℕ) (ls rs : List Block) (xs : List ℕ)
      → Merged m p s ls rs xs
      → Clear a k xs
      → (a + k + 4 ≤ p) ⊎ (p + s ≤ a + 4)
      → Keeps a k m.1.bytes (insert_node m.0 m.1).bytes
  insert-Keeps m p s ls rs xs w c far =
      insert_node-Keeps a k m.0 m.1 xs w.zip.nodes.links c
        (omega (arith, far, w.at, w.tags.big, w.tags.start))

  pub mm_free_frame :
      (h : Heap) (ls : List Block) (q n : ℕ) (rs : List Block) (xs : List ℕ)
      → Zip h ls q q (block n true ∷ rs) xs
      → Clear a k xs
      → (a + k + 4 ≤ q - absorbed ls) ⊎ (q + n + absorbed rs ≤ a + 4)
      → Keeps a k h.bytes (mm_free q h).bytes
  unfolding mm_free
  mm_free_frame h ls q n rs xs z clear far =
      subst
        (λ s. Keeps a k h.bytes (let m = coalesce q (mark q s 0 h) in insert_node m.0 m.1).bytes)
        (sym size)
        (Keeps-trans a k h.bytes (mark q n 0 h).bytes _
          (mark-Keeps a k h q n false z.space.tiles.0.round (omega (arith, low))
            (omega (arith, far, z.space.tiles.0.start))
            (omega (arith, far, z.space.tiles.0.start, z.space.tiles.0.big)))
          (Keeps-trans a k (mark q n 0 h).bytes (coalesce q (mark q n 0 h)).1.bytes _
            (coalesce-Keeps (mark q n 0 h) ls q n rs xs marked.0 marked.1 clear far)
            (insert-Keeps _ _ _ _ _ _
              (coalesce-Merged (mark q n 0 h) ls q n rs xs marked.0 marked.1)
              (unlisted-Clear ls rs q (q + n) xs clear)
              (omega (arith, far, absorbed_low h.bytes (first h.vm) q ls z.space.back)))))
    where
      out : Zip h ls q (q + n) rs xs
      out = leave_out (block n true) z refl

      low : (16 ≤ q) × (q + n < 0x1_0000_0000)
      low = omega (arith, place_bounds out, z.space.tiles.0.start)

      size : get_size h.bytes (q - 4) ≡ n
      size = header-size h.bytes q (block n true) z.space.tiles.0 (omega (arith, low))

      marked :
          Zip (mark q n 0 h) ls q (q + n) rs xs × IsBlock (mark q n 0 h).bytes q (block n false)
      marked = mark-Zip n false out (omega arith) z.space.tiles.0.big z.space.tiles.0.round
