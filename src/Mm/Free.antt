-- ===== src/Mm/Free.antt =====
-- `mm_free` of mm.c: the block and its free neighbours become one free block at the head of the
-- free list.
use malloc_lab.Base.{ℕ, ◌+◌, ◌-◌, ◌≡◌, refl, sym, subst, true, false, List, ◌∷◌, reverse_aux, arith}
use malloc_lab.Mm.{Heap, mm_free, mark, coalesce, insert_node}
use malloc_lab.Mm.Macros.{get_size}
use malloc_lab.Mm.Tags.{header-size}
use malloc_lab.Mm.Layout.{Block, block, IsBlock}
use malloc_lab.Mm.Zip.{Zip, first}
use malloc_lab.Mm.Zip.Mark.{place_bounds, mark-Zip}
use malloc_lab.Mm.Zip.Move.{IsHeap, leave_out, rewind, wind, total}
use malloc_lab.Mm.Zip.Insert.{insert_node-Zip}
use malloc_lab.Mm.Coalesce.{absorbed, beyond, unlisted_prev, unlisted_next}
use malloc_lab.Mm.Coalesce.Merge.{Merged}
use malloc_lab.Mm.Coalesce.Whole.{coalesce-Merged}

-- A coalesced block that is put on the list.
pub insert-Merged :
    (k : ℕ × Heap) (p s : ℕ) (ls rs : List Block) (xs : List ℕ)
    → Merged k p s ls rs xs
    → Zip (insert_node k.0 k.1) ls p p (block s false ∷ rs) (p ∷ xs)
insert-Merged k p s ls rs xs m =
    subst (λ t. Zip (insert_node t k.1) ls p p (block s false ∷ rs) (p ∷ xs)) (sym m.at)
      (insert_node-Zip k.1 ls p s rs xs m.zip m.tags)

module _ (h : Heap) (ls : List Block) (q : ℕ) (b : Block) (rs : List Block) (xs : List ℕ)
    (z : Zip h ls q q (b ∷ rs) xs) (taken : b.alloc ≡ true) where
  pub mm_free-Zip :
      Zip
        (mm_free q h)
        (beyond ls)
        (q - absorbed ls)
        (q - absorbed ls)
        (block (absorbed ls + b.size + absorbed rs) false ∷ beyond rs)
        ((q - absorbed ls) ∷ unlisted_next rs (q + b.size) (unlisted_prev ls q xs))
  unfolding mm_free
  mm_free-Zip =
      subst
        (λ s.
          Zip (let k = coalesce q (mark q s 0 h) in insert_node k.0 k.1) (beyond ls)
            (q - absorbed ls) (q - absorbed ls)
            (block (absorbed ls + b.size + absorbed rs) false ∷ beyond rs)
            ((q - absorbed ls) ∷ unlisted_next rs (q + b.size) (unlisted_prev ls q xs)))
        (sym size)
        (insert-Merged _ _ _ _ _ _
          (coalesce-Merged (mark q b.size 0 h) ls q b.size rs xs marked.0 marked.1))
    where
      out : Zip h ls q (q + b.size) rs xs
      out = leave_out b z taken

      size : get_size h.bytes (q - 4) ≡ b.size
      size =
          header-size h.bytes q b z.space.tiles.0
            (omega (arith, place_bounds out, z.space.tiles.0.start))

      marked :
          Zip (mark q b.size 0 h) ls q (q + b.size) rs xs
          × IsBlock (mark q b.size 0 h).bytes q (block b.size false)
      marked = mark-Zip b.size false out (omega arith) z.space.tiles.0.big z.space.tiles.0.round

-- The blocks after an allocated block between `ls` and `rs` is freed.
abbrev pub freed_blocks : List Block → ℕ → List Block → List Block
freed_blocks ls n rs =
    reverse_aux (beyond ls) (block (absorbed ls + n + absorbed rs) false ∷ beyond rs)

abbrev pub freed_nodes : List Block → ℕ → ℕ → List Block → List ℕ → List ℕ
freed_nodes ls q n rs xs = (q - absorbed ls) ∷ unlisted_next rs (q + n) (unlisted_prev ls q xs)

-- `mm_free` of an allocated block of a well-formed heap leaves a well-formed heap, in which the
-- block and its free neighbours are one free block at the head of the free list.
pub mm_free-IsHeap :
    (h : Heap) (ls : List Block) (n : ℕ) (rs : List Block) (xs : List ℕ)
    → IsHeap h (reverse_aux ls (block n true ∷ rs)) xs
    → IsHeap
        (mm_free (first h.vm + total ls) h)
        (freed_blocks ls n rs)
        (freed_nodes ls (first h.vm + total ls) n rs xs)
mm_free-IsHeap h ls n rs xs z = rewind _ _ _ _ _ (
    mm_free-Zip h ls (first h.vm + total ls) (block n true) rs xs
      (wind h ls (block n true ∷ rs) xs z) refl)
