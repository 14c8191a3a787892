-- ===== src/Mm/Coalesce/Result.antt =====
-- `coalesce` of mm.c as a whole: the cases, put together.
use malloc_lab.Base.{
  ℕ, ◌+◌, ◌-◌, ◌≤◌, ◌≡◌, refl, sym, ap, ◌∙◌, subst, true, false, List, ◌∷◌, arith,
}
use malloc_lab.Mm.{Heap, merge, mark, remove_node, unlist}
use malloc_lab.Mm.Macros.{get_size, prev_blkp, next_blkp, hdrp, word}
use malloc_lab.Mm.Tags.{header-size}
use malloc_lab.Mm.FreeList.{has, without}
use malloc_lab.Mm.Layout.{Block, block, IsBlock}
use malloc_lab.Mm.Zip.{Zip}
use malloc_lab.Mm.Zip.Mark.{place_bounds}
use malloc_lab.Mm.Zip.Remove.{remove_next, removed-IsBlock}
use malloc_lab.Mm.Coalesce.Cases.{prev_blkp-block}
use malloc_lab.Mm.Coalesce.Merge.{
  Merged, marked, unlist_next, size_next, sizes_next, gone_prev, listed_prev, low_prev, unlist_prev,
  size_prev,
}

module _ (h : Heap) (q n : ℕ) (xs : List ℕ) (i : IsBlock h.bytes q (block n false)) where
  pub Merged-none :
      (ls rs : List Block) → Zip h ls q (q + n) rs xs → Merged (merge true true q n h) q n ls rs xs
  unfolding merge
  Merged-none ls rs z = record { at = refl; zip = z; tags = i }

  pub merge-next :
      (ls : List Block) (d : Block) (rs : List Block)
      → Zip h ls q (q + n) (d ∷ rs) xs
      → d.alloc ≡ false
      → merge true false q n h ≡ (q, mark q (n + d.size) 0 (remove_node (q + n) h))
  unfolding merge
  merge-next ls d rs z free = result
    where
      after : Heap
      after = remove_node (q + n) h

      size : word (n + get_size after.bytes (hdrp (next_blkp after.bytes q))) ≡ n + d.size
      size = omega (
        arith,
        size_next h ls q (q + n) d rs xs z free q n (omega arith) refl i,
        sizes_next h ls q (q + n) d rs xs z free,
      )

      result : merge true false q n h ≡ (q, mark q (n + d.size) 0 after)
      result =
          ap {A = Heap} {B = ℕ × Heap}
            (λ k. (q, mark q (word (n + get_size k.bytes (hdrp (next_blkp k.bytes q)))) 0 k))
            (unlist_next h ls q (q + n) d rs xs z free q n q (omega arith) refl i)
          ∙ ap {A = ℕ} {B = ℕ × Heap} (λ s. (q, mark q s 0 after)) size

  pub Merged-next :
      (ls : List Block) (d : Block) (rs : List Block)
      → Zip h ls q (q + n) (d ∷ rs) xs
      → d.alloc ≡ false
      → Merged (merge true false q n h) q (n + d.size) ls rs (without (q + n) xs)
  unfolding merge
  Merged-next ls d rs z free =
      subst (λ k. Merged k q (n + d.size) ls rs (without (q + n) xs)) (sym result)
        (record {
          at = refl;
          zip =
              subst (λ t. Zip (mark q (n + d.size) 0 after) ls q t rs (without (q + n) xs)) end
                done.0;
          tags = done.1;
        })
    where
      after : Heap
      after = remove_node (q + n) h

      end : q + n + d.size ≡ q + (n + d.size)
      end = omega arith

      result : merge true false q n h ≡ (q, mark q (n + d.size) 0 after)
      result = merge-next ls d rs z free

      done :
          Zip (mark q (n + d.size) 0 after) ls q (q + n + d.size) rs (without (q + n) xs)
          × IsBlock (mark q (n + d.size) 0 after).bytes q (block (n + d.size) false)
      done =
          marked after ls q (n + d.size) (q + n + d.size) rs (without (q + n) xs)
            (remove_next h ls q (q + n) d rs xs z free).0 end (omega (arith, i.big))
            (omega (arith, i.round, z.space.tiles.0.round))

  pub merge-prev :
      (c : Block) (ls rs : List Block)
      → Zip h (c ∷ ls) q (q + n) rs xs
      → c.alloc ≡ false
      → merge false true q n h
        ≡ (q - c.size, mark (q - c.size) (c.size + n) 0 (remove_node (q - c.size) h))
  unfolding merge
  merge-prev c ls rs z free = result
    where
      after : Heap
      after = remove_node (q - c.size) h

      gone :
          Zip after ls (q - c.size) (q + n) rs (without (q - c.size) xs)
          × IsBlock after.bytes (q - c.size) c
      gone = gone_prev h c ls q (q + n) rs xs z free

      size : word (n + get_size after.bytes (hdrp (prev_blkp after.bytes q))) ≡ c.size + n
      size = omega (arith, size_prev h c ls q (q + n) rs xs z free, place_bounds z, z.space.back.0)

      before : prev_blkp after.bytes q ≡ q - c.size
      before =
          prev_blkp-block after.bytes q c z.space.back.0 gone.1
            (low_prev h c ls q (q + n) rs xs z free)

      result : merge false true q n h ≡ (q - c.size, mark (q - c.size) (c.size + n) 0 after)
      result =
          ap {A = Heap} {B = ℕ × Heap}
            (λ k. (
              prev_blkp k.bytes q,
              mark (prev_blkp k.bytes q) (word (n + get_size k.bytes (hdrp (prev_blkp k.bytes q))))
                  0 k,
            ))
            (unlist_prev h c ls q (q + n) rs xs z free q)
          ∙ ap {A = ℕ} {B = ℕ × Heap}
              (λ s. (prev_blkp after.bytes q, mark (prev_blkp after.bytes q) s 0 after)) size
          ∙ ap {A = ℕ} {B = ℕ × Heap} (λ p. (p, mark p (c.size + n) 0 after)) before

  pub Merged-prev :
      (c : Block) (ls rs : List Block)
      → Zip h (c ∷ ls) q (q + n) rs xs
      → c.alloc ≡ false
      → Merged (merge false true q n h) (q - c.size) (c.size + n) ls rs (without (q - c.size) xs)
  unfolding merge
  Merged-prev c ls rs z free =
      subst (λ k. Merged k (q - c.size) (c.size + n) ls rs (without (q - c.size) xs)) (sym result)
        (record {
          at = refl;
          zip =
              subst
                (λ t.
                  Zip (mark (q - c.size) (c.size + n) 0 after) ls (q - c.size) t rs
                    (without (q - c.size) xs))
                end done.0;
          tags = done.1;
        })
    where
      after : Heap
      after = remove_node (q - c.size) h

      gone :
          Zip after ls (q - c.size) (q + n) rs (without (q - c.size) xs)
          × IsBlock after.bytes (q - c.size) c
      gone = gone_prev h c ls q (q + n) rs xs z free

      end : q + n ≡ q - c.size + (c.size + n)
      end = omega (arith, z.space.back.0)

      result : merge false true q n h ≡ (q - c.size, mark (q - c.size) (c.size + n) 0 after)
      result = merge-prev c ls rs z free

      done :
          Zip
            (mark (q - c.size) (c.size + n) 0 after)
            ls
            (q - c.size)
            (q + n)
            rs
            (without (q - c.size) xs)
          × IsBlock
              (mark (q - c.size) (c.size + n) 0 after).bytes
              (q - c.size)
              (block (c.size + n) false)
      done =
          marked after ls (q - c.size) (c.size + n) (q + n) rs (without (q - c.size) xs) gone.0 end
            (omega (arith, i.big)) (omega (arith, i.round, z.space.back.1.round))

  pub merge-both :
      (c : Block) (ls : List Block) (d : Block) (rs : List Block)
      → Zip h (c ∷ ls) q (q + n) (d ∷ rs) xs
      → c.alloc ≡ false
      → d.alloc ≡ false
      → merge false false q n h ≡ (
        q - c.size,
        mark
            (q - c.size)
            (c.size + n + d.size)
            0
            (remove_node (q + n) (remove_node (q - c.size) h)),
      )
  unfolding merge
  merge-both c ls d rs z free free' = result
    where
      p : ℕ
      p = q - c.size

      mid : Heap
      mid = remove_node p h

      gone : Zip mid ls p (q + n) (d ∷ rs) (without p xs) × IsBlock mid.bytes p c
      gone = gone_prev h c ls q (q + n) (d ∷ rs) xs z free

      after : Heap
      after = remove_node (q + n) mid

      kept : IsBlock mid.bytes q (block n false)
      kept =
          removed-IsBlock h (c ∷ ls) q (q + n) (d ∷ rs) xs z p
            (listed_prev h c ls q (q + n) (d ∷ rs) xs z free) q (block n false) (omega arith)
            (omega arith) i

      le : p ≤ q
      le = omega arith

      listed : has (q + n) (without p xs) ≡ true
      listed = ground (arith, gone.0.nodes.same (q + n))

      kept_prev : IsBlock after.bytes p c
      kept_prev =
          removed-IsBlock mid ls p (q + n) (d ∷ rs) (without p xs) gone.0 (q + n) listed p c
            (omega arith) (omega (arith, z.space.back.0)) gone.1

      before : prev_blkp after.bytes q ≡ p
      before =
          prev_blkp-block after.bytes q c z.space.back.0 kept_prev
            (low_prev h c ls q (q + n) (d ∷ rs) xs z free)

      size_before : get_size after.bytes (hdrp (prev_blkp after.bytes q)) ≡ c.size
      size_before =
          ap (λ (t : ℕ). get_size after.bytes (t - 4)) before
          ∙ header-size after.bytes p c kept_prev
              (omega (arith, low_prev h c ls q (q + n) (d ∷ rs) xs z free, z.space.back.1.start))

      size :
          word (
            n
            + (get_size after.bytes (hdrp (prev_blkp after.bytes q))
                + get_size after.bytes (hdrp (next_blkp after.bytes q))))
          ≡ c.size + n + d.size
      size = omega (
        arith,
        size_before,
        size_next mid ls p (q + n) d rs (without p xs) gone.0 free' q n le refl kept,
        sizes_next mid ls p (q + n) d rs (without p xs) gone.0 free',
        z.space.back.0,
      )

      unlisted : unlist (λ m. next_blkp m q) q (unlist (λ m. prev_blkp m q) q h) ≡ after
      unlisted =
          ap (unlist (λ m. next_blkp m q) q) (unlist_prev h c ls q (q + n) (d ∷ rs) xs z free q)
          ∙ unlist_next mid ls p (q + n) d rs (without p xs) gone.0 free' q n q le refl kept

      result : merge false false q n h ≡ (p, mark p (c.size + n + d.size) 0 after)
      result =
          ap {A = Heap} {B = ℕ × Heap}
            (λ k. (
              prev_blkp k.bytes q,
              mark (prev_blkp k.bytes q)
                  (word (
                    n
                    + (get_size k.bytes (hdrp (prev_blkp k.bytes q))
                        + get_size k.bytes (hdrp (next_blkp k.bytes q)))))
                  0 k,
            ))
            unlisted
          ∙ ap {A = ℕ} {B = ℕ × Heap}
              (λ s. (prev_blkp after.bytes q, mark (prev_blkp after.bytes q) s 0 after)) size
          ∙ ap {A = ℕ} {B = ℕ × Heap} (λ t. (t, mark t (c.size + n + d.size) 0 after)) before

  pub Merged-both :
      (c : Block) (ls : List Block) (d : Block) (rs : List Block)
      → Zip h (c ∷ ls) q (q + n) (d ∷ rs) xs
      → c.alloc ≡ false
      → d.alloc ≡ false
      → Merged
          (merge false false q n h)
          (q - c.size)
          (c.size + n + d.size)
          ls
          rs
          (without (q + n) (without (q - c.size) xs))
  unfolding merge
  Merged-both c ls d rs z free free' =
      subst (λ k. Merged k p (c.size + n + d.size) ls rs ys) (sym result)
        (record {
          at = refl;
          zip = subst (λ t. Zip (mark p (c.size + n + d.size) 0 after) ls p t rs ys) end done.0;
          tags = done.1;
        })
    where
      p : ℕ
      p = q - c.size

      ys : List ℕ
      ys = without (q + n) (without p xs)

      mid : Heap
      mid = remove_node p h

      gone : Zip mid ls p (q + n) (d ∷ rs) (without p xs) × IsBlock mid.bytes p c
      gone = gone_prev h c ls q (q + n) (d ∷ rs) xs z free

      after : Heap
      after = remove_node (q + n) mid

      end : q + n + d.size ≡ p + (c.size + n + d.size)
      end = omega (arith, z.space.back.0)

      result : merge false false q n h ≡ (p, mark p (c.size + n + d.size) 0 after)
      result = merge-both c ls d rs z free free'

      done :
          Zip (mark p (c.size + n + d.size) 0 after) ls p (q + n + d.size) rs ys
          × IsBlock
              (mark p (c.size + n + d.size) 0 after).bytes
              p
              (block (c.size + n + d.size) false)
      done =
          marked after ls p (c.size + n + d.size) (q + n + d.size) rs ys
            (remove_next mid ls p (q + n) d rs (without p xs) gone.0 free').0 end
            (omega (arith, i.big))
            (omega (arith, i.round, z.space.back.1.round, z.space.tiles.0.round))
