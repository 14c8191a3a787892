-- ===== src/Mm/Coalesce/Whole.antt =====
-- `coalesce` of mm.c as a whole: an allocated neighbour, or none, stays, and a free one is taken in.
use malloc_lab.Base.{
  ℕ, ◌+◌, ◌-◌, ◌≤◌, ◌≡◌, refl, ◌⊎◌, inl, inr, sym, ap, ◌∙◌, subst, true, false, List, [], ◌∷◌,
  arith, Bool-cases,
}
use malloc_lab.Mm.{Heap, merge, coalesce}
use malloc_lab.Mm.Macros.{get_size, get_alloc, truthy, prev_blkp, next_blkp, hdrp}
use malloc_lab.Mm.Tags.{header-size}
use malloc_lab.Mm.FreeList.{without}
use malloc_lab.Mm.Layout.{Block, block, IsBlock}
use malloc_lab.Mm.Zip.{Zip}
use malloc_lab.Mm.Zip.Mark.{place_bounds}
use malloc_lab.Mm.Coalesce.{near, absorbed, beyond, unlisted_prev, unlisted_next}
use malloc_lab.Mm.Coalesce.Cases.{next_blkp-block, prev_alloc-near, next_alloc-near}
use malloc_lab.Mm.Coalesce.Merge.{Merged}
use malloc_lab.Mm.Coalesce.Result.{Merged-none, Merged-next, Merged-prev, Merged-both}

-- The blocks on one side: the nearest is not free, or it is `b` and `rest` stands beyond it.
pub record Stays (bs : List Block) : Type 0 where
  pub near_lem : near bs ≡ true
  pub absorbed_lem : absorbed bs ≡ 0
  pub beyond_lem : beyond bs ≡ bs
  pub prev_lem : (q : ℕ) (xs : List ℕ) → unlisted_prev bs q xs ≡ xs
  pub next_lem : (r : ℕ) (xs : List ℕ) → unlisted_next bs r xs ≡ xs

pub record Joins (b : Block) (rest bs : List Block) : Type 0 where
  pub free : b.alloc ≡ false
  pub split : bs ≡ b ∷ rest
  pub near_lem : near bs ≡ false
  pub absorbed_lem : absorbed bs ≡ b.size
  pub beyond_lem : beyond bs ≡ rest
  pub prev_lem : (q : ℕ) (xs : List ℕ) → unlisted_prev bs q xs ≡ without (q - b.size) xs
  pub next_lem : (r : ℕ) (xs : List ℕ) → unlisted_next bs r xs ≡ without r xs

pub side : (bs : List Block) → Stays bs ⊎ ((b : Block) × (rest : List Block) × Joins b rest bs)
side [] = inl (record {
  near_lem = refl;
  absorbed_lem = refl;
  beyond_lem = refl;
  prev_lem = λ q xs. refl;
  next_lem = λ r xs. refl;
})
side (b ∷ bs) = elim (Bool-cases b.alloc) [
  | inl e ↦ inl (record {
    near_lem = e;
    absorbed_lem = ground arith;
    beyond_lem = ground arith;
    prev_lem = λ q xs. ground arith;
    next_lem = λ r xs. ground arith;
  })
  | inr e ↦ inr (
    b,
    bs,
    record {
      free = e;
      split = refl;
      near_lem = e;
      absorbed_lem = ground arith;
      beyond_lem = ground arith;
      prev_lem = λ q xs. ground arith;
      next_lem = λ r xs. ground arith;
    },
  )
]

recast :
    {k : ℕ × Heap} {p p' s s' : ℕ} {ls ls' rs rs' : List Block} {xs xs' : List ℕ}
    → p ≡ p'
    → s ≡ s'
    → ls ≡ ls'
    → rs ≡ rs'
    → xs ≡ xs'
    → Merged k p s ls rs xs
    → Merged k p' s' ls' rs' xs'
recast {k} {p'} {s} {s'} {ls} {ls'} {rs} {rs'} {xs} {xs'} ep es el er ex m =
    subst (λ t. Merged k p' s' ls' rs' t) ex
      (subst (λ t. Merged k p' s' ls' t xs) er
        (subst (λ t. Merged k p' s' t rs xs) el
          (subst (λ t. Merged k p' t ls rs xs) es (subst (λ t. Merged k t s ls rs xs) ep m))))

module _ (h : Heap) (ls : List Block) (q n : ℕ) (rs : List Block) (xs : List ℕ)
    (z : Zip h ls q (q + n) rs xs) (i : IsBlock h.bytes q (block n false)) where
  abbrev IsMerged : ℕ × Heap → Type 0
  IsMerged k =
      Merged k (q - absorbed ls) (absorbed ls + n + absorbed rs) (beyond ls) (beyond rs)
        (unlisted_next rs (q + n) (unlisted_prev ls q xs))

  merge-Merged :
      Stays ls ⊎ ((c : Block) × (ls' : List Block) × Joins c ls' ls)
      → Stays rs ⊎ ((d : Block) × (rs' : List Block) × Joins d rs' rs)
      → IsMerged (merge (near ls) (near rs) q n h)
  merge-Merged (inl a) (inl b) =
      subst (λ t. IsMerged (merge t (near rs) q n h)) (sym a.near_lem)
        (subst (λ t. IsMerged (merge true t q n h)) (sym b.near_lem)
          (recast (omega (arith, a.absorbed_lem)) (omega (arith, a.absorbed_lem, b.absorbed_lem))
            (sym a.beyond_lem) (sym b.beyond_lem)
            (sym (b.next_lem (q + n) (unlisted_prev ls q xs) ∙ a.prev_lem q xs))
            (Merged-none h q n xs i ls rs z)))
  merge-Merged (inl a) (inr (d, rs', b)) =
      subst (λ t. IsMerged (merge t (near rs) q n h)) (sym a.near_lem)
        (subst (λ t. IsMerged (merge true t q n h)) (sym b.near_lem)
          (recast (omega (arith, a.absorbed_lem)) (omega (arith, a.absorbed_lem, b.absorbed_lem))
            (sym a.beyond_lem) (sym b.beyond_lem)
            (sym
              (b.next_lem (q + n) (unlisted_prev ls q xs) ∙ ap (without (q + n)) (a.prev_lem q xs)))
            (Merged-next h q n xs i ls d rs' (subst (λ t. Zip h ls q (q + n) t xs) b.split z)
              b.free)))
  merge-Merged (inr (c, ls', a)) (inl b) =
      subst (λ t. IsMerged (merge t (near rs) q n h)) (sym a.near_lem)
        (subst (λ t. IsMerged (merge false t q n h)) (sym b.near_lem)
          (recast (omega (arith, a.absorbed_lem)) (omega (arith, a.absorbed_lem, b.absorbed_lem))
            (sym a.beyond_lem) (sym b.beyond_lem)
            (sym (b.next_lem (q + n) (unlisted_prev ls q xs) ∙ a.prev_lem q xs))
            (Merged-prev h q n xs i c ls' rs (subst (λ t. Zip h t q (q + n) rs xs) a.split z)
              a.free)))
  merge-Merged (inr (c, ls', a)) (inr (d, rs', b)) =
      subst (λ t. IsMerged (merge t (near rs) q n h)) (sym a.near_lem)
        (subst (λ t. IsMerged (merge false t q n h)) (sym b.near_lem)
          (recast (omega (arith, a.absorbed_lem)) (omega (arith, a.absorbed_lem, b.absorbed_lem))
            (sym a.beyond_lem) (sym b.beyond_lem)
            (sym
              (b.next_lem (q + n) (unlisted_prev ls q xs) ∙ ap (without (q + n)) (a.prev_lem q xs)))
            (Merged-both h q n xs i c ls' d rs'
              (subst (λ t. Zip h t q (q + n) (d ∷ rs') xs) a.split
                (subst (λ t. Zip h ls q (q + n) t xs) b.split z))
              a.free b.free)))

  -- `coalesce` picks the case by the allocation bits that it reads from the neighbours' tags.
  pub coalesce-merge : coalesce q h ≡ merge (near ls) (near rs) q n h
  unfolding coalesce
  coalesce-merge =
      ap (λ s. merge (truthy prev) (truthy (get_alloc h.bytes (next_blkp h.bytes q - 4))) q s h)
        size
      ∙ ap (λ a. merge (truthy prev) a q n h) next
      ∙ ap (λ a. merge a (near rs) q n h) (prev_alloc-near h.vm h.bytes ls q (q + n) rs z.space)
    where
      prev : ℕ
      prev = get_alloc h.bytes (hdrp (prev_blkp h.bytes q))

      low : n + 8 ≤ 0x1_0000_0000
      low = omega (arith, place_bounds z)

      size : get_size h.bytes (q - 4) ≡ n
      size = header-size h.bytes q (block n false) i low

      next : truthy (get_alloc h.bytes (next_blkp h.bytes q - 4)) ≡ near rs
      next =
          ap (λ (t : ℕ). truthy (get_alloc h.bytes (t - 4)))
            (next_blkp-block h.bytes q n false i low)
          ∙ next_alloc-near h.vm h.bytes ls q (q + n) rs z.space

  -- `coalesce` of a free block that is on no list makes one free block of it and of its free
  -- neighbours, which leave the list, in each of the four cases.
  pub coalesce-Merged : IsMerged (coalesce q h)
  coalesce-Merged = subst IsMerged (sym coalesce-merge) (merge-Merged (side ls) (side rs))
