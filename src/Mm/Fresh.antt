-- ===== src/Mm/Fresh.antt =====
-- The heap that `mm_init` of mm.c leaves: one free block, which is on no list. `extend_heap` still
-- merges it with a new block, since its links are `NULL` and the list is empty.
use malloc_lab.Base.{
  ℕ, ◌+◌, ◌-◌, ◌*◌, ◌%◌, ◌≤◌, ◌<◌, ◌≡◌, refl, sym, ap, ◌∙◌, subst, true, false, [], arith,
}
use malloc_lab.Memory.{get, put, get-put-Apart}
use malloc_lab.Mm.{Heap, remove_node, unlist, merge, coalesce, mark, extend_heap}
use malloc_lab.Mm.Macros.{get_size, get_alloc, truthy, prev_blkp, next_blkp, hdrp, word}
use malloc_lab.Mm.Tags.{header-size, header-alloc}
use malloc_lab.Mm.Layout.{block, IsBlock}
use malloc_lab.Mm.Zip.{Zip, first}
use malloc_lab.Mm.Zip.Mark.{place_bounds, mark-Zip, mark-bytes}
use malloc_lab.Mm.Coalesce.Cases.{prev_blkp-block, next_blkp-block, next_alloc-near, unlist_lem}
use malloc_lab.Mm.Extend.{
  extended, extended_kept, extended-Zip, extended-IsBlock, extend_heap-coalesce,
}

pub record IsFresh (h : Heap) (c : ℕ) : Type 0 where
  pub zip : Zip h [] (first h.vm) h.vm.brk [] []
  pub tags : IsBlock h.bytes (first h.vm) (block c false)
  pub ends : h.vm.brk ≡ first h.vm + c
  pub no_pred : get h.bytes (first h.vm) ≡ 0
  pub no_succ : get h.bytes (first h.vm + 4) ≡ 0

remove_node_unlisted :
    (p : ℕ) (h : Heap)
    → get h.bytes p ≡ 0
    → get h.bytes (p + 4) ≡ 0
    → h.free_list_head ≡ 0
    → h.rover ≡ 0
    → 0 < p
    → remove_node p h ≡ h
unfolding remove_node
remove_node_unlisted p h a b c d e = ground arith

-- A free block of `c` bytes on no list, and behind it one of `n` bytes, with nothing else.
module _ (e : Heap) (p c q n : ℕ) (behind : q ≡ p + c) (z : Zip e [] p (q + n) [] [])
    (i : IsBlock e.bytes p (block c false)) (j : IsBlock e.bytes q (block n false))
    (no_pred : get e.bytes p ≡ 0) (no_succ : get e.bytes (p + 4) ≡ 0) where
  same_heap : remove_node p e ≡ e
  same_heap =
      remove_node_unlisted p e no_pred no_succ z.nodes.links (ground (arith, z.nodes.roams))
        (omega (arith, i.start))

  low : (q + n < 0x1_0000_0000) × (16 ≤ p) × (c ≤ q) × (q - c ≡ p)
  low = omega (arith, place_bounds z, i.start)

  before : prev_blkp e.bytes q ≡ p
  before = prev_blkp-block e.bytes q (block c false) low.2 (rw low.3 i) (omega (arith, low)) ∙ low.3

  unlisted : unlist (λ m. prev_blkp m q) q e ≡ e
  unlisted =
      unlist_lem (λ m. prev_blkp m q) q p e before (rw same_heap before)
        (rw same_heap (ground (arith, z.nodes.roams, low)))
      ∙ same_heap

  size_before : get_size e.bytes (hdrp (prev_blkp e.bytes q)) ≡ c
  size_before =
      ap (λ (t : ℕ). get_size e.bytes (t - 4)) before
      ∙ header-size e.bytes p (block c false) i (omega (arith, low))

  alloc_before : truthy (get_alloc e.bytes (hdrp (prev_blkp e.bytes q))) ≡ false
  alloc_before =
      ap (λ (t : ℕ). truthy (get_alloc e.bytes (t - 4))) before
      ∙ header-alloc e.bytes p (block c false) i (omega (arith, low))

  size_lem : get_size e.bytes (hdrp q) ≡ n
  size_lem = header-size e.bytes q (block n false) j (omega (arith, low))

  alloc_behind : truthy (get_alloc e.bytes (hdrp (next_blkp e.bytes q))) ≡ true
  alloc_behind =
      ap (λ (t : ℕ). truthy (get_alloc e.bytes (t - 4)))
        (next_blkp-block e.bytes q n false j (omega (arith, low)))
      ∙ next_alloc-near e.vm e.bytes [] p (q + n) [] z.space

  merge_unlisted : merge false true q n e ≡ (p, mark p (c + n) 0 e)
  unfolding merge
  merge_unlisted =
      ap {A = Heap} {B = ℕ × Heap}
        (λ k. (
          prev_blkp k.bytes q,
          mark (prev_blkp k.bytes q) (word (n + get_size k.bytes (hdrp (prev_blkp k.bytes q)))) 0 k,
        ))
        unlisted
      ∙ ap {A = ℕ} {B = ℕ × Heap} (λ s. (prev_blkp e.bytes q, mark (prev_blkp e.bytes q) s 0 e))
          size
      ∙ ap {A = ℕ} {B = ℕ × Heap} (λ t. (t, mark t (c + n) 0 e)) before
    where
      size : word (n + get_size e.bytes (hdrp (prev_blkp e.bytes q))) ≡ c + n
      size = omega (arith, size_before, low)

  pub coalesce_unlisted : coalesce q e ≡ (p, mark p (c + n) 0 e)
  unfolding coalesce
  coalesce_unlisted =
      ap (λ s. merge (truthy prev) (truthy next) q s e) size_lem
      ∙ ap (λ a. merge a (truthy next) q n e) alloc_before
      ∙ ap (λ a. merge false a q n e) alloc_behind
      ∙ merge_unlisted
    where
      prev : ℕ
      prev = get_alloc e.bytes (hdrp (prev_blkp e.bytes q))

      next : ℕ
      next = get_alloc e.bytes (hdrp (next_blkp e.bytes q))

-- The heap after `extend_heap` of a fresh heap by `n` bytes.
pub larger : Heap → ℕ → ℕ → Heap
larger h c n = mark (first h.vm) (c + n) 0 (extended h h.vm.brk n)

-- `extend_heap` of a fresh heap leaves a fresh heap.
module _ (h : Heap) (c : ℕ) (f : IsFresh h c) (n : ℕ) (big : 16 ≤ n) (round : n % 8 ≡ 0)
    (room : h.vm.brk + n ≤ h.vm.max_addr) where
  aligned : h.vm.brk % 8 ≡ 0
  aligned = omega (arith, f.ends, f.tags.aligned, f.tags.round)

  grown : Heap
  grown = extended h h.vm.brk n

  grown-Zip : Zip grown [] (first h.vm) (h.vm.brk + n) [] []
  unfolding grown
  grown-Zip = extended-Zip h [] (first h.vm) h.vm.brk [] f.zip n aligned big round room

  kept : (a : ℕ) → a + 8 ≤ h.vm.brk → get grown.bytes a ≡ get h.bytes a
  unfolding grown
  kept = extended_kept h [] (first h.vm) h.vm.brk [] f.zip n aligned big round room

  kept-IsBlock : IsBlock grown.bytes (first h.vm) (block c false)
  kept-IsBlock = record {
    start = f.tags.start;
    aligned = f.tags.aligned;
    big = f.tags.big;
    round = f.tags.round;
    header = kept (first h.vm - 4) (omega (arith, f.ends, f.tags.big)) ∙ f.tags.header;
    footer = kept (first h.vm + c - 8) (omega (arith, f.ends)) ∙ f.tags.footer;
  }

  pub extend_heap-larger :
      (words : ℕ)
      → n ≡ 4 * words
      → words % 2 ≡ 0
      → n < 0x8000_0000
      → extend_heap words h ≡ (first h.vm, larger h c n)
  unfolding grown larger
  extend_heap-larger words e even positive =
      extend_heap-coalesce h [] (first h.vm) h.vm.brk [] f.zip n aligned big round room words e even
        positive
      ∙ coalesce_unlisted grown (first h.vm) c h.vm.brk n f.ends grown-Zip kept-IsBlock
          (extended-IsBlock h [] (first h.vm) h.vm.brk [] f.zip n aligned big round room)
          (kept (first h.vm) (omega (arith, f.ends, f.tags.big)) ∙ f.no_pred)
          (kept (first h.vm + 4) (omega (arith, f.ends, f.tags.big)) ∙ f.no_succ)

  pub larger-vm : (larger h c n).vm ≡ record h.vm { brk = h.vm.brk + n }
  unfolding larger grown extended
  larger-vm = refl

  fits : c + n + 8 ≤ 0x1_0000_0000
  fits = omega (arith, place_bounds grown-Zip, f.ends)

  -- The links of the block are still `NULL`.
  kept_link :
      (a : ℕ) → first h.vm ≤ a → a ≤ first h.vm + 4 → get (larger h c n).bytes a ≡ get h.bytes a
  unfolding larger grown
  kept_link a lo hi =
      ap (λ k. get k.bytes a)
        (mark-bytes grown (first h.vm) (c + n) false (omega (arith, f.tags.round)) fits)
      ∙ ground (
        arith,
        f.tags.big,
        get-put-Apart (put grown.bytes (first h.vm - 4) (c + n + 0)) (first h.vm + (c + n) - 8)
            (c + n + 0) a,
        get-put-Apart grown.bytes (first h.vm - 4) (c + n + 0) a,
      )
      ∙ kept a (omega (arith, f.ends, f.tags.big))

  pub larger-IsFresh : IsFresh (larger h c n) (c + n)
  unfolding larger grown
  larger-IsFresh = record {
    zip = subst (λ v. Zip (larger h c n) [] (first v) v.brk [] []) (sym larger-vm) done.0;
    tags =
        subst (λ v. IsBlock (larger h c n).bytes (first v) (block (c + n) false)) (sym larger-vm)
          done.1;
    ends = subst (λ v. v.brk ≡ first v + (c + n)) (sym larger-vm) (omega (arith, f.ends));
    no_pred =
        subst (λ v. get (larger h c n).bytes (first v) ≡ 0) (sym larger-vm)
          (kept_link (first h.vm) (omega arith) (omega arith) ∙ f.no_pred);
    no_succ =
        subst (λ v. get (larger h c n).bytes (first v + 4) ≡ 0) (sym larger-vm)
          (kept_link (first h.vm + 4) (omega arith) (omega arith) ∙ f.no_succ);
  }
    where
      done :
          Zip (mark (first h.vm) (c + n) 0 grown) [] (first h.vm) (h.vm.brk + n) [] []
          × IsBlock (mark (first h.vm) (c + n) 0 grown).bytes (first h.vm) (block (c + n) false)
      done =
          mark-Zip (c + n) false grown-Zip (omega (arith, f.ends)) (omega arith)
            (omega (arith, f.tags.round))
