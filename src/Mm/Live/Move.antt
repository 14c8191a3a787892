-- ===== src/Mm/Live/Move.antt =====
-- `mm_malloc` and `mm_realloc` of mm.c on the view of the allocated blocks.
pub mod Keeps
use malloc_lab.Base.{
  ℕ, ◌+◌, ◌≤◌, ◌<◌, ◌≡◌, refl, sym, ap, ◌∙◌, subst, ◌≢◌, ◌⊎◌, inl, inr, true, List, ◌∷◌, ◌++◌,
  arith, some, if◌then◌else◌, ltb, ==-ne, ◌==◌,
}
use malloc_lab.Memory.{Memory, memcpy}
use malloc_lab.Mm.{Heap, write, mm_malloc, mm_free, mm_realloc, move_block, adjust_block}
use malloc_lab.Mm.Macros.{sub_word}
use malloc_lab.Mm.Grows.{mm_malloc-Grows}
use malloc_lab.Mm.Layout.{Block, block}
use malloc_lab.Mm.Zip.{Zip, first}
use malloc_lab.Mm.Payload.{Outside}
use malloc_lab.Mm.Adjust.{adjust_block_bounds}
use malloc_lab.Mm.Realloc.{Reallocs, left, widened, moved, mm_realloc-Reallocs}
use malloc_lab.Mm.Coalesce.{absorbed, beyond, unlisted_next}
use malloc_lab.Mm.Live.{Live, live, live-IsApart, IsApart, beyond_behind}
use malloc_lab.Mm.Live.Represents.{
  Represents, Zip-Represents, found, free-Represents, write-Represents,
}
use malloc_lab.Mm.Live.Inserts.{
  Inserts, here, there, Adds-Inserts, Inserts-between, Inserts-split, Inserts-swap,
}
use malloc_lab.Mm.Live.Malloc.{Served, mm_malloc-Served}
use malloc_lab.Mm.Live.Free.{Found}

memcpy-Outside : (m : Memory) (to from n : ℕ) → Outside m (memcpy m to from n) to n
unfolding memcpy
memcpy-Outside m to from n b h = ground arith

-- The allocated blocks are `rest` and one at the result, with room for `size` bytes and both tags.
pub record Holds (rest : Live) (size : ℕ) (k : ℕ × Heap) : Type 0 where
  pub block_size : ℕ
  pub after : Live
  pub inserts : Inserts (k.0, block_size) rest after
  pub heap : Represents k.1 after
  pub enough : size + 8 ≤ block_size

pub Served-Holds :
    (h : Heap) (bs : List Block) (l : Live) (size : ℕ) (k : ℕ × Heap)
    → live (first h.vm) bs ≡ l
    → Served h bs size k
    → Holds l size k
Served-Holds h bs l size k view s = record {
  block_size = s.block_size;
  after = live (first k.1.vm) s.blocks;
  inserts =
      subst (λ a. Inserts (k.0, s.block_size) a (live (first k.1.vm) s.blocks)) view
        (Adds-Inserts (k.0, s.block_size) _ _ s.adds);
  heap = record { blocks = s.blocks; nodes = s.nodes; heap = s.heap; view = refl };
  enough = s.enough;
}

pub malloc-Holds :
    (h : Heap) (l : Live) (size : ℕ)
    → Represents h l
    → size ≢ 0
    → size + 15 < 0x1_0000_0000
    → (k : ℕ × Heap) × (mm_malloc size h ≡ some k)
      × (Holds l size k ⊎ ((k.0 ≡ 0) × Represents k.1 l))
malloc-Holds h l size r ne low =
    let (k, runs, does) = mm_malloc-Served h r.blocks r.nodes size r.heap ne low in
    (
      k,
      runs,
      elim does [
        | inl s ↦ inl (Served-Holds h r.blocks l size k r.view s)
        | inr (e, w, _) ↦ inr (
          e,
          record {
            blocks = r.blocks;
            nodes = r.nodes;
            heap = w;
            view = same_view k (mm_malloc-Grows size h k runs).start;
          },
        )
      ],
    )
  where
    same_view :
        (k : ℕ × Heap) → k.1.vm.start_brk ≡ h.vm.start_brk → live (first k.1.vm) r.blocks ≡ l
    same_view k e = ap (λ (s : ℕ). live (s + 16) r.blocks) e ∙ r.view

Inserts-low : (x : ℕ × ℕ) (l l' : Live) (lo hi : ℕ) → Inserts x l l' → IsApart lo l' hi → lo ≤ x.0
Inserts-low x l _ lo hi (here _) a = a.0
Inserts-low x _ _ lo hi (there y k k' i) a =
    omega (arith, a.0, Inserts-low x k k' (y.0 + y.1) hi i a.3)

-- The first block starts behind the prologue, so that the result is not `NULL`.
pub Holds-result : (rest : Live) (size : ℕ) (k : ℕ × Heap) → Holds rest size k → 0 < k.0
Holds-result rest size k s = omega (
  arith,
  Inserts-low (k.0, s.block_size) rest s.after (first k.1.vm) k.1.vm.brk s.inserts
      (subst (λ l. IsApart (first k.1.vm) l k.1.vm.brk) s.heap.view
        (live-IsApart k.1 s.heap.blocks s.heap.nodes s.heap.heap)),
)

module _ (h : Heap) (low : Live) (p n : ℕ) (high : Live) (r : Represents h (low ++ ((p, n) ∷ high)))
    (size : ℕ) (some_size : size ≢ 0) (fits : size + 15 < 0x1_0000_0000) where
  copied : ℕ × Heap → Heap
  copied k =
      let copy = sub_word n 8 in
      let copy = if ltb size copy then size else copy in write k.1 (memcpy k.1.bytes k.0 p copy)

  runs_move :
      (k : ℕ × Heap)
      → mm_malloc size h ≡ some k
      → move_block p size n h
        ≡ (if k.0 == 0 then some (0, k.1) else some (k.0, mm_free p (copied k)))
  unfolding move_block copied
  runs_move k runs = rw runs refl

  -- The new block is there, and the payload is copied.
  copied-Represents :
      (k : ℕ × Heap) (s : Holds (low ++ ((p, n) ∷ high)) size k) → Represents (copied k) s.after
  unfolding copied
  copied-Represents k s =
      let (l, r, _, at) = Inserts-split (k.0, s.block_size) _ s.after s.inserts in
      let copy = if ltb size (sub_word n 8) then size else sub_word n 8 in
      subst (Represents (copied k)) (sym at) (
        write-Represents k.1 l k.0 s.block_size r (subst (Represents k.1) at s.heap)
          (memcpy k.1.bytes k.0 p copy) k.0 copy (omega arith) (ground (arith, s.enough))
          (memcpy-Outside _ _ _ _))

  -- The old block goes.
  moves :
      (k : ℕ × Heap)
      → Holds (low ++ ((p, n) ∷ high)) size k
      → Holds (low ++ high) size (k.0, mm_free p (copied k))
  moves k s =
      let (m, old_gone, new) =
        Inserts-swap (p, n) (k.0, s.block_size) (low ++ high) _ s.after
          (Inserts-between (p, n) low high) s.inserts in
      let (l, r, before, at) = Inserts-split (p, n) m s.after new in
      record {
        block_size = s.block_size;
        after = m;
        inserts = old_gone;
        heap = subst (Represents (mm_free p (copied k))) (sym before) (
            free-Represents (copied k) l p n r
              (subst (Represents (copied k)) at (copied-Represents k s)));
        enough = s.enough;
      }

  move_block-Holds :
      (k : ℕ × Heap) × (move_block p size n h ≡ some k)
      × (Holds (low ++ high) size k ⊎ ((k.0 ≡ 0) × Represents k.1 (low ++ ((p, n) ∷ high))))
  move_block-Holds =
      let (k, runs, does) = malloc-Holds h _ size r some_size fits in
      elim does [
        | inl s ↦
            let moved_to = runs_move k runs in
            (
              (k.0, mm_free p (copied k)),
              (rw (==-ne k.0 0 (λ e. omega (arith, e, Holds-result _ size k s))) at moved_to),
              inl (moves k s),
            )
        | inr (e, w) ↦ ((0, k.1), runs_move k runs ∙ ground arith, inr (refl, w))
      ]

  abbrev f : Found h p n low high r.nodes
  f = found h low p n high r

  abbrev wide : ℕ
  wide = n + absorbed f.behind

  -- The block that takes in the free block behind it.
  widens :
      (h' : Heap)
      → adjust_block size ≤ n + absorbed f.behind
      → Zip h' f.before p p
          (block (n + absorbed f.behind) true ∷ beyond f.behind)
          (unlisted_next f.behind (p + n) r.nodes)
      → Holds (low ++ high) size (p, h')
  widens h' le z = record {
    block_size = wide;
    after = low ++ ((p, wide) ∷ high);
    inserts = Inserts-between (p, wide) low high;
    heap =
        subst (Represents h')
          (ap (λ l. l ++ ((p, wide) ∷ live (p + wide) (beyond f.behind))) f.lows
            ∙ ap (λ q. low ++ ((p, wide) ∷ live q (beyond f.behind)))
                (let e : p + (n + absorbed f.behind) ≡ p + n + absorbed f.behind = omega arith in e)
            ∙ ap (λ l. low ++ ((p, wide) ∷ l)) (beyond_behind (p + n) f.behind ∙ f.highs))
          (Zip-Represents h' f.before p (block wide true ∷ beyond f.behind) _ z);
    enough = omega (arith, adjust_block_bounds size fits);
  }

  -- `mm_realloc` of an allocated block of a well-formed heap, for a request of at least one byte
  -- that does not wrap, returns; either its result is an allocated block of at least `size + 8`
  -- bytes, the other allocated blocks are the old ones but for the block that was passed, and the
  -- heap is well formed; or the result is `NULL`, and the heap has the old blocks.
  pub mm_realloc-Holds :
      (k : ℕ × Heap) × (mm_realloc p size h ≡ some k)
      × (Holds (low ++ high) size k ⊎ ((k.0 ≡ 0) × Represents k.1 (low ++ ((p, n) ∷ high))))
  mm_realloc-Holds = go (mm_realloc-Reallocs h f.before p n f.behind r.nodes size f.zip some_size)
    where
      go :
          Reallocs h f.before p n f.behind r.nodes size
          → (k : ℕ × Heap) × (mm_realloc p size h ≡ some k)
            × (Holds (low ++ high) size k ⊎ ((k.0 ≡ 0) × Represents k.1 (low ++ ((p, n) ∷ high))))
      go (left le runs) = (
        (p, h),
        runs,
        inl (record {
          block_size = n;
          after = low ++ ((p, n) ∷ high);
          inserts = Inserts-between (p, n) low high;
          heap = r;
          enough = omega (arith, adjust_block_bounds size fits);
        }),
      )
      go (widened h' lt le runs _ z) = ((p, h'), runs, inl (widens h' le z))
      go (moved lt runs) = let (k, moves_to, does) = move_block-Holds in (k, runs ∙ moves_to, does)
