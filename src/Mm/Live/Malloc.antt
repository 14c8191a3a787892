-- ===== src/Mm/Live/Malloc.antt =====
-- What `mm_malloc` of mm.c does to the allocated blocks.
use malloc_lab.Base.{
  ℕ, ◌+◌, ◌-◌, ◌%◌, ◌≤◌, ◌<◌, ◌≡◌, refl, sym, ap, ◌∙◌, subst, ◌≢◌, ◌⊎◌, inl, inr, false, List, [],
  ◌∷◌, ◌++◌, reverse_aux, reverse_aux-reverse_aux-nil, arith, leb-cases, some,
}
use malloc_lab.Memory.{Memory}
use malloc_lab.Mm.{Heap, mm_malloc, adjust_block}
use malloc_lab.Mm.Layout.{Block, block, Tiles}
use malloc_lab.Mm.Zip.{Zip, first}
use malloc_lab.Mm.Zip.Move.{IsHeap, total, rewind, to_end, wind}
use malloc_lab.Mm.Coalesce.{absorbed, beyond}
use malloc_lab.Mm.Place.{placed}
use malloc_lab.Mm.Adjust.{adjust_block_bounds}
use malloc_lab.Mm.Grows.{mm_malloc-Grows}
use malloc_lab.Mm.Malloc.{Mallocs, fitted, grew, refused, mm_malloc-Mallocs}
use malloc_lab.Mm.Live.{live, live_back, Adds, Back-total, Zip-live, beyond_live, beyond_end}

-- A new allocated block at the result, in a well-formed heap.
pub record Served (h : Heap) (bs : List Block) (size : ℕ) (k : ℕ × Heap) : Type 0 where
  pub blocks : List Block
  pub nodes : List ℕ
  pub block_size : ℕ
  pub heap : IsHeap k.1 blocks nodes
  pub adds : Adds (k.0, block_size) (live (first h.vm) bs) (live (first k.1.vm) blocks)
  pub enough : size + 8 ≤ block_size
  pub aligned : k.0 % 8 ≡ 0

-- The block that `place` allocates, of `size` bytes or of `asize`.
placed-live :
    (p size asize : ℕ) (rs : List Block)
    → asize ≤ size
    → (n : ℕ) × (live p (placed size asize rs) ≡ (p, n) ∷ live (p + size) rs) × (asize ≤ n)
placed-live p size asize rs le = elim (leb-cases 16 (size - asize)) [
  | inl (_, t) ↦ (
    asize,
    rw t (
        ap (λ q. (p, asize) ∷ live q rs)
          (let e : p + asize + (size - asize) ≡ p + size = omega arith in e)),
    omega arith,
  )
  | inr (_, f) ↦ (size, rw f refl, omega arith)
]

placed_aligned :
    (m : Memory) (p e size asize : ℕ) (rs : List Block)
    → Tiles m p (placed size asize rs) e
    → p % 8 ≡ 0
placed_aligned m p e size asize rs t = elim (leb-cases 16 (size - asize)) [
  | inl (_, i) ↦ (rw i at t).0.aligned
  | inr (_, f) ↦ (rw f at t).0.aligned
]

module _ (h : Heap) (bs : List Block) (size asize : ℕ) (large : size + 8 ≤ asize) (k : ℕ × Heap)
    (start : k.1.vm.start_brk ≡ h.vm.start_brk) where
  first_same : first k.1.vm ≡ first h.vm
  first_same = omega (arith, start)

  -- A block of `n` bytes is placed at the result, between `ls` and `rs`.
  pub placed-Served :
      (ls rs : List Block) (n : ℕ) (ys : List ℕ)
      → asize ≤ n
      → Zip k.1 ls k.0 k.0 (placed n asize rs) ys
      → live (first h.vm) bs ≡ live_back k.0 ls [] ++ live (k.0 + n) rs
      → Served h bs size k
  placed-Served ls rs n ys le w old = record {
    blocks = reverse_aux ls (placed n asize rs);
    nodes = ys;
    block_size = new.0;
    heap = rewind k.1 ls k.0 (placed n asize rs) ys w;
    adds = record {
      low = live_back k.0 ls [];
      high = live (k.0 + n) rs;
      before = old;
      after =
          Zip-live k.1 ls k.0 (placed n asize rs) ys w ∙ ap (λ l. live_back k.0 ls [] ++ l) new.1;
    };
    enough = omega (arith, new.2);
    aligned = placed_aligned k.1.bytes k.0 k.1.vm.brk n asize rs w.space.tiles;
  }
    where
      new : (m : ℕ) × (live k.0 (placed n asize rs) ≡ (k.0, m) ∷ live (k.0 + n) rs) × (asize ≤ m)
      new = placed-live k.0 n asize rs le

module _ (h : Heap) (bs : List Block) (xs : List ℕ) (z : IsHeap h bs xs) (size asize : ℕ)
    (large : size + 8 ≤ asize) (k : ℕ × Heap) (start : k.1.vm.start_brk ≡ h.vm.start_brk) where
  -- The old blocks, where the block was taken from the heap.
  fitted_old :
      (ls : List Block) (n : ℕ) (rs : List Block)
      → bs ≡ reverse_aux ls (block n false ∷ rs)
      → first k.1.vm + total ls ≡ k.0
      → live (first h.vm) bs ≡ live_back k.0 ls [] ++ live (k.0 + n) rs
  fitted_old ls n rs split at =
      ap (live (first h.vm)) split
      ∙ Zip-live h ls (first h.vm + total ls) (block n false ∷ rs) xs
          (wind h ls (block n false ∷ rs) xs (subst (λ l. IsHeap h l xs) split z))
      ∙ ap (λ q. live_back q ls [] ++ live (q + n) rs)
          (let e : first h.vm + total ls ≡ k.0 =
              omega (arith, first_same h bs size asize large k start) in
            e)

  -- The old blocks, where the heap grew.
  grew_old :
      (n : ℕ)
      → first k.1.vm + total (beyond (reverse_aux bs [])) ≡ k.0
      → live (first h.vm) bs ≡ live_back k.0 (beyond (reverse_aux bs [])) [] ++ live (k.0 + n) []
  grew_old n at =
      ap (live (first h.vm)) (sym (reverse_aux-reverse_aux-nil bs []))
      ∙ Zip-live h (reverse_aux bs []) h.vm.brk [] xs whole
      ∙ ap (λ l. l ++ []) (sym (beyond_live h.vm.brk (reverse_aux bs [])))
      ∙ ap (λ q. live_back q (beyond (reverse_aux bs [])) [] ++ [])
          (let e : h.vm.brk - absorbed (reverse_aux bs []) ≡ k.0 =
              omega (arith, end, first_same h bs size asize large k start) in
            e)
    where
      whole : Zip h (reverse_aux bs []) h.vm.brk h.vm.brk [] xs
      whole = to_end h [] (first h.vm) bs xs z

      end :
          first h.vm + total (beyond (reverse_aux bs [])) ≡ h.vm.brk - absorbed (reverse_aux bs [])
      end = beyond_end h.bytes (first h.vm) h.vm.brk (reverse_aux bs []) whole.space.back

  Mallocs-Served :
      Mallocs h bs xs asize k
      → Served h bs size k ⊎ ((k.0 ≡ 0) × IsHeap k.1 bs xs × (k.1.bytes ≡ h.bytes))
  Mallocs-Served (fitted ls n rs split le w) = inl (
      placed-Served h bs size asize large k start ls rs n _ le w
        (fitted_old ls n rs split (sym (Back-total _ _ _ ls w.space.back))))
  Mallocs-Served (grew n e none_fits w) = inl (
      placed-Served h bs size asize large k start _ [] n _ (ground (arith, e)) w
        (grew_old n (sym (Back-total _ _ _ _ w.space.back))))
  Mallocs-Served (refused e w same _ _) = inr (e, w, same)

-- On a well-formed heap `mm_malloc` of a request of at least one byte that does not wrap returns;
-- either its result is a new allocated block of at least `size + 8` bytes at a multiple of 8, the
-- other allocated blocks are the old ones, and the heap is well formed; or the result is `NULL`,
-- and the heap has the old blocks and bytes.
pub mm_malloc-Served :
    (h : Heap) (bs : List Block) (xs : List ℕ) (size : ℕ)
    → IsHeap h bs xs
    → size ≢ 0
    → size + 15 < 0x1_0000_0000
    → (k : ℕ × Heap) × (mm_malloc size h ≡ some k)
      × (Served h bs size k ⊎ ((k.0 ≡ 0) × IsHeap k.1 bs xs × (k.1.bytes ≡ h.bytes)))
mm_malloc-Served h bs xs size z ne low =
    let (k, runs, does) = mm_malloc-Mallocs h bs xs size z ne low in
    (
      k,
      runs,
      Mallocs-Served h bs xs z size (adjust_block size) (adjust_block_bounds size low).0 k
          (mm_malloc-Grows size h k runs).start does,
    )
