-- ===== src/Mm/Coalesce/Cases.antt =====
-- What `coalesce` of mm.c reads of the neighbours.
use malloc_lab.Base.{
  ℕ, ◌+◌, ◌-◌, ◌≤◌, ◌<◌, ◌≡◌, refl, ◌≢◌, sym, ap, ◌∙◌, Bool, true, List, [], ◌∷◌, arith,
}
use malloc_lab.Memory.{Memory, get}
use malloc_lab.Memlib.{Vm}
use malloc_lab.Mm.{Heap, unlist, remove_node}
use malloc_lab.Mm.Macros.{get_size, get_alloc, truthy, prev_blkp, next_blkp, hdrp}
use malloc_lab.Mm.Tags.{get_size_tag, get_alloc_tag, header-size, header-alloc, footer-size}
use malloc_lab.Mm.Layout.{Block, block, IsBlock, Tiles-le}
use malloc_lab.Mm.Zip.{Space, Space_range}
use malloc_lab.Mm.Coalesce.{near}

pub prev_blkp-block :
    (m : Memory) (q : ℕ) (c : Block)
    → c.size ≤ q
    → IsBlock m (q - c.size) c
    → q < 0x1_0000_0000
    → prev_blkp m q ≡ q - c.size
prev_blkp-block m q c le i low =
    let e : q - c.size + c.size - 8 ≡ q - 8 = omega arith in
    ap (λ (t : ℕ). q - t)
      (ap (get_size m) (sym e) ∙ footer-size m (q - c.size) c i (omega (arith, i.start)))

pub next_blkp-block :
    (m : Memory) (q n : ℕ) (a : Bool)
    → IsBlock m q (block n a)
    → n + 8 ≤ 0x1_0000_0000
    → next_blkp m q ≡ q + n
next_blkp-block m q n a i low = ap (λ (t : ℕ). q + t) (header-size m q (block n a) i low)

pub prev_alloc-near :
    (vm : Vm) (m : Memory) (ls : List Block) (q r : ℕ) (rs : List Block)
    → Space vm m ls q r rs
    → truthy (get_alloc m (hdrp (prev_blkp m q))) ≡ near ls
prev_alloc-near vm m [] q r rs s = ap (λ (t : ℕ). truthy (get_alloc m t)) to_header ∙ header
  where
    size : get_size m (q - 8) ≡ 8
    size =
        get_size_tag m (q - 8) 8 true
          (ap (get m) (omega (arith, s.back)) ∙ s.framed.prologue_footer) refl (omega arith)

    to_header : q - get_size m (q - 8) - 4 ≡ vm.start_brk + 4
    to_header = omega (arith, s.back, size)

    header : truthy (get_alloc m (vm.start_brk + 4)) ≡ true
    header = get_alloc_tag m (vm.start_brk + 4) 8 true s.framed.prologue_header refl
prev_alloc-near vm m (c ∷ ls) q r rs s =
    ap (λ (t : ℕ). truthy (get_alloc m (t - 4))) (prev_blkp-block m q c s.back.0 s.back.1 low)
    ∙ header-alloc m (q - c.size) c s.back.1 (omega (arith, low, s.back.1.start))
  where
    low : q < 0x1_0000_0000
    low = omega (arith, Space_range s, s.fits, s.framed.within, s.framed.top)

pub next_alloc-near :
    (vm : Vm) (m : Memory) (ls : List Block) (q r : ℕ) (rs : List Block)
    → Space vm m ls q r rs
    → truthy (get_alloc m (r - 4)) ≡ near rs
next_alloc-near vm m ls q r [] s =
    get_alloc_tag m (r - 4) 0 true (ap (get m) (omega (arith, s.tiles)) ∙ s.framed.epilogue) refl
next_alloc-near vm m ls q r (d ∷ rs) s = header-alloc m r d s.tiles.0 (
    omega (
      arith,
      Space_range s,
      s.framed.within,
      s.framed.top,
      Tiles-le m (r + d.size) vm.brk rs s.tiles.1,
      s.tiles.0.start,
    ))

-- `unlist` of a neighbour at `x` is `remove_node`: the rover has left `x` already.
pub unlist_lem :
    (neighbour : Memory → ℕ) (bp x : ℕ) (h : Heap)
    → neighbour h.bytes ≡ x
    → neighbour (remove_node x h).bytes ≡ x
    → (remove_node x h).rover ≢ x
    → unlist neighbour bp h ≡ remove_node x h
unfolding unlist
unlist_lem neighbour bp x h before after gone = rw before (ground (arith, after))
