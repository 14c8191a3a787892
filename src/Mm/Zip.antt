-- ===== src/Mm/Zip.antt =====
-- The state of mm.c seen from one place in the heap. `Space` is the blocks: `ls` before `q`,
-- nearest first, and `rs` from `r` on; what lies between is not looked at, so a function may be
-- at work there. `Nodes` is the free list, which holds exactly the free blocks of the two sides.
pub mod Insert
pub mod Mark
pub mod Move
pub mod Remove
use malloc_lab.Base.{
  ℕ, ◌+◌, ◌-◌, ◌%◌, ◌≤◌, ◌<◌, ◌≡◌, refl, sym, subst, ◌⊎◌, inl, inr, Bool, true, false, ◌||◌, List,
  [], ◌∷◌, ◌==◌, if◌then◌else◌, arith, length,
}
use malloc_lab.Memory.{Memory, get, put, Apart, get-put-Apart}
use malloc_lab.Memlib.{Vm}
use malloc_lab.Mm.{Heap}
use malloc_lab.Mm.FreeList.{has, Clear, Links}
use malloc_lab.Mm.Layout.{
  Block, IsBlock, Tiles, Back, free_at, free_back, frees, Tiles-le, Back-le, Tiles-put, Back-put,
  Tiles-put_link, Back-put_link, free_at_range, free_back_range,
}

-- The payload of the first block after the prologue.
abbrev pub first : Vm → ℕ
first vm = vm.start_brk + 16

-- The prologue block and the epilogue header.
pub record IsFramed (vm : Vm) (m : Memory) : Type 0 where
  pub aligned : vm.start_brk % 8 ≡ 0
  pub within : vm.brk ≤ vm.max_addr
  pub top : vm.max_addr < 0x1_0000_0000
  pub prologue_header : get m (vm.start_brk + 4) ≡ 9
  pub prologue_footer : get m (vm.start_brk + 8) ≡ 9
  pub epilogue : get m (vm.brk - 4) ≡ 1

pub record Space (vm : Vm) (m : Memory) (ls : List Block) (q r : ℕ) (rs : List Block) : Type 0 where
  pub framed : IsFramed vm m
  pub back : Back m (first vm) q ls
  pub fits : q ≤ r
  pub tiles : Tiles m r rs vm.brk

pub record Nodes (m : Memory) (head rover : ℕ) (ls : List Block) (q r : ℕ) (rs : List Block)
    (xs : List ℕ) : Type 0 where
  pub links : Links m 0 head xs
  pub same : (x : ℕ) → has x xs ≡ (free_back x q ls || free_at x r rs)
  pub count : length xs ≡ frees ls + frees rs
  pub roams : (rover ≡ 0) ⊎ (has rover xs ≡ true)

pub record Zip (h : Heap) (ls : List Block) (q r : ℕ) (rs : List Block) (xs : List ℕ) : Type 0 where
  pub space : Space h.vm h.bytes ls q r rs
  pub nodes : Nodes h.bytes h.free_list_head h.rover ls q r rs xs

-- A free block of one of the two sides.
abbrev pub IsNode : ℕ → List Block → ℕ → ℕ → List Block → Type 0
IsNode x ls q r rs = (free_back x q ls || free_at x r rs) ≡ true

module _ {vm : Vm} {m : Memory} {ls : List Block} {q r : ℕ} {rs : List Block}
    (s : Space vm m ls q r rs) where
  pub Space_range : (first vm ≤ q) × (r ≤ vm.brk)
  Space_range = (Back-le m (first vm) q ls s.back, Tiles-le m r vm.brk rs s.tiles)

  pub node_bounds :
      (x : ℕ)
      → IsNode x ls q r rs
      → (first vm ≤ x)
        × (x + 16 ≤ vm.brk)
        × (((free_back x q ls ≡ true) × (x + 16 ≤ q)) ⊎ ((free_at x r rs ≡ true) × (r ≤ x)))
  node_bounds x n = ground (
    arith,
    Space_range,
    s.fits,
    free_back_range m x (first vm) q ls s.back,
    free_at_range m x r vm.brk rs s.tiles,
  )

  IsFramed-put : (a v : ℕ) → first vm ≤ a + 4 → a + 8 ≤ vm.brk → IsFramed vm (put m a v)
  IsFramed-put a v h g = record {
    aligned = s.framed.aligned;
    within = s.framed.within;
    top = s.framed.top;
    prologue_header =
        ground (arith, s.framed.prologue_header, get-put-Apart m a v (vm.start_brk + 4));
    prologue_footer =
        ground (arith, s.framed.prologue_footer, get-put-Apart m a v (vm.start_brk + 8));
    epilogue = ground (arith, s.framed.epilogue, get-put-Apart m a v (vm.brk - 4));
  }

  -- A write to the place that is not looked at.
  pub Space-put : (a v : ℕ) → q ≤ a + 4 → a + 8 ≤ r → Space vm (put m a v) ls q r rs
  Space-put a v h g = record {
    framed = IsFramed-put a v (omega (arith, Space_range)) (omega (arith, Space_range));
    back = Back-put m (first vm) q a v ls h s.back;
    fits = s.fits;
    tiles = Tiles-put m r vm.brk a v rs g s.tiles;
  }

  -- A write to a link of a free block.
  pub Space-put_node :
      (x a v : ℕ) → IsNode x ls q r rs → x ≤ a → a ≤ x + 4 → Space vm (put m a v) ls q r rs
  Space-put_node x a v n h g = record {
    framed = IsFramed-put a v (omega (arith, node_bounds x n)) (omega (arith, node_bounds x n));
    back =
        Back-put_link m (first vm) q x a v ls (ground (arith, node_bounds x n, s.fits)) h g s.back;
    fits = s.fits;
    tiles =
        Tiles-put_link m r vm.brk x a v rs (ground (arith, node_bounds x n, s.fits)) h g s.tiles;
  }

  -- The nodes stand clear of the place that is not looked at, and of each other's links.
  pub Clear-of_nodes :
      (a k : ℕ) (xs : List ℕ)
      → q ≤ a + 8
      → a + k ≤ r
      → ((x : ℕ) → has x xs ≡ true → IsNode x ls q r rs)
      → Clear a k xs
  Clear-of_nodes a k [] h g all = tt
  Clear-of_nodes a k (x ∷ xs) h g all = (
    ground (arith, node_bounds x (all x (ground arith))),
    Clear-of_nodes a k xs h g λ y i. all y (ground arith),
  )
