-- ===== src/MmDs2/Lists.antt =====
-- The free lists of mm-ds2.c in memory: list `i` leads through the nodes `nodes i`, which are the
-- free blocks of its class.
pub mod Add
pub mod Remove
pub mod FindFit
use malloc_lab.Base.{
  ℕ, ◌+◌, ◌-◌, ◌≤◌, ◌<◌, ◌≡◌, refl, sym, ap, ◌⊎◌, inl, inr, true, List, [], ◌∷◌, arith, ◌==◌,
  if◌then◌else◌, ==-cases,
}
use malloc_lab.Memory.{Memory, get, Apart}
use malloc_lab.Mm.Macros.{get_size}
use malloc_lab.Mm.FreeList.{has, without, Clear, Clear-without, Links, has_of_without, Clear-has}
use malloc_lab.MmDs2.{Heap, get_index}

-- The nodes of two lists are apart, the headers of the nodes are apart from all links, and a
-- block is on the list of its size.
pub record IsSegregated (h : Heap) (nodes : ℕ → List ℕ) : Type 0 where
  pub links : (i : ℕ) → i < 12 → Links h.bytes 0 (h.seg_list i) (nodes i)
  pub apart : (i j x : ℕ) → i < 12 → j < 12 → has x (nodes i) ≡ true → (i ≡ j) ⊎ Clear x 8 (nodes j)
  pub headers : (i j x : ℕ) → i < 12 → j < 12 → has x (nodes i) ≡ true → Clear (x - 4) 4 (nodes j)
  pub classes :
      (i x : ℕ) → i < 12 → has x (nodes i) ≡ true → get_index (get_size h.bytes (x - 4)) ≡ i
  pub within : (i x : ℕ) → i < 12 → has x (nodes i) ≡ true → (4 ≤ x) × (x < h.vm.brk)

-- The nodes once `bp` is in front of list `i`, and once it has left it.
abbrev pub pushed : (ℕ → List ℕ) → ℕ → ℕ → ℕ → List ℕ
pushed nodes i bp j = if j == i then bp ∷ nodes j else nodes j

abbrev pub dropped : (ℕ → List ℕ) → ℕ → ℕ → ℕ → List ℕ
dropped nodes i bp j = if j == i then without bp (nodes j) else nodes j

pub has-pushed :
    (nodes : ℕ → List ℕ) (i bp j x : ℕ)
    → has x (pushed nodes i bp j) ≡ true
    → ((j ≡ i) × (x ≡ bp)) ⊎ (has x (nodes j) ≡ true)
has-pushed nodes i bp j x h = ground arith

pub Clear-pushed :
    (nodes : ℕ → List ℕ) (i bp j a k : ℕ)
    → Apart a k bp 8
    → Clear a k (nodes j)
    → Clear a k (pushed nodes i bp j)
Clear-pushed nodes i bp j a k h c = ground arith

pub has-dropped :
    (nodes : ℕ → List ℕ) (i bp j x : ℕ)
    → has x (dropped nodes i bp j) ≡ true
    → has x (nodes j) ≡ true
has-dropped nodes i bp j x h = ground (arith, has_of_without bp x (nodes j))

pub Clear-dropped :
    (nodes : ℕ → List ℕ) (i bp j a k : ℕ) → Clear a k (nodes j) → Clear a k (dropped nodes i bp j)
Clear-dropped nodes i bp j a k c = ground (arith, Clear-without a k bp (nodes j))

-- Two nodes of a list do not overlap.
pub Links-Apart :
    (m : Memory) (pred p x y : ℕ) (xs : List ℕ)
    → Links m pred p xs
    → has x xs ≡ true
    → has y xs ≡ true
    → (x ≡ y) ⊎ Apart x 8 y 8
Links-Apart m pred p x y [] l h g = cc
Links-Apart m pred p x y (z ∷ zs) l h g = ground (
  arith,
  Links-Apart m z (get m (z + 4)) x y zs l.5,
  Clear-has z 8 x zs l.4,
  Clear-has z 8 y zs l.4,
)
