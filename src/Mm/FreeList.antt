-- ===== src/Mm/FreeList.antt =====
-- The explicit free list of mm.c in memory: from a pointer the successors lead through the nodes
-- `xs` to `NULL`, and each node's predecessor is the node before it.
pub mod Insert
pub mod Remove
use malloc_lab.Base.{
  ℕ, ◌+◌, ◌≤◌, ◌<◌, ◌≡◌, refl, Bool, true, false, ◌||◌, ◌&&◌, not, List, [], ◌∷◌, ◌==◌,
  if◌then◌else◌, arith, length,
}
use malloc_lab.Memory.{Memory, get, put, Apart, get-put-Apart}

abbrev pub has : ℕ → List ℕ → Bool
has x [] = false
has x (y ∷ ys) = (x == y) || has x ys

abbrev pub without : ℕ → List ℕ → List ℕ
without x [] = []
without x (y ∷ ys) = if x == y then ys else y ∷ without x ys

-- The `k` bytes from `a` on miss the two links of every node.
abbrev pub Clear : ℕ → ℕ → List ℕ → Type 0
Clear a k [] = Unit
Clear a k (x ∷ xs) = Apart a k x 8 × Clear a k xs

abbrev pub Links : Memory → ℕ → ℕ → List ℕ → Type 0
Links m pred p [] = p ≡ 0
Links m pred p (x ∷ xs) =
    (p ≡ x)
    × (0 < x)
    × (x < 0x1_0000_0000)
    × (get m x ≡ pred)
    × Clear x 8 xs
    × Links m x (get m (x + 4)) xs

pub Clear-weaken :
    (a b k n : ℕ) (xs : List ℕ) → a ≤ b → b + n ≤ a + k → 0 < n → Clear a k xs → Clear b n xs
Clear-weaken a b k n [] h g z c = tt
Clear-weaken a b k n (x ∷ xs) h g z c = (omega arith, Clear-weaken a b k n xs h g z c.1)

pub Clear-has : (a k x : ℕ) (xs : List ℕ) → Clear a k xs → has x xs ≡ true → Apart a k x 8
Clear-has a k x [] c h = cc
Clear-has a k x (y ∷ ys) c h = ground (arith, Clear-has a k x ys c.1)

pub has-Clear : (a : ℕ) (xs : List ℕ) → Clear a 8 xs → has a xs ≡ false
has-Clear a [] c = refl
has-Clear a (x ∷ xs) c = ground (arith, has-Clear a xs c.1)

pub node_range :
    (m : Memory) (pred p x : ℕ) (xs : List ℕ)
    → Links m pred p xs
    → has x xs ≡ true
    → (0 < x) × (x < 0x1_0000_0000)
node_range m pred p x [] l h = cc
node_range m pred p x (y ∷ ys) l h = ground (arith, node_range m y (get m (y + 4)) x ys l.5)

-- A write beside the nodes leaves the list alone.
pub Links-put :
    (m : Memory) (a v pred p : ℕ) (xs : List ℕ)
    → Clear a 4 xs
    → Links m pred p xs
    → Links (put m a v) pred p xs
Links-put m a v pred p [] c l = l
Links-put m a v pred p (x ∷ xs) c l = (
  l.0,
  l.1,
  l.2,
  ground (arith, get-put-Apart m a v x),
  l.4,
  rw (get-put-Apart m a v (x + 4) (ground arith)) (Links-put m a v x (get m (x + 4)) xs c.1 l.5),
)

pub Clear-without : (a k x : ℕ) (xs : List ℕ) → Clear a k xs → Clear a k (without x xs)
Clear-without a k x [] c = tt
Clear-without a k x (y ∷ ys) c = ground (arith, Clear-without a k x ys c.1)

-- A node occurs once, so that nothing but it goes.
pub has-without :
    (m : Memory) (pred p x y : ℕ) (xs : List ℕ)
    → Links m pred p xs
    → has y (without x xs) ≡ (has y xs && not (y == x))
has-without m pred p x y [] l = refl
has-without m pred p x y (z ∷ zs) l =
    ground (arith, has-without m z (get m (z + 4)) x y zs l.5, has-Clear z zs l.4)

pub has_of_without : (x y : ℕ) (xs : List ℕ) → has y (without x xs) ≡ true → has y xs ≡ true
has_of_without x y [] h = cc
has_of_without x y (z ∷ zs) h = ground (arith, has_of_without x y zs)

pub length-without : (x : ℕ) (xs : List ℕ) → has x xs ≡ true → length xs ≡ length (without x xs) + 1
length-without x [] h = cc
length-without x (y ∷ ys) h = ground (arith, length-without x ys)
