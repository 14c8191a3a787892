-- ===== src/Mm/FindFit/Next.antt =====
-- `find_fit` of mm.c as a whole.
use malloc_lab.Base.{
  ℕ, ◌+◌, ◌*◌, ◌-◌, ◌≤◌, ◌<◌, ◌≡◌, refl, ◌≢◌, ◌⊎◌, true, false, some, List, [], ◌∷◌, arith,
  if◌then◌else◌, length,
}
use malloc_lab.Memory.{Memory, get}
use malloc_lab.Mm.{Heap, find_fit, fuel, roam}
use malloc_lab.Mm.Macros.{get_size, truthy, hdrp}
use malloc_lab.Mm.FreeList.{has, Links}
use malloc_lab.Mm.Layout.{Block, Tiles, Back, frees}
use malloc_lab.Mm.Zip.{Zip, first}
use malloc_lab.Mm.FindFit.{
  first_fit, before, from, seek-first_fit, Links-from, first_fit-fits, first_fit_none,
}

-- First-fit from `r` on, and then over the nodes before `r`.
pub next_fit : Memory → ℕ → ℕ → List ℕ → ℕ
next_fit m asize r xs =
    let one = first_fit m asize (from r xs) in
    if truthy one then one else first_fit m asize (before r xs)

has-from : (y r : ℕ) (xs : List ℕ) → has y (from r xs) ≡ true → has y xs ≡ true
has-from y r [] h = cc
has-from y r (x ∷ xs) h = ground (arith, has-from y r xs)

has-before : (y r : ℕ) (xs : List ℕ) → has y (before r xs) ≡ true → has y xs ≡ true
has-before y r [] h = cc
has-before y r (x ∷ xs) h = ground (arith, has-before y r xs)

has-turned :
    (y r : ℕ) (xs : List ℕ)
    → has y xs ≡ true
    → (has y (from r xs) ≡ true) ⊎ (has y (before r xs) ≡ true)
has-turned y r [] h = cc
has-turned y r (x ∷ xs) h = ground (arith, has-turned y r xs)

pub next_fit-fits :
    (m : Memory) (asize r : ℕ) (xs : List ℕ)
    → next_fit m asize r xs ≢ 0
    → (has (next_fit m asize r xs) xs ≡ true) × (asize ≤ get_size m (hdrp (next_fit m asize r xs)))
unfolding next_fit
next_fit-fits m asize r xs h = ground (
  arith,
  first_fit-fits m asize (from r xs),
  first_fit-fits m asize (before r xs),
  has-from (first_fit m asize (from r xs)) r xs,
  has-before (first_fit m asize (before r xs)) r xs,
)

pub next_fit_none :
    (m : Memory) (asize r y : ℕ) (xs : List ℕ)
    → has 0 xs ≡ false
    → next_fit m asize r xs ≡ 0
    → has y xs ≡ true
    → get_size m (hdrp y) < asize
unfolding next_fit
next_fit_none m asize r y xs pos h i = ground (
  arith,
  has-turned y r xs i,
  has-from 0 r xs,
  has-before 0 r xs,
  first_fit_none m asize y (from r xs),
  first_fit_none m asize y (before r xs),
)

-- Where the search starts: `find_fit` resets a rover that is `NULL` to the head.
abbrev pub start : Heap → ℕ
start h = if truthy h.rover then h.rover else h.free_list_head

start-Links :
    (h : Heap) (xs : List ℕ)
    → Links h.bytes 0 h.free_list_head xs
    → (h.rover ≡ 0) ⊎ (has h.rover xs ≡ true)
    → (pred : ℕ) × Links h.bytes pred (start h) (from (start h) xs)
      × (length (from (start h) xs) ≤ length xs)
start-Links h [] l r = (0, (let e : start h ≡ 0 = ground arith in e), omega arith)
start-Links h (x ∷ xs) l r =
    Links-from h.bytes 0 h.free_list_head (start h) (x ∷ xs) l (ground arith)

-- `find_fit` ends on a free list with fewer nodes than the heap has bytes; its result is what
-- next-fit finds, the first large enough node from the rover to the end and then from the head to
-- the rover, and it leaves the rover there.
pub find_fit-next_fit :
    (h : Heap) (asize : ℕ) (xs : List ℕ)
    → Links h.bytes 0 h.free_list_head xs
    → (h.rover ≡ 0) ⊎ (has h.rover xs ≡ true)
    → length xs < fuel h
    → let bp = next_fit h.bytes asize (start h) xs in
      find_fit asize h ≡ some (bp, roam h (if truthy bp then bp else start h))
unfolding find_fit next_fit
find_fit-next_fit h asize xs l r lt = ground (
  arith,
  seek-first_fit (fuel h) h.bytes asize 0 (start-Links h xs l r).0 (start h) (from (start h) xs)
      (start-Links h xs l r).1,
  (start-Links h xs l r).2,
  before_null h.bytes (start-Links h xs l r).0 (start h) (from (start h) xs)
      (start-Links h xs l r).1,
  seek-first_fit (fuel h) h.bytes asize (start h) 0 h.free_list_head xs l,
)
  where
    before_null : (m : Memory) (pred p : ℕ) (xs : List ℕ) → Links m pred p xs → before 0 xs ≡ xs
    before_null m pred p [] l = refl
    before_null m pred p (x ∷ xs) l = ground (arith, before_null m x (get m (x + 4)) xs l.5)

frees-le : (m : Memory) (p e : ℕ) (bs : List Block) → Tiles m p bs e → p + 16 * frees bs ≤ e
frees-le m p e [] t = omega arith
frees-le m p e (b ∷ bs) t = ground (arith, frees-le m (p + b.size) e bs t.1)

frees-Back-le : (m : Memory) (f q : ℕ) (ls : List Block) → Back m f q ls → f + 16 * frees ls ≤ q
frees-Back-le m f q [] t = omega arith
frees-Back-le m f q (b ∷ ls) t = ground (arith, frees-Back-le m f (q - b.size) ls t.2)

-- The fuel is enough for a walk over the free list.
pub fuel_enough :
    (h : Heap) (ls : List Block) (q r : ℕ) (rs : List Block) (xs : List ℕ)
    → Zip h ls q r rs xs
    → length xs < fuel h
fuel_enough h ls q r rs xs z = omega (
  arith,
  z.nodes.count,
  z.space.fits,
  frees-le h.bytes r h.vm.brk rs z.space.tiles,
  frees-Back-le h.bytes (first h.vm) q ls z.space.back,
)

pub next_fit_empty : (m : Memory) (asize r : ℕ) → next_fit m asize r [] ≡ 0
unfolding next_fit first_fit
next_fit_empty m asize r = ground arith
