-- ===== src/Mm/FindFit.antt =====
-- `find_fit` of mm.c: next-fit is first-fit over the free list turned to begin at the rover.
pub mod Next
use malloc_lab.Base.{
  ℕ, zero, suc, ◌+◌, ◌-◌, ◌≤◌, ◌<◌, ◌≡◌, refl, ◌≢◌, ◌⊎◌, inl, inr, sym, ap, ◌∙◌, subst, Bool, true,
  false, ◌||◌, Option, none, some, List, [], ◌∷◌, ◌++◌, arith, if◌then◌else◌, leb, ◌==◌, length,
  leb-cases, ==-cases,
}
use malloc_lab.Memory.{Memory, get}
use malloc_lab.Mm.{Heap, seek, find_fit, find_fit_ff, fuel, roam, ◌>>=◌}
use malloc_lab.Mm.Macros.{get_size, get_succ, truthy, hdrp, null}
use malloc_lab.Mm.FreeList.{has, Links, Clear, has-Clear}

-- The first block of the list with at least `asize` bytes, `NULL` if there is none.
unfoldable pub first_fit : Memory → ℕ → List ℕ → ℕ
first_fit m asize [] = null
first_fit m asize (x ∷ xs) = if leb asize (get_size m (hdrp x)) then x else first_fit m asize xs

-- The nodes before `r`, and those from `r` on.
abbrev pub before : ℕ → List ℕ → List ℕ
before r [] = []
before r (x ∷ xs) = if x == r then [] else x ∷ before r xs

abbrev pub from : ℕ → List ℕ → List ℕ
from r [] = []
from r (x ∷ xs) = if x == r then x ∷ xs else from r xs

-- A loop of `find_fit` is first-fit over the nodes up to its end.
pub seek-first_fit :
    (fuel : ℕ) (m : Memory) (asize stop pred p : ℕ) (xs : List ℕ)
    → Links m pred p xs
    → length xs < fuel
    → seek fuel m asize stop p ≡ some (first_fit m asize (before stop xs))
unfolding seek first_fit
seek-first_fit zero m asize stop pred p xs l lt = absurd (omega arith)
seek-first_fit (suc fuel) m asize stop pred p [] l lt = ground arith
seek-first_fit (suc fuel) m asize stop pred p (x ∷ xs) l lt =
    ground (arith, seek-first_fit fuel m asize stop x (get m (x + 4)) xs l.5)

-- A loop may start at any node.
pub Links-from :
    (m : Memory) (pred p r : ℕ) (xs : List ℕ)
    → Links m pred p xs
    → has r xs ≡ true
    → (pred' : ℕ) × Links m pred' r (from r xs) × (length (from r xs) ≤ length xs)
Links-from m pred p r [] l h = cc
Links-from m pred p r (x ∷ xs) l h = elim (==-cases x r) [
  | inl (e, t) ↦ rw t (
    pred,
    (subst (λ n. Links m pred n (x ∷ xs)) (let e' : p ≡ r = omega (arith, l.0) in e') l),
    omega arith,
  )
  | inr (n, f) ↦
      let rest = Links-from m x (get m (x + 4)) r xs l.5 (ground arith) in
      rw f (rest.0, rest.1, omega (arith, rest.2))
]

-- First-fit finds a node that is large enough, and `NULL` only if there is none.
pub first_fit-fits :
    (m : Memory) (asize : ℕ) (xs : List ℕ)
    → first_fit m asize xs ≢ 0
    → (has (first_fit m asize xs) xs ≡ true) × (asize ≤ get_size m (hdrp (first_fit m asize xs)))
unfolding first_fit
first_fit-fits m asize [] h = absurd (h refl)
first_fit-fits m asize (x ∷ xs) h = ground (arith, first_fit-fits m asize xs)

pub first_fit_none :
    (m : Memory) (asize y : ℕ) (xs : List ℕ)
    → has 0 xs ≡ false
    → first_fit m asize xs ≡ 0
    → has y xs ≡ true
    → get_size m (hdrp y) < asize
unfolding first_fit
first_fit_none m asize y [] pos h i = cc
first_fit_none m asize y (x ∷ xs) pos h i = ground (arith, first_fit_none m asize y xs)
