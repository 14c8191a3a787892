-- ===== src/Mdriver/Ranges/Kept.antt =====
-- What the range list of mdriver.c keeps: every range is an aligned part of the heap, and no two
-- have a byte in common unless the later one encloses the earlier one.
use malloc_lab.Base.{
  ℕ, ◌%◌, ◌≤◌, ◌≡◌, subst, sym, Bool, true, false, List, [], ◌∷◌, arith, ==-cases, inl, inr,
  if◌then◌else◌,
}
use malloc_lab.Mdriver.{returns, Range, Errors}
use malloc_lab.Mdriver.Ranges.{add_range, remove_range}
use malloc_lab.Mdriver.Ranges.Accepts.{Passes, add_range-IsPayload}

unfoldable pub IsKept : ℕ → ℕ → List Range → Type 0
IsKept heap_lo heap_hi [] = Unit
IsKept heap_lo heap_hi (p ∷ ps) =
    (p.lo % 8 ≡ 0)
    × (heap_lo ≤ p.lo)
    × (p.lo ≤ p.hi)
    × (p.hi ≤ heap_hi)
    × Passes p.lo p.hi ps
    × IsKept heap_lo heap_hi ps

-- `add_range` keeps that, where it accepts the payload.
pub add_range-IsKept :
    (given : List Range → Bool) (heap_lo heap_hi lo size tracenum opnum : ℕ) (ranges : List Range)
    (e : Errors) (kept : List Range) (e' : Errors)
    → IsKept heap_lo heap_hi ranges
    → add_range given heap_lo heap_hi lo size tracenum opnum ranges e ≡ returns (true, kept, e')
    → IsKept heap_lo heap_hi kept
unfolding IsKept
add_range-IsKept given heap_lo heap_hi lo size tracenum opnum ranges e kept e' k h =
    let (p, shape, _) =
      add_range-IsPayload given heap_lo heap_hi lo size tracenum opnum ranges e kept e' h in
    subst (IsKept heap_lo heap_hi) (sym shape)
      (p.aligned, p.low, omega (arith, p.positive), p.high, p.passes, k)

Passes-remove_range :
    (lo hi q : ℕ) (ps : List Range) → Passes lo hi ps → Passes lo hi (remove_range q ps)
Passes-remove_range lo hi q [] h = tt
Passes-remove_range lo hi q (p ∷ ps) h = elim (==-cases p.lo q) [
  | inl (_, t) ↦ rw t h.1
  | inr (_, f) ↦ rw f (h.0, Passes-remove_range lo hi q ps h.1)
]

pub remove_range-IsKept :
    (heap_lo heap_hi q : ℕ) (ps : List Range)
    → IsKept heap_lo heap_hi ps
    → IsKept heap_lo heap_hi (remove_range q ps)
unfolding IsKept
remove_range-IsKept heap_lo heap_hi q [] h = tt
remove_range-IsKept heap_lo heap_hi q (p ∷ ps) h = elim (==-cases p.lo q) [
  | inl (_, t) ↦
      subst (λ b. IsKept heap_lo heap_hi (if b then ps else p ∷ remove_range q ps)) (sym t) h.5
  | inr (_, f) ↦
      subst (λ b. IsKept heap_lo heap_hi (if b then ps else p ∷ remove_range q ps)) (sym f)
        (
          h.0,
          h.1,
          h.2,
          h.3,
          Passes-remove_range p.lo p.hi q ps h.4,
          remove_range-IsKept heap_lo heap_hi q ps h.5,
        )
]

-- A heap that grows keeps its ranges.
pub IsKept-grow :
    (heap_lo heap_hi hi' : ℕ) (ps : List Range)
    → heap_hi ≤ hi'
    → IsKept heap_lo heap_hi ps
    → IsKept heap_lo hi' ps
unfolding IsKept
IsKept-grow heap_lo heap_hi hi' [] le h = tt
IsKept-grow heap_lo heap_hi hi' (p ∷ ps) le h =
    (h.0, h.1, h.2, omega (arith, h.3), h.4, IsKept-grow heap_lo heap_hi hi' ps le h.5)

-- A payload that is not accepted leaves the list alone.
pub add_range_refuses :
    (given : List Range → Bool) (heap_lo heap_hi lo size tracenum opnum : ℕ) (ranges : List Range)
    (e : Errors) (kept : List Range) (e' : Errors)
    → add_range given heap_lo heap_hi lo size tracenum opnum ranges e ≡ returns (false, kept, e')
    → kept ≡ ranges
unfolding add_range
add_range_refuses given heap_lo heap_hi lo size tracenum opnum ranges e kept e' h = ground arith
