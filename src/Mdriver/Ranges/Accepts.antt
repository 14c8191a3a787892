-- ===== src/Mdriver/Ranges/Accepts.antt =====
-- Which payloads `add_range` of mdriver.c accepts.
use malloc_lab.Base.{
  ℕ, ◌+◌, ◌-◌, ◌%◌, ◌≤◌, ◌<◌, ◌≡◌, refl, ◌⊎◌, Bool, true, false, List, [], ◌∷◌, arith,
}
use malloc_lab.Mdriver.{Run, returns, Range, Errors}
use malloc_lab.Mdriver.Ranges.{add_range, overlap_any}

-- The bytes from `lo` to `hi` have none in common with the range, or hold all of it inside.
abbrev pub Disjoint : ℕ → ℕ → Range → Type 0
Disjoint lo hi p = (hi < p.lo) ⊎ (p.hi < lo)

abbrev pub Encloses : ℕ → ℕ → Range → Type 0
Encloses lo hi p = (lo < p.lo) × (p.hi < hi)

abbrev pub Passes : ℕ → ℕ → List Range → Type 0
Passes lo hi [] = Unit
Passes lo hi (p ∷ ps) = (Disjoint lo hi p ⊎ Encloses lo hi p) × Passes lo hi ps

-- What the checks of `add_range` mean.
pub record IsPayload (heap_lo heap_hi lo size : ℕ) (ranges : List Range) : Type 0 where
  pub positive : 0 < size
  pub int : size < 0x8000_0000
  pub aligned : lo % 8 ≡ 0
  pub low : heap_lo ≤ lo
  pub high : lo + size - 1 ≤ heap_hi
  pub passes : Passes lo (lo + size - 1) ranges

Passes-overlap_any :
    (lo hi : ℕ) (ps : List Range) → lo ≤ hi → Passes lo hi ps → overlap_any lo hi ps ≡ false
Passes-overlap_any lo hi [] le h = refl
Passes-overlap_any lo hi (p ∷ ps) le h = ground (arith, Passes-overlap_any lo hi ps le h.1)

overlap_any-Passes :
    (lo hi : ℕ) (ps : List Range) → lo ≤ hi → overlap_any lo hi ps ≡ false → Passes lo hi ps
overlap_any-Passes lo hi [] le h = tt
overlap_any-Passes lo hi (p ∷ ps) le h =
    (ground arith, overlap_any-Passes lo hi ps le (ground arith))

module _ (given : List Range → Bool) (heap_lo heap_hi lo size tracenum opnum : ℕ)
    (ranges : List Range) (e : Errors) where
  abbrev entered : Run (Bool × List Range × Errors)
  entered = add_range given heap_lo heap_hi lo size tracenum opnum ranges e

  -- Where malloc gives memory for the record, `add_range` accepts each payload of a positive int
  -- size that is aligned and in the heap and that is disjoint from each kept range or encloses
  -- it: an enclosing payload overlaps and is not found out.
  pub add_range-accepts :
      IsPayload heap_lo heap_hi lo size ranges
      → given ranges ≡ true
      → entered ≡ returns (true, record { lo = lo; hi = lo + size - 1 } ∷ ranges, e)
  unfolding add_range
  add_range-accepts p g = ground (
    arith,
    p.positive,
    p.int,
    p.aligned,
    p.low,
    p.high,
    Passes-overlap_any lo (lo + size - 1) ranges (omega (arith, p.positive)) p.passes,
  )

  -- A payload that `add_range` accepts has a positive int as its size, is aligned and in the
  -- heap, and is disjoint from each kept range or encloses it; the list gets that one range, and
  -- the errors stay.
  pub add_range-IsPayload :
      (kept : List Range) (e' : Errors)
      → entered ≡ returns (true, kept, e')
      → IsPayload heap_lo heap_hi lo size ranges
        × (kept ≡ record { lo = lo; hi = lo + size - 1 } ∷ ranges)
        × (e' ≡ e)
  unfolding add_range
  add_range-IsPayload kept e' h = (
    record {
      positive = ground arith;
      int = ground arith;
      aligned = ground arith;
      low = ground arith;
      high = ground arith;
      passes = overlap_any-Passes lo (lo + size - 1) ranges (ground arith) (ground arith);
    },
    ground arith,
    ground arith,
  )
