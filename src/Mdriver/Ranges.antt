-- ===== src/Mdriver/Ranges.antt =====
-- The range list of mdriver.c: the extent of every payload that the allocator has given out.
pub mod Accepts
pub mod Kept
use malloc_lab.Base.{
  ℕ, ◌+◌, ◌-◌, ◌%◌, Bool, true, false, ◌&&◌, ◌||◌, not, List, [], ◌∷◌, if◌then◌else◌, ◌==◌, ltb,
  leb,
}
use malloc_lab.Mdriver.{
  alignment, Run, Stop, returns, stops, exited, aborted, Range, Errors, malloc_error, not_aligned,
  outside_heap, overlaps,
}

abbrev pub is_aligned : ℕ → Bool
is_aligned p = p % alignment == 0

-- The test of the loop of `add_range`.
abbrev pub overlap : ℕ → ℕ → Range → Bool
overlap lo hi p = leb p.lo lo && leb lo p.hi || leb p.lo hi && leb hi p.hi

abbrev pub overlap_any : ℕ → ℕ → List Range → Bool
overlap_any lo hi [] = false
overlap_any lo hi (p ∷ ps) = overlap lo hi p || overlap_any lo hi ps

abbrev pub outside : ℕ → ℕ → ℕ → ℕ → Bool
outside heap_lo heap_hi lo hi = ltb lo heap_lo || ltb heap_hi lo || ltb hi heap_lo || ltb heap_hi hi

-- `given` says whether `malloc` gives memory for one more record.
unfoldable pub add_range :
    (List Range → Bool)
    → (heap_lo heap_hi lo size tracenum opnum : ℕ) → List Range
    → Errors
    → Run (Bool × List Range × Errors)
add_range given heap_lo heap_hi lo size tracenum opnum ranges e =
    let hi = lo + size - 1 in
    if size == 0 || leb 0x8000_0000 size
    then stops aborted
    else if not (is_aligned lo)
    then returns (false, ranges, malloc_error tracenum opnum not_aligned e)
    else if outside heap_lo heap_hi lo hi
    then returns (false, ranges, malloc_error tracenum opnum outside_heap e)
    else if overlap_any lo hi ranges
    then returns (false, ranges, malloc_error tracenum opnum overlaps e)
    else if not (given ranges)
    then stops exited
    else returns (true, record { lo = lo; hi = hi } ∷ ranges, e)

abbrev pub remove_range : ℕ → List Range → List Range
remove_range lo [] = []
remove_range lo (p ∷ ps) = if p.lo == lo then ps else p ∷ remove_range lo ps

abbrev pub clear_ranges : List Range → List Range
clear_ranges ranges = []
