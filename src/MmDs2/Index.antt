-- ===== src/MmDs2/Index.antt =====
-- `get_index` of mm-ds2.c: the classes of sizes.
use malloc_lab.Base.{ℕ, zero, suc, ◌+◌, ◌^◌, ◌≤◌, ◌<◌, ◌≡◌, ◌⊎◌, arith}
use malloc_lab.MmDs2.{climb, get_index}

-- Where the loop stops.
abbrev Stops : ℕ → ℕ → ℕ → ℕ → Type 0
Stops left size idx r =
    (idx ≤ r)
    × (r ≤ idx + left)
    × ((size ≤ 2 ^ (r + 4)) ⊎ (r ≡ idx + left))
    × ((r ≡ idx) ⊎ (2 ^ (r + 3) < size))

climb-Stops : (left size idx : ℕ) → Stops left size idx (climb left size idx)
unfolding climb
climb-Stops zero size idx = ground arith
climb-Stops (suc left) size idx = ground (arith, climb-Stops left size (idx + 1))

climb_mono : (left a b idx : ℕ) → a ≤ b → climb left a idx ≤ climb left b idx
unfolding climb
climb_mono zero a b idx h = omega arith
climb_mono (suc left) a b idx h =
    ground (arith, climb_mono left a b (idx + 1) h, climb-Stops left b (idx + 1))

-- get_index is the index of one of the twelve lists, and the first whose blocks may have that
-- size: those of list idx have at most 2 ^ (idx + 4) bytes, but for the last list.
pub get_index_bounds :
    (size : ℕ)
    → (get_index size < 12)
      × ((size ≤ 2 ^ (get_index size + 4)) ⊎ (get_index size ≡ 11))
      × ((get_index size ≡ 0) ⊎ (2 ^ (get_index size + 3) < size))
unfolding get_index
get_index_bounds size = ground (arith, climb-Stops 11 size 0, climb-Stops 11 16 0)

pub get_index_mono : (a b : ℕ) → a ≤ b → get_index a ≤ get_index b
unfolding get_index
get_index_mono a b h =
    ground (arith, climb_mono 11 a b 0, climb_mono 11 16 b 0, climb_mono 11 16 16 0)
