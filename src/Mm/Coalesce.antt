-- ===== src/Mm/Coalesce.antt =====
-- `coalesce` of mm.c: a free block that is not yet on the free list takes in its free neighbours,
-- which leave the list.
pub mod Cases
pub mod Merge
pub mod Result
pub mod Whole
use malloc_lab.Base.{ℕ, ◌+◌, ◌-◌, ◌≡◌, Bool, true, List, [], ◌∷◌, if◌then◌else◌}
use malloc_lab.Memory.{Memory}
use malloc_lab.Mm.FreeList.{without}
use malloc_lab.Mm.Layout.{Block}

-- The allocation bit of the neighbour; the prologue and the epilogue count as allocated.
abbrev pub near : List Block → Bool
near [] = true
near (b ∷ bs) = b.alloc

-- What a free neighbour adds, and the blocks behind it.
abbrev pub absorbed : List Block → ℕ
absorbed [] = 0
absorbed (b ∷ bs) = if b.alloc then 0 else b.size

abbrev pub beyond : List Block → List Block
beyond [] = []
beyond (b ∷ bs) = if b.alloc then b ∷ bs else bs

abbrev pub unlisted_prev : List Block → ℕ → List ℕ → List ℕ
unlisted_prev [] q xs = xs
unlisted_prev (b ∷ bs) q xs = if b.alloc then xs else without (q - b.size) xs

abbrev pub unlisted_next : List Block → ℕ → List ℕ → List ℕ
unlisted_next [] r xs = xs
unlisted_next (b ∷ bs) r xs = if b.alloc then xs else without r xs
