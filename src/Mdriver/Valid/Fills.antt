-- ===== src/Mdriver/Valid/Fills.antt =====
-- The comparison of a moved payload in `eval_mm_valid` of mdriver.c.
use malloc_lab.Base.{
  ℕ, zero, suc, ◌+◌, ◌%◌, ◌≤◌, ◌<◌, ◌≡◌, refl, Bool, ◌&&◌, ◌==◌, true, false, arith,
}
use malloc_lab.Memory.{Memory}
use malloc_lab.Mdriver.Valid.{preserved}

-- All the bytes of a payload are the low byte of the index.
abbrev pub is_filled : Memory → ℕ → ℕ → ℕ → Bool
is_filled m p index zero = true
is_filled m p index (suc n) = (m p == index % 0x100) && is_filled m (p + 1) index n

-- For bytes below 256 and an index whose low byte is below 128 the comparison of a moved payload
-- finds out whether all its bytes are that byte.
pub preserved-is_filled :
    (m : Memory) (p index n : ℕ)
    → ((a : ℕ) → m a < 0x100)
    → index % 0x100 < 0x80
    → preserved m p index n ≡ is_filled m p index n
preserved-is_filled m p index zero bytes low = refl
preserved-is_filled m p index (suc n) bytes low =
    ground (arith, bytes p, preserved-is_filled m (p + 1) index n bytes low)

-- For bytes below 256 and an index whose low byte is 128 or more the comparison of at least one
-- byte fails, whatever the bytes are, since a char is signed.
pub preserved_high :
    (m : Memory) (p index n : ℕ)
    → ((a : ℕ) → m a < 0x100)
    → 0x80 ≤ index % 0x100
    → preserved m p index (suc n) ≡ false
preserved_high m p index n bytes high = ground (arith, bytes p)
