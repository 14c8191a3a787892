-- ===== src/Base/Bits.antt =====
-- The laws of the bit operations that the header macros use, at variables.
use Prim.Native.Nat.{
  ℕ, zero, suc, ◌+◌, ◌-◌, ◌*◌, ◌/◌, ◌%◌, ◌≤◌, ◌<◌, min, max, bit_and, bit_or, digits,
  bit_and-bitwise, bit_or-bitwise,
}
use mathlib.Core.Path.{◌≡◌, refl, ap}
use native.Mathlib.Omega.{arith}

-- The digit recursion does not depend on its fuel, whatever the operation on the digits.
module _ (z : ℕ → ℕ) (f : ℕ → ℕ → ℕ) where
  digits_fuel : (n k a b : ℕ) → a ≤ n → a ≤ k → digits z f n a b ≡ digits z f k a b
  digits_fuel zero zero a b p q = refl
  digits_fuel zero (suc k) zero b p q = refl
  digits_fuel (suc n) zero zero b p q = refl
  digits_fuel (suc n) (suc k) zero b p q = refl
  digits_fuel zero (suc k) (suc a) b p q = absurd (omega arith)
  digits_fuel (suc n) zero (suc a) b p q = absurd (omega arith)
  digits_fuel (suc n) (suc k) (suc a) b p q =
      ap (λ (t : ℕ). t * 2 + f (suc a % 2) (b % 2))
        (digits_fuel n k (suc a / 2) (b / 2) (omega arith) (omega arith))

bit_or_step : (a b : ℕ) → bit_or a b ≡ bit_or (a / 2) (b / 2) * 2 + max (a % 2) (b % 2)
bit_or_step zero b = omega (arith, bit_or-bitwise 0 b, bit_or-bitwise 0 (b / 2))
bit_or_step (suc a) b = omega (
  arith,
  bit_or-bitwise (suc a) b,
  bit_or-bitwise (suc a / 2) (b / 2),
  digits_fuel (λ n. n) max a (suc a / 2) (suc a / 2) (b / 2) (omega arith) (omega arith),
)

bit_and_step : (a b : ℕ) → bit_and a b ≡ bit_and (a / 2) (b / 2) * 2 + min (a % 2) (b % 2)
bit_and_step zero b = omega (arith, bit_and-bitwise 0 b, bit_and-bitwise 0 (b / 2))
bit_and_step (suc a) b = omega (
  arith,
  bit_and-bitwise (suc a) b,
  bit_and-bitwise (suc a / 2) (b / 2),
  digits_fuel (λ _. 0) min a (suc a / 2) (suc a / 2) (b / 2) (omega arith) (omega arith),
)

bit_or_nothing : (n a : ℕ) → a ≤ n → bit_or a 0 ≡ a
bit_or_nothing n zero h = refl
bit_or_nothing zero (suc a) h = absurd (omega arith)
bit_or_nothing (suc n) (suc a) h =
    omega (arith, bit_or_step (suc a) 0, bit_or_nothing n (suc a / 2) (omega arith))

bit_and_nothing : (n a : ℕ) → a ≤ n → bit_and a 0 ≡ 0
bit_and_nothing n zero h = refl
bit_and_nothing zero (suc a) h = absurd (omega arith)
bit_and_nothing (suc n) (suc a) h =
    omega (arith, bit_and_step (suc a) 0, bit_and_nothing n (suc a / 2) (omega arith))

-- A flag in the lowest bit of an even number is added.
pub bit_or_flag : (s a : ℕ) → s % 2 ≡ 0 → a ≤ 1 → bit_or s a ≡ s + a
bit_or_flag s a even flag = omega (
  arith,
  bit_or_step s a,
  ap (bit_or (s / 2)) (let h : a / 2 ≡ 0 = omega arith in h),
  bit_or_nothing (s / 2) (s / 2) (omega arith),
)

pub bit_and_one : (a : ℕ) → bit_and a 1 ≡ a % 2
bit_and_one a = omega (arith, bit_and_step a 1, bit_and_nothing (a / 2) (a / 2) (omega arith))

-- The number with `k` ones.
abbrev ones : ℕ → ℕ
ones zero = 0
ones (suc k) = ones k * 2 + 1

bit_and-ones : (k a : ℕ) → a ≤ ones k → bit_and a (ones k) ≡ a
bit_and-ones zero a h = omega (arith, bit_and_nothing a a (omega arith))
bit_and-ones (suc k) a h = omega (
  arith,
  bit_and_step a (ones k * 2 + 1),
  ap (bit_and (a / 2)) (let e : (ones k * 2 + 1) / 2 ≡ ones k = omega arith in e),
  bit_and-ones k (a / 2) (omega arith),
)

-- The mask that clears the three lowest bits of a 32-bit word.
pub bit_and_mask : (w : ℕ) → w < 0x1_0000_0000 → bit_and w 0xffff_fff8 ≡ w - w % 8
bit_and_mask w h = omega (
  arith,
  bit_and_step w 0xffff_fff8,
  bit_and_step (w / 2) 0x7fff_fffc,
  bit_and_step (w / 2 / 2) 0x3fff_fffe,
  bit_and-ones 29 (w / 2 / 2 / 2) (omega arith),
)

-- The second lowest bit, read, cleared and set.
pub bit_and_two : (a : ℕ) → bit_and a 2 ≡ 2 * (a / 2 % 2)
bit_and_two a = omega (arith, bit_and_step a 2, bit_and_one (a / 2))

pub bit_and_not_two : (w : ℕ) → w < 0x1_0000_0000 → bit_and w 0xffff_fffd ≡ w - 2 * (w / 2 % 2)
bit_and_not_two w h = omega (
  arith,
  bit_and_step w 0xffff_fffd,
  bit_and_step (w / 2) 0x7fff_fffe,
  bit_and-ones 30 (w / 2 / 2) (omega arith),
)

pub bit_or_two : (w : ℕ) → bit_or w 2 ≡ w + 2 - 2 * (w / 2 % 2)
bit_or_two w = omega (
  arith,
  bit_or_step w 2,
  bit_or_step (w / 2) 1,
  bit_or_nothing (w / 2 / 2) (w / 2 / 2) (omega arith),
)
