-- ===== src/Mm/Tags.antt =====
-- What the macros of mm.c read from a tag and write into it.
use malloc_lab.Base.{ℕ, ◌+◌, ◌-◌, ◌%◌, ◌≤◌, ◌≡◌, Bool, true, false, arith}
use malloc_lab.Base.Bits.{bit_or_flag, bit_and_one, bit_and_mask}
use malloc_lab.Memory.{Memory, get}
use malloc_lab.Mm.Macros.{pack, get_size, get_alloc, truthy}
use malloc_lab.Mm.Layout.{Block, IsBlock, bit}

bit-le : (a : Bool) → bit a ≤ 1
bit-le true = omega arith
bit-le false = omega arith

pub pack_tag : (n : ℕ) (a : Bool) → n % 8 ≡ 0 → pack n (bit a) ≡ n + bit a
unfolding pack
pack_tag n a r = bit_or_flag n (bit a) (omega arith) (bit-le a)

pub get_size_tag :
    (m : Memory) (p n : ℕ) (a : Bool)
    → get m p ≡ n + bit a
    → n % 8 ≡ 0
    → n + 8 ≤ 0x1_0000_0000
    → get_size m p ≡ n
unfolding get_size
get_size_tag m p n a e r low = omega (arith, bit_and_mask (get m p), bit-le a)

-- A tag that is kept has the same size.
pub get_size_same : (m k : Memory) (p : ℕ) → get m p ≡ get k p → get_size m p ≡ get_size k p
unfolding get_size
get_size_same m k p e = cc

pub get_alloc_tag :
    (m : Memory) (p n : ℕ) (a : Bool) → get m p ≡ n + bit a → n % 8 ≡ 0 → truthy (get_alloc m p) ≡ a
unfolding get_alloc
get_alloc_tag m p n true e r = ground (arith, bit_and_one (get m p))
get_alloc_tag m p n false e r = ground (arith, bit_and_one (get m p))

-- The tags of a block, read at its header and at its footer.
module _ (m : Memory) (p : ℕ) (b : Block) (i : IsBlock m p b)
    (low : b.size + 8 ≤ 0x1_0000_0000) where
  pub header-size : get_size m (p - 4) ≡ b.size
  header-size = get_size_tag m (p - 4) b.size b.alloc i.header i.round low

  pub header-alloc : truthy (get_alloc m (p - 4)) ≡ b.alloc
  header-alloc = get_alloc_tag m (p - 4) b.size b.alloc i.header i.round

  pub footer-size : get_size m (p + b.size - 8) ≡ b.size
  footer-size = get_size_tag m (p + b.size - 8) b.size b.alloc i.footer i.round low
