-- ===== src/Memory.antt =====
-- The memory that the program's pointers read and write: one byte at each address, 32-bit words
-- in little-endian order, as on the i386 for which the Makefile builds.
use malloc_lab.Base.{
  ℕ, ◌+◌, ◌-◌, ◌*◌, ◌/◌, ◌%◌, ◌≤◌, ◌<◌, ◌≡◌, ◌⊎◌, ◌&&◌, ltb, leb, ◌==◌, if◌then◌else◌, arith,
}

abbrev pub Memory : Type 0
Memory = ℕ → ℕ

-- `GET(p)`: the word at `p`.
unfoldable pub get : Memory → ℕ → ℕ
get m p = m p + 0x100 * m (p + 1) + 0x1_0000 * m (p + 2) + 0x100_0000 * m (p + 3)

-- `PUT(p, v)`: the word `v` at `p`.
unfoldable pub put : Memory → ℕ → ℕ → Memory
put m p v a =
    if a == p
    then v % 0x100
    else if a == p + 1
    then v / 0x100 % 0x100
    else if a == p + 2
    then v / 0x1_0000 % 0x100
    else if a == p + 3
    then v / 0x100_0000 % 0x100
    else m a

-- `memcpy(to, from, n)` of areas that do not overlap.
unfoldable pub memcpy : Memory → ℕ → ℕ → ℕ → Memory
memcpy m to from n a = if leb to a && ltb a (to + n) then m (from + (a - to)) else m a

-- `memset(to, c, n)`.
unfoldable pub memset : Memory → ℕ → ℕ → ℕ → Memory
memset m to c n a = if leb to a && ltb a (to + n) then c % 0x100 else m a

-- The bytes from `a` on, `n` of them, have none in common with those from `b` on, `k` of them.
abbrev pub Apart : ℕ → ℕ → ℕ → ℕ → Type 0
Apart a n b k = (a + n ≤ b) ⊎ (b + k ≤ a)

pub get-put : (m : Memory) (p v : ℕ) → v < 0x1_0000_0000 → get (put m p v) p ≡ v
unfolding get put
get-put m p v h = ground arith

pub put-Apart : (m : Memory) (p v a : ℕ) → Apart p 4 a 1 → put m p v a ≡ m a
unfolding put
put-Apart m p v a h = ground arith

pub get-put-Apart : (m : Memory) (p v q : ℕ) → Apart p 4 q 4 → get (put m p v) q ≡ get m q
unfolding get
get-put-Apart m p v q h = ground (
  arith,
  put-Apart m p v q,
  put-Apart m p v (q + 1),
  put-Apart m p v (q + 2),
  put-Apart m p v (q + 3),
)
