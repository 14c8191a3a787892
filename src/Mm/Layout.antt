-- ===== src/Mm/Layout.antt =====
-- The heap of mm.c as a sequence of blocks: what the headers and footers in memory say, read
-- forward from an address (`Tiles`) and backward from it (`Back`).
use malloc_lab.Base.{
  ℕ, ◌+◌, ◌-◌, ◌%◌, ◌≤◌, ◌≡◌, ◌⊎◌, Bool, true, false, ◌||◌, ◌&&◌, not, List, [], ◌∷◌, ◌==◌,
  if◌then◌else◌, arith,
}
use malloc_lab.Memory.{Memory, get, put, Apart, get-put-Apart}

pub record Block : Type 0 where
  pub size : ℕ
  pub alloc : Bool

abbrev pub block : ℕ → Bool → Block
block n a = record { size = n; alloc = a }

abbrev pub bit : Bool → ℕ
bit true = 1
bit false = 0

-- A block with payload at `p`: its header, its footer, its alignment.
pub record IsBlock (m : Memory) (p : ℕ) (b : Block) : Type 0 where
  pub start : 16 ≤ p
  pub aligned : p % 8 ≡ 0
  pub big : 16 ≤ b.size
  pub round : b.size % 8 ≡ 0
  pub header : get m (p - 4) ≡ b.size + bit b.alloc
  pub footer : get m (p + b.size - 8) ≡ b.size + bit b.alloc

-- From `p` the blocks `bs` follow one another up to `e`.
abbrev pub Tiles : Memory → ℕ → List Block → ℕ → Type 0
Tiles m p [] e = p ≡ e
Tiles m p (b ∷ bs) e = IsBlock m p b × Tiles m (p + b.size) bs e

-- Before `q` stand the blocks `ls`, the nearest first, down to `first`.
abbrev pub Back : Memory → ℕ → ℕ → List Block → Type 0
Back m first q [] = q ≡ first
Back m first q (b ∷ ls) = (b.size ≤ q) × IsBlock m (q - b.size) b × Back m first (q - b.size) ls

-- Whether a free block starts at `x`.
abbrev pub free_at : ℕ → ℕ → List Block → Bool
free_at x p [] = false
free_at x p (b ∷ bs) = ((x == p) && not b.alloc) || free_at x (p + b.size) bs

abbrev pub free_back : ℕ → ℕ → List Block → Bool
free_back x q [] = false
free_back x q (b ∷ ls) = ((x == q - b.size) && not b.alloc) || free_back x (q - b.size) ls

abbrev pub frees : List Block → ℕ
frees [] = 0
frees (b ∷ bs) = (if b.alloc then 0 else 1) + frees bs

pub Tiles-le : (m : Memory) (p e : ℕ) (bs : List Block) → Tiles m p bs e → p ≤ e
Tiles-le m p e [] t = omega arith
Tiles-le m p e (b ∷ bs) t = omega (arith, Tiles-le m (p + b.size) e bs t.1)

pub Back-le : (m : Memory) (first q : ℕ) (ls : List Block) → Back m first q ls → first ≤ q
Back-le m first q [] t = omega arith
Back-le m first q (b ∷ ls) t = omega (arith, Back-le m first (q - b.size) ls t.2)

pub Back-aligned :
    (m : Memory) (first q : ℕ) (ls : List Block) → Back m first q ls → first % 8 ≡ 0 → q % 8 ≡ 0
Back-aligned m first q [] t h = omega arith
Back-aligned m first q (b ∷ ls) t h = ground arith

pub free_at_range :
    (m : Memory) (x p e : ℕ) (bs : List Block)
    → Tiles m p bs e
    → free_at x p bs ≡ true
    → (p ≤ x) × (x + 16 ≤ e)
free_at_range m x p e [] t f = cc
free_at_range m x p e (b ∷ bs) t f =
    ground (arith, free_at_range m x (p + b.size) e bs t.1, Tiles-le m (p + b.size) e bs t.1)

pub free_back_range :
    (m : Memory) (x first q : ℕ) (ls : List Block)
    → Back m first q ls
    → free_back x q ls ≡ true
    → (first ≤ x) × (x + 16 ≤ q)
free_back_range m x first q [] t f = cc
free_back_range m x first q (b ∷ ls) t f =
    ground
      (arith, free_back_range m x first (q - b.size) ls t.2, Back-le m first (q - b.size) ls t.2)

-- A write beside the tags of a block leaves the block.
pub IsBlock-put :
    (m : Memory) (p a v : ℕ) (b : Block)
    → Apart a 4 (p - 4) 4
    → Apart a 4 (p + b.size - 8) 4
    → IsBlock m p b
    → IsBlock (put m a v) p b
IsBlock-put m p a v b h f i = record {
  start = i.start;
  aligned = i.aligned;
  big = i.big;
  round = i.round;
  header = ground (arith, get-put-Apart m a v (p - 4));
  footer = ground (arith, get-put-Apart m a v (p + b.size - 8));
}

pub Tiles-put :
    (m : Memory) (p e a v : ℕ) (bs : List Block)
    → a + 8 ≤ p
    → Tiles m p bs e
    → Tiles (put m a v) p bs e
Tiles-put m p e a v [] h t = t
Tiles-put m p e a v (b ∷ bs) h t = (
  IsBlock-put m p a v b (omega arith) (omega arith) t.0,
  Tiles-put m (p + b.size) e a v bs (omega arith) t.1,
)

pub Back-put :
    (m : Memory) (first q a v : ℕ) (ls : List Block)
    → q ≤ a + 4
    → Back m first q ls
    → Back (put m a v) first q ls
Back-put m first q a v [] h t = t
Back-put m first q a v (b ∷ ls) h t = (
  t.0,
  IsBlock-put m (q - b.size) a v b (omega arith) (omega arith) t.1,
  Back-put m first (q - b.size) a v ls (omega arith) t.2,
)

-- A write to the links of a free block leaves all blocks.
pub Tiles-put_link :
    (m : Memory) (p e x a v : ℕ) (bs : List Block)
    → (x + 16 ≤ p) ⊎ (free_at x p bs ≡ true)
    → x ≤ a
    → a ≤ x + 4
    → Tiles m p bs e
    → Tiles (put m a v) p bs e
Tiles-put_link m p e x a v [] f h g t = t
Tiles-put_link m p e x a v (b ∷ bs) f h g t = (
  IsBlock-put m p a v b (ground (arith, beside)) (ground (arith, beside)) t.0,
  Tiles-put_link m (p + b.size) e x a v bs (ground arith) h g t.1,
)
  where
    beside : (x ≡ p) ⊎ (x + 16 ≤ p) ⊎ (p + b.size ≤ x)
    beside = ground (arith, free_at_range m x (p + b.size) e bs t.1)

pub Back-put_link :
    (m : Memory) (first q x a v : ℕ) (ls : List Block)
    → (q ≤ x) ⊎ (free_back x q ls ≡ true)
    → x ≤ a
    → a ≤ x + 4
    → Back m first q ls
    → Back (put m a v) first q ls
Back-put_link m first q x a v [] f h g t = t
Back-put_link m first q x a v (b ∷ ls) f h g t = (
  t.0,
  IsBlock-put m (q - b.size) a v b (ground (arith, beside)) (ground (arith, beside)) t.1,
  Back-put_link m first (q - b.size) x a v ls (ground arith) h g t.2,
)
  where
    beside : (x ≡ q - b.size) ⊎ (x + 16 ≤ q - b.size) ⊎ (q ≤ x)
    beside = ground (arith, free_back_range m x first (q - b.size) ls t.2)
