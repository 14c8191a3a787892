-- ===== src/Mm/Live.antt =====
-- The abstract view of the heap of mm.c: the allocated blocks, with their sizes, in the order of
-- their addresses. It forgets the free blocks, the tags and the free list.
pub mod Beside
pub mod First
pub mod Free
pub mod In
pub mod Inserts
pub mod Keeps
pub mod Malloc
pub mod Move
pub mod Represents
mod Tests
use malloc_lab.Base.{
  ℕ, ◌+◌, ◌-◌, ◌%◌, ◌≤◌, ◌≡◌, refl, sym, ap, ◌∙◌, subst, Bool, true, false, List, [], ◌∷◌, ◌++◌,
  reverse_aux, append_assoc, arith, if◌then◌else◌, Bool-cases, inl, inr,
}
use malloc_lab.Memory.{Memory}
use malloc_lab.Mm.{Heap}
use malloc_lab.Mm.Layout.{Block, block, IsBlock, Tiles, Back}
use malloc_lab.Mm.Zip.{Zip, first}
use malloc_lab.Mm.Coalesce.{absorbed, beyond}
use malloc_lab.Mm.Zip.Move.{IsHeap, total}

abbrev pub Live : Type 0
Live = List (ℕ × ℕ)

abbrev pub live : ℕ → List Block → Live
live q [] = []
live q (b ∷ bs) = let rest = live (q + b.size) bs in if b.alloc then (q, b.size) ∷ rest else rest

-- The allocated blocks before `q`.
abbrev pub live_back : ℕ → List Block → Live → Live
live_back q [] acc = acc
live_back q (b ∷ ls) acc =
    live_back (q - b.size) ls (if b.alloc then (q - b.size, b.size) ∷ acc else acc)

-- One more block among them.
pub record Adds (x : ℕ × ℕ) (l l' : Live) : Type 0 where
  pub low : Live
  pub high : Live
  pub before : l ≡ low ++ high
  pub after : l' ≡ low ++ (x ∷ high)

pub Back-total : (m : Memory) (p q : ℕ) (ls : List Block) → Back m p q ls → q ≡ p + total ls
Back-total m p q [] h = omega arith
Back-total m p q (b ∷ ls) h = omega (arith, Back-total m p (q - b.size) ls h.2)

live-reverse :
    (m : Memory) (p q : ℕ) (ls rs : List Block)
    → Back m p q ls
    → live p (reverse_aux ls rs) ≡ live_back q ls (live q rs)
live-reverse m p q [] rs h = ap (λ t. live t rs) (sym h)
live-reverse m p q (b ∷ ls) rs h =
    live-reverse m p (q - b.size) ls (b ∷ rs) h.2
    ∙ ap
        (λ t.
          live_back (q - b.size) ls
            (if b.alloc then (q - b.size, b.size) ∷ live t rs else live t rs))
        (let e : q - b.size + b.size ≡ q = omega (arith, h.0) in e)

live_back-++ :
    (q : ℕ) (ls : List Block) (acc : Live) → live_back q ls acc ≡ live_back q ls [] ++ acc
live_back-++ q [] acc = refl
live_back-++ q (b ∷ ls) acc = elim (Bool-cases b.alloc) [
  | inl t ↦ rw t (
      live_back-++ (q - b.size) ls ((q - b.size, b.size) ∷ acc)
      ∙ sym (append_assoc (live_back (q - b.size) ls []) ((q - b.size, b.size) ∷ []) acc)
      ∙ ap (λ l. l ++ acc) (sym (live_back-++ (q - b.size) ls ((q - b.size, b.size) ∷ []))))
  | inr f ↦ rw f (live_back-++ (q - b.size) ls acc)
]

-- The allocated blocks of the two sides.
pub Zip-live :
    (h : Heap) (ls : List Block) (q : ℕ) (rs : List Block) (xs : List ℕ)
    → Zip h ls q q rs xs
    → live (first h.vm) (reverse_aux ls rs) ≡ live_back q ls [] ++ live q rs
Zip-live h ls q rs xs z =
    live-reverse h.bytes (first h.vm) q ls rs z.space.back ∙ live_back-++ q ls (live q rs)

-- A free neighbour that is merged is not among them.
pub beyond_live :
    (q : ℕ) (ls : List Block) → live_back (q - absorbed ls) (beyond ls) [] ≡ live_back q ls []
beyond_live q [] = refl
beyond_live q (b ∷ ls) = elim (Bool-cases b.alloc) [
  | inl t ↦ rw t (
      ap (λ r. live_back (r - b.size) ls ((r - b.size, b.size) ∷ []))
        (let e : q - 0 ≡ q = omega arith in e))
  | inr f ↦ rw f refl
]

pub beyond_end :
    (m : Memory) (p q : ℕ) (ls : List Block)
    → Back m p q ls
    → p + total (beyond ls) ≡ q - absorbed ls
beyond_end m p q [] b = omega arith
beyond_end m p q (b ∷ ls) back = ground (arith, Back-total m p (q - b.size) ls back.2, back.0)

pub beyond_behind : (r : ℕ) (rs : List Block) → live (r + absorbed rs) (beyond rs) ≡ live r rs
beyond_behind r [] = refl
beyond_behind r (b ∷ rs) = elim (Bool-cases b.alloc) [
  | inl t ↦
      rw t (ap (λ q. (q, b.size) ∷ live (q + b.size) rs) (let e : r + 0 ≡ r = omega arith in e))
  | inr f ↦ rw f refl
]

pub absorbed_low : (m : Memory) (p q : ℕ) (ls : List Block) → Back m p q ls → absorbed ls ≤ q
absorbed_low m p q [] back = omega arith
absorbed_low m p q (b ∷ ls) back = ground (arith, back.0)

-- Blocks one behind the other between two addresses, aligned and of at least 16 bytes.
abbrev pub IsApart : ℕ → Live → ℕ → Type 0
IsApart lo [] hi = lo ≤ hi
IsApart lo (x ∷ l) hi = (lo ≤ x.0) × (x.0 % 8 ≡ 0) × (16 ≤ x.1) × IsApart (x.0 + x.1) l hi

IsApart-lower : (lo q : ℕ) (l : Live) (hi : ℕ) → lo ≤ q → IsApart q l hi → IsApart lo l hi
IsApart-lower lo q [] hi le h = omega arith
IsApart-lower lo q (x ∷ l) hi le h = (omega (arith, h.0), h.1, h.2, h.3)

live-IsApart-Tiles :
    (m : Memory) (q : ℕ) (bs : List Block) (hi : ℕ) → Tiles m q bs hi → IsApart q (live q bs) hi
live-IsApart-Tiles m q [] hi t = omega arith
live-IsApart-Tiles m q (b ∷ bs) hi t = elim (Bool-cases b.alloc) [
  | inl a ↦ rw a (omega arith, t.0.aligned, t.0.big, live-IsApart-Tiles m (q + b.size) bs hi t.1)
  | inr f ↦ rw f (
      IsApart-lower q (q + b.size) _ hi (omega arith) (live-IsApart-Tiles m (q + b.size) bs hi t.1))
]

-- The allocated blocks of a well-formed heap lie in it, start at multiples of 8, and no two of
-- them overlap.
pub live-IsApart :
    (h : Heap) (bs : List Block) (xs : List ℕ)
    → IsHeap h bs xs
    → IsApart (first h.vm) (live (first h.vm) bs) h.vm.brk
live-IsApart h bs xs z = live-IsApart-Tiles h.bytes (first h.vm) bs h.vm.brk z.space.tiles
