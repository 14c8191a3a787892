-- ===== src/Mm/Live/In.antt =====
-- An allocated block of the heap, and where the other blocks are.
use malloc_lab.Base.{
  ℕ, ◌+◌, ◌-◌, ◌≤◌, ◌≡◌, refl, sym, ap, subst, ◌⊎◌, inl, inr, true, false, reverse_aux, List, [],
  ◌∷◌, ◌++◌, arith, if◌then◌else◌, Bool-cases,
}
use malloc_lab.Memory.{Memory}
use malloc_lab.Mm.{Heap}
use malloc_lab.Mm.FreeList.{Clear}
use malloc_lab.Mm.Layout.{Block, block, Tiles, Back}
use malloc_lab.Mm.Zip.{Zip, first, Clear-of_nodes}
use malloc_lab.Mm.Zip.Move.{IsHeap, leave_out}
use malloc_lab.Mm.Coalesce.{absorbed, beyond}
use malloc_lab.Mm.Live.{Live, live, live_back, Zip-live, beyond_live, beyond_behind}
use malloc_lab.Mm.Live.Free.{find_right}

abbrev pub In : ℕ → ℕ → Live → Type 0
In p n [] = ⊥
In p n (x ∷ l) = ((p ≡ x.0) × (n ≡ x.1)) ⊎ In p n l

pub In-++ : (p n : ℕ) (l k : Live) → In p n (l ++ k) → In p n l ⊎ In p n k
In-++ p n [] k i = inr i
In-++ p n (x ∷ l) k (inl e) = inl (inl e)
In-++ p n (x ∷ l) k (inr i) = ground (arith, In-++ p n l k i)

pub found_cut :
    (p n : ℕ) (l : Live) → In p n l → (low : Live) × (high : Live) × (l ≡ low ++ ((p, n) ∷ high))
found_cut p n [] i = absurd i
found_cut p n (x ∷ l) (inl e) = ([], l, ap (λ y. y ∷ l) (let same : x ≡ (p, n) = cc in same))
found_cut p n (x ∷ l) (inr i) =
    let (low, high, e) = found_cut p n l i in (x ∷ low, high, ap (λ k. x ∷ k) e)

In-live_back :
    (m : Memory) (lo q : ℕ) (ls : List Block) (acc : Live) (p n : ℕ)
    → Back m lo q ls
    → In p n (live_back q ls acc)
    → (p + n ≤ q) ⊎ In p n acc
In-live_back m lo q [] acc p n b i = inr i
In-live_back m lo q (b ∷ ls) acc p n back i = ground (
  arith,
  In-live_back m lo (q - b.size) ls (if b.alloc then (q - b.size, b.size) ∷ acc else acc) p n back.2
      i,
  back.0,
)

In-live :
    (m : Memory) (r e : ℕ) (rs : List Block) (p n : ℕ) → Tiles m r rs e → In p n (live r rs) → r ≤ p
In-live m r e [] p n t i = absurd i
In-live m r e (b ∷ rs) p n t i = ground (arith, In-live m (r + b.size) e rs p n t.1)

Back-beyond :
    (m : Memory) (lo q : ℕ) (ls : List Block)
    → Back m lo q ls
    → Back m lo (q - absorbed ls) (beyond ls)
Back-beyond m lo q [] b = ground arith
Back-beyond m lo q (b ∷ ls) back = elim (Bool-cases b.alloc) [
  | inl a ↦
      subst (λ t. Back m lo (q - (if t then 0 else b.size)) (if t then b ∷ ls else ls)) (sym a)
        (subst (λ r. Back m lo r (b ∷ ls)) (let e : q ≡ q - 0 = omega arith in e) back)
  | inr f ↦ rw f back.2
]

Tiles-beyond :
    (m : Memory) (r e : ℕ) (rs : List Block)
    → Tiles m r rs e
    → Tiles m (r + absorbed rs) (beyond rs) e
Tiles-beyond m r e [] t = ground arith
Tiles-beyond m r e (b ∷ rs) t = elim (Bool-cases b.alloc) [
  | inl a ↦
      subst (λ t. Tiles m (r + (if t then 0 else b.size)) (if t then b ∷ rs else rs) e) (sym a)
        (subst (λ q. Tiles m q (b ∷ rs) e) (let same : r ≡ r + 0 = omega arith in same) t)
  | inr f ↦ rw f t.1
]

-- An allocated block on one side of a place does not overlap the free block next to the place.
pub found_before :
    (m : Memory) (lo q : ℕ) (ls : List Block) (p n : ℕ)
    → Back m lo q ls
    → In p n (live_back q ls [])
    → p + n ≤ q - absorbed ls
found_before m lo q ls p n b i =
    elim (In-live_back m lo (q - absorbed ls) (beyond ls) [] p n (Back-beyond m lo q ls b)
      (subst (In p n) (sym (beyond_live q ls)) i)) [ inl le ↦ le | inr none ↦ absurd none ]

pub found_behind :
    (m : Memory) (r e : ℕ) (rs : List Block) (p n : ℕ)
    → Tiles m r rs e
    → In p n (live r rs)
    → r + absorbed rs ≤ p
found_behind m r e rs p n t i =
    In-live m (r + absorbed rs) e (beyond rs) p n (Tiles-beyond m r e rs t)
      (subst (In p n) (sym (beyond_behind r rs)) i)

-- The payload of an allocated block is clear of the free list.
pub In-Clear :
    (h : Heap) (bs : List Block) (xs : List ℕ) (p n : ℕ)
    → IsHeap h bs xs
    → In p n (live (first h.vm) bs)
    → (16 ≤ n) × Clear p (n - 8) xs
In-Clear h bs xs p n z i =
    let (low, high, e) = found_cut p n (live (first h.vm) bs) i in
    let f = find_right h p n high [] (first h.vm) bs xs low z e in
    (
      f.zip.space.tiles.0.big,
      Clear-of_nodes (leave_out (block n true) f.zip refl).space p (n - 8) xs (omega arith)
          (omega (arith, f.zip.space.tiles.0.big))
          λ x on. ground (arith, (leave_out (block n true) f.zip refl).nodes.same x),
    )

-- A free block does not overlap an allocated one.
pub found_beside :
    (h : Heap) (ls : List Block) (q : ℕ) (b : Block) (rs : List Block) (xs : List ℕ) (p n : ℕ)
    → Zip h ls q q (b ∷ rs) xs
    → b.alloc ≡ false
    → In p n (live (first h.vm) (reverse_aux ls (b ∷ rs)))
    → (p + n ≤ q) ⊎ (q + b.size ≤ p)
found_beside h ls q b rs xs p n z free i =
    elim (In-++ p n (live_back q ls []) (live q (b ∷ rs))
      (subst (In p n) (Zip-live h ls q (b ∷ rs) xs z) i)) [
        | inl low ↦ inl (omega (arith, found_before h.bytes (first h.vm) q ls p n z.space.back low))
        | inr high ↦ inr (
            omega (
              arith,
              found_behind h.bytes (q + b.size) h.vm.brk rs p n z.space.tiles.1 (rw free at high),
            ))
      ]
