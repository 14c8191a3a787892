-- ===== src/Mm/Live/Free.antt =====
-- What `mm_free` of mm.c does to the allocated blocks.
use malloc_lab.Base.{
  ℕ, ◌+◌, ◌-◌, ◌≡◌, refl, sym, ap, ◌∙◌, subst, true, false, Bool-cases, inl, inr, List, [], ◌∷◌,
  ◌++◌, append-nil, append_assoc, ◌≢◌, arith, if◌then◌else◌,
}
use malloc_lab.Mm.{Heap, mm_free}
use malloc_lab.Mm.Layout.{Block, block}
use malloc_lab.Mm.Zip.{Zip, first}
use malloc_lab.Mm.Zip.Move.{IsHeap, rewind, move_right}
use malloc_lab.Mm.Coalesce.{absorbed, beyond}
use malloc_lab.Mm.Free.{mm_free-Zip, freed_blocks, freed_nodes}
use malloc_lab.Mm.Live.{
  Live, live, live_back, live_back-++, Zip-live, beyond_live, beyond_behind, absorbed_low,
}

-- Where an allocated block is in the heap.
pub record Found (h : Heap) (p n : ℕ) (low high : Live) (xs : List ℕ) : Type 0 where
  pub before : List Block
  pub behind : List Block
  pub zip : Zip h before p p (block n true ∷ behind) xs
  pub lows : live_back p before [] ≡ low
  pub highs : live (p + n) behind ≡ high

-- The blocks before the next one.
live_back_next :
    (q : ℕ) (b : Block) (ls : List Block)
    → live_back (q + b.size) (b ∷ ls) []
      ≡ live_back q ls [] ++ (if b.alloc then (q, b.size) ∷ [] else [])
live_back_next q b ls =
    ap (λ r. live_back r ls (if b.alloc then (r, b.size) ∷ [] else []))
      (let e : q + b.size - b.size ≡ q = omega arith in e)
    ∙ live_back-++ q ls (if b.alloc then (q, b.size) ∷ [] else [])

nothing : (low high : Live) (x : ℕ × ℕ) → [] ≢ low ++ (x ∷ high)
nothing [] high x = λ e. cc
nothing (y ∷ low) high x = λ e. cc

module _ {A : Type 0} {x y : A} {xs ys : List A} (e : (x ∷ xs) ≡ (y ∷ ys)) where
  head_of : x ≡ y
  head_of = cc

  tail_of : xs ≡ ys
  tail_of = cc

Found-here :
    (h : Heap) (p n : ℕ) (high : Live) (ls : List Block) (q : ℕ) (b : Block) (rs : List Block)
    (xs : List ℕ)
    → Zip h ls q q (b ∷ rs) xs
    → b.alloc ≡ true
    → (q, b.size) ∷ live (q + b.size) rs ≡ (p, n) ∷ high
    → Found h p n (live_back q ls [] ++ []) high xs
Found-here h p n high ls q b rs xs z t e = record {
  before = ls;
  behind = rs;
  zip =
      subst (λ r. Zip h ls r r (block n true ∷ rs) xs) at
        (subst (λ c. Zip h ls q q (c ∷ rs) xs) same z);
  lows = ap (λ r. live_back r ls []) (sym at) ∙ sym (append-nil (live_back q ls []));
  highs =
      ap (λ r. live r rs) (let e' : p + n ≡ q + b.size = omega (arith, at, size) in e') ∙ tail_of e;
}
  where
    at : q ≡ p
    at = ap (λ k. k.0) (head_of e)

    size : b.size ≡ n
    size = ap (λ k. k.1) (head_of e)

    same : b ≡ block n true
    same = ap (λ m. block m b.alloc) size ∙ ap (block n) t

pub find_right :
    (h : Heap) (p n : ℕ) (high : Live) (ls : List Block) (q : ℕ) (rs : List Block) (xs : List ℕ)
    (low : Live)
    → Zip h ls q q rs xs
    → live q rs ≡ low ++ ((p, n) ∷ high)
    → Found h p n (live_back q ls [] ++ low) high xs
find_right h p n high ls q [] xs low z e = absurd (nothing low high (p, n) e)
find_right h p n high ls q (b ∷ rs) xs [] z e = elim (Bool-cases b.alloc) [
  | inl t ↦ Found-here h p n high ls q b rs xs z t (rw t at e)
  | inr f ↦
      subst (λ l. Found h p n l high xs)
        (ap (λ l. l ++ []) (live_back_next q b ls ∙ rw f refl)
          ∙ append_assoc (live_back q ls []) [] [])
        (find_right h p n high (b ∷ ls) (q + b.size) rs xs [] (move_right b z) (rw f at e))
]
find_right h p n high ls q (b ∷ rs) xs (x ∷ low) z e = elim (Bool-cases b.alloc) [
  | inl t ↦
      let e' : (q, b.size) ∷ live (q + b.size) rs ≡ x ∷ (low ++ ((p, n) ∷ high)) = rw t at e in
      subst (λ l. Found h p n l high xs)
        (ap (λ l. l ++ low) (live_back_next q b ls ∙ rw t refl)
          ∙ append_assoc (live_back q ls []) ((q, b.size) ∷ []) low
          ∙ ap (λ y. live_back q ls [] ++ (y ∷ low)) (head_of e'))
        (find_right h p n high (b ∷ ls) (q + b.size) rs xs low (move_right b z) (tail_of e'))
  | inr f ↦
      subst (λ l. Found h p n l high xs)
        (ap (λ l. l ++ (x ∷ low)) (live_back_next q b ls ∙ rw f refl)
          ∙ append_assoc (live_back q ls []) [] (x ∷ low))
        (find_right h p n high (b ∷ ls) (q + b.size) rs xs (x ∷ low) (move_right b z) (rw f at e))
]

-- After `mm_free` the heap is well formed, and the block is no longer among the allocated ones.
pub record Freed (h : Heap) (p : ℕ) (low high : Live) : Type 0 where
  pub blocks : List Block
  pub nodes : List ℕ
  pub heap : IsHeap (mm_free p h) blocks nodes
  pub live_after : live (first (mm_free p h).vm) blocks ≡ low ++ high

pub Found-Freed :
    (h : Heap) (p n : ℕ) (low high : Live) (xs : List ℕ)
    → Found h p n low high xs
    → Freed h p low high
Found-Freed h p n low high xs f = record {
  blocks = freed_blocks f.before n f.behind;
  nodes = freed_nodes f.before p n f.behind xs;
  heap = rewind _ _ _ _ _ after;
  live_after =
      Zip-live _ _ _ _ _ after
      ∙ ap
          (λ l.
            l
            ++ live (p - absorbed f.before + (absorbed f.before + n + absorbed f.behind))
                (beyond f.behind))
          (beyond_live p f.before ∙ f.lows)
      ∙ ap (λ r. low ++ live r (beyond f.behind)) end
      ∙ ap (λ l. low ++ l) (beyond_behind (p + n) f.behind ∙ f.highs);
}
  where
    after :
        Zip
          (mm_free p h)
          (beyond f.before)
          (p - absorbed f.before)
          (p - absorbed f.before)
          (block (absorbed f.before + n + absorbed f.behind) false ∷ beyond f.behind)
          (freed_nodes f.before p n f.behind xs)
    after = mm_free-Zip h f.before p (block n true) f.behind xs f.zip refl

    end :
        p - absorbed f.before + (absorbed f.before + n + absorbed f.behind)
        ≡ p + n + absorbed f.behind
    end = omega (arith, absorbed_low h.bytes (first h.vm) p f.before f.zip.space.back)

-- `mm_free` of any allocated block of a well-formed heap leaves a well-formed heap, with the
-- other allocated blocks and no more.
pub mm_free-Freed :
    (h : Heap) (bs : List Block) (xs : List ℕ) (p n : ℕ) (low high : Live)
    → IsHeap h bs xs
    → live (first h.vm) bs ≡ low ++ ((p, n) ∷ high)
    → Freed h p low high
mm_free-Freed h bs xs p n low high z e =
    Found-Freed h p n low high xs (find_right h p n high [] (first h.vm) bs xs low z e)
