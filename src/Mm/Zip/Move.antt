-- ===== src/Mm/Zip/Move.antt =====
-- Moving the place from which the heap of mm.c is seen, over a block and over all blocks.
use malloc_lab.Base.{
  ℕ, ◌+◌, ◌-◌, ◌≤◌, ◌≡◌, refl, subst, inl, inr, true, false, List, [], ◌∷◌, ◌&&◌, not, ◌==◌,
  reverse_aux, arith, Bool-cases,
}
use malloc_lab.Mm.{Heap}
use malloc_lab.Mm.FreeList.{has}
use malloc_lab.Mm.Layout.{Block, block, IsBlock, free_at}
use malloc_lab.Mm.Zip.{first, Zip}

-- The whole heap holds the blocks `bs`, and the free list the nodes `xs`.
abbrev pub IsHeap : Heap → List Block → List ℕ → Type 0
IsHeap h bs xs = Zip h [] (first h.vm) (first h.vm) bs xs

module _ {h : Heap} {ls : List Block} {q : ℕ} (b : Block) {rs : List Block} {xs : List ℕ} where
  pub move_right : Zip h ls q q (b ∷ rs) xs → Zip h (b ∷ ls) (q + b.size) (q + b.size) rs xs
  move_right z = record {
    space = record {
      framed = z.space.framed;
      back = (omega arith, rw back z.space.tiles.0, rw back z.space.back);
      fits = omega arith;
      tiles = z.space.tiles.1;
    };
    nodes = record {
      links = z.nodes.links;
      same = λ x. rw back (ground (arith, z.nodes.same x));
      count = omega (arith, z.nodes.count);
      roams = z.nodes.roams;
    };
  }
    where
      back : q + b.size - b.size ≡ q
      back = omega arith

  pub move_left : Zip h (b ∷ ls) q q rs xs → Zip h ls (q - b.size) (q - b.size) (b ∷ rs) xs
  move_left z = record {
    space = record {
      framed = z.space.framed;
      back = z.space.back.2;
      fits = omega arith;
      tiles = (z.space.back.1, rw forth z.space.tiles);
    };
    nodes = record {
      links = z.nodes.links;
      same = λ x. rw forth (ground (arith, z.nodes.same x));
      count = omega (arith, z.nodes.count);
      roams = z.nodes.roams;
    };
  }
    where
      forth : q - b.size + b.size ≡ q
      forth = omega (arith, z.space.back.0)

  -- An allocated block is left out of the view: it is on no list.
  pub leave_out : Zip h ls q q (b ∷ rs) xs → b.alloc ≡ true → Zip h ls q (q + b.size) rs xs
  leave_out z taken = record {
    space = record {
      framed = z.space.framed;
      back = z.space.back;
      fits = omega arith;
      tiles = z.space.tiles.1;
    };
    nodes = record {
      links = z.nodes.links;
      same = λ x. ground (arith, z.nodes.same x);
      count = ground (arith, z.nodes.count);
      roams = z.nodes.roams;
    };
  }

-- An allocated block joins the view.
pub take_in :
    {h : Heap} {ls : List Block} {q : ℕ} (n : ℕ) {rs : List Block} {xs : List ℕ}
    → Zip h ls q (q + n) rs xs
    → IsBlock h.bytes q (block n true)
    → Zip h ls q q (block n true ∷ rs) xs
take_in n z i = record {
  space = record {
    framed = z.space.framed;
    back = z.space.back;
    fits = omega arith;
    tiles = (i, z.space.tiles);
  };
  nodes = record {
    links = z.nodes.links;
    same = λ x. ground (arith, z.nodes.same x);
    count = omega (arith, z.nodes.count);
    roams = z.nodes.roams;
  };
}

-- An allocated block at the start of the place joins the blocks before it.
pub take_left :
    {h : Heap} {ls : List Block} {q r : ℕ} (n : ℕ) {rs : List Block} {xs : List ℕ}
    → Zip h ls q r rs xs
    → q + n ≤ r
    → IsBlock h.bytes q (block n true)
    → Zip h (block n true ∷ ls) (q + n) r rs xs
take_left {h} {ls} {q} n z fits i = record {
  space = record {
    framed = z.space.framed;
    back = (omega arith, rw back i, rw back z.space.back);
    fits = fits;
    tiles = z.space.tiles;
  };
  nodes = record {
    links = z.nodes.links;
    same = λ x. rw back (ground (arith, z.nodes.same x));
    count = omega (arith, z.nodes.count);
    roams = z.nodes.roams;
  };
}
  where
    back : q + n - n ≡ q
    back = omega arith

pub rewind :
    (h : Heap) (ls : List Block) (q : ℕ) (rs : List Block) (xs : List ℕ)
    → Zip h ls q q rs xs
    → IsHeap h (reverse_aux ls rs) xs
rewind h [] q rs xs z = subst (λ t. Zip h [] t t rs xs) z.space.back z
rewind h (b ∷ ls) q rs xs z = rewind h ls (q - b.size) (b ∷ rs) xs (move_left b z)

-- The place behind all blocks.
pub to_end :
    (h : Heap) (ls : List Block) (q : ℕ) (rs : List Block) (xs : List ℕ)
    → Zip h ls q q rs xs
    → Zip h (reverse_aux rs ls) h.vm.brk h.vm.brk [] xs
to_end h ls q [] xs z = subst (λ t. Zip h ls t t [] xs) z.space.tiles z
to_end h ls q (b ∷ rs) xs z = to_end h (b ∷ ls) (q + b.size) rs xs (move_right b z)

abbrev pub total : List Block → ℕ
total [] = 0
total (b ∷ bs) = b.size + total bs

-- The place behind the blocks `ls`.
pub wind :
    (h : Heap) (ls rs : List Block) (xs : List ℕ)
    → IsHeap h (reverse_aux ls rs) xs
    → Zip h ls (first h.vm + total ls) (first h.vm + total ls) rs xs
wind h [] rs xs z =
    subst (λ t. Zip h [] t t rs xs) (let e : first h.vm ≡ first h.vm + 0 = omega arith in e) z
wind h (b ∷ ls) rs xs z =
    subst (λ t. Zip h (b ∷ ls) t t rs xs)
      (let e : first h.vm + total ls + b.size ≡ first h.vm + (b.size + total ls) = omega arith in e)
      (move_right b (wind h ls (b ∷ rs) xs z))

-- Where a node is: its block is free, and the blocks before it and behind it are known.
pub record Located (h : Heap) (x : ℕ) (bs : List Block) (xs : List ℕ) : Type 0 where
  pub before : List Block
  pub here : Block
  pub behind : List Block
  pub free : here.alloc ≡ false
  pub split : bs ≡ reverse_aux before (here ∷ behind)
  pub zip : Zip h before x x (here ∷ behind) xs

locate_right :
    (h : Heap) (x : ℕ) (ls : List Block) (q : ℕ) (rs : List Block) (xs : List ℕ)
    → free_at x q rs ≡ true
    → Zip h ls q q rs xs
    → Located h x (reverse_aux ls rs) xs
locate_right h x ls q [] xs f z = cc
locate_right h x ls q (b ∷ rs) xs f z = elim (Bool-cases ((x == q) && not b.alloc)) [
  | inl here ↦ record {
    before = ls;
    here = b;
    behind = rs;
    free = ground arith;
    split = refl;
    zip = let e : q ≡ x = ground arith in subst (λ t. Zip h ls t t (b ∷ rs) xs) e z;
  }
  | inr there ↦ locate_right h x (b ∷ ls) (q + b.size) rs xs (ground arith) (move_right b z)
]

-- Each node of the free list is a free block of the heap.
pub locate :
    (h : Heap) (x : ℕ) (bs : List Block) (xs : List ℕ)
    → has x xs ≡ true
    → IsHeap h bs xs
    → Located h x bs xs
locate h x bs xs i z = locate_right h x [] (first h.vm) bs xs (ground (arith, z.nodes.same x)) z
