-- ===== src/Mm/Payload.antt =====
-- The client of mm.c writes to the payloads of its blocks: no tag and no link of a free block
-- stands there.
use malloc_lab.Base.{ℕ, ◌+◌, ◌-◌, ◌≤◌, ◌≡◌, refl, ◌∙◌, true, List, [], ◌∷◌, arith}
use malloc_lab.Memory.{Memory, get, Apart}
use malloc_lab.Mm.{Heap, write}
use malloc_lab.Mm.FreeList.{Clear, Links}
use malloc_lab.Mm.Layout.{Block, block, IsBlock, Tiles, Back}
use malloc_lab.Mm.Zip.{Zip, first, Space_range, Clear-of_nodes}
use malloc_lab.Mm.Zip.Move.{leave_out, take_in}

-- The memories agree but for the `n` bytes from `a` on.
abbrev pub Outside : Memory → Memory → ℕ → ℕ → Type 0
Outside m k a n = (b : ℕ) → Apart a n b 1 → k b ≡ m b

module _ (m k : Memory) (a n : ℕ) (out : Outside m k a n) where
  pub get-Outside : (p : ℕ) → Apart a n p 4 → get k p ≡ get m p
  unfolding get
  get-Outside p h = ground (arith, out p, out (p + 1), out (p + 2), out (p + 3))

  pub IsBlock-Outside :
      (p : ℕ) (b : Block)
      → Apart a n (p - 4) 4
      → Apart a n (p + b.size - 8) 4
      → IsBlock m p b
      → IsBlock k p b
  IsBlock-Outside p b h g i = record {
    start = i.start;
    aligned = i.aligned;
    big = i.big;
    round = i.round;
    header = get-Outside (p - 4) h ∙ i.header;
    footer = get-Outside (p + b.size - 8) g ∙ i.footer;
  }

  Tiles-Outside : (p e : ℕ) (bs : List Block) → a + n + 4 ≤ p → Tiles m p bs e → Tiles k p bs e
  Tiles-Outside p e [] h t = t
  Tiles-Outside p e (b ∷ bs) h t = (
    IsBlock-Outside p b (omega arith) (omega (arith, t.0.big)) t.0,
    Tiles-Outside (p + b.size) e bs (omega arith) t.1,
  )

  Back-Outside : (lo q : ℕ) (ls : List Block) → q ≤ a + 4 → Back m lo q ls → Back k lo q ls
  Back-Outside lo q [] h t = t
  Back-Outside lo q (b ∷ ls) h t = (
    t.0,
    IsBlock-Outside (q - b.size) b (omega (arith, t.0, t.1.big)) (omega (arith, t.0, t.1.big)) t.1,
    Back-Outside lo (q - b.size) ls (omega arith) t.2,
  )

  Links-Outside : (pred p : ℕ) (xs : List ℕ) → Clear a n xs → Links m pred p xs → Links k pred p xs
  Links-Outside pred p [] c l = l
  Links-Outside pred p (x ∷ xs) c l = (
    l.0,
    l.1,
    l.2,
    get-Outside x (omega (arith, c.0)) ∙ l.3,
    l.4,
    rw (get-Outside (x + 4) (omega (arith, c.0))) (Links-Outside x (get m (x + 4)) xs c.1 l.5),
  )

-- What changes in the place that is not looked at.
module _ {h : Heap} {ls : List Block} {q r : ℕ} {rs : List Block} {xs : List ℕ}
    (z : Zip h ls q r rs xs) (k : Memory) (a n : ℕ) (lo : q ≤ a + 4) (hi : a + n + 4 ≤ r)
    (out : Outside h.bytes k a n) where
  Zip-Outside : Zip (write h k) ls q r rs xs
  Zip-Outside = record {
    space = record {
      framed = record {
        aligned = z.space.framed.aligned;
        within = z.space.framed.within;
        top = z.space.framed.top;
        prologue_header =
            get-Outside h.bytes k a n out (h.vm.start_brk + 4) (omega (arith, Space_range z.space))
            ∙ z.space.framed.prologue_header;
        prologue_footer =
            get-Outside h.bytes k a n out (h.vm.start_brk + 8) (omega (arith, Space_range z.space))
            ∙ z.space.framed.prologue_footer;
        epilogue =
            get-Outside h.bytes k a n out (h.vm.brk - 4) (omega (arith, Space_range z.space))
            ∙ z.space.framed.epilogue;
      };
      back = Back-Outside h.bytes k a n out (first h.vm) q ls lo z.space.back;
      fits = z.space.fits;
      tiles = Tiles-Outside h.bytes k a n out r h.vm.brk rs hi z.space.tiles;
    };
    nodes = record {
      links =
          Links-Outside h.bytes k a n out 0 h.free_list_head xs
            (Clear-of_nodes z.space a n xs (omega arith) (omega arith)
              λ x i. ground (arith, z.nodes.same x))
            z.nodes.links;
      same = z.nodes.same;
      count = z.nodes.count;
      roams = z.nodes.roams;
    };
  }

-- A write to the payload of an allocated block.
pub payload-Zip :
    (h : Heap) (ls : List Block) (q n : ℕ) (rs : List Block) (xs : List ℕ) (k : Memory) (a len : ℕ)
    → Zip h ls q q (block n true ∷ rs) xs
    → q ≤ a
    → a + len + 8 ≤ q + n
    → Outside h.bytes k a len
    → Zip (write h k) ls q q (block n true ∷ rs) xs
payload-Zip h ls q n rs xs k a len z lo hi out =
    take_in n
      (Zip-Outside (leave_out (block n true) z refl) k a len (omega arith) (omega arith) out)
      (IsBlock-Outside h.bytes k a len out q (block n true) (omega (arith, z.space.tiles.0.start))
        (omega arith) z.space.tiles.0)
