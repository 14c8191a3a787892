-- ===== src/Mm/Zip/Remove.antt =====
-- `remove_node` of mm.c, seen from a place beside the block that it takes off the free list.
use malloc_lab.Base.{
  ℕ, ◌+◌, ◌-◌, ◌≤◌, ◌≡◌, sym, subst, ◌⊎◌, inl, inr, true, false, List, ◌∷◌, if◌then◌else◌, arith,
  Bool-cases,
}
use malloc_lab.Memory.{Memory, get, put}
use malloc_lab.Mm.{Heap, remove_node}
use malloc_lab.Mm.Macros.{truthy}
use malloc_lab.Mm.FreeList.{has, without, has-without, length-without}
use malloc_lab.Mm.FreeList.Remove.{
  unlinked, remove_node-bytes, remove_node-Links, remove_node-rover, Links-listed,
}
use malloc_lab.Mm.Layout.{Block, IsBlock, IsBlock-put, free_back_range, free_at_range}
use malloc_lab.Mm.Zip.{first, Space, Zip, node_bounds, Space-put_node}

pub remove_node-vm : (bp : ℕ) (h : Heap) → (remove_node bp h).vm ≡ h.vm
unfolding remove_node
remove_node-vm bp h = ground arith

-- What two writes at links of nodes keep.
module _ (P : Memory → Type 0) (Node : ℕ → Type 0)
    (keep : (m : Memory) (x a v : ℕ) → Node x → x ≤ a → a ≤ x + 4 → P m → P (put m a v)) where
  unlinked_keeps :
      (m : Memory) (b s : ℕ) → (b ≡ 0) ⊎ Node b → (s ≡ 0) ⊎ Node s → P m → P (unlinked m b s)
  unlinked_keeps m b s hb hs p = second (Bool-cases (truthy s)) hs
    where
      one : Memory
      one = if truthy b then put m (b + 4) s else m

      first_kept : (truthy b ≡ true) ⊎ (truthy b ≡ false) → (b ≡ 0) ⊎ Node b → P one
      first_kept (inl t) (inl e) = absurd (ground arith)
      first_kept (inl t) (inr n) = rw t (keep m b (b + 4) s n (omega arith) (omega arith) p)
      first_kept (inr f) _ = rw f p

      second : (truthy s ≡ true) ⊎ (truthy s ≡ false) → (s ≡ 0) ⊎ Node s → P (unlinked m b s)
      second (inl t) (inl e) = absurd (ground arith)
      second (inl t) (inr n) =
          rw t
            (keep one s s b n (omega arith) (omega arith) (first_kept (Bool-cases (truthy b)) hb))
      second (inr f) _ = rw f (first_kept (Bool-cases (truthy b)) hb)

module _ (h : Heap) (ls : List Block) (q r : ℕ) (rs : List Block) (xs : List ℕ)
    (z : Zip h ls q r rs xs) (x : ℕ) (listed : has x xs ≡ true) where
  ends :
      ((get h.bytes x ≡ 0) ⊎ (has (get h.bytes x) xs ≡ true))
      × ((get h.bytes (x + 4) ≡ 0) ⊎ (has (get h.bytes (x + 4)) xs ≡ true))
  ends = Links-listed h.bytes h.free_list_head x xs z.nodes.links listed

  removed-Space : Space (remove_node x h).vm (remove_node x h).bytes ls q r rs
  removed-Space = rw (remove_node-vm x h) (
      subst (λ m. Space h.vm m ls q r rs) (sym (remove_node-bytes x h))
        (unlinked_keeps (λ m. Space h.vm m ls q r rs) (λ y. has y xs ≡ true)
          (λ m y a v n lo hi s. Space-put_node s y a v (ground (arith, z.nodes.same y)) lo hi)
          h.bytes (get h.bytes x) (get h.bytes (x + 4)) ends.0 ends.1 z.space))

  -- A block in the place that is not looked at is not touched.
  pub removed-IsBlock :
      (p : ℕ) (b : Block)
      → q ≤ p
      → p + b.size ≤ r
      → IsBlock h.bytes p b
      → IsBlock (remove_node x h).bytes p b
  removed-IsBlock p b starts fits i =
      subst (λ m. IsBlock m p b) (sym (remove_node-bytes x h))
        (unlinked_keeps (λ m. IsBlock m p b) (λ y. has y xs ≡ true)
          (λ m y a v n lo hi j.
            let far = node_bounds z.space y (ground (arith, z.nodes.same y)) in
            IsBlock-put m p a v b (ground (arith, far, i.start, i.big))
              (ground (arith, far, i.start, i.big)) j)
          h.bytes (get h.bytes x) (get h.bytes (x + 4)) ends.0 ends.1 i)

-- The next block, a free one, leaves the list and the view.
pub remove_next :
    (h : Heap) (ls : List Block) (q r : ℕ) (d : Block) (rs : List Block) (xs : List ℕ)
    → Zip h ls q r (d ∷ rs) xs
    → d.alloc ≡ false
    → Zip (remove_node r h) ls q (r + d.size) rs (without r xs)
      × IsBlock (remove_node r h).bytes r d
remove_next h ls q r d rs xs z free = (
  record {
    space = record {
      framed = s.framed;
      back = s.back;
      fits = omega (arith, z.space.fits);
      tiles = s.tiles.1;
    };
    nodes = record {
      links = remove_node-Links r h xs z.nodes.links listed;
      same = λ y. ground (
        arith,
        z.nodes.same y,
        has-without h.bytes 0 h.free_list_head r y xs z.nodes.links,
        free_back_range h.bytes y (first h.vm) q ls z.space.back,
        free_at_range h.bytes y (r + d.size) h.vm.brk rs z.space.tiles.1,
        z.space.fits,
        z.space.tiles.0.big,
      );
      count = ground (arith, z.nodes.count, length-without r xs listed);
      roams = remove_node-rover r h xs z.nodes.links listed z.nodes.roams;
    };
  },
  s.tiles.0,
)
  where
    listed : has r xs ≡ true
    listed = ground (arith, z.nodes.same r)

    s : Space (remove_node r h).vm (remove_node r h).bytes ls q r (d ∷ rs)
    s = removed-Space h ls q r (d ∷ rs) xs z r listed

-- The block before, a free one, leaves the list and the view.
pub remove_prev :
    (h : Heap) (c : Block) (ls : List Block) (q r : ℕ) (rs : List Block) (xs : List ℕ)
    → Zip h (c ∷ ls) q r rs xs
    → c.alloc ≡ false
    → Zip (remove_node (q - c.size) h) ls (q - c.size) r rs (without (q - c.size) xs)
      × IsBlock (remove_node (q - c.size) h).bytes (q - c.size) c
remove_prev h c ls q r rs xs z free = (
  record {
    space = record {
      framed = s.framed;
      back = s.back.2;
      fits = omega (arith, z.space.fits);
      tiles = s.tiles;
    };
    nodes = record {
      links = remove_node-Links (q - c.size) h xs z.nodes.links listed;
      same = λ y. ground (
        arith,
        z.nodes.same y,
        has-without h.bytes 0 h.free_list_head (q - c.size) y xs z.nodes.links,
        free_back_range h.bytes y (first h.vm) (q - c.size) ls z.space.back.2,
        free_at_range h.bytes y r h.vm.brk rs z.space.tiles,
        z.space.fits,
        z.space.back.1.big,
        z.space.back.0,
      );
      count = ground (arith, z.nodes.count, length-without (q - c.size) xs listed);
      roams = remove_node-rover (q - c.size) h xs z.nodes.links listed z.nodes.roams;
    };
  },
  s.back.1,
)
  where
    listed : has (q - c.size) xs ≡ true
    listed = ground (arith, z.nodes.same (q - c.size))

    s : Space (remove_node (q - c.size) h).vm (remove_node (q - c.size) h).bytes (c ∷ ls) q r rs
    s = removed-Space h (c ∷ ls) q r rs xs z (q - c.size) listed
