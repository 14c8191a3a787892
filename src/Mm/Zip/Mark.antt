-- ===== src/Mm/Zip/Mark.antt =====
-- Writing the header and the footer of the block that the view leaves out.
use malloc_lab.Base.{ℕ, ◌+◌, ◌-◌, ◌%◌, ◌≤◌, ◌<◌, ◌≡◌, sym, subst, Bool, List, arith}
use malloc_lab.Memory.{Memory, get, put, get-put, get-put-Apart}
use malloc_lab.Mm.{Heap, write, mark}
use malloc_lab.Mm.Tags.{pack_tag, get_size_tag}
use malloc_lab.Mm.FreeList.{Links-put}
use malloc_lab.Mm.Layout.{Block, block, bit, IsBlock, Back-aligned}
use malloc_lab.Mm.Zip.{first, Zip, Space_range, Space-put, Clear-of_nodes}

module _ {h : Heap} {ls : List Block} {q r : ℕ} {rs : List Block} {xs : List ℕ}
    (z : Zip h ls q r rs xs) where
  -- Any write to the place that is not looked at.
  pub Zip-put : (a v : ℕ) → q ≤ a + 4 → a + 8 ≤ r → Zip (write h (put h.bytes a v)) ls q r rs xs
  Zip-put a v lo hi = record {
    space = Space-put z.space a v lo hi;
    nodes = record {
      links =
          Links-put h.bytes a v 0 h.free_list_head xs
            (Clear-of_nodes z.space a 4 xs (omega arith) (omega arith)
              λ x i. ground (arith, z.nodes.same x))
            z.nodes.links;
      same = z.nodes.same;
      count = z.nodes.count;
      roams = z.nodes.roams;
    };
  }

  pub place_bounds : (16 ≤ q) × (q % 8 ≡ 0) × (r < 0x1_0000_0000)
  place_bounds = (
    omega (arith, Space_range z.space),
    Back-aligned h.bytes (first h.vm) q ls z.space.back (omega (arith, z.space.framed.aligned)),
    omega (arith, Space_range z.space, z.space.framed.within, z.space.framed.top),
  )

-- The memory with both tags.
abbrev pub tagged : Memory → ℕ → ℕ → Bool → Memory
tagged m q n a = put (put m (q - 4) (n + bit a)) (q + n - 8) (n + bit a)

pub mark-bytes :
    (h : Heap) (q n : ℕ) (a : Bool)
    → n % 8 ≡ 0
    → n + 8 ≤ 0x1_0000_0000
    → mark q n (bit a) h ≡ write h (tagged h.bytes q n a)
mark-bytes h q n a r low =
    rw (pack_tag n a r, get_size_tag (put h.bytes (q - 4) (n + bit a)) (q - 4) n a back r low)
  where
    back : get (put h.bytes (q - 4) (n + bit a)) (q - 4) ≡ n + bit a
    back = get-put h.bytes (q - 4) (n + bit a) (ground arith)

-- The block is marked at the start of the place, which may be larger.
pub mark-Zip :
    {h : Heap} {ls : List Block} {q r : ℕ} (n : ℕ) (a : Bool) {rs : List Block} {xs : List ℕ}
    → Zip h ls q r rs xs
    → q + n ≤ r
    → 16 ≤ n
    → n % 8 ≡ 0
    → Zip (mark q n (bit a) h) ls q r rs xs × IsBlock (mark q n (bit a) h).bytes q (block n a)
mark-Zip {h} {ls} {q} {r} n a {rs} {xs} z fits big round =
    subst (λ k. Zip k ls q r rs xs × IsBlock k.bytes q (block n a))
      (sym (mark-bytes h q n a round (omega (arith, bounds))))
      (
        Zip-put (Zip-put z (q - 4) (n + bit a) (omega (arith, bounds)) (omega (arith, bounds)))
            (q + n - 8) (n + bit a) (omega arith) (omega (arith, bounds)),
        record {
          start = omega (arith, bounds);
          aligned = omega (arith, bounds);
          big = big;
          round = round;
          header = ground (
            arith,
            bounds,
            get-put-Apart (put h.bytes (q - 4) (n + bit a)) (q + n - 8) (n + bit a) (q - 4),
            get-put h.bytes (q - 4) (n + bit a),
          );
          footer =
              ground
                (arith, bounds, get-put (put h.bytes (q - 4) (n + bit a)) (q + n - 8) (n + bit a));
        },
      )
  where
    bounds : (16 ≤ q) × (q % 8 ≡ 0) × (r < 0x1_0000_0000)
    bounds = place_bounds z
