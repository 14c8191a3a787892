-- ===== src/Mm/Extend.antt =====
-- `extend_heap` of mm.c: new bytes behind the heap become a free block, which takes in a free block
-- before it.
use malloc_lab.Base.{
  ℕ, ◌+◌, ◌-◌, ◌*◌, ◌%◌, ◌≤◌, ◌<◌, ◌≡◌, refl, ◌⊎◌, sym, ap, ◌∙◌, subst, true, false, List, [], ◌∷◌,
  arith, if◌then◌else◌, Option, none, some,
}
use malloc_lab.Memory.{Memory, get, put, get-put, get-put-Apart}
use malloc_lab.Memlib.{Vm, mem_sbrk}
use malloc_lab.Memlib.Sbrk.{mem_sbrk_moves, mem_sbrk_refuses}
use malloc_lab.Mm.{Heap, extend_heap, found_block, coalesce, write}
use malloc_lab.Mm.Macros.{get_size, pack, word, truthy}
use malloc_lab.Mm.Tags.{pack_tag, get_size_tag}
use malloc_lab.Mm.FreeList.{has, Clear, Links-put}
use malloc_lab.Mm.Layout.{Block, block, IsBlock, Back-put, free_back_range}
use malloc_lab.Mm.Zip.{Zip, first, Space_range}
use malloc_lab.Mm.Zip.Mark.{place_bounds}
use malloc_lab.Mm.Coalesce.{absorbed, beyond, unlisted_prev}
use malloc_lab.Mm.Coalesce.Merge.{Merged}
use malloc_lab.Mm.Coalesce.Whole.{coalesce-Merged}

-- The break after it has been moved by `n`.
abbrev pub moved : Vm → ℕ → Vm
moved vm n = record vm { brk = vm.brk + n }

abbrev pub moved_heap : Heap → ℕ → Heap
moved_heap h n = record h { vm = moved h.vm n }

-- The memory with the tags of the new block and the new epilogue.
abbrev pub grown : Memory → ℕ → ℕ → Memory
grown m q n = put (put (put m (q - 4) n) (q + n - 8) n) (q + n - 4) 1

found_block-writes :
    (q n : ℕ) (h : Heap)
    → 16 ≤ q
    → 16 ≤ n
    → n % 8 ≡ 0
    → n + 8 ≤ 0x1_0000_0000
    → found_block q n h ≡ coalesce q (write h (grown h.bytes q n))
unfolding found_block
found_block-writes q n h low big round fits =
    ap
      (λ s. coalesce q (
        write h (
          put (put (put h.bytes (q - 4) s) (q + get_size (put h.bytes (q - 4) s) (q - 4) - 8) s)
            (next_of s (q + get_size (put h.bytes (q - 4) s) (q - 4) - 8)) (pack 0 1))))
      tag
    ∙ ap
        (λ s. coalesce q (write h (put (put one (q + s - 8) n) (next_of n (q + s - 8)) (pack 0 1))))
        size
    ∙ ap (λ s. coalesce q (write h (put two (q + s - 4) (pack 0 1)))) size_after
    ∙ ap (λ s. coalesce q (write h (put two (q + n - 4) s))) (pack_tag 0 true refl)
  where
    one : Memory
    one = put h.bytes (q - 4) n

    two : Memory
    two = put one (q + n - 8) n

    next_of : ℕ → ℕ → ℕ
    next_of s f = q + get_size (put (put h.bytes (q - 4) s) f s) (q - 4) - 4

    tag : pack n 0 ≡ n
    tag = pack_tag n false round ∙ (let e : n + 0 ≡ n = omega arith in e)

    size : get_size one (q - 4) ≡ n
    size = get_size_tag one (q - 4) n false (ground (arith, get-put h.bytes (q - 4) n)) round fits

    size_after : get_size two (q - 4) ≡ n
    size_after =
        get_size_tag two (q - 4) n false
          (ground (arith, get-put h.bytes (q - 4) n, get-put-Apart one (q + n - 8) n (q - 4))) round
          fits

-- The two halves of `extend_heap`: the size, and what follows `mem_sbrk`.
abbrev bytes_of : ℕ → ℕ
bytes_of words = if truthy (words % 2) then word ((words + 1) * 4) else word (words * 4)

abbrev body : ℕ → Heap → Option ℕ × Vm → ℕ × Heap
body size h (none, vm) = (0, record h { vm = vm })
body size h (some bp, vm) = found_block bp size (record h { vm = vm })

body_cases :
    (size : ℕ) (h : Heap) (area : Option ℕ) (vm : Vm)
    → (elim area [
      | none ↦ (0, record h { vm = vm })
      | some bp ↦ found_block bp size (record h { vm = vm })
    ])
      ≡ body size h (area, vm)
body_cases size h none vm = refl
body_cases size h (some bp) vm = refl

extend_heap-body :
    (words : ℕ) (h : Heap)
    → extend_heap words h ≡ body (bytes_of words) h (mem_sbrk (bytes_of words) h.vm)
unfolding extend_heap
extend_heap-body words h =
    body_cases (bytes_of words) h (mem_sbrk (bytes_of words) h.vm).0
      (mem_sbrk (bytes_of words) h.vm).1

bytes_of_lem : (words : ℕ) → words % 2 ≡ 0 → 4 * words < 0x1_0000_0000 → bytes_of words ≡ 4 * words
bytes_of_lem words even fits = ground arith

-- The nodes before the end of the heap stand clear of what is written behind them.
Clear-above :
    (a k : ℕ) {q : ℕ} (xs : List ℕ)
    → q ≤ a + 4
    → ((x : ℕ) → has x xs ≡ true → x + 16 ≤ q)
    → Clear a k xs
Clear-above a k [] h all = tt
Clear-above a k (x ∷ xs) h all =
    (omega (arith, all x (ground arith)), Clear-above a k xs h λ y i. all y (ground arith))

-- The heap with `n` more bytes from `q` on.
unfoldable pub extended : Heap → ℕ → ℕ → Heap
extended h q n = write (moved_heap h n) (grown h.bytes q n)

-- The new bytes from `q` on, with the place that is not looked at from `p` to `q`.
module _ (h : Heap) (ls : List Block) (p q : ℕ) (xs : List ℕ) (z : Zip h ls p q [] xs) (n : ℕ)
    (aligned : q % 8 ≡ 0) (big : 16 ≤ n) (round : n % 8 ≡ 0)
    (room : h.vm.brk + n ≤ h.vm.max_addr) where
  bounds : (16 ≤ p) × (p ≤ q) × (q + n < 0x1_0000_0000) × (first h.vm ≤ p)
  bounds = (
    omega (arith, place_bounds z),
    z.space.fits,
    omega (arith, z.space.tiles, z.space.framed.top),
    omega (arith, Space_range z.space),
  )

  -- Nothing else is written.
  pub extended_kept : (a : ℕ) → a + 8 ≤ q → get (extended h q n).bytes a ≡ get h.bytes a
  unfolding extended
  extended_kept a lo = ground (
    arith,
    get-put-Apart (put (put h.bytes (q - 4) n) (q + n - 8) n) (q + n - 4) 1 a,
    get-put-Apart (put h.bytes (q - 4) n) (q + n - 8) n a,
    get-put-Apart h.bytes (q - 4) n a,
  )

  pub extended_inside :
      (a : ℕ) → q ≤ a → a + 12 ≤ q + n → get (extended h q n).bytes a ≡ get h.bytes a
  unfolding extended
  extended_inside a lo hi = ground (
    arith,
    bounds,
    get-put-Apart (put (put h.bytes (q - 4) n) (q + n - 8) n) (q + n - 4) 1 a,
    get-put-Apart (put h.bytes (q - 4) n) (q + n - 8) n a,
    get-put-Apart h.bytes (q - 4) n a,
  )

  pub extended-Zip : Zip (extended h q n) ls p (q + n) [] xs
  unfolding extended
  extended-Zip = record {
    space = record {
      framed = record {
        aligned = z.space.framed.aligned;
        within = room;
        top = z.space.framed.top;
        prologue_header =
            extended_kept (h.vm.start_brk + 4) (omega (arith, bounds))
            ∙ z.space.framed.prologue_header;
        prologue_footer =
            extended_kept (h.vm.start_brk + 8) (omega (arith, bounds))
            ∙ z.space.framed.prologue_footer;
        epilogue =
            ap (get (grown h.bytes q n))
              (let e : h.vm.brk + n - 4 ≡ q + n - 4 = omega (arith, z.space.tiles) in e)
            ∙ get-put _ (q + n - 4) 1 (omega arith);
      };
      back = Back-put _ (first h.vm) p _ _ ls (omega (arith, bounds)) (
          Back-put _ (first h.vm) p _ _ ls (omega (arith, bounds))
            (Back-put _ (first h.vm) p _ _ ls (omega (arith, bounds)) z.space.back));
      fits = omega (arith, bounds);
      tiles = omega (arith, z.space.tiles);
    };
    nodes = record {
      links =
          Links-put _ (q + n - 4) 1 0 h.free_list_head xs
            (clear (q + n - 4) (omega (arith, bounds)))
            (Links-put _ (q + n - 8) n 0 h.free_list_head xs
              (clear (q + n - 8) (omega (arith, bounds)))
              (Links-put h.bytes (q - 4) n 0 h.free_list_head xs
                (clear (q - 4) (omega (arith, bounds))) z.nodes.links));
      same = λ x. ground (arith, z.nodes.same x);
      count = z.nodes.count;
      roams = z.nodes.roams;
    };
  }
    where
      clear : (a : ℕ) → p ≤ a + 4 → Clear a 4 xs
      clear a lo = Clear-above a 4 xs lo λ x i.
          ground (arith, z.nodes.same x, free_back_range h.bytes x (first h.vm) p ls z.space.back)

  pub extended-IsBlock : IsBlock (extended h q n).bytes q (block n false)
  unfolding extended
  extended-IsBlock = record {
    start = omega (arith, bounds);
    aligned = aligned;
    big = big;
    round = round;
    header = ground (
      arith,
      bounds,
      get-put-Apart (put (put h.bytes (q - 4) n) (q + n - 8) n) (q + n - 4) 1 (q - 4),
      get-put-Apart (put h.bytes (q - 4) n) (q + n - 8) n (q - 4),
      get-put h.bytes (q - 4) n,
    );
    footer = ground (
      arith,
      bounds,
      get-put-Apart (put (put h.bytes (q - 4) n) (q + n - 8) n) (q + n - 4) 1 (q + n - 8),
      get-put (put h.bytes (q - 4) n) (q + n - 8) n,
    );
  }

  -- `extend_heap` of an even number of words that fit writes the new block and coalesces it.
  pub extend_heap-coalesce :
      (words : ℕ)
      → n ≡ 4 * words
      → words % 2 ≡ 0
      → n < 0x8000_0000
      → extend_heap words h ≡ coalesce q (extended h q n)
  unfolding extended
  extend_heap-coalesce words e even positive =
      extend_heap-body words h
      ∙ ap (λ s. body s h (mem_sbrk s h.vm)) (sym asked)
      ∙ ap (body n h) (mem_sbrk_moves n h.vm positive room)
      ∙ ap (λ t. found_block t n (moved_heap h n)) (sym z.space.tiles)
      ∙ found_block-writes q n (moved_heap h n) (omega (arith, bounds)) big round
          (omega (arith, bounds))
    where
      asked : n ≡ bytes_of words
      asked = e ∙ sym (bytes_of_lem words even (omega arith))

-- `extend_heap` of a well-formed heap by n bytes, at least 16, a multiple of 8, below 2 ^ 31 and
-- with room in the heap, makes one free block, not yet on the list, of the new bytes and a free
-- block before them.
pub extend_heap-Merged :
    (h : Heap) (ls : List Block) (q : ℕ) (xs : List ℕ) (z : Zip h ls q q [] xs) (n : ℕ)
    → 16 ≤ n
    → n % 8 ≡ 0
    → h.vm.brk + n ≤ h.vm.max_addr
    → (words : ℕ) → n ≡ 4 * words
    → words % 2 ≡ 0
    → n < 0x8000_0000
    → Merged
        (extend_heap words h)
        (q - absorbed ls)
        (absorbed ls + n)
        (beyond ls)
        []
        (unlisted_prev ls q xs)
extend_heap-Merged h ls q xs z n big round room words e even positive =
    subst (λ k. Merged k (q - absorbed ls) (absorbed ls + n) (beyond ls) [] (unlisted_prev ls q xs))
      (sym (extend_heap-coalesce h ls q q xs z n aligned big round room words e even positive))
      (subst
        (λ s.
          Merged (coalesce q grown_heap) (q - absorbed ls) s (beyond ls) [] (unlisted_prev ls q xs))
        (let e : absorbed ls + n + 0 ≡ absorbed ls + n = omega arith in e)
        (coalesce-Merged grown_heap ls q n [] xs
          (extended-Zip h ls q q xs z n aligned big round room)
          (extended-IsBlock h ls q q xs z n aligned big round room)))
  where
    aligned : q % 8 ≡ 0
    aligned = omega (arith, place_bounds z)

    grown_heap : Heap
    grown_heap = extended h q n

-- Where the break cannot be moved so far, `extend_heap` changes nothing and returns `NULL`.
pub extend_heap_fails :
    (words : ℕ) (h : Heap)
    → words % 2 ≡ 0
    → 4 * words < 0x1_0000_0000
    → (0x8000_0000 ≤ 4 * words) ⊎ (h.vm.max_addr < h.vm.brk + 4 * words)
    → extend_heap words h ≡ (0, h)
extend_heap_fails words h even fits refused =
    extend_heap-body words h
    ∙ ap (λ s. body s h (mem_sbrk s h.vm)) (bytes_of_lem words even fits)
    ∙ ap (body (4 * words) h) (mem_sbrk_refuses (4 * words) h.vm refused)
