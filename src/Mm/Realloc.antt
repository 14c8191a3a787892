-- ===== src/Mm/Realloc.antt =====
-- `mm_realloc` of mm.c on an allocated block.
use malloc_lab.Base.{
  ℕ, ◌+◌, ◌-◌, ◌%◌, ◌≤◌, ◌<◌, ◌≡◌, ◌≢◌, refl, ap, ◌∙◌, subst, ◌⊎◌, inl, inr, Bool, true, false,
  Bool-cases, not, ◌&&◌, List, [], ◌∷◌, Option, some, arith, if◌then◌else◌, ==-ne, leb, leb-cases,
}
use malloc_lab.Mm.{Heap, mm_realloc, adjust_block, remove_node, move_block, mark}
use malloc_lab.Mm.Macros.{get_size, get_alloc, truthy, hdrp, word}
use malloc_lab.Mm.Tags.{header-size}
use malloc_lab.Mm.FreeList.{without}
use malloc_lab.Mm.Layout.{Block, block, IsBlock}
use malloc_lab.Mm.Zip.{Zip}
use malloc_lab.Mm.Zip.Mark.{place_bounds, mark-Zip}
use malloc_lab.Mm.Zip.Move.{leave_out, take_in}
use malloc_lab.Mm.Zip.Remove.{remove_next}
use malloc_lab.Mm.Coalesce.{near, absorbed, beyond, unlisted_next}
use malloc_lab.Mm.Coalesce.Cases.{next_alloc-near}

-- What `mm_realloc` does to an allocated block of `n` bytes between `ls` and `rs`: it leaves it, or
-- lets it take in the free block behind it, or moves it.
pub data Reallocs (h : Heap) (ls : List Block) (q n : ℕ) (rs : List Block) (xs : List ℕ) (size : ℕ)
    : Type 0 where
  left : adjust_block size ≤ n → mm_realloc q size h ≡ some (q, h) → Reallocs h ls q n rs xs size
  widened :
      (h' : Heap)
      → n < adjust_block size
      → adjust_block size ≤ n + absorbed rs
      → mm_realloc q size h ≡ some (q, h')
      → h' ≡ mark q (n + absorbed rs) 1 (remove_node (q + n) h)
      → Zip h' ls q q (block (n + absorbed rs) true ∷ beyond rs) (unlisted_next rs (q + n) xs)
      → Reallocs h ls q n rs xs size
  moved :
      n + absorbed rs < adjust_block size
      → mm_realloc q size h ≡ move_block q size n h
      → Reallocs h ls q n rs xs size

-- What `mm_realloc` does once it has read the block: `next` is the next block, `taken` whether it is
-- allocated, `extra` its size.
abbrev after_read : ℕ → ℕ → ℕ → ℕ → Bool → ℕ → Heap → Option (ℕ × Heap)
after_read q size oldsize next taken extra h =
    if leb (adjust_block size) oldsize
    then some (q, h)
    else if not taken && leb (adjust_block size) (word (oldsize + extra))
    then (let h = remove_node next h in
        some (q, mark q (word (oldsize + get_size h.bytes (hdrp next))) 1 h))
    else move_block q size oldsize h

module _ (h : Heap) (ls : List Block) (q n : ℕ) (rs : List Block) (xs : List ℕ)
    (z : Zip h ls q q (block n true ∷ rs) xs) (size : ℕ) (some_size : size ≢ 0) where
  out : Zip h ls q (q + n) rs xs
  out = leave_out (block n true) z refl

  low : (16 ≤ q) × (q + n < 0x1_0000_0000) × (16 ≤ n) × (n % 8 ≡ 0)
  low =
      omega
        (arith, place_bounds out, z.space.tiles.0.start, z.space.tiles.0.big, z.space.tiles.0.round)

  size_lem : get_size h.bytes (q - 4) ≡ n
  size_lem = header-size h.bytes q (block n true) z.space.tiles.0 (omega (arith, low))

  reads :
      mm_realloc q size h ≡ after_read q size n (q + n) (near rs) (get_size h.bytes (q + n - 4)) h
  unfolding mm_realloc
  reads =
      rw (==-ne q 0 (omega (arith, low)), ==-ne size 0 some_size)
        (ap
            (λ s.
              after_read q size s (q + s) (truthy (get_alloc h.bytes (q + s - 4)))
                (get_size h.bytes (q + s - 4)) h)
            size_lem
          ∙ ap (λ t. after_read q size n (q + n) t (get_size h.bytes (q + n - 4)) h)
              (next_alloc-near h.vm h.bytes ls q (q + n) rs out.space))

  stays : adjust_block size ≤ n → mm_realloc q size h ≡ some (q, h)
  stays le = reads ∙ ground arith

  moves :
      n < adjust_block size
      → (near rs ≡ true) ⊎ (word (n + get_size h.bytes (q + n - 4)) < adjust_block size)
      → mm_realloc q size h ≡ move_block q size n h
  moves lt why = reads ∙ ground (arith, why)

module _ (h : Heap) (ls : List Block) (q n : ℕ) (d : Block) (rs : List Block) (xs : List ℕ)
    (z : Zip h ls q q (block n true ∷ d ∷ rs) xs) (free : d.alloc ≡ false) (size : ℕ)
    (some_size : size ≢ 0) where
  gone :
      Zip (remove_node (q + n) h) ls q (q + n + d.size) rs (without (q + n) xs)
      × IsBlock (remove_node (q + n) h).bytes (q + n) d
  gone = remove_next h ls q (q + n) d rs xs (leave_out (block n true) z refl) free

  wide : Heap
  wide = mark q (n + d.size) 1 (remove_node (q + n) h)

  wide_lem : wide ≡ mark q (n + d.size) 1 (remove_node (q + n) h)
  unfolding wide
  wide_lem = refl

  bounds :
      (q + n + d.size < 0x1_0000_0000)
      × (16 ≤ n)
      × (n % 8 ≡ 0)
      × (16 ≤ d.size)
      × (d.size % 8 ≡ 0)
      × (16 ≤ q)
  bounds = omega (
    arith,
    place_bounds gone.0,
    z.space.tiles.0.big,
    z.space.tiles.0.round,
    gone.1.big,
    gone.1.round,
    z.space.tiles.0.start,
  )

  extra : get_size h.bytes (q + n - 4) ≡ d.size
  extra = header-size h.bytes (q + n) d z.space.tiles.1.0 (omega (arith, bounds))

  extra_after : get_size (remove_node (q + n) h).bytes (q + n - 4) ≡ d.size
  extra_after = header-size (remove_node (q + n) h).bytes (q + n) d gone.1 (omega (arith, bounds))

  wide-Zip : Zip wide ls q q (block (n + d.size) true ∷ rs) (without (q + n) xs)
  unfolding wide
  wide-Zip =
      let m =
        mark-Zip (n + d.size) true
          (subst (λ t. Zip (remove_node (q + n) h) ls q t rs (without (q + n) xs))
            (let e : q + n + d.size ≡ q + (n + d.size) = omega arith in e) gone.0)
          (omega arith) (omega (arith, bounds)) (omega (arith, bounds)) in
      take_in (n + d.size) m.0 m.1

  widens :
      n < adjust_block size → adjust_block size ≤ n + d.size → mm_realloc q size h ≡ some (q, wide)
  unfolding wide
  widens lt le =
      reads h ls q n (d ∷ rs) xs z size some_size
      ∙ ground (arith, extra, bounds, free)
      ∙ ap (λ s. some (q, mark q s 1 (remove_node (q + n) h)))
          (let e : word (n + get_size (remove_node (q + n) h).bytes (q + n - 4)) ≡ n + d.size =
              omega (arith, extra_after, bounds) in
            e)

  free_next : Reallocs h ls q n (d ∷ rs) xs size
  free_next = elim (leb-cases (adjust_block size) n) [
    | inl (le, _) ↦ left le (stays h ls q n (d ∷ rs) xs z size some_size le)
    | inr (lt, _) ↦ elim (leb-cases (adjust_block size) (n + d.size)) [
      | inl (le, _) ↦
          widened wide lt (rw free le) (widens lt le) (rw free wide_lem) (rw free wide-Zip)
      | inr (lt', _) ↦
          moved (rw free lt')
            (moves h ls q n (d ∷ rs) xs z size some_size lt (inr (omega (arith, extra, bounds))))
    ]
  ]

module _ (h : Heap) (ls : List Block) (q n : ℕ) (rs : List Block) (xs : List ℕ)
    (z : Zip h ls q q (block n true ∷ rs) xs) (size : ℕ) (some_size : size ≢ 0) where
  taken_next : near rs ≡ true → absorbed rs ≡ 0 → Reallocs h ls q n rs xs size
  taken_next taken none_absorbed = elim (leb-cases (adjust_block size) n) [
    | inl (le, _) ↦ left le (stays h ls q n rs xs z size some_size le)
    | inr (lt, _) ↦
        moved (omega (arith, none_absorbed)) (moves h ls q n rs xs z size some_size lt (inl taken))
  ]

-- `mm_realloc` of an allocated block of a well-formed heap, for a request of at least one byte: a
-- block that is large enough is left as it is; one that is large enough together with the free
-- block behind it takes that in whole, in a well-formed heap; for any other the result is that of
-- `move_block`, which copies it to a new block.
pub mm_realloc-Reallocs :
    (h : Heap) (ls : List Block) (q n : ℕ) (rs : List Block) (xs : List ℕ) (size : ℕ)
    → Zip h ls q q (block n true ∷ rs) xs
    → size ≢ 0
    → Reallocs h ls q n rs xs size
mm_realloc-Reallocs h ls q n [] xs size z ne = taken_next h ls q n [] xs z size ne refl refl
mm_realloc-Reallocs h ls q n (d ∷ rs) xs size z ne = elim (Bool-cases d.alloc) [
  | inl t ↦ taken_next h ls q n (d ∷ rs) xs z size ne t (rw t refl)
  | inr f ↦ free_next h ls q n d rs xs z f size ne
]
