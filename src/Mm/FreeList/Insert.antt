-- ===== src/Mm/FreeList/Insert.antt =====
-- `insert_node` of mm.c puts a block in front of the list.
use malloc_lab.Base.{ℕ, ◌+◌, ◌≤◌, ◌<◌, ◌≡◌, refl, sym, subst, ◌⊎◌, true, List, [], ◌∷◌, arith}
use malloc_lab.Memory.{Memory, get, put, get-put, get-put-Apart}
use malloc_lab.Mm.{Heap, insert_node}
use malloc_lab.Mm.FreeList.{has, Clear, Links, Links-put, Clear-weaken}

-- The memory after `insert_node`.
abbrev pub inserted : Memory → ℕ → ℕ → List ℕ → Memory
inserted m bp head [] = put (put m (bp + 4) head) bp 0
inserted m bp head (x ∷ xs) = put (put (put m (bp + 4) head) bp 0) head bp

pub insert_node-bytes :
    (bp : ℕ) (h : Heap) (xs : List ℕ)
    → Links h.bytes 0 h.free_list_head xs
    → (insert_node bp h).bytes ≡ inserted h.bytes bp h.free_list_head xs
unfolding insert_node
insert_node-bytes bp h [] l = ground arith
insert_node-bytes bp h (x ∷ xs) l = ground arith

abbrev two_links : Memory → ℕ → ℕ → Memory
two_links m bp head = put (put m (bp + 4) head) bp 0

insert_node-head : (bp : ℕ) (h : Heap) → (insert_node bp h).free_list_head ≡ bp
unfolding insert_node
insert_node-head bp h = refl

pub inserted-Links :
    (m : Memory) (bp head : ℕ) (xs : List ℕ)
    → 0 < bp
    → bp < 0x1_0000_0000
    → Clear bp 8 xs
    → Links m 0 head xs
    → Links (inserted m bp head xs) 0 bp (bp ∷ xs)
inserted-Links m bp head [] pos low c l = (
  refl,
  pos,
  low,
  get-put _ bp 0 (omega arith),
  tt,
  ground (
    arith,
    get-put (put m (bp + 4) head) bp 0,
    get-put-Apart (put m (bp + 4) head) bp 0 (bp + 4),
    get-put m (bp + 4) head,
  ),
)
inserted-Links m bp head (x ∷ xs) pos low c l = (
  refl,
  pos,
  low,
  ground
      (arith, get-put-Apart (two_links m bp head) head bp bp, get-put (put m (bp + 4) head) bp 0),
  c,
  (
    ground (
      arith,
      get-put-Apart (two_links m bp head) head bp (bp + 4),
      get-put-Apart (put m (bp + 4) head) bp 0 (bp + 4),
      get-put m (bp + 4) head,
    ),
    l.1,
    l.2,
    ground (arith, get-put (two_links m bp head) x bp),
    l.4,
    rw kept (
        Links-put _ head bp x _ xs
          (Clear-weaken x head 8 4 xs (omega arith) (omega arith) (omega arith) l.4)
          (Links-put _ bp 0 x _ xs (below bp (omega arith) (omega arith))
            (Links-put m (bp + 4) head x _ xs (below (bp + 4) (omega arith) (omega arith)) l.5))),
  ),
)
  where
    kept : get (put (two_links m bp head) head bp) (x + 4) ≡ get m (x + 4)
    kept = ground (
      arith,
      get-put-Apart (two_links m bp head) head bp (x + 4),
      get-put-Apart (put m (bp + 4) head) bp 0 (x + 4),
      get-put-Apart m (bp + 4) head (x + 4),
    )

    below : (a : ℕ) → bp ≤ a → a + 4 ≤ bp + 8 → Clear a 4 xs
    below a h g = Clear-weaken bp a 8 4 xs h g (omega arith) c.1

-- `insert_node` puts a node that stands beside the nodes of the free list in front of the doubly
-- linked list.
pub insert_node-Links :
    (bp : ℕ) (h : Heap) (xs : List ℕ)
    → 0 < bp
    → bp < 0x1_0000_0000
    → Clear bp 8 xs
    → Links h.bytes 0 h.free_list_head xs
    → Links (insert_node bp h).bytes 0 (insert_node bp h).free_list_head (bp ∷ xs)
insert_node-Links bp h xs pos low c l = rw (insert_node-head bp h) (
    subst (λ m. Links m 0 bp (bp ∷ xs)) (sym (insert_node-bytes bp h xs l))
      (inserted-Links h.bytes bp h.free_list_head xs pos low c l))

-- The rover stays off the list only if it is `NULL`.
pub insert_node-rover :
    (bp : ℕ) (h : Heap) (xs : List ℕ)
    → (h.rover ≡ 0) ⊎ (has h.rover xs ≡ true)
    → has (insert_node bp h).rover (bp ∷ xs) ≡ true
unfolding insert_node
insert_node-rover bp h xs r = ground arith
