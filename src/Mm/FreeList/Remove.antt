-- ===== src/Mm/FreeList/Remove.antt =====
-- `remove_node` of mm.c takes a node out of the list, wherever it stands.
use malloc_lab.Base.{
  ℕ, ◌+◌, ◌<◌, ◌≡◌, refl, ◌≢◌, sym, subst, ◌⊎◌, inl, inr, true, ◌&&◌, not, List, [], ◌∷◌, arith,
  ◌==◌, if◌then◌else◌, ==-cases,
}
use malloc_lab.Memory.{Memory, get, put, Apart, get-put, get-put-Apart}
use malloc_lab.Mm.{Heap, remove_node}
use malloc_lab.Mm.Macros.{truthy}
use malloc_lab.Mm.FreeList.{
  has, without, Clear, Clear-has, Clear-without, Clear-weaken, Links, Links-put, node_range,
  has-Clear, has-without, has_of_without,
}

-- The memory after `remove_node` of a node between `pred` and `succ`.
abbrev pub unlinked : Memory → ℕ → ℕ → Memory
unlinked m pred succ =
    let m = if truthy pred then put m (pred + 4) succ else m in
    if truthy succ then put m succ pred else m

pub remove_node-bytes :
    (bp : ℕ) (h : Heap)
    → (remove_node bp h).bytes ≡ unlinked h.bytes (get h.bytes bp) (get h.bytes (bp + 4))
unfolding remove_node
remove_node-bytes bp h = ground arith

remove_node-head :
    (bp : ℕ) (h : Heap)
    → (remove_node bp h).free_list_head
      ≡ (if truthy (get h.bytes bp) then h.free_list_head else get h.bytes (bp + 4))
unfolding remove_node
remove_node-head bp h = ground arith

-- Where a node's links lead: back to `pred` from the first node and else into the list, on into
-- the list or to `NULL`.
pub record Ends (m : Memory) (pred p x : ℕ) (xs : List ℕ) : Type 0 where
  pub back :
      ((p ≡ x) × (get m x ≡ pred))
      ⊎ ((p ≢ x) × (has (get m x) (without x xs) ≡ true) × (0 < get m x))
  pub on : (get m (x + 4) ≡ 0) ⊎ ((has (get m (x + 4)) (without x xs) ≡ true) × (0 < get m (x + 4)))

first_on :
    (m : Memory) (y s : ℕ) (ys : List ℕ) → Links m y s ys → (s ≡ 0) ⊎ ((has s ys ≡ true) × (0 < s))
first_on m y s [] l = inl l
first_on m y s (z ∷ zs) l = inr (ground arith, ground arith)

pub Links-Ends :
    (m : Memory) (pred p x : ℕ) (xs : List ℕ)
    → Links m pred p xs
    → has x xs ≡ true
    → Ends m pred p x xs
Links-Ends m pred p x [] l h = cc
Links-Ends m pred p x (y ∷ ys) l h = elim (==-cases x y) [
  | inl (e, _) ↦
      subst (λ w. Ends m pred p w (y ∷ ys)) (sym e)
        (record { back = ground arith; on = ground (arith, first_on m y (get m (y + 4)) ys l.5) })
  | inr (n, f) ↦
      let ends = Links-Ends m y (get m (y + 4)) x ys l.5 (ground arith) in
      record { back = ground arith; on = ground arith }
]

-- The links of a node `y` in front of the list, once the node between `b` and `s` is gone from it.
unlinked-keeps :
    (m : Memory) (y b s : ℕ) (ys : List ℕ)
    → 0 < b
    → s < 0x1_0000_0000
    → Clear y 8 ys
    → (b ≡ y) ⊎ (has b ys ≡ true)
    → (s ≡ 0) ⊎ ((has s ys ≡ true) × (0 < s))
    → (get (unlinked m b s) y ≡ get m y)
      × (get (unlinked m b s) (y + 4) ≡ (if b == y then s else get m (y + 4)))
unlinked-keeps m y b s ys pos low c back on = (
  ground (arith, aside, behind, get-put-Apart (put m (b + 4) s) s b y, get-put-Apart m (b + 4) s y),
  ground (
    arith,
    aside,
    behind,
    get-put-Apart (put m (b + 4) s) s b (y + 4),
    get-put-Apart m (b + 4) s (y + 4),
    get-put m (b + 4) s,
  ),
)
  where
    aside : (s ≡ 0) ⊎ Apart y 8 s 8
    aside = ground (arith, Clear-has y 8 s ys c)

    behind : (b ≡ y) ⊎ Apart y 8 b 8
    behind = ground (arith, Clear-has y 8 b ys c)

abbrev spliced : Memory → ℕ → ℕ → Memory
spliced m pred succ = if truthy pred then put m (pred + 4) succ else m

spliced-Links :
    (m : Memory) (pred y s : ℕ) (ys : List ℕ)
    → (pred ≡ 0) ⊎ ((0 < pred) × Clear pred 8 ys)
    → Links m y s ys
    → Links (spliced m pred s) y s ys
spliced-Links m pred y s ys (inl e) l = subst (λ n. Links (spliced m n s) y s ys) (sym e) l
spliced-Links m pred y s ys (inr c) l =
    let t : truthy pred ≡ true = ground arith in
    subst (λ b. Links (if b then put m (pred + 4) s else m) y s ys) (sym t)
      (Links-put m (pred + 4) s y s ys
        (Clear-weaken pred (pred + 4) 8 4 ys (omega arith) (omega arith) (omega arith) c.1) l)

-- The first node is given its new predecessor.
repoint :
    (m : Memory) (pred y s : ℕ) (ys : List ℕ)
    → pred < 0x1_0000_0000
    → Links m y s ys
    → Links (if truthy s then put m s pred else m) pred s ys
repoint m pred y s [] low l = l
repoint m pred y s (z ∷ zs) low l =
    let t : truthy s ≡ true = ground arith in
    subst (λ b. Links (if b then put m s pred else m) pred s (z ∷ zs)) (sym t)
      (
        l.0,
        l.1,
        l.2,
        ground (arith, get-put m z pred),
        l.4,
        rw (get-put-Apart m s pred (z + 4) (omega arith)) (
            Links-put m s pred z (get m (z + 4)) zs
              (Clear-weaken z s 8 4 zs (omega arith) (omega arith) (omega arith) l.4) l.5),
      )

first_gone :
    (m : Memory) (pred p y : ℕ) (ys : List ℕ)
    → (pred ≡ 0) ⊎ ((0 < pred) × Clear pred 8 ys)
    → pred < 0x1_0000_0000
    → Links m pred p (y ∷ ys)
    → Links (unlinked m (get m y) (get m (y + 4))) pred (get m (y + 4)) ys
first_gone m pred p y ys c low l =
    let s : ℕ = get m (y + 4) in
    subst (λ b. Links (unlinked m b s) pred s ys) (sym l.3)
      (repoint (spliced m pred s) pred y s ys low (spliced-Links m pred y s ys c l.5))

-- What a node `y` in front points to, once `x` is gone behind it.
unlinked-next :
    (m : Memory) (pred p x y : ℕ) (ys : List ℕ)
    → Links m pred p (y ∷ ys)
    → has x ys ≡ true
    → (get (unlinked m (get m x) (get m (x + 4))) y ≡ pred)
      × (get (unlinked m (get m x) (get m (x + 4))) (y + 4)
          ≡ (if x == get m (y + 4) then get m (x + 4) else get m (y + 4)))
unlinked-next m pred p x y ys l h =
    let ends = Links-Ends m y (get m (y + 4)) x ys l.5 h in
    ground (
      arith,
      ends.on,
      ends.back,
      has_of_without x (get m x) ys,
      has_of_without x (get m (x + 4)) ys,
      has-Clear y ys l.4,
      node_range m y (get m (y + 4)) (get m (x + 4)) ys l.5,
      unlinked-keeps m y (get m x) (get m (x + 4)) ys,
    )

-- A list with a node `x` keeps its other nodes, in order, once `x` is unlinked.
pub unlinked-Links :
    (m : Memory) (pred p x : ℕ) (xs : List ℕ)
    → (pred ≡ 0) ⊎ ((0 < pred) × Clear pred 8 xs)
    → pred < 0x1_0000_0000
    → Links m pred p xs
    → has x xs ≡ true
    → Links
        (unlinked m (get m x) (get m (x + 4)))
        pred
        (if x == p then get m (x + 4) else p)
        (without x xs)
unlinked-Links m pred p x [] c low l h = cc
unlinked-Links m pred p x (y ∷ ys) c low l h = elim (==-cases x y) [
  | inl (e, t) ↦
      let t' : (x == p) ≡ true = ground arith in
      rw (t, t')
        (subst (λ w. Links (unlinked m (get m w) (get m (w + 4))) pred (get m (w + 4)) ys) (sym e)
          (first_gone m pred p y ys (ground arith) low l))
  | inr (n, f) ↦
      let h' : has x ys ≡ true = ground arith in
      let next = unlinked-next m pred p x y ys l h' in
      rw f (
        ground arith,
        l.1,
        l.2,
        next.0,
        Clear-without y 8 x ys l.4,
        rw next.1 (unlinked-Links m y (get m (y + 4)) x ys (inr (l.1, l.4)) l.2 l.5 h'),
      )
]

-- `remove_node` of a node of the free list, wherever it stands, leaves the doubly linked list of
-- the others in their order.
pub remove_node-Links :
    (bp : ℕ) (h : Heap) (xs : List ℕ)
    → Links h.bytes 0 h.free_list_head xs
    → has bp xs ≡ true
    → Links (remove_node bp h).bytes 0 (remove_node bp h).free_list_head (without bp xs)
remove_node-Links bp h xs l has =
    let head' : (remove_node bp h).free_list_head
        ≡ (if bp == h.free_list_head then get h.bytes (bp + 4) else h.free_list_head) =
      ground
        (arith, remove_node-head bp h, (Links-Ends h.bytes 0 h.free_list_head bp xs l has).back) in
    rw head' (
      subst
        (λ m.
          Links m 0 (if bp == h.free_list_head then get h.bytes (bp + 4) else h.free_list_head)
            (without bp xs))
        (sym (remove_node-bytes bp h))
        (unlinked-Links h.bytes 0 h.free_list_head bp xs (inl refl) (omega arith) l has))

remove_node_rover :
    (bp : ℕ) (h : Heap) (xs : List ℕ)
    → Ends h.bytes 0 h.free_list_head bp xs
    → has h.rover (without bp xs) ≡ (has h.rover xs && not (h.rover == bp))
    → (h.rover ≡ 0) ⊎ (has h.rover xs ≡ true)
    → ((remove_node bp h).rover ≡ 0) ⊎ (has (remove_node bp h).rover (without bp xs) ≡ true)
unfolding remove_node
remove_node_rover bp h xs ends keep r = ground (arith, ends.on, ends.back)

-- `remove_node` of a node of the free list keeps the rover `NULL` or on the list.
pub remove_node-rover :
    (bp : ℕ) (h : Heap) (xs : List ℕ)
    → Links h.bytes 0 h.free_list_head xs
    → has bp xs ≡ true
    → (h.rover ≡ 0) ⊎ (has h.rover xs ≡ true)
    → ((remove_node bp h).rover ≡ 0) ⊎ (has (remove_node bp h).rover (without bp xs) ≡ true)
remove_node-rover bp h xs l i r =
    remove_node_rover bp h xs (Links-Ends h.bytes 0 h.free_list_head bp xs l i)
      (has-without h.bytes 0 h.free_list_head bp h.rover xs l) r

-- The links of a node lead to nodes.
pub Links-listed :
    (m : Memory) (head x : ℕ) (xs : List ℕ)
    → Links m 0 head xs
    → has x xs ≡ true
    → ((get m x ≡ 0) ⊎ (has (get m x) xs ≡ true))
      × ((get m (x + 4) ≡ 0) ⊎ (has (get m (x + 4)) xs ≡ true))
Links-listed m head x xs l i =
    let ends = Links-Ends m 0 head x xs l i in
    ground (
      arith,
      ends.on,
      ends.back,
      has_of_without x (get m x) xs,
      has_of_without x (get m (x + 4)) xs,
    )
