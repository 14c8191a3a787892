-- ===== src/MmDs2/Lists/Add.antt =====
-- `add_free_block` of mm-ds2.c.
use malloc_lab.Base.{
  ℕ, ◌+◌, ◌-◌, ◌≤◌, ◌<◌, ◌≡◌, refl, sym, ap, ◌∙◌, subst, ◌⊎◌, inl, inr, true, List, [], ◌∷◌, arith,
  ◌==◌, if◌then◌else◌, ==-cases,
}
use malloc_lab.Memory.{Memory, get, put, Apart, get-put-Apart}
use malloc_lab.Mm.Macros.{get_size}
use malloc_lab.Mm.Tags.{get_size_same}
use malloc_lab.Mm.FreeList.{has, Clear, Clear-weaken, Clear-has, Links, Links-put}
use malloc_lab.Mm.FreeList.Insert.{inserted, inserted-Links}
use malloc_lab.MmDs2.{Heap, get_index, add_free_block}
use malloc_lab.MmDs2.Index.{get_index_bounds}
use malloc_lab.MmDs2.Lists.{IsSegregated, pushed, has-pushed, Clear-pushed}

-- Another list keeps its links.
Links-put_twice :
    (m : Memory) (bp head p : ℕ) (ys : List ℕ)
    → Clear bp 8 ys
    → Links m 0 p ys
    → Links (put (put m (bp + 4) head) bp 0) 0 p ys
Links-put_twice m bp head p ys c l =
    Links-put _ bp 0 0 p ys (Clear-weaken bp bp 8 4 ys (omega arith) (omega arith) (omega arith) c)
      (Links-put m (bp + 4) head 0 p ys
        (Clear-weaken bp (bp + 4) 8 4 ys (omega arith) (omega arith) (omega arith) c) l)

inserted-keeps :
    (m : Memory) (bp head p : ℕ) (xs ys : List ℕ)
    → Clear bp 8 ys
    → (xs ≡ []) ⊎ Clear head 8 ys
    → Links m 0 p ys
    → Links (inserted m bp head xs) 0 p ys
inserted-keeps m bp head p [] ys c d l = Links-put_twice m bp head p ys c l
inserted-keeps m bp head p (x ∷ xs) ys c d l =
    Links-put _ head bp 0 p ys
      (Clear-weaken head head 8 4 ys (omega arith) (omega arith) (omega arith) (ground arith))
      (Links-put_twice m bp head p ys c l)

inserted-get :
    (m : Memory) (bp head a : ℕ) (xs : List ℕ)
    → Apart bp 8 a 4
    → (xs ≡ []) ⊎ Apart head 4 a 4
    → get (inserted m bp head xs) a ≡ get m a
inserted-get m bp head a [] h g =
    ground (arith, get-put-Apart (put m (bp + 4) head) bp 0 a, get-put-Apart m (bp + 4) head a)
inserted-get m bp head a (x ∷ xs) h g = ground (
  arith,
  get-put-Apart (put (put m (bp + 4) head) bp 0) head bp a,
  get-put-Apart (put m (bp + 4) head) bp 0 a,
  get-put-Apart m (bp + 4) head a,
)

-- The list of a block.
abbrev pub index : Heap → ℕ → ℕ
index h bp = get_index (get_size h.bytes (bp - 4))

add_free_block-bytes :
    (bp : ℕ) (h : Heap) (xs : List ℕ)
    → Links h.bytes 0 (h.seg_list (index h bp)) xs
    → (add_free_block bp h).bytes ≡ inserted h.bytes bp (h.seg_list (index h bp)) xs
unfolding add_free_block
add_free_block-bytes bp h [] l = ground arith
add_free_block-bytes bp h (x ∷ xs) l = ground arith

add_free_block-seg_list :
    (bp : ℕ) (h : Heap) (j : ℕ)
    → (add_free_block bp h).seg_list j ≡ (if j == index h bp then bp else h.seg_list j)
unfolding add_free_block
add_free_block-seg_list bp h j = ground arith

add_free_block-vm : (bp : ℕ) (h : Heap) → (add_free_block bp h).vm ≡ h.vm
unfolding add_free_block
add_free_block-vm bp h = ground arith

head_listed : (m : Memory) (p : ℕ) (xs : List ℕ) → Links m 0 p xs → (xs ≡ []) ⊎ (has p xs ≡ true)
head_listed m p [] l = inl refl
head_listed m p (x ∷ xs) l = inr (ground arith)

-- The block at `bp` is in the heap, it overlaps no node and no header of one, and its header
-- overlaps no node.
pub record IsBeside (bp : ℕ) (h : Heap) (nodes : ℕ → List ℕ) : Type 0 where
  pub low : 4 ≤ bp
  pub high : bp < h.vm.brk
  pub top : bp < 0x1_0000_0000
  pub clear : (j : ℕ) → j < 12 → Clear bp 8 (nodes j)
  pub header : (j : ℕ) → j < 12 → Clear (bp - 4) 4 (nodes j)
  pub headers : (j x : ℕ) → j < 12 → has x (nodes j) ≡ true → Apart (x - 4) 4 bp 8

module _ (bp : ℕ) (h : Heap) (nodes : ℕ → List ℕ) (s : IsSegregated h nodes)
    (b : IsBeside bp h nodes) where
  abbrev i : ℕ
  i = index h bp

  abbrev m : Memory
  m = inserted h.bytes bp (h.seg_list i) (nodes i)

  in_range : i < 12
  in_range = (get_index_bounds (get_size h.bytes (bp - 4))).0

  listed : (nodes i ≡ []) ⊎ (has (h.seg_list i) (nodes i) ≡ true)
  listed = head_listed h.bytes (h.seg_list i) (nodes i) (s.links i in_range)

  links : (j : ℕ) → j < 12 → Links m 0 (if j == i then bp else h.seg_list j) (pushed nodes i bp j)
  links j lt = elim (==-cases j i) [
    | inl (e, t) ↦ rw t (
        subst (λ k. Links m 0 bp (bp ∷ nodes k)) (sym e)
          (inserted-Links h.bytes bp (h.seg_list i) (nodes i) (omega (arith, b.low)) b.top
            (b.clear i in_range) (s.links i in_range)))
    | inr (n, f) ↦ rw f (
        inserted-keeps h.bytes bp (h.seg_list i) (h.seg_list j) (nodes i) (nodes j) (b.clear j lt)
          (ground (arith, listed, in_range, s.apart i j (h.seg_list i))) (s.links j lt))
  ]

  -- The headers of the block and of the nodes.
  header_kept : (a : ℕ) → Apart bp 8 a 4 → Clear a 4 (nodes i) → get m a ≡ get h.bytes a
  header_kept a apart clear =
      inserted-get h.bytes bp (h.seg_list i) a (nodes i) apart
        (ground (arith, listed, Clear-has a 4 (h.seg_list i) (nodes i) clear))

  class :
      (j x : ℕ) → j < 12 → has x (pushed nodes i bp j) ≡ true → get_index (get_size m (x - 4)) ≡ j
  class j x lt e = elim (has-pushed nodes i bp j x e) [
    | inl (same, node) ↦
        ap get_index (
          get_size_same m h.bytes (x - 4) (
            header_kept (x - 4) (omega (arith, b.low))
              (subst (λ y. Clear (y - 4) 4 (nodes i)) (sym node) (b.header i in_range))))
        ∙ (ap (index h) node ∙ sym same)
    | inr old ↦
        ap get_index (
          get_size_same m h.bytes (x - 4) (
            header_kept (x - 4) (ground (arith, b.headers j x lt old))
              (s.headers j i x lt in_range old)))
        ∙ s.classes j x lt old
  ]

  -- `add_free_block` of a block that stands beside the nodes of all lists puts it in front of the
  -- list of its size, and leaves every free block on the list of its size.
  pub add_free_block-IsSegregated : IsSegregated (add_free_block bp h) (pushed nodes i bp)
  add_free_block-IsSegregated = record {
    links = λ j lt. rw (add_free_block-seg_list bp h j) (
        subst (λ k. Links k 0 (if j == i then bp else h.seg_list j) (pushed nodes i bp j))
          (sym (add_free_block-bytes bp h (nodes i) (s.links i in_range))) (links j lt));
    apart = λ j k x lt lt' e. elim (has-pushed nodes i bp j x e) [
      | inl (same, node) ↦ elim (==-cases k i) [
        | inl (same', _) ↦ inl (same ∙ sym same')
        | inr (n, f) ↦ inr (rw f (subst (λ y. Clear y 8 (nodes k)) (sym node) (b.clear k lt')))
      ]
      | inr old ↦ elim (s.apart j k x lt lt' old) [
        | inl same ↦ inl same
        | inr c ↦ inr (
            Clear-pushed nodes i bp k x 8
              (ground (arith, Clear-has bp 8 x (nodes j) (b.clear j lt))) c)
      ]
    ];
    headers = λ j k x lt lt' e. elim (has-pushed nodes i bp j x e) [
      | inl (same, node) ↦
          Clear-pushed nodes i bp k (x - 4) 4 (omega (arith, b.low))
            (subst (λ y. Clear (y - 4) 4 (nodes k)) (sym node) (b.header k lt'))
      | inr old ↦
          Clear-pushed nodes i bp k (x - 4) 4 (b.headers j x lt old) (s.headers j k x lt lt' old)
    ];
    classes = λ j x lt e.
        subst (λ k. get_index (get_size k (x - 4)) ≡ j)
          (sym (add_free_block-bytes bp h (nodes i) (s.links i in_range))) (class j x lt e);
    within = λ j x lt e. rw (add_free_block-vm bp h) (elim (has-pushed nodes i bp j x e) [
      | inl (same, node) ↦ (omega (arith, b.low), omega (arith, b.high))
      | inr old ↦ s.within j x lt old
    ]);
  }
