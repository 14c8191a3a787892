-- ===== src/MmDs2/Lists/Remove.antt =====
-- `remove_free_block` of mm-ds2.c.
use malloc_lab.Base.{
  ℕ, ◌+◌, ◌-◌, ◌<◌, ◌≡◌, refl, sym, ap, ◌∙◌, subst, ◌⊎◌, inl, inr, true, List, arith, ◌==◌,
  if◌then◌else◌, ==-cases,
}
use malloc_lab.Memory.{Memory, get, put, Apart, get-put-Apart}
use malloc_lab.Mm.Macros.{get_size, truthy}
use malloc_lab.Mm.Tags.{get_size_same}
use malloc_lab.Mm.FreeList.{
  has, without, Clear, Clear-weaken, Clear-has, Links, Links-put, has_of_without, has-without,
}
use malloc_lab.Mm.FreeList.Remove.{unlinked, Ends, Links-Ends, unlinked-Links}
use malloc_lab.MmDs2.{Heap, get_index, remove_free_block}
use malloc_lab.MmDs2.Lists.{IsSegregated, dropped, has-dropped, Clear-dropped, Links-Apart}
use malloc_lab.MmDs2.Lists.Add.{index}

-- The links of a node are read again after the first write, which does not touch them.
remove_free_block-bytes :
    (bp : ℕ) (h : Heap)
    → (get h.bytes bp ≡ 0) ⊎ Apart (get h.bytes bp) 8 bp 8
    → (remove_free_block bp h).bytes ≡ unlinked h.bytes (get h.bytes bp) (get h.bytes (bp + 4))
unfolding remove_free_block
remove_free_block-bytes bp h apart = ground (
  arith,
  get-put-Apart h.bytes (get h.bytes bp + 4) (get h.bytes (bp + 4)) bp,
  get-put-Apart h.bytes (get h.bytes bp + 4) (get h.bytes (bp + 4)) (bp + 4),
)

remove_free_block-seg_list :
    (bp : ℕ) (h : Heap) (j : ℕ)
    → (remove_free_block bp h).seg_list j ≡ (
        if truthy (get h.bytes bp)
        then h.seg_list j
        else if j == index h bp
        then get h.bytes (bp + 4)
        else h.seg_list j)
unfolding remove_free_block
remove_free_block-seg_list bp h j = ground arith

remove_free_block-vm : (bp : ℕ) (h : Heap) → (remove_free_block bp h).vm ≡ h.vm
unfolding remove_free_block
remove_free_block-vm bp h = ground arith

-- What misses the neighbours is kept.
unlinked-get :
    (m : Memory) (pred succ a : ℕ)
    → (pred ≡ 0) ⊎ Apart pred 8 a 4
    → (succ ≡ 0) ⊎ Apart succ 8 a 4
    → get (unlinked m pred succ) a ≡ get m a
unlinked-get m pred succ a p s = ground (
  arith,
  get-put-Apart (put m (pred + 4) succ) succ pred a,
  get-put-Apart m (pred + 4) succ a,
  get-put-Apart m succ pred a,
)

-- Another list keeps its links.
unlinked-keeps_list :
    (m : Memory) (pred succ p : ℕ) (ys : List ℕ)
    → (pred ≡ 0) ⊎ Clear pred 8 ys
    → (succ ≡ 0) ⊎ Clear succ 8 ys
    → Links m 0 p ys
    → Links (unlinked m pred succ) 0 p ys
unlinked-keeps_list m pred succ p ys c d l = ground (
  arith,
  Links-put m (pred + 4) succ 0 p ys,
  Links-put (put m (pred + 4) succ) succ pred 0 p ys,
  Links-put m succ pred 0 p ys,
  Clear-weaken pred (pred + 4) 8 4 ys,
  Clear-weaken succ succ 8 4 ys,
)

module _ (bp : ℕ) (h : Heap) (nodes : ℕ → List ℕ) (s : IsSegregated h nodes) (i : ℕ)
    (in_range : i < 12) (on : has bp (nodes i) ≡ true) where
  abbrev pred : ℕ
  pred = get h.bytes bp

  abbrev succ : ℕ
  succ = get h.bytes (bp + 4)

  class : index h bp ≡ i
  class = s.classes i bp in_range on

  ends : Ends h.bytes 0 (h.seg_list i) bp (nodes i)
  ends = Links-Ends h.bytes 0 (h.seg_list i) bp (nodes i) (s.links i in_range) on

  -- The neighbours are nodes of the same list.
  pred_listed : (pred ≡ 0) ⊎ (has pred (nodes i) ≡ true)
  pred_listed = ground (arith, ends.back, has_of_without bp pred (nodes i))

  succ_listed : (succ ≡ 0) ⊎ (has succ (nodes i) ≡ true)
  succ_listed = ground (arith, ends.on, has_of_without bp succ (nodes i))

  bytes_lem : (remove_free_block bp h).bytes ≡ unlinked h.bytes pred succ
  bytes_lem = remove_free_block-bytes bp h apart
    where
      apart : (pred ≡ 0) ⊎ Apart pred 8 bp 8
      apart = ground (
        arith,
        ends.back,
        has-without h.bytes 0 (h.seg_list i) bp pred (nodes i) (s.links i in_range),
        Links-Apart h.bytes 0 (h.seg_list i) pred bp (nodes i) (s.links i in_range),
        has_of_without bp pred (nodes i),
      )

  head_lem :
      (j : ℕ)
      → (remove_free_block bp h).seg_list j
        ≡ (if j == i then (if bp == h.seg_list i then succ else h.seg_list i) else h.seg_list j)
  head_lem j = ground (arith, remove_free_block-seg_list bp h j, class, ends.back)

  links :
      (j : ℕ)
      → j < 12
      → Links
          (unlinked h.bytes pred succ)
          0
          (if j == i then (if bp == h.seg_list i then succ else h.seg_list i) else h.seg_list j)
          (dropped nodes i bp j)
  links j lt = elim (==-cases j i) [
    | inl (e, t) ↦ rw t (
        subst
          (λ k.
            Links (unlinked h.bytes pred succ) 0 (if bp == h.seg_list i then succ else h.seg_list i)
              (without bp (nodes k)))
          (sym e)
          (unlinked-Links h.bytes 0 (h.seg_list i) bp (nodes i) (inl refl) (omega arith)
            (s.links i in_range) on))
    | inr (n, f) ↦ rw f (
        unlinked-keeps_list h.bytes pred succ (h.seg_list j) (nodes j)
          (ground (arith, pred_listed, s.apart i j pred))
          (ground (arith, succ_listed, s.apart i j succ)) (s.links j lt))
  ]

  header_kept :
      (j x : ℕ)
      → j < 12
      → has x (nodes j) ≡ true
      → get (unlinked h.bytes pred succ) (x - 4) ≡ get h.bytes (x - 4)
  header_kept j x lt e =
      unlinked-get h.bytes pred succ (x - 4)
        (ground
          (arith, pred_listed, Clear-has (x - 4) 4 pred (nodes i) (s.headers j i x lt in_range e)))
        (ground
          (arith, succ_listed, Clear-has (x - 4) 4 succ (nodes i) (s.headers j i x lt in_range e)))

  -- `remove_free_block` of a node of one of the lists, wherever it stands, takes it out of that
  -- list and leaves the others as they are, with every free block on the list of its size.
  pub remove_free_block-IsSegregated : IsSegregated (remove_free_block bp h) (dropped nodes i bp)
  remove_free_block-IsSegregated = record {
    links = λ j lt. rw (head_lem j) (
        subst
          (λ k.
            Links k 0
              (if j == i then (if bp == h.seg_list i then succ else h.seg_list i) else h.seg_list j)
              (dropped nodes i bp j))
          (sym bytes_lem) (links j lt));
    apart = λ j k x lt lt' e. elim (s.apart j k x lt lt' (has-dropped nodes i bp j x e)) [
      | inl same ↦ inl same
      | inr c ↦ inr (Clear-dropped nodes i bp k x 8 c)
    ];
    headers = λ j k x lt lt' e.
        Clear-dropped nodes i bp k (x - 4) 4
          (s.headers j k x lt lt' (has-dropped nodes i bp j x e));
    classes = λ j x lt e.
        subst (λ k. get_index (get_size k (x - 4)) ≡ j) (sym bytes_lem)
          (ap get_index
              (get_size_same _ h.bytes (x - 4) (header_kept j x lt (has-dropped nodes i bp j x e)))
            ∙ s.classes j x lt (has-dropped nodes i bp j x e));
    within =
        λ j x lt e. rw (remove_free_block-vm bp h) (s.within j x lt (has-dropped nodes i bp j x e));
  }
