-- ===== src/MmDs2/Lists/FindFit.antt =====
-- `find_fit` of mm-ds2.c: its walks end, and what it finds.
use malloc_lab.Base.{
  ℕ, zero, suc, ◌+◌, ◌-◌, ◌≤◌, ◌<◌, ◌≡◌, refl, subst, inl, inr, Bool-cases, true, false, Option,
  some, List, [], ◌∷◌, arith, ◌==◌, if◌then◌else◌, ==-cases, length, leb-cases,
}
use malloc_lab.Memory.{Memory, get}
use malloc_lab.Mm.Macros.{get_size}
use malloc_lab.Mm.FreeList.{has, without, has-Clear, Links, has_of_without, length-without}
use malloc_lab.Mm.FindFit.{first_fit, first_fit-fits, first_fit_none}
use malloc_lab.MmDs2.{Heap, get_index, scan, search_lists, find_fit}
use malloc_lab.MmDs2.Index.{get_index_bounds, get_index_mono}
use malloc_lab.MmDs2.Lists.{IsSegregated}

abbrev Distinct : List ℕ → Type 0
Distinct [] = Unit
Distinct (x ∷ xs) = (has x xs ≡ false) × Distinct xs

Links-Distinct : (m : Memory) (pred p : ℕ) (xs : List ℕ) → Links m pred p xs → Distinct xs
Links-Distinct m pred p [] l = tt
Links-Distinct m pred p (x ∷ xs) l = (has-Clear x xs l.4, Links-Distinct m x (get m (x + 4)) xs l.5)

without-Distinct : (x : ℕ) (xs : List ℕ) → Distinct xs → Distinct (without x xs)
without-Distinct x [] d = tt
without-Distinct x (y ∷ ys) d =
    ground
      (arith, without-Distinct x ys d.1, has_of_without x y ys, Bool-cases (has y (without x ys)))

gone : (x : ℕ) (xs : List ℕ) → Distinct xs → has x (without x xs) ≡ false
gone x [] d = refl
gone x (y ∷ ys) d = ground (arith, gone x ys d.1)

-- Distinct numbers from 1 to `n` are at most `n`.
length_bound :
    (n : ℕ) (xs : List ℕ)
    → Distinct xs
    → ((x : ℕ) → has x xs ≡ true → (0 < x) × (x ≤ n))
    → length xs ≤ n
length_bound n [] d all = omega arith
length_bound zero (x ∷ xs) d all = absurd (omega (arith, all x (ground arith)))
length_bound (suc n) (x ∷ xs) d all = elim (Bool-cases (has (suc n) (x ∷ xs))) [
  | inl on ↦ omega (
    arith,
    length-without (suc n) (x ∷ xs) on,
    length_bound n (without (suc n) (x ∷ xs)) (without-Distinct (suc n) (x ∷ xs) d)
        λ y e. ground (arith, all y, has_of_without (suc n) y (x ∷ xs), gone (suc n) (x ∷ xs) d),
  )
  | inr off ↦
      omega (arith, length_bound n (x ∷ xs) d λ y e. ground (arith, all y e, ==-cases y (suc n)))
]

scan-first_fit :
    (fuel : ℕ) (m : Memory) (asize pred p : ℕ) (xs : List ℕ)
    → Links m pred p xs
    → length xs < fuel
    → scan fuel m asize p ≡ some (first_fit m asize xs)
unfolding scan first_fit
scan-first_fit zero m asize pred p xs l lt = absurd (omega arith)
scan-first_fit (suc fuel) m asize pred p [] l lt = ground arith
scan-first_fit (suc fuel) m asize pred p (x ∷ xs) l lt =
    ground (arith, scan-first_fit fuel m asize x (get m (x + 4)) xs l.5)

-- No block on the lists from `idx` up to `i` has `asize` bytes.
abbrev pub Lacks : Heap → (ℕ → List ℕ) → ℕ → ℕ → ℕ → Type 0
Lacks h nodes asize idx i =
    (j y : ℕ) → idx ≤ j → j < i → has y (nodes j) ≡ true → get_size h.bytes (y - 4) < asize

-- What a search from list `idx` on comes to: `NULL`, where no list has such a block, or a block
-- of the first list that has one.
pub data Finds (h : Heap) (nodes : ℕ → List ℕ) (asize idx : ℕ) (result : Option ℕ) : Type 0 where
  nothing : result ≡ some 0 → Lacks h nodes asize idx 12 → Finds h nodes asize idx result
  block :
      (bp i : ℕ)
      → result ≡ some bp
      → idx ≤ i
      → i < 12
      → has bp (nodes i) ≡ true
      → asize ≤ get_size h.bytes (bp - 4)
      → Lacks h nodes asize idx i
      → Finds h nodes asize idx result

module _ (h : Heap) (nodes : ℕ → List ℕ) (s : IsSegregated h nodes) (space : 0 < h.vm.brk)
    (asize : ℕ) where
  fit : ℕ → ℕ
  fit i = first_fit h.bytes asize (nodes i)

  scan_ends : (i : ℕ) → i < 12 → scan h.vm.brk h.bytes asize (h.seg_list i) ≡ some (fit i)
  unfolding fit
  scan_ends i lt = scan-first_fit h.vm.brk h.bytes asize 0 (h.seg_list i) (nodes i) (s.links i lt) (
      omega (
        arith,
        length_bound (h.vm.brk - 1) (nodes i)
            (Links-Distinct h.bytes 0 (h.seg_list i) (nodes i) (s.links i lt))
            λ x e. omega (arith, s.within i x lt e),
      ))

  step :
      (left i : ℕ)
      → i < 12
      → search_lists (suc left) i asize h
        ≡ (if fit i == 0 then search_lists left (i + 1) asize h else some (fit i))
  unfolding search_lists
  step left i lt = rw (scan_ends i lt) refl

  no_null : (i : ℕ) → i < 12 → has 0 (nodes i) ≡ false
  no_null i lt = elim (Bool-cases (has 0 (nodes i))) [
    | inl on ↦ absurd (omega (arith, s.within i 0 lt on))
    | inr off ↦ off
  ]

  none_here : (i : ℕ) → i < 12 → fit i ≡ 0 → Lacks h nodes asize i (i + 1)
  unfolding fit
  none_here i lt e j y lo hi on =
      first_fit_none h.bytes asize y (nodes i) (no_null i lt) e
        (subst (λ k. has y (nodes k) ≡ true) (let same : j ≡ i = omega arith in same) on)

  lower : (i n : ℕ) → i < 12 → fit i ≡ 0 → Lacks h nodes asize (i + 1) n → Lacks h nodes asize i n
  lower i n lt e above j y lo hi on = elim (==-cases j i) [
    | inl (same, _) ↦ none_here i lt e j y lo (omega arith) on
    | inr (other, _) ↦ above j y (omega arith) hi on
  ]

  search_lists-Finds :
      (left i : ℕ) → i + left ≡ 12 → Finds h nodes asize i (search_lists left i asize h)
  unfolding search_lists fit
  search_lists-Finds zero i all = nothing refl λ j y lo hi on. absurd (omega arith)
  search_lists-Finds (suc left) i all =
      let lt : i < 12 = omega arith in
      rw (step left i lt) (elim (==-cases (fit i) 0) [
        | inl (e, t) ↦ rw t (elim (search_lists-Finds left (i + 1) (omega arith)) [
          | nothing r lacks ↦ nothing r (lower i 12 lt e lacks)
          | block bp k r lo hi on fits lacks ↦
              block bp k r (omega arith) hi on fits (lower i k lt e lacks)
        ])
        | inr (n, f) ↦ rw f (
            block (fit i) i refl (omega arith) lt (first_fit-fits h.bytes asize (nodes i) n).0
              (first_fit-fits h.bytes asize (nodes i) n).1 λ j y lo hi on. absurd (omega arith))
      ])

  -- Free blocks of at least `asize` bytes are on the lists from the one of `asize` on.
  smaller : (size j : ℕ) → get_index size ≡ j → j < get_index asize → size < asize
  smaller size j e lt = ground (arith, get_index_mono asize size)

  all_lists : (n : ℕ) → n ≤ 12 → Lacks h nodes asize (get_index asize) n → Lacks h nodes asize 0 n
  all_lists n le above j y lo hi on = elim (leb-cases (get_index asize) j) [
    | inl (in_class, _) ↦ above j y in_class hi on
    | inr (below, _) ↦ smaller (get_size h.bytes (y - 4)) j (s.classes j y (omega arith) on) below
  ]

  -- Over well-formed segregated lists `find_fit` ends; it finds a free block of at least `asize`
  -- bytes on the first list that has one, and `NULL` only where no list has one.
  pub find_fit-Finds : Finds h nodes asize 0 (find_fit asize h)
  unfolding find_fit
  find_fit-Finds =
      elim (search_lists-Finds (12 - get_index asize) (get_index asize)
        (omega (arith, get_index_bounds asize))) [
          | nothing r lacks ↦ nothing r (all_lists 12 (omega arith) lacks)
          | block bp k r lo hi on fits lacks ↦
              block bp k r (omega arith) hi on fits (all_lists k (omega arith) lacks)
        ]
