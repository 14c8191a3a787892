-- ===== src/Fcyc/Sinks.antt =====
-- The insertion sort of fcyc.c, on measurements in an order.
use malloc_lab.Base.{
  ℕ, zero, suc, ◌≤◌, ◌<◌, ◌≡◌, ◌≢◌, refl, sym, ap, subst, ◌∙◌, Bool, true, false, arith, Bool-cases,
  ==-cases, leb-cases, ◌⊎◌, inl, inr, if◌then◌else◌,
}
use malloc_lab.Fcyc.{store, sink}

-- `less` is the strict part of a total order; on `double` that is so where no measurement is a NaN.
pub record IsOrder {A : Type 0} (less : A → A → Bool) : Type 0 where
  pub asym : (a b : A) → less a b ≡ true → less b a ≡ false
  pub trans : (a b c : A) → less b a ≡ false → less c b ≡ false → less c a ≡ false

module _ {A : Type 0} (less : A → A → Bool) (close : A → A → Bool) (kbest maxsamples : ℕ)
    (o : IsOrder less) where
  abbrev pub Le : A → A → Type 0
  Le a b = less b a ≡ false

  pub Le-refl : (a : A) → Le a a
  Le-refl a = elim (Bool-cases (less a a)) [ inl t ↦ o.asym a a t | inr f ↦ f ]

  abbrev pub Sorted : ℕ → (ℕ → A) → Type 0
  Sorted n v = (i : ℕ) → suc i < n → Le (v i) (v (suc i))

  pub Sorted-le : (n : ℕ) (v : ℕ → A) → Sorted n v → (i j : ℕ) → i ≤ j → j < n → Le (v i) (v j)
  Sorted-le n v s i zero le lt = subst (λ k. Le (v k) (v 0)) (omega (arith, le)) (Le-refl (v 0))
  Sorted-le n v s i (suc j) le lt = elim (leb-cases i j) [
    | inl (le, _) ↦ o.trans (v i) (v j) (v (suc j)) (Sorted-le n v s i j le (omega arith)) (s j lt)
    | inr (gt, _) ↦ subst (λ k. Le (v k) (v (suc j))) (omega arith) (Le-refl (v (suc j)))
  ]

  abbrev pub sunk : ℕ → (ℕ → A) → ℕ → A
  sunk pos v = sink less close kbest maxsamples pos v

  abbrev swapped : ℕ → (ℕ → A) → ℕ → A
  swapped pos v =
      store less close kbest maxsamples (store less close kbest maxsamples v pos (v (suc pos)))
        (suc pos) (v pos)

  swapped_high : (pos : ℕ) (v : ℕ → A) → swapped pos v (suc pos) ≡ v pos
  swapped_high pos v = ground arith

  swapped_low : (pos : ℕ) (v : ℕ → A) → swapped pos v pos ≡ v (suc pos)
  swapped_low pos v = ground arith

  swapped_rest : (pos : ℕ) (v : ℕ → A) (i : ℕ) → i ≢ pos → i ≢ suc pos → swapped pos v i ≡ v i
  swapped_rest pos v i a b = ground arith

  -- What `sink` leaves of the values from `pos` down, of which all but that at `pos` are sorted.
  pub record Sinks (pos : ℕ) (v w : ℕ → A) : Type 0 where
    pub sorted : Sorted (suc pos) w
    above : (i : ℕ) → pos < i → w i ≡ v i
    bounded : (x : A) → ((i : ℕ) → i ≤ pos → Le (v i) x) → Le (w pos) x
    pub below_first : Le (w 0) (v 0)
    pub below_new : Le (w 0) (v pos)
    pub from : (w 0 ≡ v 0) ⊎ (w 0 ≡ v pos)

  stays-Sinks :
      (pos : ℕ) (v : ℕ → A) → Sorted (suc pos) v → Le (v pos) (v (suc pos)) → Sinks (suc pos) v v
  stays-Sinks pos v s f = record {
    sorted = sorted;
    above = λ i lt. refl;
    bounded = λ x g. g (suc pos) (omega arith);
    below_first = Le-refl (v 0);
    below_new = Sorted-le (suc (suc pos)) v sorted 0 (suc pos) (omega arith) (omega arith);
    from = inl refl;
  }
    where
      sorted : Sorted (suc (suc pos)) v
      sorted i lt = elim (==-cases i pos) [
        | inl (e, _) ↦ subst (λ k. Le (v k) (v (suc k))) (sym e) f
        | inr (ne, _) ↦ s i (omega arith)
      ]

  swapped-Sorted : (pos : ℕ) (v : ℕ → A) → Sorted (suc pos) v → Sorted pos (swapped pos v)
  swapped-Sorted pos v s i lt =
      subst (λ x. Le x (swapped pos v (suc i)))
        (sym (swapped_rest pos v i (omega arith) (omega arith)))
        (subst (Le (v i)) (sym (swapped_rest pos v (suc i) (omega arith) (omega arith)))
          (s i (omega arith)))

  swapped_below :
      (pos : ℕ) (v : ℕ → A)
      → Sorted (suc pos) v
      → Le (v (suc pos)) (v pos)
      → (i : ℕ) → i ≤ pos
      → Le (swapped pos v i) (v pos)
  swapped_below pos v s t i le = elim (==-cases i pos) [
    | inl (e, _) ↦
        subst (λ k. Le (swapped pos v k) (v pos)) (sym e)
          (subst (λ x. Le x (v pos)) (sym (swapped_low pos v)) t)
    | inr (ne, _) ↦
        subst (λ x. Le x (v pos)) (sym (swapped_rest pos v i ne (omega arith)))
          (Sorted-le (suc pos) v s i pos le (omega arith))
  ]

  swaps-Sinks :
      (pos : ℕ) (v w : ℕ → A)
      → Sorted (suc pos) v
      → Le (v (suc pos)) (v pos)
      → Sinks pos (swapped pos v) w
      → Sinks (suc pos) v w
  swaps-Sinks pos v w s t r = record {
    sorted = λ i lt. elim (==-cases i pos) [
      | inl (e, _) ↦
          subst (λ k. Le (w k) (w (suc k))) (sym e)
            (subst (Le (w pos)) (sym top) (r.bounded (v pos) (swapped_below pos v s t)))
      | inr (ne, _) ↦ r.sorted i (omega arith)
    ];
    above = λ i lt. r.above i (omega arith) ∙ swapped_rest pos v i (omega arith) (omega arith);
    bounded = λ x g. subst (λ y. Le y x) (sym top) (g pos (omega arith));
    below_first = elim (==-cases pos 0) [
      | inl (e, _) ↦ subst (λ k. Le (w 0) (v k)) e (o.trans (w 0) (v (suc pos)) (v pos) new t)
      | inr (ne, _) ↦
          subst (Le (w 0)) (swapped_rest pos v 0 (λ e. ne (sym e)) (omega arith)) r.below_first
    ];
    below_new = new;
    from = elim r.from [
      | inl first ↦ elim (==-cases pos 0) [
        | inl (e, _) ↦ inr (first ∙ ap (swapped pos v) (sym e) ∙ swapped_low pos v)
        | inr (ne, _) ↦ inl (first ∙ swapped_rest pos v 0 (λ e. ne (sym e)) (omega arith))
      ]
      | inr last ↦ inr (last ∙ swapped_low pos v)
    ];
  }
    where
      top : w (suc pos) ≡ v pos
      top = r.above (suc pos) (omega arith) ∙ swapped_high pos v

      new : Le (w 0) (v (suc pos))
      new = subst (Le (w 0)) (swapped_low pos v) r.below_new

  pub sink-Sinks : (pos : ℕ) (v : ℕ → A) → Sorted pos v → Sinks pos v (sunk pos v)
  unfolding sink
  sink-Sinks zero v s = record {
    sorted = λ i lt. absurd (omega arith);
    above = λ i lt. refl;
    bounded = λ x f. f 0 (omega arith);
    below_first = Le-refl (v 0);
    below_new = Le-refl (v 0);
    from = inl refl;
  }
  sink-Sinks (suc pos) v s = elim (Bool-cases (less (v (suc pos)) (v pos))) [
    | inl t ↦
        subst (λ b. Sinks (suc pos) v (if b then sunk pos (swapped pos v) else v)) (sym t)
          (swaps-Sinks pos v _ s (o.asym (v (suc pos)) (v pos) t)
            (sink-Sinks pos (swapped pos v) (swapped-Sorted pos v s)))
    | inr f ↦
        subst (λ b. Sinks (suc pos) v (if b then sunk pos (swapped pos v) else v)) (sym f)
          (stays-Sinks pos v s f)
  ]
