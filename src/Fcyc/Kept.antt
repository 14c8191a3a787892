-- ===== src/Fcyc/Kept.antt =====
-- add_sample of fcyc.c keeps the least of the measurements first.
use malloc_lab.Base.{
  ℕ, suc, ◌-◌, ◌≤◌, ◌<◌, ◌≡◌, ◌≢◌, sym, ap, subst, ◌∙◌, Bool, false, arith, Bool-cases, ==-cases,
  ◌⊎◌, inl, inr, ltb, if◌then◌else◌,
}
use malloc_lab.Fcyc.{Sampler, store, add_sample}
use malloc_lab.Fcyc.Sinks.{IsOrder, Le, Sorted-le, sunk, Sinks, sink-Sinks}

module _ {A : Type 0} (less : A → A → Bool) (close : A → A → Bool) (kbest maxsamples : ℕ)
    (o : IsOrder less) where
  abbrev put_at : (ℕ → A) → ℕ → A → ℕ → A
  put_at v pos a = store less close kbest maxsamples v pos a

  put_at-here : (v : ℕ → A) (pos : ℕ) (a : A) → put_at v pos a pos ≡ a
  put_at-here v pos a = ground arith

  put_at-other : (v : ℕ → A) (pos i : ℕ) (a : A) → i ≢ pos → put_at v pos a i ≡ v i
  put_at-other v pos i a ne = ground arith

  -- After `n` of the measurements `cyc`: the kept values are sorted, and the first of them is the
  -- least measurement.
  pub record Keeps (cyc : ℕ → A) (n : ℕ) (v : ℕ → A) : Type 0 where
    pub kept :
        (i : ℕ) → suc i < n → suc i < kbest → Le less close kbest maxsamples o (v i) (v (suc i))
    pub least : (i : ℕ) → i < n → Le less close kbest maxsamples o (v 0) (cyc i)
    pub attained : (n ≡ 0) ⊎ ((i : ℕ) × (i < n) × (v 0 ≡ cyc i))

  -- A measurement that is put at `pos` and sinks.
  sunk-Keeps :
      (cyc : ℕ → A) (n pos : ℕ) (v : ℕ → A)
      → Keeps cyc n v
      → pos ≤ n
      → pos < kbest
      → (n ≤ pos) ⊎ (kbest ≤ suc pos)
      → (n ≢ 0 → pos ≡ 0 → Le less close kbest maxsamples o (cyc n) (v 0))
      → Keeps cyc (suc n) (sunk less close kbest maxsamples o pos (put_at v pos (cyc n)))
  sunk-Keeps cyc n pos v k le room full first = record {
    kept = λ i a b. r.sorted i (ground arith);
    least = λ i lt. elim (==-cases i n) [
      | inl (e, _) ↦ subst (λ j. Le less close kbest maxsamples o (w 0) (cyc j)) (sym e) new
      | inr (ne, _) ↦ o.trans (w 0) (v 0) (cyc i) (old (omega arith)) (k.least i (omega arith))
    ];
    attained = elim r.from [
      | inl e ↦ elim (==-cases pos 0) [
        | inl (z, _) ↦
            inr (n, omega arith, e ∙ ap (λ p. put_at v p (cyc n) 0) z ∙ put_at-here v 0 (cyc n))
        | inr (ne, _) ↦ elim k.attained [
          | inl z ↦ absurd (omega arith)
          | inr (i, lt, e') ↦
              inr (i, omega arith, e ∙ put_at-other v pos 0 (cyc n) (λ z. ne (sym z)) ∙ e')
        ]
      ]
      | inr e ↦ inr (n, omega arith, e ∙ put_at-here v pos (cyc n))
    ];
  }
    where
      w : ℕ → A
      w = sunk less close kbest maxsamples o pos (put_at v pos (cyc n))

      r : Sinks less close kbest maxsamples o pos (put_at v pos (cyc n)) w
      r = sink-Sinks less close kbest maxsamples o pos (put_at v pos (cyc n)) λ i lt.
          subst (λ x. Le less close kbest maxsamples o x (put_at v pos (cyc n) (suc i)))
            (sym (put_at-other v pos i (cyc n) (omega arith)))
            (subst (Le less close kbest maxsamples o (v i))
              (sym (put_at-other v pos (suc i) (cyc n) (omega arith)))
              (k.kept i (omega arith) (omega arith)))

      new : Le less close kbest maxsamples o (w 0) (cyc n)
      new = subst (Le less close kbest maxsamples o (w 0)) (put_at-here v pos (cyc n)) r.below_new

      old : n ≢ 0 → Le less close kbest maxsamples o (w 0) (v 0)
      old ne = elim (==-cases pos 0) [
        | inl (z, _) ↦ o.trans (w 0) (cyc n) (v 0) new (first ne z)
        | inr (ne, _) ↦
            subst (Le less close kbest maxsamples o (w 0))
              (put_at-other v pos 0 (cyc n) (λ z. ne (sym z))) r.below_first
      ]

  -- A measurement that is not below the last of the kept values.
  dropped-Keeps :
      (cyc : ℕ → A) (n : ℕ) (v : ℕ → A)
      → Keeps cyc n v
      → 0 < kbest
      → kbest ≤ n
      → Le less close kbest maxsamples o (v (kbest - 1)) (cyc n)
      → Keeps cyc (suc n) v
  dropped-Keeps cyc n v k pos full high = record {
    kept = λ i a b. k.kept i (omega arith) b;
    least = λ i lt. elim (==-cases i n) [
      | inl (e, _) ↦
          subst (λ j. Le less close kbest maxsamples o (v 0) (cyc j)) (sym e)
            (o.trans (v 0) (v (kbest - 1)) (cyc n)
              (Sorted-le less close kbest maxsamples o kbest v (λ i lt. k.kept i (omega arith) lt) 0
                (kbest - 1) (omega arith) (omega arith))
              high)
      | inr (ne, _) ↦ k.least i (omega arith)
    ];
    attained = elim k.attained [
      | inl z ↦ absurd (omega arith)
      | inr (i, lt, e) ↦ inr (i, omega arith, e)
    ];
  }

  pub add_sample-Keeps :
      (cyc : ℕ → A) (s : Sampler A)
      → 0 < kbest
      → Keeps cyc s.samplecount s.values
      → Keeps cyc
          (suc s.samplecount)
          (add_sample less close kbest maxsamples (cyc s.samplecount) s).values
  unfolding add_sample
  add_sample-Keeps cyc s pos k = elim (Bool-cases (ltb n kbest)) [
    | inl t ↦
        subst (λ b. Keeps cyc (suc n) (choice b (less (cyc n) (v last)))) (sym t)
          (sunk-Keeps cyc n n v k (omega arith) (ground (arith, t)) (inl (omega arith))
            λ ne z. absurd (ne z))
    | inr f ↦
        subst (λ b. Keeps cyc (suc n) (choice b (less (cyc n) (v last)))) (sym f)
          (elim (Bool-cases (less (cyc n) (v last))) [
            | inl t ↦
                subst (λ b. Keeps cyc (suc n) (choice false b)) (sym t)
                  (sunk-Keeps cyc n last v k (ground (arith, f)) (omega arith) (inr (omega arith))
                    λ ne z.
                      subst (λ p. Le less close kbest maxsamples o (cyc n) (v p)) z
                        (o.asym (cyc n) (v last) t))
            | inr g ↦
                subst (λ b. Keeps cyc (suc n) (choice false b)) (sym g)
                  (dropped-Keeps cyc n v k pos (ground (arith, f)) g)
          ])
  ]
    where
      n : ℕ
      n = s.samplecount

      v : ℕ → A
      v = s.values

      last : ℕ
      last = kbest - 1

      choice : Bool → Bool → ℕ → A
      choice a b =
          if a
          then sunk less close kbest maxsamples o n (put_at v n (cyc n))
          else if b
          then sunk less close kbest maxsamples o last (put_at v last (cyc n))
          else v
