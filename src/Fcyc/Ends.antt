-- ===== src/Fcyc/Ends.antt =====
-- The loop of `fcyc` of fcyc.c ends.
use malloc_lab.Base.{
  ℕ, zero, suc, ◌+◌, ◌≤◌, ◌<◌, ap, ◌≡◌, refl, Bool, none, some, arith, Bool-cases, inl, inr, ◌&&◌,
  not, ltb,
}
use malloc_lab.Fcyc.{Sampler, add_sample, has_converged, sample, init_sampler, fcyc}

module _ {A : Type 0} (less : A → A → Bool) (close : A → A → Bool) (kbest maxsamples : ℕ) where
  pub sample_ends :
      (fuel : ℕ) (cyc : ℕ → A) (s : Sampler A)
      → maxsamples + 1 ≤ fuel + s.samplecount
      → 0 < fuel
      → (s' : Sampler A) × (sample less close kbest maxsamples fuel cyc s ≡ some s')
  unfolding sample add_sample
  sample_ends zero cyc s h pos = absurd (omega arith)
  sample_ends (suc fuel) cyc s h pos =
      elim (Bool-cases (
        not (has_converged less close kbest maxsamples after)
        && ltb after.samplecount maxsamples)) [
          | inl t ↦
              let more =
                sample_ends fuel cyc after (omega (arith, counts)) (ground (arith, counts, t)) in
              (more.0, rw t more.1)
          | inr f ↦ (after, rw f refl)
        ]
    where
      after : Sampler A
      after = add_sample less close kbest maxsamples (cyc s.samplecount) s

      counts : after.samplecount ≡ suc s.samplecount
      counts = refl

  -- The loop of `fcyc` ends, whatever the measurements are and however many samples it may take.
  pub fcyc_returns :
      (zeroed : A) (cyc : ℕ → A) → (v : A) × (fcyc less close kbest maxsamples zeroed cyc ≡ some v)
  unfolding fcyc init_sampler
  fcyc_returns zeroed cyc =
      let s =
        sample_ends (suc maxsamples) cyc (init_sampler less close kbest maxsamples zeroed)
          (omega arith) (omega arith) in
      (s.0.values 0, ap (λ o. elim o [ none ↦ none | some s ↦ some (s.values 0) ]) s.1)
