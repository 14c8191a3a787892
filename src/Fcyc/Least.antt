-- ===== src/Fcyc/Least.antt =====
-- What `fcyc` of fcyc.c returns: the least of the measurements that it takes.
use malloc_lab.Base.{ℕ, zero, suc, ◌≤◌, ◌<◌, ◌≡◌, Bool, true, false, ◌⊎◌, ◌&&◌, not, ltb}
use malloc_lab.Fcyc.{Sampler, add_sample, has_converged, init_sampler}
use malloc_lab.Fcyc.Sinks.{IsOrder, Le}

module _ {A : Type 0} (less : A → A → Bool) (close : A → A → Bool) (kbest maxsamples : ℕ)
    (o : IsOrder less) where
  -- The sampler after the first `n` measurements, and whether the loop of `fcyc` goes on from there.
  abbrev pub after : A → (ℕ → A) → ℕ → Sampler A
  after zeroed cyc zero = init_sampler less close kbest maxsamples zeroed
  after zeroed cyc (suc n) = add_sample less close kbest maxsamples (cyc n) (after zeroed cyc n)

  abbrev pub goes_on : Sampler A → Bool
  goes_on s = not (has_converged less close kbest maxsamples s) && ltb s.samplecount maxsamples

  -- The number of measurements that `fcyc` takes: the loop ends after `n` of them, and not before.
  pub record Takes (zeroed : A) (cyc : ℕ → A) (n : ℕ) : Type 0 where
    pub some_taken : 0 < n
    pub ends : goes_on (after zeroed cyc n) ≡ false
    pub before : (j : ℕ) → 0 < j → j < n → goes_on (after zeroed cyc j) ≡ true

  -- `v` is the least of the measurements that `fcyc` takes.
  abbrev pub IsLeast : A → (ℕ → A) → A → Type 0
  IsLeast zeroed cyc v =
      (n : ℕ) × Takes zeroed cyc n
      × ((n ≤ maxsamples) ⊎ (n ≡ 1))
      × ((i : ℕ) → i < n → Le less close kbest maxsamples o v (cyc i))
      × ((i : ℕ) × (i < n) × (v ≡ cyc i))
