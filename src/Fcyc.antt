-- ===== src/Fcyc.antt =====
-- fcyc.c: the K-best estimate of a running time. A measurement is of a type of its own, with the test
-- `less` in place of `<` on `double`; `close` is the test of `has_converged` on the least and on the
-- K-th least value, and the counters of clock.c give the measurements.
pub mod Ends
pub mod Kept
pub mod Least
pub mod Sinks
mod Tests
use malloc_lab.Base.{
  ℕ, zero, suc, ◌-◌, Bool, ◌&&◌, not, Option, none, some, if◌then◌else◌, ltb, leb, ◌==◌,
}

pub record Sampler (A : Type 0) : Type 0 where
  pub values : ℕ → A
  pub samplecount : ℕ

module _ {A : Type 0} (less : A → A → Bool) (close : A → A → Bool) (kbest maxsamples : ℕ) where
  -- `zeroed` is a `double` of zero bytes.
  pub init_sampler : A → Sampler A
  init_sampler zeroed = record { values = λ _. zeroed; samplecount = 0 }

  abbrev store : (ℕ → A) → ℕ → A → ℕ → A
  store values pos v i = if i == pos then v else values i

  -- The insertion sort, from the position of the new value down.
  pub sink : ℕ → (ℕ → A) → ℕ → A
  sink zero values = values
  sink (suc pos) values =
      let rest = sink pos (store (store values pos (values (suc pos))) (suc pos) (values pos)) in
      if less (values (suc pos)) (values pos) then rest else values

  unfoldable pub add_sample : A → Sampler A → Sampler A
  unfolding sink
  add_sample val s =
      let last = kbest - 1 in
      let values =
        if ltb s.samplecount kbest
        then sink s.samplecount (store s.values s.samplecount val)
        else if less val (s.values last)
        then sink last (store s.values last val)
        else s.values in
      record { values = values; samplecount = suc s.samplecount }

  unfoldable pub has_converged : Sampler A → Bool
  has_converged s = leb kbest s.samplecount && close (s.values 0) (s.values (kbest - 1))

  -- The loop of `fcyc`: `cyc` gives the measurements in their order.
  pub sample : ℕ → (ℕ → A) → Sampler A → Option (Sampler A)
  sample zero cyc s = none
  sample (suc fuel) cyc s =
      let s' = add_sample (cyc s.samplecount) s in
      let rest = sample fuel cyc s' in
      if not (has_converged s') && ltb s'.samplecount maxsamples then rest else some s'

  -- At least one sample is taken, and no more than `maxsamples` of them from there on.
  unfoldable pub fcyc : A → (ℕ → A) → Option A
  unfolding sample init_sampler
  fcyc zeroed cyc = elim (sample (suc maxsamples) cyc (init_sampler zeroed)) [
    | none ↦ none
    | some s ↦ some (s.values 0)
  ]
