-- ===== src/Mdriver/Results/Table.antt =====
-- The table of `printresults` in mdriver.c and the totals that `main` adds up.
use malloc_lab.Base.{
  ℕ, suc, ◌+◌, ◌≡◌, refl, sym, subst, ap, Bool, true, List, [], ◌∷◌, length, if◌then◌else◌,
}
use malloc_lab.Mdriver.Results.{
  Stats, Totals, Row, yes, no, sums, accumulate, no_totals, print_rows, printresults,
}
use malloc_lab.Mdriver.Timer.{Float}

module _ {D : Type 0} (d : Float D) where
  abbrev pub AllCorrect : List (Stats D) → Type 0
  AllCorrect [] = Unit
  AllCorrect (s ∷ l) = (s.valid ≡ true) × AllCorrect l

  -- The row of one trace, by whether the trace is correct.
  abbrev row_of : Bool → ℕ → Stats D → List (Stats D) → Totals D → List (Row D) × Totals D
  row_of ok i s l t =
      if ok
      then (let (rows, t) = print_rows d (i + 1) l (record t {
        secs = d.plus t.secs s.secs;
        ops = d.plus t.ops s.ops;
        util = d.plus t.util s.util;
      }) in
          (
            yes i (d.times s.util (d.literal 100 0)) s.ops s.secs
                  (d.over (d.over s.ops (d.literal 1 3)) s.secs)
                ∷ rows,
            t,
          ))
      else (let (rows, t) = print_rows d (i + 1) l t in (no i ∷ rows, t))

  print_rows-accumulate :
      (l : List (Stats D)) (i n : ℕ) (t : Totals D)
      → AllCorrect l
      → (print_rows d i l t).1
        ≡ record (accumulate d l (record t { numcorrect = n })) { numcorrect = t.numcorrect }
  print_rows-accumulate [] i n t all = refl
  print_rows-accumulate (s ∷ l) i n t (ok, all) =
      subst
        (λ b. (row_of b i s l t).1 ≡ record (accumulate d (s ∷ l) (record t { numcorrect = n })) {
          numcorrect = t.numcorrect;
        })
        (sym ok)
        (print_rows-accumulate l (i + 1) (if s.valid then suc n else n)
          (record t {
            secs = d.plus t.secs s.secs;
            ops = d.plus t.ops s.ops;
            util = d.plus t.util s.util;
          })
          all)

  -- Where all the traces are correct, the last row of the table is made of the same totals as the
  -- performance index.
  pub printresults-accumulate :
      (l : List (Stats D))
      → AllCorrect l
      → (printresults d l 0).1
        ≡ sums
            (d.times
              (d.over (accumulate d l (no_totals d)).util (d.of_int (length l)))
              (d.literal 100 0))
            (accumulate d l (no_totals d)).ops
            (accumulate d l (no_totals d)).secs
            (d.over
              (d.over (accumulate d l (no_totals d)).ops (d.literal 1 3))
              (accumulate d l (no_totals d)).secs)
  unfolding printresults
  printresults-accumulate l all =
      ap
        (λ (t : Totals D).
          sums (d.times (d.over t.util (d.of_int (length l))) (d.literal 100 0)) t.ops t.secs
            (d.over (d.over t.ops (d.literal 1 3)) t.secs))
        (print_rows-accumulate l 0 0 (no_totals d) all)
