-- ===== src/Mdriver/Evaluate/Counts.antt =====
-- How the errors and the correct traces of mdriver.c are counted.
use malloc_lab.Base.{
  ℕ, suc, ◌+◌, ◌≤◌, ◌≡◌, refl, Bool, true, false, not, ◌&&◌, Option, List, [], ◌∷◌, ◌++◌, arith,
  if◌then◌else◌, ◌==◌, length, subst,
}
use malloc_lab.Mdriver.{Run, stops, exited, Allocator, Trace}
use malloc_lab.Mdriver.Ensures.{Ensures, Ensures-bind, Ensures-if, Ensures-of}
use malloc_lab.Mdriver.Evaluate.{
  System, Driver, measure, grade, run_trace, run_traces, Output, run_libc, run_mm, main,
}
use malloc_lab.Mdriver.Results.{
  Stats, Totals, Row, Last, Verdict, perf_index, terminated, accumulate, no_totals, performance,
}
use malloc_lab.Mdriver.Libc.{LibcHeap}
use malloc_lab.Mdriver.Options.{
  Opt, Settings, initial_settings, read_options, Team, is_complete, chosen_files,
}
use malloc_lab.Mdriver.ReadTrace.{read_trace}
use malloc_lab.Mdriver.Timer.{Float, fsecs}
use malloc_lab.Mdriver.Util.{eval_mm_util}
use malloc_lab.Mdriver.Valid.{Session, eval_mm_valid}
use malloc_lab.Mdriver.Valid.Counted.{counted, eval_mm_valid-counted}

module _ {D : Type 0} (d : Float D) where
  -- How many of the traces are correct.
  abbrev correct : List (Stats D) → ℕ
  correct [] = 0
  correct (s ∷ l) = if s.valid then suc (correct l) else correct l

  accumulate-numcorrect :
      (l : List (Stats D)) (t : Totals D) → (accumulate d l t).numcorrect ≡ correct l + t.numcorrect
  accumulate-numcorrect [] t = omega arith
  accumulate-numcorrect (s ∷ l) t =
      let rest = accumulate-numcorrect l (record {
        secs = d.plus t.secs s.secs;
        ops = d.plus t.ops s.ops;
        util = d.plus t.util s.util;
        numcorrect = if s.valid then suc t.numcorrect else t.numcorrect;
      }) in
      ground (arith, rest)

  module _ {S : Type 0} (a : Allocator S) (y : System) where
    -- A correct trace adds no error, and another one adds one.
    abbrev IsTold : ℕ → Stats D × Driver S → Type 0
    IsTold n k = k.1.errors.errors ≡ counted n k.0.valid

    measure-IsTold :
        (trace : Trace) (clock : ℕ) (s : Session S)
        → Ensures (measure d a y trace clock s) (IsTold s.errors.errors)
    unfolding measure
    measure-IsTold trace clock s =
        Ensures-bind
          (eval_mm_util a (record trace { blocks = s.blocks; block_sizes = s.block_sizes }) s.heap)
          _ (λ _. Unit) (IsTold s.errors.errors) (Ensures-of _ _ λ _ _. tt)
          λ (sizes, u) _.
            Ensures-bind (fsecs d y.now _ _) _ (λ _. Unit) (IsTold s.errors.errors)
              (Ensures-of _ _ λ _ _. tt) λ _ _. refl

    grade-IsTold :
        (trace : Trace) (clock n : ℕ) (k : Bool × Session S)
        → k.1.errors.errors ≡ counted n k.0
        → Ensures (grade d a y trace clock k) (IsTold n)
    unfolding grade
    grade-IsTold trace clock n (true, s) e =
        subst (λ n. Ensures (measure d a y trace clock s) (IsTold n)) e
          (measure-IsTold trace clock s)
    grade-IsTold trace clock n (false, s) e = e

    run_trace-IsTold :
        (i : ℕ) (path : List ℕ) (v : Driver S)
        → Ensures (run_trace d a y i path v) (IsTold v.errors.errors)
    unfolding run_trace
    run_trace-IsTold i path v =
        Ensures-bind (read_trace (y.trace_given true i) (y.junk true i) (y.files path)) _
          (λ _. Unit) (IsTold v.errors.errors) (Ensures-of _ _ λ _ _. tt)
          λ trace _.
            Ensures-bind (eval_mm_valid a y.range_given i trace v.heap v.ranges v.errors)
              (grade d a y trace v.clock) _ (IsTold v.errors.errors)
              (eval_mm_valid-counted a y.range_given i trace v.heap v.ranges v.errors)
              (grade-IsTold trace v.clock v.errors.errors)

    abbrev AllTold : ℕ → ℕ → List (Stats D) × Driver S → Type 0
    AllTold n m k = k.1.errors.errors + correct k.0 ≡ n + m

    run_traces-AllTold :
        (i : ℕ) (tracedir : List ℕ) (files : List (List ℕ)) (v : Driver S)
        → Ensures (run_traces d a y i tracedir files v) (AllTold v.errors.errors (length files))
    run_traces-AllTold i tracedir [] v = omega arith
    run_traces-AllTold i tracedir (file ∷ files) v =
        Ensures-bind (run_trace d a y i (tracedir ++ file) v) _ (IsTold v.errors.errors)
          (AllTold v.errors.errors (suc (length files))) (run_trace-IsTold i (tracedir ++ file) v)
          λ (s, w) e.
            Ensures-bind (run_traces d a y (i + 1) tracedir files w) _
              (AllTold w.errors.errors (length files))
              (AllTold v.errors.errors (suc (length files)))
              (run_traces-AllTold (i + 1) tracedir files w) λ (l, u) f. ground (arith, e, f)

  -- The index is printed where all the traces are correct, and else the number of the others.
  abbrev pub IsVerdict : Verdict D → ℕ → ℕ → Type 0
  IsVerdict (perf_index p1 p2 index) numcorrect n = numcorrect ≡ n
  IsVerdict (terminated errors) numcorrect n = (1 ≤ errors) × (errors + numcorrect ≡ n)

  verdict_if :
      (b : Bool) (x y : Verdict D × D) (numcorrect n : ℕ)
      → (b ≡ true → IsVerdict x.0 numcorrect n)
      → (b ≡ false → IsVerdict y.0 numcorrect n)
      → IsVerdict (if b then x else y).0 numcorrect n
  verdict_if true x y numcorrect n f g = f refl
  verdict_if false x y numcorrect n f g = g refl

  performance-IsVerdict :
      (t : Totals D) (n errors : ℕ)
      → errors + t.numcorrect ≡ n
      → IsVerdict (performance d t n errors).0 t.numcorrect n
  unfolding performance
  performance-IsVerdict t n errors e =
      verdict_if (errors == 0) _ _ t.numcorrect n (λ z. ground (arith, e, z))
        λ z. (ground (arith, z), e)

  module _ {L S : Type 0} (c : LibcHeap L) (a : Allocator S) (mem_init : Run S) (y : System) where
    abbrev pub IsAnswer : Output D → Type 0
    IsAnswer o = IsVerdict o.verdict o.numcorrect o.num_tracefiles

    run_mm-IsAnswer :
        (s : Settings) (files : List (List ℕ)) (k : Option (List (Row D) × Last D) × ℕ)
        → Ensures (run_mm d c a mem_init y s files (record { errors = 0; reports = [] }) k) IsAnswer
    unfolding run_mm
    run_mm-IsAnswer s files (libc_table, clock) =
        Ensures-if (not (y.stats_given true)) (stops exited) _ IsAnswer (λ _. tt)
          λ _.
            Ensures-bind mem_init _ (λ _. Unit) IsAnswer (Ensures-of _ _ λ _ _. tt)
              λ heap _.
                Ensures-bind
                  (run_traces d a y 0 s.tracedir files (record {
                    heap = heap;
                    ranges = [];
                    errors = record { errors = 0; reports = [] };
                    clock = clock;
                  }))
                  _ (AllTold a y 0 (length files)) IsAnswer
                  (run_traces-AllTold a y 0 s.tracedir files _)
                  λ (l, v) e.
                    performance-IsVerdict (accumulate d l (no_totals d)) (length files)
                      v.errors.errors (omega (arith, e, accumulate-numcorrect l (no_totals d)))

    -- A run of the program that is not stopped prints the performance index where all the traces
    -- are correct, and else the number of errors, which is that of the traces that are not.
    pub main-IsAnswer :
        (options : List Opt) (team : Team) (libc : L)
        → Ensures (main d c a mem_init y options team libc) IsAnswer
    unfolding main
    main-IsAnswer options team libc =
        Ensures-bind (read_options y.below y.option_given options initial_settings) _ (λ _. Unit)
          IsAnswer (Ensures-of _ _ λ _ _. tt)
          λ s _.
            Ensures-if (s.team_check && not (is_complete team)) (stops exited) _ IsAnswer (λ _. tt)
              λ _.
                Ensures-bind
                  (run_libc d c a mem_init y s (chosen_files s) libc
                    (record { errors = 0; reports = [] }))
                  _ (λ _. Unit) IsAnswer (Ensures-of _ _ λ _ _. tt)
                  λ k _. run_mm-IsAnswer s (chosen_files s) k
