-- ===== src/Mdriver/Evaluate.antt =====
-- `main` of mdriver.c: the traces are run on the C library and on the allocator.
pub mod Counts
mod Tests
use malloc_lab.Base.{
  ℕ, zero, suc, ◌+◌, Bool, true, false, not, ◌&&◌, ◌⊎◌, inl, inr, Option, none, some, List, [], ◌∷◌,
  ◌++◌, if◌then◌else◌, ◌==◌, length,
}
use malloc_lab.Mdriver.{Run, ◌>>=◌, returns, stops, exited, Range, Trace, Errors, Allocator, assign}
use malloc_lab.Mdriver.Libc.{LibcHeap, LibcLoad, eval_libc_valid, eval_libc_speed}
use malloc_lab.Mdriver.Options.{
  Opt, Settings, initial_settings, read_options, Team, is_complete, chosen_files,
}
use malloc_lab.Mdriver.ReadTrace.{Token, read_trace}
use malloc_lab.Mdriver.Results.{
  Stats, Totals, Row, Last, Verdict, zero_of, accumulate, no_totals, printresults, performance,
}
use malloc_lab.Mdriver.Speed.{Load, eval_mm_speed}
use malloc_lab.Mdriver.Timer.{Float, Timeval, fsecs}
use malloc_lab.Mdriver.Util.{Usage, eval_mm_util}
use malloc_lab.Mdriver.Valid.{Session, eval_mm_valid}

-- What the rest of the system gives: the files by their paths, whether the calls of `malloc` give
-- memory (those of `read_trace` for the trace of a number, the one of `add_range`, those of `main`), and
-- what stands in new memory. `true` is the part for the allocator, `false` the one for the C library.
pub record System : Type 0 where
  pub files : List ℕ → Option (List Token)
  pub trace_given : Bool → ℕ → ℕ → Bool
  pub range_given : List Range → Bool
  pub junk : Bool → ℕ → ℕ → ℕ
  pub stats_given : Bool → Bool
  pub option_given : Bool
  pub below : ℕ
  pub now : ℕ → Timeval

-- What a run keeps from one trace to the next.
pub record Driver (S : Type 0) : Type 0 where
  pub heap : S
  pub ranges : List Range
  pub errors : Errors
  pub clock : ℕ

module _ {D : Type 0} (d : Float D) where
  module _ {S : Type 0} (a : Allocator S) (y : System) where
    -- The utilization and the time of a trace that has passed the checks.
    unfoldable pub measure : Trace → ℕ → Session S → Run (Stats D × Driver S)
    measure trace clock s =
        let trace = record trace { blocks = s.blocks; block_sizes = s.block_sizes } in
        eval_mm_util a trace s.heap >>= λ ((max_total_size, heapsize), u).
        let util = d.over (d.of_int max_total_size) (d.of_size heapsize) in
        let timed : Load S → Run (Load S) =
          λ l. eval_mm_speed a (record trace { blocks = l.blocks }) l.heap in
        let load : Load S = record { heap = u.heap; blocks = u.blocks } in
        fsecs d y.now timed (load, clock) >>= λ (secs, l, clock). returns (
          record { ops = d.of_int trace.num_ops; valid = true; secs = secs; util = util },
          record { heap = l.heap; ranges = s.ranges; errors = s.errors; clock = clock },
        )

    -- What follows the call of `eval_mm_valid`; the statistics start as zero.
    unfoldable pub grade : Trace → ℕ → Bool × Session S → Run (Stats D × Driver S)
    grade trace clock (true, s) = measure trace clock s
    grade trace clock (false, s) = returns (
      record { ops = d.of_int trace.num_ops; valid = false; secs = zero_of d; util = zero_of d },
      record { heap = s.heap; ranges = s.ranges; errors = s.errors; clock = clock },
    )

    unfoldable pub run_trace : ℕ → List ℕ → Driver S → Run (Stats D × Driver S)
    run_trace i path v =
        read_trace (y.trace_given true i) (y.junk true i) (y.files path) >>= λ trace.
        eval_mm_valid a y.range_given i trace v.heap v.ranges v.errors >>= λ k.
        grade trace v.clock k

    -- The loop over the trace files, from the number `i` on.
    abbrev pub run_traces : ℕ → List ℕ → List (List ℕ) → Driver S → Run (List (Stats D) × Driver S)
    run_traces i tracedir [] v = returns ([], v)
    run_traces i tracedir (file ∷ files) v = run_trace i (tracedir ++ file) v >>= λ (s, v).
        run_traces (i + 1) tracedir files v >>= λ (l, v). returns (s ∷ l, v)

  module _ {L : Type 0} (c : LibcHeap L) (y : System) where
    -- An error of the C library ends the program.
    unfoldable pub libc_trace : ℕ → List ℕ → L × ℕ → Errors → Run (Stats D × L × ℕ)
    libc_trace i path (libc, clock) errors =
        read_trace (y.trace_given false i) (y.junk false i) (y.files path) >>= λ trace.
        elim (eval_libc_valid c trace i libc errors) [
          | inl reported ↦ stops exited
          | inr (_, l) ↦
              (let timed : LibcLoad L → Run (LibcLoad L) =
                  λ l. eval_libc_speed c (record trace { blocks = l.blocks }) l.libc in
                fsecs d y.now timed (l, clock) >>= λ (secs, l, clock). returns (
                  record {
                    ops = d.of_int trace.num_ops;
                    valid = true;
                    secs = secs;
                    util = zero_of d;
                  },
                  l.libc,
                  clock,
                ))
        ]

    abbrev pub libc_traces :
        ℕ → List ℕ → List (List ℕ) → L × ℕ → Errors → Run (List (Stats D) × L × ℕ)
    libc_traces i tracedir [] k errors = returns ([], k.0, k.1)
    libc_traces i tracedir (file ∷ files) k errors =
        libc_trace i (tracedir ++ file) k errors >>= λ (s, libc, clock).
        libc_traces (i + 1) tracedir files (libc, clock) errors >>= λ (l, libc, clock).
        returns (s ∷ l, libc, clock)

-- What a run of the program prints: the tables, where they are asked for, the verdict, and for the
-- autograder the number of correct traces and the index. `num_tracefiles` is not printed.
pub record Output (D : Type 0) : Type 0 where
  pub libc_table : Option (List (Row D) × Last D)
  pub mm_table : Option (List (Row D) × Last D)
  pub verdict : Verdict D
  pub summary : Option (ℕ × D)
  pub numcorrect : ℕ
  pub num_tracefiles : ℕ

module _ {D L S : Type 0} (d : Float D) (c : LibcHeap L) (a : Allocator S) (mem_init : Run S)
    (y : System) where
  abbrev table : Settings → List (Stats D) → ℕ → Option (List (Row D) × Last D)
  table s l errors = if not (s.verbose == 0) then some (printresults d l errors) else none

  -- The part for the C library, which -l asks for.
  unfoldable pub run_libc :
      Settings → List (List ℕ) → L → Errors → Run (Option (List (Row D) × Last D) × ℕ)
  run_libc s files libc errors =
      if not s.run_libc
      then returns (none, 0)
      else if not (y.stats_given false)
      then stops exited
      else (libc_traces d c y 0 s.tracedir files (libc, 0) errors >>= λ (l, libc, clock).
          returns (table s l errors.errors, clock))

  -- The part for the allocator, and what is made of its statistics.
  unfoldable pub run_mm :
      Settings → List (List ℕ) → Errors → Option (List (Row D) × Last D) × ℕ → Run (Output D)
  run_mm s files errors (libc_table, clock) =
      if not (y.stats_given true)
      then stops exited
      else (mem_init >>= λ heap.
          let v : Driver S = record { heap = heap; ranges = []; errors = errors; clock = clock } in
          run_traces d a y 0 s.tracedir files v >>= λ (l, v).
          let t = accumulate d l (no_totals d) in
          let (verdict, perfindex) = performance d t (length files) v.errors.errors in
          returns (record {
            libc_table = libc_table;
            mm_table = table s l v.errors.errors;
            verdict = verdict;
            summary = if s.autograder then some (t.numcorrect, perfindex) else none;
            numcorrect = t.numcorrect;
            num_tracefiles = length files;
          }))

  unfoldable pub main : List Opt → Team → L → Run (Output D)
  unfolding run_mm
  main options team libc = read_options y.below y.option_given options initial_settings >>= λ s.
      if s.team_check && not (is_complete team)
      then stops exited
      else (let errors : Errors = record { errors = 0; reports = [] } in
          let files = chosen_files s in
          run_libc s files libc errors >>= λ k. run_mm s files errors k)
