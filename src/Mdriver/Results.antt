-- ===== src/Mdriver/Results.antt =====
-- `printresults` of mdriver.c, and the end of `main`: the statistics of the traces are printed as a
-- table and added up, and the performance index is computed.
pub mod Table
use malloc_lab.Base.{ℕ, suc, ◌+◌, Bool, List, [], ◌∷◌, if◌then◌else◌, ◌==◌, length}
use malloc_lab.Mdriver.Timer.{Float}

pub record Stats (D : Type 0) : Type 0 where
  pub ops : D
  pub valid : Bool
  pub secs : D
  pub util : D

pub record Totals (D : Type 0) : Type 0 where
  pub secs : D
  pub ops : D
  pub util : D
  pub numcorrect : ℕ

-- The rows of the table that `printresults` prints, and the last one, which has the totals.
pub data Row (D : Type 0) : Type 0 where
  yes : ℕ → D → D → D → D → Row D
  no : ℕ → Row D

pub data Last (D : Type 0) : Type 0 where
  sums : D → D → D → D → Last D
  blank : Last D

-- What `main` prints in the end: p1 * 100, p2 * 100 and the index, or the number of errors.
pub data Verdict (D : Type 0) : Type 0 where
  perf_index : D → D → D → Verdict D
  terminated : ℕ → Verdict D

module _ {D : Type 0} (d : Float D) where
  abbrev pub zero_of : D
  zero_of = d.of_int 0

  -- The loop that adds up the statistics.
  abbrev pub accumulate : List (Stats D) → Totals D → Totals D
  accumulate [] t = t
  accumulate (s ∷ l) t = accumulate l (record {
    secs = d.plus t.secs s.secs;
    ops = d.plus t.ops s.ops;
    util = d.plus t.util s.util;
    numcorrect = if s.valid then suc t.numcorrect else t.numcorrect;
  })

  abbrev pub no_totals : Totals D
  no_totals = record { secs = zero_of; ops = zero_of; util = zero_of; numcorrect = 0 }

  -- The loop of `printresults`: the rows, and what it has added up.
  abbrev pub print_rows : ℕ → List (Stats D) → Totals D → List (Row D) × Totals D
  print_rows i [] t = ([], t)
  print_rows i (s ∷ l) t =
      if s.valid
      then (let (rows, t) = print_rows (i + 1) l (record t {
        secs = d.plus t.secs s.secs;
        ops = d.plus t.ops s.ops;
        util = d.plus t.util s.util;
      }) in
          (
            yes i (d.times s.util (d.literal 100 0)) s.ops s.secs
                  (d.over (d.over s.ops (d.literal 1 3)) s.secs)
                ∷ rows,
            t,
          ))
      else (let (rows, t) = print_rows (i + 1) l t in (no i ∷ rows, t))

  unfoldable pub printresults : List (Stats D) → ℕ → List (Row D) × Last D
  printresults l errors =
      let (rows, t) = print_rows 0 l no_totals in
      if errors == 0
      then (
        rows,
        sums (d.times (d.over t.util (d.of_int (length l))) (d.literal 100 0)) t.ops t.secs
            (d.over (d.over t.ops (d.literal 1 3)) t.secs),
      )
      else (rows, blank)

  -- UTIL_WEIGHT and AVG_LIBC_THRUPUT of config.h.
  abbrev pub util_weight : D
  util_weight = d.fraction 60 2

  abbrev pub avg_libc_thruput : D
  avg_libc_thruput = d.literal 600 3

  -- The performance index, of the totals of `n` traces, and the number behind "perfidx:".
  unfoldable pub performance : Totals D → ℕ → ℕ → Verdict D × D
  performance t n errors =
      let avg_mm_util = d.over t.util (d.of_int n) in
      let avg_mm_throughput = d.over t.ops t.secs in
      let p1 = d.times util_weight avg_mm_util in
      let rest = d.minus (d.literal 1 0) util_weight in
      let p2 =
        if d.above avg_mm_throughput avg_libc_thruput
        then rest
        else d.times rest (d.over avg_mm_throughput avg_libc_thruput) in
      let perfindex = d.times (d.plus p1 p2) (d.literal 100 0) in
      if errors == 0
      then (
        perf_index (d.times p1 (d.literal 100 0)) (d.times p2 (d.literal 100 0)) perfindex,
        perfindex,
      )
      else (terminated errors, zero_of)
