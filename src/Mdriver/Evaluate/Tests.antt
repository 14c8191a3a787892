-- ===== src/Mdriver/Evaluate/Tests.antt =====
-- A run of mdriver.c on mm.c and one short trace. The numbers of the clock are natural numbers here.
use malloc_lab.Base.{
  ℕ, ◌+◌, ◌-◌, ◌*◌, ◌/◌, ◌^◌, ◌≡◌, refl, true, Option, none, some, List, [], ◌∷◌, ltb, length,
  arith, ap,
}
use malloc_lab.Memory.{memset}
use malloc_lab.Mm.{Heap}
use malloc_lab.Mdriver.{Allocator, returns, stops, alloc, free, realloc, TraceOp}
use malloc_lab.Mdriver.Ensures.{Ensures}
use malloc_lab.Mdriver.Evaluate.{run_libc, run_mm, run_trace, grade, measure, System, main}
use malloc_lab.Mdriver.Results.{performance, Stats, Verdict, perf_index, sums, printresults}
use malloc_lab.Mdriver.Evaluate.Counts.{IsAnswer, main-IsAnswer}
use malloc_lab.Mdriver.Results.Table.{printresults-accumulate}
use malloc_lab.Mdriver.Libc.{LibcHeap}
use malloc_lab.Mdriver.MmAllocator.{mm_allocator}
use malloc_lab.Mdriver.Options.{
  chosen_files, read_option, is_complete, one_file, in_dir, any_team, Team, initial_settings,
  read_options,
}
use malloc_lab.Mdriver.Options.Chosen.{IsSettled, read_options-IsSettled}
use malloc_lab.Mdriver.ReadTrace.{numeral, read_trace}
use malloc_lab.Mdriver.ReadTrace.Roundtrip.{lines}
use malloc_lab.Mdriver.Timer.{Float, fsecs, ftimer_gettod}
use malloc_lab.Mdriver.Ranges.{add_range}
use malloc_lab.Mdriver.Util.{eval_mm_util, util_step, util_alloc, util_free}
use malloc_lab.Mdriver.Speed.{eval_mm_speed, speed_step, speed_alloc, speed_free}
use malloc_lab.Mdriver.Valid.{
  eval_mm_valid, valid_step, valid_alloc, valid_free, check_alloc, remember,
}

abbrev untouched : Heap
untouched = record {
  vm = record { start_brk = 4096; brk = 4096; max_addr = 4096 + 20 * 2 ^ 20 };
  bytes = λ _. 0;
  heap_listp = 0;
  free_list_head = 0;
  rover = 0;
}

-- Thousandths.
abbrev fixed : Float ℕ
fixed = record {
  of_int = λ n. 1000 * n;
  of_size = λ n. 1000 * n;
  literal = λ m e. 1000 * m * 10 ^ e;
  fraction = λ m e. 1000 * m / 10 ^ e;
  plus = λ a b. a + b;
  minus = λ a b. a - b;
  times = λ a b. a * b / 1000;
  over = λ a b. 1000 * a / b;
  above = λ a b. ltb b a;
}

abbrev ops : List TraceOp
ops =
    record { type = alloc; index = 0; size = 100 }
    ∷ record { type = realloc; index = 0; size = 200 }
    ∷ record { type = free; index = 0; size = 0 }
    ∷ []

-- Each path is the file of this trace, and each call of the clock comes a second after the last.
abbrev system : System
system = record {
  files = λ _. some (numeral 20000 ∷ numeral 1 ∷ numeral 3 ∷ numeral 1 ∷ lines ops);
  trace_given = λ _ _ _. true;
  range_given = λ _. true;
  junk = λ _ _ _. 0;
  stats_given = λ _. true;
  option_given = true;
  below = 0;
  now = λ t. record { tv_sec = t; tv_usec = 0 };
}

abbrev no_libc : LibcHeap ℕ
no_libc = record {
  libc_malloc = λ size s. (0, s);
  libc_realloc = λ p size s. (0, s);
  libc_free = λ p s. s;
}

abbrev nobody : Team
nobody = record { teamname = []; name1 = []; id1 = []; name2 = []; id2 = [] }

read_options-IsSettled_example :
    Ensures
      (read_options 0 true (in_dir (97 ∷ []) ∷ one_file (98 ∷ []) ∷ []) initial_settings)
      IsSettled
read_options-IsSettled_example =
    read_options-IsSettled 0 true (in_dir (97 ∷ []) ∷ one_file (98 ∷ []) ∷ [])
      ((λ e. omega (arith, ap length e)), tt)

main-IsAnswer_example :
    Ensures
      (main fixed no_libc mm_allocator
        (returns untouched)
        system
        (one_file (98 ∷ []) ∷ any_team ∷ [])
        nobody
        0)
      (IsAnswer fixed no_libc mm_allocator (returns untouched) system)
main-IsAnswer_example =
    main-IsAnswer fixed no_libc mm_allocator (returns untouched) system
      (one_file (98 ∷ []) ∷ any_team ∷ []) nobody 0

abbrev measured : List (Stats ℕ)
measured =
    record { ops = 3000; valid = true; secs = 100; util = 900 }
    ∷ record { ops = 5000; valid = true; secs = 300; util = 700 }
    ∷ []

printresults-accumulate_example : (printresults fixed measured 0).1 ≡ sums 80000 8000 400 20
printresults-accumulate_example = printresults-accumulate fixed measured (refl, (refl, tt))

-- An allocator that gives memory from 8 on, and takes none back.
abbrev bump : Allocator ℕ
bump = record {
  mem_reset_brk = λ _. 8;
  mem_heap_lo = λ _. 8;
  mem_heap_hi = λ s. s - 1;
  mem_heapsize = λ s. s - 8;
  mm_init = λ s. (true, s);
  mm_malloc = λ size s. some (s, s + size);
  mm_realloc = λ p size s. some (s, s + size);
  mm_free = λ p s. s;
  bytes = λ _ _. 0;
  write = λ s m. s;
}

abbrev bump_ops : List TraceOp
bump_ops =
    record { type = alloc; index = 0; size = 24 }
    ∷ record { type = alloc; index = 1; size = 40 }
    ∷ record { type = free; index = 0; size = 0 }
    ∷ []

abbrev bump_system : System
bump_system = record system {
  files = λ _. some (numeral 20000 ∷ numeral 2 ∷ numeral 3 ∷ numeral 1 ∷ lines bump_ops);
}

-- The whole program on that allocator: all of the heap is used, and a run takes a tenth of a second.
verdict : Option (Verdict ℕ)
unfolding main run_libc run_mm run_trace grade measure performance fsecs ftimer_gettod chosen_files
    read_option is_complete read_trace eval_mm_util eval_mm_speed util_step util_alloc util_free
    speed_step speed_alloc speed_free eval_mm_valid valid_step valid_alloc valid_free check_alloc
    remember add_range memset
verdict =
    elim (main fixed no_libc bump (returns 8) bump_system (one_file (98 ∷ []) ∷ any_team ∷ [])
      nobody 0) [ returns o ↦ some o.verdict | stops s ↦ none ]

verdict_run : verdict ≡ some (perf_index 60000 0 60000)
unfolding verdict
verdict_run = refl
