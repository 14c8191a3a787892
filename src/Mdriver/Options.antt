-- ===== src/Mdriver/Options.antt =====
-- The command line of mdriver.c: the loop over the options in `main`, the team information, and the
-- trace files of config.h. A string is the list of its characters; `tracedir` of the source has room
-- for 1024 of them, and a longer directory is undefined behaviour in C.
pub mod Chosen
use malloc_lab.Base.{
  ℕ, Bool, true, false, not, ◌&&◌, ◌||◌, Option, none, some, List, [], ◌∷◌, ◌++◌, if◌then◌else◌,
  ◌==◌,
}
use malloc_lab.Mdriver.{Run, ◌>>=◌, returns, stops, exited}

-- What `getopt` gives for -g, -f, -t, -a, -l, -v, -V, -h, and for anything else.
pub data Opt : Type 0 where
  autograde : Opt
  one_file : List ℕ → Opt
  in_dir : List ℕ → Opt
  any_team : Opt
  with_libc : Opt
  show : Opt
  show_more : Opt
  help : Opt
  unknown : Opt

pub record Settings : Type 0 where
  pub tracefiles : Option (List (List ℕ))
  pub num_tracefiles : ℕ
  pub tracedir : List ℕ
  pub team_check : Bool
  pub run_libc : Bool
  pub autograder : Bool
  pub verbose : ℕ

-- "./traces/" and "./".
abbrev pub traces : List ℕ
traces = 46 ∷ 47 ∷ 116 ∷ 114 ∷ 97 ∷ 99 ∷ 101 ∷ 115 ∷ 47 ∷ []

abbrev pub here : List ℕ
here = 46 ∷ 47 ∷ []

abbrev pub initial_settings : Settings
initial_settings = record {
  tracefiles = none;
  num_tracefiles = 0;
  tracedir = traces;
  team_check = true;
  run_libc = false;
  autograder = false;
  verbose = 0;
}

-- The last character; of the empty string, the byte that stands in front of the array.
abbrev pub last_char : ℕ → List ℕ → ℕ
last_char below [] = below
last_char below (c ∷ cs) = last_char c cs

abbrev pub with_slash : ℕ → List ℕ → List ℕ
with_slash below dir = if not (last_char below dir == 47) then dir ++ (47 ∷ []) else dir

-- `below` is the byte in front of `tracedir`, `given` says whether `realloc` gives memory.
module _ (below : ℕ) (given : Bool) where
  unfoldable pub read_option : Opt → Settings → Run Settings
  read_option autograde s = returns (record s { autograder = true })
  read_option (one_file file) s =
      if not given
      then stops exited
      else returns (record s { num_tracefiles = 1; tracedir = here; tracefiles = some (file ∷ []) })
  read_option (in_dir dir) s =
      if s.num_tracefiles == 1
      then returns s
      else returns (record s { tracedir = with_slash below dir })
  read_option any_team s = returns (record s { team_check = false })
  read_option with_libc s = returns (record s { run_libc = true })
  read_option show s = returns (record s { verbose = 1 })
  read_option show_more s = returns (record s { verbose = 2 })
  read_option help s = stops exited
  read_option unknown s = stops exited

  abbrev pub read_options : List Opt → Settings → Run Settings
  read_options [] s = returns s
  read_options (o ∷ os) s = read_option o s >>= λ s. read_options os s

pub record Team : Type 0 where
  pub teamname : List ℕ
  pub name1 : List ℕ
  pub id1 : List ℕ
  pub name2 : List ℕ
  pub id2 : List ℕ

abbrev is_empty : List ℕ → Bool
is_empty [] = true
is_empty (c ∷ cs) = false

-- `main` goes on with a team that has a name, a first member, and all or nothing of a second.
unfoldable pub is_complete : Team → Bool
is_complete t =
    not (is_empty t.teamname)
    && not (is_empty t.name1 || is_empty t.id1)
    && not (not (is_empty t.name2) && is_empty t.id2 || is_empty t.name2 && not (is_empty t.id2))

-- DEFAULT_TRACEFILES, from "amptjp-bal.rep" to "realloc2-bal.rep".
abbrev default_tracefiles : List (List ℕ)
default_tracefiles =
    (97 ∷ 109 ∷ 112 ∷ 116 ∷ 106 ∷ 112 ∷ 45 ∷ 98 ∷ 97 ∷ 108 ∷ 46 ∷ 114 ∷ 101 ∷ 112 ∷ [])
    ∷ (99 ∷ 99 ∷ 99 ∷ 112 ∷ 45 ∷ 98 ∷ 97 ∷ 108 ∷ 46 ∷ 114 ∷ 101 ∷ 112 ∷ [])
    ∷ (99 ∷ 112 ∷ 45 ∷ 100 ∷ 101 ∷ 99 ∷ 108 ∷ 45 ∷ 98 ∷ 97 ∷ 108 ∷ 46 ∷ 114 ∷ 101 ∷ 112 ∷ [])
    ∷ (101 ∷ 120 ∷ 112 ∷ 114 ∷ 45 ∷ 98 ∷ 97 ∷ 108 ∷ 46 ∷ 114 ∷ 101 ∷ 112 ∷ [])
    ∷ (99 ∷ 111 ∷ 97 ∷ 108 ∷ 101 ∷ 115 ∷ 99 ∷ 105 ∷ 110 ∷ 103 ∷ 45 ∷ 98 ∷ 97 ∷ 108 ∷ 46 ∷ 114 ∷ 101
        ∷ 112 ∷ [])
    ∷ (114 ∷ 97 ∷ 110 ∷ 100 ∷ 111 ∷ 109 ∷ 45 ∷ 98 ∷ 97 ∷ 108 ∷ 46 ∷ 114 ∷ 101 ∷ 112 ∷ [])
    ∷ (114 ∷ 97 ∷ 110 ∷ 100 ∷ 111 ∷ 109 ∷ 50 ∷ 45 ∷ 98 ∷ 97 ∷ 108 ∷ 46 ∷ 114 ∷ 101 ∷ 112 ∷ [])
    ∷ (98 ∷ 105 ∷ 110 ∷ 97 ∷ 114 ∷ 121 ∷ 45 ∷ 98 ∷ 97 ∷ 108 ∷ 46 ∷ 114 ∷ 101 ∷ 112 ∷ [])
    ∷ (98 ∷ 105 ∷ 110 ∷ 97 ∷ 114 ∷ 121 ∷ 50 ∷ 45 ∷ 98 ∷ 97 ∷ 108 ∷ 46 ∷ 114 ∷ 101 ∷ 112 ∷ [])
    ∷ (114 ∷ 101 ∷ 97 ∷ 108 ∷ 108 ∷ 111 ∷ 99 ∷ 45 ∷ 98 ∷ 97 ∷ 108 ∷ 46 ∷ 114 ∷ 101 ∷ 112 ∷ [])
    ∷ (114 ∷ 101 ∷ 97 ∷ 108 ∷ 108 ∷ 111 ∷ 99 ∷ 50 ∷ 45 ∷ 98 ∷ 97 ∷ 108 ∷ 46 ∷ 114 ∷ 101 ∷ 112 ∷ [])
    ∷ []

-- The files to run, which are the default ones unless -f names one.
unfoldable pub chosen_files : Settings → List (List ℕ)
chosen_files s = elim s.tracefiles [ none ↦ default_tracefiles | some files ↦ files ]
