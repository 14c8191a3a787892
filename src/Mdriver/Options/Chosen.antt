-- ===== src/Mdriver/Options/Chosen.antt =====
-- What the options of mdriver.c choose: the directory and the files.
use malloc_lab.Base.{
  ℕ, ◌≡◌, ◌≢◌, refl, ◌⊎◌, inl, inr, Bool, true, false, not, none, some, List, [], ◌∷◌, ◌++◌,
  if◌then◌else◌, ◌==◌, ==-cases, ◌∙◌, subst, sym,
}
use malloc_lab.Mdriver.{returns, stops, exited}
use malloc_lab.Mdriver.Ensures.{Ensures, Ensures-bind, Ensures-if}
use malloc_lab.Mdriver.Options.{
  Opt, autograde, one_file, in_dir, any_team, with_libc, show, show_more, help, unknown, Settings,
  here, initial_settings, last_char, with_slash, read_option, read_options,
}

-- Each directory that is given by -t has at least one character.
abbrev pub IsNamed : List Opt → Type 0
IsNamed [] = Unit
IsNamed (in_dir dir ∷ os) = (dir ≢ []) × IsNamed os
IsNamed (_ ∷ os) = IsNamed os

-- No file is chosen, or one is, in the current directory.
abbrev pub IsChoice : Settings → Type 0
IsChoice s =
    ((s.tracefiles ≡ none) × (s.num_tracefiles ≡ 0))
    ⊎ ((file : List ℕ) × (s.tracefiles ≡ some (file ∷ []))
        × (s.num_tracefiles ≡ 1)
        × (s.tracedir ≡ here))

pub record IsSettled (s : Settings) : Type 0 where
  pub slash : last_char 0 s.tracedir ≡ 47
  pub choice : IsChoice s

last_char-append : (below c : ℕ) (cs : List ℕ) → last_char below (cs ++ (c ∷ [])) ≡ c
last_char-append below c [] = refl
last_char-append below c (d ∷ cs) = last_char-append d c cs

last_char_same : (a b : ℕ) (cs : List ℕ) → cs ≢ [] → last_char a cs ≡ last_char b cs
last_char_same a b [] ne = elim (ne refl) [ ]
last_char_same a b (c ∷ cs) ne = refl

with_slash-last_char :
    (below : ℕ) (dir : List ℕ) → dir ≢ [] → last_char 0 (with_slash below dir) ≡ 47
with_slash-last_char below dir ne = elim (==-cases (last_char below dir) 47) [
  | inl (e, t) ↦
      subst (λ b. last_char 0 (if not b then dir ++ (47 ∷ []) else dir) ≡ 47) (sym t)
        (last_char_same 0 below dir ne ∙ e)
  | inr (_, t) ↦
      subst (λ b. last_char 0 (if not b then dir ++ (47 ∷ []) else dir) ≡ 47) (sym t)
        (last_char-append 0 47 dir)
]

module _ (below : ℕ) (given : Bool) where
  in_dir-IsSettled :
      (dir : List ℕ) (s : Settings)
      → dir ≢ []
      → IsSettled s
      → Ensures (read_option below given (in_dir dir) s) IsSettled
  unfolding read_option
  in_dir-IsSettled dir s ne i = elim i.choice [
    | inl (none_yet, zero_yet) ↦
        Ensures-if (s.num_tracefiles == 1) (returns s) _ IsSettled (λ _. i)
          λ _. record {
            slash = with_slash-last_char below dir ne;
            choice = inl (none_yet, zero_yet);
          }
    | inr (file, some_file, one, at) ↦
        subst
          (λ n.
            Ensures
              (if n == 1 then returns s else returns (record s { tracedir = with_slash below dir }))
              IsSettled)
          (sym one) i
  ]

  read_options-run :
      (os : List Opt) (s : Settings)
      → IsNamed os
      → IsSettled s
      → Ensures (read_options below given os s) IsSettled
  unfolding read_option
  read_options-run [] s named i = i
  read_options-run (autograde ∷ os) s named i =
      read_options-run os (record s { autograder = true }) named
        record { slash = i.slash; choice = i.choice }
  read_options-run (one_file file ∷ os) s named i =
      Ensures-bind (read_option below given (one_file file) s) (read_options below given os)
        IsSettled IsSettled
        (Ensures-if (not given) (stops exited) _ IsSettled (λ _. tt)
          λ _. record { slash = refl; choice = inr (file, refl, refl, refl) })
        λ s i. read_options-run os s named i
  read_options-run (in_dir dir ∷ os) s named i =
      Ensures-bind (read_option below given (in_dir dir) s) (read_options below given os) IsSettled
        IsSettled (in_dir-IsSettled dir s named.0 i) λ s i. read_options-run os s named.1 i
  read_options-run (any_team ∷ os) s named i =
      read_options-run os (record s { team_check = false }) named
        record { slash = i.slash; choice = i.choice }
  read_options-run (with_libc ∷ os) s named i =
      read_options-run os (record s { run_libc = true }) named
        record { slash = i.slash; choice = i.choice }
  read_options-run (show ∷ os) s named i =
      read_options-run os (record s { verbose = 1 }) named
        record { slash = i.slash; choice = i.choice }
  read_options-run (show_more ∷ os) s named i =
      read_options-run os (record s { verbose = 2 }) named
        record { slash = i.slash; choice = i.choice }
  read_options-run (help ∷ os) s named i = tt
  read_options-run (unknown ∷ os) s named i = tt

  -- Whatever the options are, if each directory that -t gives has a character: the path of the
  -- traces ends with a slash, and either no file is chosen, or one is, in the current directory.
  pub read_options-IsSettled :
      (os : List Opt)
      → IsNamed os
      → Ensures (read_options below given os initial_settings) IsSettled
  read_options-IsSettled os named =
      read_options-run os initial_settings named record { slash = refl; choice = inl (refl, refl) }
