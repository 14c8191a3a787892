-- ===== src/Mdriver/Libc.antt =====
-- `eval_libc_valid` and `eval_libc_speed` of mdriver.c: the requests of a trace, on the functions of
-- the C library, which are arguments.
use malloc_lab.Base.{ℕ, ◌+◌, ◌⊎◌, inl, inr, List, [], ◌∷◌, if◌then◌else◌, ◌==◌}
use malloc_lab.Mm.Macros.{null}
use malloc_lab.Mdriver.{
  Run, returns, stops, exited, alloc, free, realloc, TraceOp, Trace, assign, Errors, malloc_error,
  Message, libc_malloc_failed, libc_realloc_failed,
}

-- `malloc`, `realloc` and `free` of the C library, on its state.
pub record LibcHeap (S : Type 0) : Type 0 where
  pub libc_malloc : ℕ → S → ℕ × S
  pub libc_realloc : ℕ → ℕ → S → ℕ × S
  pub libc_free : ℕ → S → S

pub record LibcLoad (S : Type 0) : Type 0 where
  pub libc : S
  pub blocks : ℕ → ℕ

-- What a step ends with: the state, or the error that is reported before `exit(1)`.
pub data LibcStep (S : Type 0) : Type 0 where
  done : LibcLoad S → LibcStep S
  failed : Message → LibcStep S

module _ {S : Type 0} (c : LibcHeap S) where
  abbrev keep : ℕ → Message → ℕ × S → LibcLoad S → LibcStep S
  keep index message k l =
      if k.0 == null
      then failed message
      else done (record { libc = k.1; blocks = assign l.blocks index k.0 })

  -- The calls of one request, which are the same in both functions.
  pub libc_step : TraceOp → LibcLoad S → LibcStep S
  libc_step op l = elim op.type [
    | alloc ↦ keep op.index libc_malloc_failed (c.libc_malloc op.size l.libc) l
    | realloc ↦
        keep op.index libc_realloc_failed (c.libc_realloc (l.blocks op.index) op.size l.libc) l
    | free ↦ done (record l { libc = c.libc_free (l.blocks op.index) l.libc })
  ]

  -- The requests from `i` on: the state in the end, or the errors with which the program exits.
  abbrev pub valid_requests : ℕ → List TraceOp → ℕ → LibcLoad S → Errors → Errors ⊎ LibcLoad S
  valid_requests tracenum [] i l e = inr l
  valid_requests tracenum (op ∷ ops) i l e = elim (libc_step op l) [
    | done l ↦ valid_requests tracenum ops (i + 1) l e
    | failed message ↦ inl (malloc_error tracenum i message e)
  ]

  -- 1, the only result, with the state; or `exit(1)` after a report.
  unfoldable pub eval_libc_valid : Trace → ℕ → S → Errors → Errors ⊎ (ℕ × LibcLoad S)
  eval_libc_valid trace tracenum s e =
      elim (valid_requests tracenum trace.ops 0 (record { libc = s; blocks = trace.blocks }) e) [
        | inl e ↦ inl e
        | inr l ↦ inr (1, l)
      ]

  abbrev pub speed_requests : List TraceOp → LibcLoad S → Run (LibcLoad S)
  speed_requests [] l = returns l
  speed_requests (op ∷ ops) l = elim (libc_step op l) [
    | done l ↦ speed_requests ops l
    | failed message ↦ stops exited
  ]

  unfoldable pub eval_libc_speed : Trace → S → Run (LibcLoad S)
  eval_libc_speed trace s = speed_requests trace.ops (record { libc = s; blocks = trace.blocks })
