-- ===== src/Mdriver/Speed.antt =====
-- `eval_mm_speed` of mdriver.c: the requests of a trace and nothing else, to be timed.
pub mod Same
use malloc_lab.Base.{ℕ, not, List, [], ◌∷◌, if◌then◌else◌, ◌==◌}
use malloc_lab.Mm.Macros.{null}
use malloc_lab.Mdriver.{
  Run, ◌>>=◌, returns, stops, exited, ends, alloc, free, realloc, TraceOp, Trace, Allocator, assign,
}

pub record Load (S : Type 0) : Type 0 where
  pub heap : S
  pub blocks : ℕ → ℕ

module _ {S : Type 0} (a : Allocator S) where
  unfoldable pub speed_alloc : ℕ → ℕ → Load S → Run (Load S)
  speed_alloc index size l = ends (a.mm_malloc size l.heap) >>= λ (p, heap).
      if p == null
      then stops exited
      else returns (record { heap = heap; blocks = assign l.blocks index p })

  unfoldable pub speed_realloc : ℕ → ℕ → Load S → Run (Load S)
  speed_realloc index newsize l =
      let oldp = l.blocks index in
      ends (a.mm_realloc oldp newsize l.heap) >>= λ (newp, heap).
      if newp == null
      then stops exited
      else returns (record { heap = heap; blocks = assign l.blocks index newp })

  unfoldable pub speed_free : ℕ → Load S → Run (Load S)
  speed_free index l =
      let block = l.blocks index in returns (record l { heap = a.mm_free block l.heap })

  unfoldable pub speed_step : TraceOp → Load S → Run (Load S)
  speed_step op l = elim op.type [
    | alloc ↦ speed_alloc op.index op.size l
    | realloc ↦ speed_realloc op.index op.size l
    | free ↦ speed_free op.index l
  ]

  abbrev pub speed_steps : List TraceOp → Load S → Run (Load S)
  speed_steps [] l = returns l
  speed_steps (op ∷ ops) l = speed_step op l >>= λ l. speed_steps ops l

  unfoldable pub eval_mm_speed : Trace → S → Run (Load S)
  eval_mm_speed trace heap =
      let heap = a.mem_reset_brk heap in
      let (ok, heap) = a.mm_init heap in
      if not ok
      then stops exited
      else speed_steps trace.ops (record { heap = heap; blocks = trace.blocks })
