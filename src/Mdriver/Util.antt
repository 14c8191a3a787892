-- ===== src/Mdriver/Util.antt =====
-- `eval_mm_util` of mdriver.c: the high-water mark of the payloads, and the size of the heap.
use malloc_lab.Base.{ℕ, ◌+◌, not, List, [], ◌∷◌, if◌then◌else◌, ◌==◌}
use malloc_lab.Mm.Macros.{null, word, sub_word}
use malloc_lab.Mdriver.{
  Run, ◌>>=◌, returns, stops, exited, ends, alloc, free, realloc, TraceOp, Trace, Allocator, assign,
  int_ltb,
}

-- The sizes are `int`s, given by their bit patterns.
pub record Usage (S : Type 0) : Type 0 where
  pub heap : S
  pub blocks : ℕ → ℕ
  pub block_sizes : ℕ → ℕ
  pub total_size : ℕ
  pub max_total_size : ℕ

module _ {S : Type 0} (a : Allocator S) where
  abbrev high_water : Usage S → Usage S
  high_water u = record u {
    max_total_size =
        if int_ltb u.max_total_size u.total_size then u.total_size else u.max_total_size;
  }

  unfoldable pub util_alloc : ℕ → ℕ → Usage S → Run (Usage S)
  util_alloc index size u = ends (a.mm_malloc size u.heap) >>= λ (p, heap).
      if p == null
      then stops exited
      else returns (
          high_water (record u {
            heap = heap;
            blocks = assign u.blocks index p;
            block_sizes = assign u.block_sizes index size;
            total_size = word (u.total_size + size);
          }))

  unfoldable pub util_realloc : ℕ → ℕ → Usage S → Run (Usage S)
  util_realloc index newsize u =
      let oldsize = u.block_sizes index in
      let oldp = u.blocks index in
      ends (a.mm_realloc oldp newsize u.heap) >>= λ (newp, heap).
      if newp == null
      then stops exited
      else returns (
          high_water (record u {
            heap = heap;
            blocks = assign u.blocks index newp;
            block_sizes = assign u.block_sizes index newsize;
            total_size = word (u.total_size + sub_word newsize oldsize);
          }))

  unfoldable pub util_free : ℕ → Usage S → Run (Usage S)
  util_free index u =
      let size = u.block_sizes index in
      let p = u.blocks index in
      returns (record u { heap = a.mm_free p u.heap; total_size = sub_word u.total_size size })

  unfoldable pub util_step : TraceOp → Usage S → Run (Usage S)
  util_step op u = elim op.type [
    | alloc ↦ util_alloc op.index op.size u
    | realloc ↦ util_realloc op.index op.size u
    | free ↦ util_free op.index u
  ]

  abbrev pub util_steps : List TraceOp → Usage S → Run (Usage S)
  util_steps [] u = returns u
  util_steps (op ∷ ops) u = util_step op u >>= λ u. util_steps ops u

  -- The two numbers whose ratio is the utilization, and the state after the run.
  unfoldable pub eval_mm_util : Trace → S → Run ((ℕ × ℕ) × Usage S)
  eval_mm_util trace heap =
      let heap = a.mem_reset_brk heap in
      let (ok, heap) = a.mm_init heap in
      if not ok
      then stops exited
      else (util_steps trace.ops (record {
        heap = heap;
        blocks = trace.blocks;
        block_sizes = trace.block_sizes;
        total_size = 0;
        max_total_size = 0;
      })
          >>= λ u. returns ((u.max_total_size, a.mem_heapsize u.heap), u))
