-- ===== src/Mdriver/Valid.antt =====
-- `eval_mm_valid` of mdriver.c: a trace is run on the allocator, and each payload is checked.
pub mod Counted
pub mod Fills
pub mod Keeps
use malloc_lab.Base.{
  ℕ, zero, suc, ◌+◌, ◌%◌, Bool, true, false, ◌&&◌, not, List, [], ◌∷◌, if◌then◌else◌, ◌==◌, ltb,
  leb,
}
use malloc_lab.Memory.{Memory, memset}
use malloc_lab.Mm.Macros.{null}
use malloc_lab.Mdriver.{
  Run, ◌>>=◌, returns, ends, Range, alloc, free, realloc, TraceOp, Trace, Errors, malloc_error,
  Allocator, assign, int_ltb, Message, mm_init_failed, mm_malloc_failed, mm_realloc_failed,
  not_preserved,
}
use malloc_lab.Mdriver.Ranges.{add_range, remove_range, clear_ranges}

-- The state of a run: the allocator's, the arrays of the trace, the range list and the errors.
pub record Session (S : Type 0) : Type 0 where
  pub heap : S
  pub blocks : ℕ → ℕ
  pub block_sizes : ℕ → ℕ
  pub ranges : List Range
  pub errors : Errors

-- A `char` of the i386 is signed: the byte as an `int`.
abbrev pub char_as_int : ℕ → ℕ
char_as_int b = if ltb b 0x80 then b else 0xffff_ff00 + b

-- The loop over the bytes of a moved payload.
abbrev pub preserved : Memory → ℕ → ℕ → ℕ → Bool
preserved m newp index zero = true
preserved m newp index (suc n) =
    char_as_int (m newp) == index % 0x100 && preserved m (newp + 1) index n

-- How often a loop `for (j = 0; j < n; j++)` over an `int` runs.
abbrev pub int_count : ℕ → ℕ
int_count n = if leb 0x8000_0000 n then 0 else n

module _ {S : Type 0} (a : Allocator S) (given : List Range → Bool) (tracenum : ℕ) where
  abbrev pub fail : ℕ → Message → Session S → Run (Bool × Session S)
  fail i message s = returns (false, record s { errors = malloc_error tracenum i message s.errors })

  -- `add_range` of a payload; `false` where the caller returns 0.
  abbrev pub enter : ℕ → ℕ → ℕ → Session S → Run (Bool × Session S)
  enter p size i s =
      add_range given (a.mem_heap_lo s.heap) (a.mem_heap_hi s.heap) p size tracenum i s.ranges
        s.errors
      >>= λ (ok, ranges, errors). returns (ok, record s { ranges = ranges; errors = errors })

  -- The payload is filled with the low byte of the index, and remembered.
  abbrev pub fill : ℕ → ℕ → ℕ → Session S → Session S
  fill p index size s = record s {
    heap = a.write s.heap (memset (a.bytes s.heap) p (index % 0x100) size);
    blocks = assign s.blocks index p;
    block_sizes = assign s.block_sizes index size;
  }

  -- What follows the test of the new payload `p`, and what follows the call of `mm_malloc`.
  unfoldable pub remember : ℕ → ℕ → ℕ → Bool × Session S → Run (Bool × Session S)
  remember p index size (ok, s) =
      if not ok then returns (false, s) else returns (true, fill p index size s)

  unfoldable pub check_alloc : ℕ → ℕ → ℕ → ℕ → Session S → Run (Bool × Session S)
  check_alloc index size i p s =
      if p == null then fail i mm_malloc_failed s else (enter p size i s >>= remember p index size)

  unfoldable pub valid_alloc : ℕ → ℕ → ℕ → Session S → Run (Bool × Session S)
  valid_alloc index size i s = ends (a.mm_malloc size s.heap) >>= λ (p, heap).
      check_alloc index size i p (record s { heap = heap })

  -- What follows the test of the moved payload, and what follows the call of `mm_realloc`.
  unfoldable pub compare_moved : ℕ → ℕ → ℕ → ℕ → Bool × Session S → Run (Bool × Session S)
  compare_moved newp index size i (ok, s) =
      if not ok
      then returns (false, s)
      else (let oldsize = s.block_sizes index in
          let oldsize = if int_ltb size oldsize then size else oldsize in
          if not (preserved (a.bytes s.heap) newp index (int_count oldsize))
          then fail i not_preserved s
          else returns (true, fill newp index size s))

  unfoldable pub check_realloc : ℕ → ℕ → ℕ → ℕ → ℕ → Session S → Run (Bool × Session S)
  check_realloc index size i oldp newp s =
      if newp == null
      then fail i mm_realloc_failed s
      else (let s = record s { ranges = remove_range oldp s.ranges } in
          enter newp size i s >>= compare_moved newp index size i)

  unfoldable pub valid_realloc : ℕ → ℕ → ℕ → Session S → Run (Bool × Session S)
  valid_realloc index size i s =
      let oldp = s.blocks index in
      ends (a.mm_realloc oldp size s.heap) >>= λ (newp, heap).
      check_realloc index size i oldp newp (record s { heap = heap })

  unfoldable pub valid_free : ℕ → Session S → Run (Bool × Session S)
  valid_free index s =
      let p = s.blocks index in
      let s = record s { ranges = remove_range p s.ranges } in
      returns (true, record s { heap = a.mm_free p s.heap })

  -- On to the next request, unless this one returned 0.
  abbrev pub valid_next :
      (Session S → Run (Bool × Session S)) → Bool × Session S → Run (Bool × Session S)
  valid_next rest (true, s) = rest s
  valid_next rest (false, s) = returns (false, s)

  unfoldable pub valid_step : TraceOp → ℕ → Session S → Run (Bool × Session S)
  valid_step op i s = elim op.type [
    | alloc ↦ valid_alloc op.index op.size i s
    | realloc ↦ valid_realloc op.index op.size i s
    | free ↦ valid_free op.index s
  ]

  -- The loop over the requests, from the request `i` on.
  abbrev pub valid_steps : List TraceOp → ℕ → Session S → Run (Bool × Session S)
  valid_steps [] i s = returns (true, s)
  valid_steps (op ∷ ops) i s =
      valid_step op i s >>= λ k. valid_next (λ s. valid_steps ops (i + 1) s) k

  unfoldable pub eval_mm_valid : Trace → S → List Range → Errors → Run (Bool × Session S)
  eval_mm_valid trace heap ranges errors =
      let heap = a.mem_reset_brk heap in
      let ranges = clear_ranges ranges in
      let (ok, heap) = a.mm_init heap in
      let s : Session S = record {
        heap = heap;
        blocks = trace.blocks;
        block_sizes = trace.block_sizes;
        ranges = ranges;
        errors = errors;
      } in
      if not ok then fail 0 mm_init_failed s else valid_steps trace.ops 0 s
