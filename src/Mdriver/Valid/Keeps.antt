-- ===== src/Mdriver/Valid/Keeps.antt =====
-- What the range list holds throughout a run of `eval_mm_valid` of mdriver.c.
use malloc_lab.Base.{
  ℕ, ◌+◌, ◌≤◌, ◌≡◌, subst, sym, Bool, true, false, some, List, [], ◌∷◌, ◌==◌, not,
}
use malloc_lab.Memory.{Memory}
use malloc_lab.Mm.Macros.{null}
use malloc_lab.Mdriver.{
  Run, returns, ends, Range, alloc, free, realloc, OpType, TraceOp, Trace, Errors, Allocator,
  mm_init_failed, mm_malloc_failed, mm_realloc_failed, not_preserved,
}
use malloc_lab.Mdriver.Ensures.{Ensures, Ensures-bind, Ensures-ends, Ensures-if, Ensures-of}
use malloc_lab.Mdriver.Ranges.{add_range, remove_range}
use malloc_lab.Mdriver.Ranges.Kept.{
  IsKept, add_range-IsKept, add_range_refuses, remove_range-IsKept, IsKept-grow,
}
use malloc_lab.Mdriver.Valid.{
  Session, remember, check_alloc, valid_alloc, compare_moved, check_realloc, valid_realloc,
  valid_free, valid_step, valid_next, valid_steps, eval_mm_valid, enter, fail, fill,
}

-- What memlib.h promises of the heap: its start stays where it is, and its end moves up only.
pub record IsGrowing {S : Type 0} (a : Allocator S) : Type 0 where
  pub malloc_lo :
      (size : ℕ) (s : S) (k : ℕ × S)
      → a.mm_malloc size s ≡ some k
      → a.mem_heap_lo k.1 ≡ a.mem_heap_lo s
  pub malloc_hi :
      (size : ℕ) (s : S) (k : ℕ × S)
      → a.mm_malloc size s ≡ some k
      → a.mem_heap_hi s ≤ a.mem_heap_hi k.1
  pub realloc_lo :
      (p size : ℕ) (s : S) (k : ℕ × S)
      → a.mm_realloc p size s ≡ some k
      → a.mem_heap_lo k.1 ≡ a.mem_heap_lo s
  pub realloc_hi :
      (p size : ℕ) (s : S) (k : ℕ × S)
      → a.mm_realloc p size s ≡ some k
      → a.mem_heap_hi s ≤ a.mem_heap_hi k.1
  pub free_lo : (p : ℕ) (s : S) → a.mem_heap_lo (a.mm_free p s) ≡ a.mem_heap_lo s
  pub free_hi : (p : ℕ) (s : S) → a.mem_heap_hi s ≤ a.mem_heap_hi (a.mm_free p s)
  pub write_lo : (s : S) (m : Memory) → a.mem_heap_lo (a.write s m) ≡ a.mem_heap_lo s
  pub write_hi : (s : S) (m : Memory) → a.mem_heap_hi s ≤ a.mem_heap_hi (a.write s m)

module _ {S : Type 0} (a : Allocator S) (given : List Range → Bool) (tracenum : ℕ)
    (g : IsGrowing a) where
  Keeps : S → List Range → Type 0
  Keeps s ranges = IsKept (a.mem_heap_lo s) (a.mem_heap_hi s) ranges

  abbrev KeepsSession : Bool × Session S → Type 0
  KeepsSession k = Keeps k.1.heap k.1.ranges

  Keeps-grow :
      (s s' : S) (ranges : List Range)
      → a.mem_heap_lo s' ≡ a.mem_heap_lo s
      → a.mem_heap_hi s ≤ a.mem_heap_hi s'
      → Keeps s ranges
      → Keeps s' ranges
  unfolding Keeps
  Keeps-grow s s' ranges lo hi k =
      subst (λ l. IsKept l (a.mem_heap_hi s') ranges) (sym lo) (IsKept-grow _ _ _ ranges hi k)

  Keeps-remove :
      (s : S) (p : ℕ) (ranges : List Range) → Keeps s ranges → Keeps s (remove_range p ranges)
  unfolding Keeps
  Keeps-remove s p ranges k = remove_range-IsKept _ _ p ranges k

  -- A run of `add_range`, whichever its result.
  add_range-Keeps :
      (p size i : ℕ) (s : S) (ranges : List Range) (e : Errors) (k : Bool × List Range × Errors)
      → Keeps s ranges
      → add_range given (a.mem_heap_lo s) (a.mem_heap_hi s) p size tracenum i ranges e ≡ returns k
      → Keeps s k.1
  unfolding Keeps
  add_range-Keeps p size i s ranges e (true, kept, e') k h =
      add_range-IsKept given _ _ p size tracenum i ranges e kept e' k h
  add_range-Keeps p size i s ranges e (false, kept, e') k h =
      subst (IsKept (a.mem_heap_lo s) (a.mem_heap_hi s))
        (sym (add_range_refuses given _ _ p size tracenum i ranges e kept e' h)) k

  enter-Keeps :
      (p size i : ℕ) (s : Session S)
      → Keeps s.heap s.ranges
      → Ensures (enter a given tracenum p size i s) KeepsSession
  enter-Keeps p size i s k =
      Ensures-bind
        (add_range given (a.mem_heap_lo s.heap) (a.mem_heap_hi s.heap) p size tracenum i s.ranges
          s.errors)
        _ (λ r. Keeps s.heap r.1) KeepsSession
        (Ensures-of _ _ λ r. add_range-Keeps p size i s.heap s.ranges s.errors r k) λ r e. e

  fill-Keeps :
      (p index size : ℕ) (s : Session S)
      → Keeps s.heap s.ranges
      → KeepsSession (true, fill a given tracenum p index size s)
  fill-Keeps p index size s k = Keeps-grow _ _ _ (g.write_lo s.heap _) (g.write_hi s.heap _) k

  remember_keeps :
      (p index size : ℕ) (k : Bool × Session S)
      → KeepsSession k
      → Ensures (remember a given tracenum p index size k) KeepsSession
  unfolding remember
  remember_keeps p index size (true, s) e = fill-Keeps p index size s e
  remember_keeps p index size (false, s) e = e

  check_alloc-Keeps :
      (index size i p : ℕ) (s : Session S)
      → Keeps s.heap s.ranges
      → Ensures (check_alloc a given tracenum index size i p s) KeepsSession
  unfolding check_alloc
  check_alloc-Keeps index size i p s k =
      Ensures-if (p == null) (fail a given tracenum i mm_malloc_failed s) _ KeepsSession (λ _. k)
        λ _.
          Ensures-bind (enter a given tracenum p size i s) (remember a given tracenum p index size)
            KeepsSession KeepsSession (enter-Keeps p size i s k) (remember_keeps p index size)

  compare_moved_keeps :
      (newp index size i : ℕ) (k : Bool × Session S)
      → KeepsSession k
      → Ensures (compare_moved a given tracenum newp index size i k) KeepsSession
  unfolding compare_moved
  compare_moved_keeps newp index size i (true, s) e =
      Ensures-if _ (fail a given tracenum i not_preserved s)
        (returns (true, fill a given tracenum newp index size s)) KeepsSession (λ _. e)
        λ _. fill-Keeps newp index size s e
  compare_moved_keeps newp index size i (false, s) e = e

  check_realloc-Keeps :
      (index size i oldp newp : ℕ) (s : Session S)
      → Keeps s.heap s.ranges
      → Ensures (check_realloc a given tracenum index size i oldp newp s) KeepsSession
  unfolding check_realloc
  check_realloc-Keeps index size i oldp newp s k =
      Ensures-if (newp == null) (fail a given tracenum i mm_realloc_failed s) _ KeepsSession
        (λ _. k)
        λ _.
          Ensures-bind
            (enter a given tracenum newp size i (record s { ranges = remove_range oldp s.ranges }))
            (compare_moved a given tracenum newp index size i) KeepsSession KeepsSession
            (enter-Keeps newp size i (record s { ranges = remove_range oldp s.ranges })
              (Keeps-remove s.heap oldp s.ranges k))
            (compare_moved_keeps newp index size i)

  step-Keeps :
      (type : OpType) (index size i : ℕ) (s : Session S)
      → Keeps s.heap s.ranges
      → Ensures
          (valid_step a given tracenum (record { type = type; index = index; size = size }) i s)
          KeepsSession
  unfolding valid_step valid_free valid_alloc valid_realloc
  step-Keeps alloc index size i s k =
      Ensures-bind (ends (a.mm_malloc size s.heap)) _ (λ r. Keeps r.1 s.ranges) KeepsSession
        (Ensures-ends _ _
          λ r e. Keeps-grow _ _ _ (g.malloc_lo size s.heap r e) (g.malloc_hi size s.heap r e) k)
        λ (p, heap) k. check_alloc-Keeps index size i p (record s { heap = heap }) k
  step-Keeps realloc index size i s k =
      Ensures-bind (ends (a.mm_realloc (s.blocks index) size s.heap)) _ (λ r. Keeps r.1 s.ranges)
        KeepsSession
        (Ensures-ends _ _ λ r e.
          Keeps-grow _ _ _ (g.realloc_lo (s.blocks index) size s.heap r e)
            (g.realloc_hi (s.blocks index) size s.heap r e) k)
        λ (newp, heap) k.
          check_realloc-Keeps index size i (s.blocks index) newp (record s { heap = heap }) k
  step-Keeps free index size i s k =
      Keeps-grow _ _ _ (g.free_lo (s.blocks index) s.heap) (g.free_hi (s.blocks index) s.heap)
        (Keeps-remove s.heap (s.blocks index) s.ranges k)

  next-Keeps :
      (rest : Session S → Run (Bool × Session S)) (k : Bool × Session S)
      → ((s : Session S) → Keeps s.heap s.ranges → Ensures (rest s) KeepsSession)
      → KeepsSession k
      → Ensures (valid_next a given tracenum rest k) KeepsSession
  next-Keeps rest (true, s) f e = f s e
  next-Keeps rest (false, s) f e = e

  steps-Keeps :
      (ops : List TraceOp) (i : ℕ) (s : Session S)
      → Keeps s.heap s.ranges
      → Ensures (valid_steps a given tracenum ops i s) KeepsSession
  steps-Keeps [] i s k = k
  steps-Keeps (op ∷ ops) i s k =
      Ensures-bind (valid_step a given tracenum op i s) _ KeepsSession KeepsSession
        (step-Keeps op.type op.index op.size i s k) λ r. next-Keeps _ r (steps-Keeps ops (i + 1))

  -- For an allocator whose heap starts at a fixed address and grows only, whatever
  -- `eval_mm_valid` returns, the kept ranges are aligned parts of the heap and no two have a byte
  -- in common unless the later one encloses the earlier one.
  pub eval_mm_valid-IsKept :
      (trace : Trace) (heap : S) (ranges : List Range) (errors : Errors)
      → Ensures
          (eval_mm_valid a given tracenum trace heap ranges errors)
          (λ k. IsKept (a.mem_heap_lo k.1.heap) (a.mem_heap_hi k.1.heap) k.1.ranges)
  unfolding eval_mm_valid Keeps IsKept
  eval_mm_valid-IsKept trace heap ranges errors =
      Ensures-if (not (a.mm_init (a.mem_reset_brk heap)).0)
        (fail a given tracenum 0 mm_init_failed (start (a.mm_init (a.mem_reset_brk heap)).1)) _
        KeepsSession (λ _. kept)
        λ _. steps-Keeps trace.ops 0 (start (a.mm_init (a.mem_reset_brk heap)).1) kept
    where
      start : S → Session S
      start heap = record {
        heap = heap;
        blocks = trace.blocks;
        block_sizes = trace.block_sizes;
        ranges = [];
        errors = errors;
      }

      kept :
          IsKept
            (a.mem_heap_lo (a.mm_init (a.mem_reset_brk heap)).1)
            (a.mem_heap_hi (a.mm_init (a.mem_reset_brk heap)).1)
            []
      kept = tt
