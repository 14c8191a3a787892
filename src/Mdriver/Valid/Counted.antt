-- ===== src/Mdriver/Valid/Counted.antt =====
-- `eval_mm_valid` of mdriver.c reports an error exactly where it returns 0.
use malloc_lab.Base.{
  ℕ, suc, ◌+◌, ◌≡◌, refl, subst, ap, Bool, true, false, List, [], ◌∷◌, arith, if◌then◌else◌, ◌==◌,
  not,
}
use malloc_lab.Mm.Macros.{null}
use malloc_lab.Mdriver.{
  Run, returns, ends, Range, alloc, free, realloc, OpType, TraceOp, Trace, Errors, Allocator,
  malloc_error, mm_init_failed, mm_malloc_failed, mm_realloc_failed, not_preserved,
}
use malloc_lab.Mdriver.Ensures.{Ensures, Ensures-bind, Ensures-ends, Ensures-if, Ensures-of}
use malloc_lab.Mdriver.Ranges.{add_range, remove_range}
use malloc_lab.Mdriver.Valid.{
  Session, remember, check_alloc, valid_alloc, compare_moved, check_realloc, valid_realloc,
  valid_free, valid_step, valid_next, valid_steps, eval_mm_valid, enter, fail, fill,
}

-- One more error than `n` if the result is 0.
abbrev pub counted : ℕ → Bool → ℕ
counted n ok = if ok then n else suc n

add_range-counted :
    (given : List Range → Bool) (heap_lo heap_hi lo size tracenum opnum : ℕ) (ranges : List Range)
    (e : Errors) (k : Bool × List Range × Errors)
    → add_range given heap_lo heap_hi lo size tracenum opnum ranges e ≡ returns k
    → k.2.errors ≡ counted e.errors k.0
unfolding add_range malloc_error
add_range-counted given heap_lo heap_hi lo size tracenum opnum ranges e k h = ground arith

module _ {S : Type 0} (a : Allocator S) (given : List Range → Bool) (tracenum : ℕ) where
  abbrev IsCounted : ℕ → Bool × Session S → Type 0
  IsCounted n k = k.1.errors.errors ≡ counted n k.0

  enter-IsCounted :
      (p size i : ℕ) (s : Session S)
      → Ensures (enter a given tracenum p size i s) (IsCounted s.errors.errors)
  enter-IsCounted p size i s =
      Ensures-bind
        (add_range given (a.mem_heap_lo s.heap) (a.mem_heap_hi s.heap) p size tracenum i s.ranges
          s.errors)
        _ (λ k. k.2.errors ≡ counted s.errors.errors k.0) (IsCounted s.errors.errors)
        (Ensures-of _ _ (add_range-counted given _ _ p size tracenum i s.ranges s.errors)) λ k e. e

  remember-IsCounted :
      (p index size n : ℕ) (k : Bool × Session S)
      → IsCounted n k
      → Ensures (remember a given tracenum p index size k) (IsCounted n)
  unfolding remember
  remember-IsCounted p index size n (true, s) e = e
  remember-IsCounted p index size n (false, s) e = e

  check_alloc-IsCounted :
      (index size i p : ℕ) (s : Session S)
      → Ensures (check_alloc a given tracenum index size i p s) (IsCounted s.errors.errors)
  unfolding check_alloc malloc_error
  check_alloc-IsCounted index size i p s =
      Ensures-if (p == null) (fail a given tracenum i mm_malloc_failed s) _
        (IsCounted s.errors.errors) (λ _. refl)
        λ _.
          Ensures-bind (enter a given tracenum p size i s) (remember a given tracenum p index size)
            (IsCounted s.errors.errors) (IsCounted s.errors.errors) (enter-IsCounted p size i s)
            (remember-IsCounted p index size s.errors.errors)

  compare_moved-IsCounted :
      (newp index size i n : ℕ) (k : Bool × Session S)
      → IsCounted n k
      → Ensures (compare_moved a given tracenum newp index size i k) (IsCounted n)
  unfolding compare_moved malloc_error
  compare_moved-IsCounted newp index size i n (true, s) e =
      Ensures-if _ (fail a given tracenum i not_preserved s)
        (returns (true, fill a given tracenum newp index size s)) (IsCounted n) (λ _. ap suc e)
        λ _. e
  compare_moved-IsCounted newp index size i n (false, s) e = e

  check_realloc-IsCounted :
      (index size i oldp newp : ℕ) (s : Session S)
      → Ensures
          (check_realloc a given tracenum index size i oldp newp s)
          (IsCounted s.errors.errors)
  unfolding check_realloc malloc_error
  check_realloc-IsCounted index size i oldp newp s =
      Ensures-if (newp == null) (fail a given tracenum i mm_realloc_failed s) _
        (IsCounted s.errors.errors) (λ _. refl)
        λ _.
          Ensures-bind
            (enter a given tracenum newp size i (record s { ranges = remove_range oldp s.ranges }))
            (compare_moved a given tracenum newp index size i) (IsCounted s.errors.errors)
            (IsCounted s.errors.errors)
            (enter-IsCounted newp size i (record s { ranges = remove_range oldp s.ranges }))
            (compare_moved-IsCounted newp index size i s.errors.errors)

  step-IsCounted :
      (type : OpType) (index size i : ℕ) (s : Session S)
      → Ensures
          (valid_step a given tracenum (record { type = type; index = index; size = size }) i s)
          (IsCounted s.errors.errors)
  unfolding valid_step valid_free valid_alloc valid_realloc
  step-IsCounted alloc index size i s =
      Ensures-bind (ends (a.mm_malloc size s.heap)) _ (λ _. Unit) (IsCounted s.errors.errors)
        (Ensures-ends _ _ λ _ _. tt)
        λ (p, heap) _. check_alloc-IsCounted index size i p (record s { heap = heap })
  step-IsCounted realloc index size i s =
      Ensures-bind (ends (a.mm_realloc (s.blocks index) size s.heap)) _ (λ _. Unit)
        (IsCounted s.errors.errors) (Ensures-ends _ _ λ _ _. tt)
        λ (newp, heap) _.
          check_realloc-IsCounted index size i (s.blocks index) newp (record s { heap = heap })
  step-IsCounted free index size i s = refl

  next-IsCounted :
      (rest : Session S → Run (Bool × Session S)) (n : ℕ) (k : Bool × Session S)
      → ((s : Session S) → Ensures (rest s) (IsCounted s.errors.errors))
      → IsCounted n k
      → Ensures (valid_next a given tracenum rest k) (IsCounted n)
  next-IsCounted rest n (true, s) f e = subst (λ n. Ensures (rest s) (IsCounted n)) e (f s)
  next-IsCounted rest n (false, s) f e = e

  steps-IsCounted :
      (ops : List TraceOp) (i : ℕ) (s : Session S)
      → Ensures (valid_steps a given tracenum ops i s) (IsCounted s.errors.errors)
  steps-IsCounted [] i s = refl
  steps-IsCounted (op ∷ ops) i s =
      Ensures-bind (valid_step a given tracenum op i s) _ (IsCounted s.errors.errors)
        (IsCounted s.errors.errors) (step-IsCounted op.type op.index op.size i s)
        λ k. next-IsCounted _ s.errors.errors k (steps-IsCounted ops (i + 1))

  -- Where `eval_mm_valid` returns 1 it has reported no error, and where it returns 0 it has
  -- reported one.
  pub eval_mm_valid-counted :
      (trace : Trace) (heap : S) (ranges : List Range) (errors : Errors)
      → Ensures
          (eval_mm_valid a given tracenum trace heap ranges errors)
          (λ k. k.1.errors.errors ≡ counted errors.errors k.0)
  unfolding eval_mm_valid malloc_error
  eval_mm_valid-counted trace heap ranges errors =
      Ensures-if (not (a.mm_init (a.mem_reset_brk heap)).0)
        (fail a given tracenum 0 mm_init_failed (start (a.mm_init (a.mem_reset_brk heap)).1)) _
        (IsCounted errors.errors) (λ _. refl)
        λ _. steps-IsCounted trace.ops 0 (start (a.mm_init (a.mem_reset_brk heap)).1)
    where
      start : S → Session S
      start heap = record {
        heap = heap;
        blocks = trace.blocks;
        block_sizes = trace.block_sizes;
        ranges = [];
        errors = errors;
      }
