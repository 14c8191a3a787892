-- ===== src/Mdriver/Speed/Same.antt =====
-- `eval_mm_speed` of mdriver.c times the calls that `eval_mm_util` makes.
use malloc_lab.Base.{ℕ, ◌≡◌, refl, ap, ◌∙◌, Bool-cases, inl, inr, List, [], ◌∷◌, arith}
use malloc_lab.Mdriver.{
  Run, ◌>>=◌, returns, stops, alloc, free, realloc, OpType, TraceOp, Trace, Allocator,
}
use malloc_lab.Mdriver.Util.{
  Usage, util_alloc, util_realloc, util_free, util_step, util_steps, eval_mm_util,
}
use malloc_lab.Mdriver.Speed.{
  Load, speed_alloc, speed_realloc, speed_free, speed_step, speed_steps, eval_mm_speed,
}

module _ {S : Type 0} (a : Allocator S) where
  abbrev pub load : Usage S → Run (Load S)
  load u = returns (record { heap = u.heap; blocks = u.blocks })

  abbrev part : Usage S → Load S
  part u = record { heap = u.heap; blocks = u.blocks }

  same_alloc :
      (index size : ℕ) (u : Usage S)
      → speed_alloc a index size (part u) ≡ (util_alloc a index size u >>= load)
  unfolding speed_alloc util_alloc
  same_alloc index size u = ground arith

  same_realloc :
      (index size : ℕ) (u : Usage S)
      → speed_realloc a index size (part u) ≡ (util_realloc a index size u >>= load)
  unfolding speed_realloc util_realloc
  same_realloc index size u = ground arith

  same_step :
      (type : OpType) (index size : ℕ) (u : Usage S)
      → speed_step a (record { type = type; index = index; size = size }) (part u)
        ≡ (util_step a (record { type = type; index = index; size = size }) u >>= load)
  unfolding speed_step util_step speed_free util_free
  same_step alloc index size u = same_alloc index size u
  same_step realloc index size u = same_realloc index size u
  same_step free index size u = refl

  -- A step that does the same, and then steps that do the same.
  same_then :
      (r : Run (Usage S)) (k : Usage S → Run (Usage S)) (l : Load S → Run (Load S))
      → ((u : Usage S) → l (part u) ≡ (k u >>= load))
      → (r >>= load >>= l) ≡ (r >>= k >>= load)
  same_then (returns u) k l f = f u
  same_then (stops s) k l f = refl

  same_steps :
      (ops : List TraceOp) (u : Usage S)
      → speed_steps a ops (part u) ≡ (util_steps a ops u >>= load)
  same_steps [] u = refl
  same_steps (op ∷ ops) u =
      ap (λ r. r >>= speed_steps a ops) (same_step op.type op.index op.size u)
      ∙ same_then (util_step a op u) (util_steps a ops) (speed_steps a ops) (same_steps ops)

  drop :
      (r : Run (Usage S)) (n : Usage S → ℕ × ℕ)
      → (r >>= load)
        ≡ (let k : Run ((ℕ × ℕ) × Usage S) = r >>= λ u. returns (n u, u) in k >>= λ k. load k.1)
  drop (returns u) n = refl
  drop (stops s) n = refl

  -- `eval_mm_speed` makes the calls that `eval_mm_util` makes: it ends with the same heap and the
  -- same blocks, and stops where that stops.
  pub eval_mm_speed-util :
      (trace : Trace) (heap : S)
      → eval_mm_speed a trace heap ≡ (eval_mm_util a trace heap >>= λ k. load k.1)
  unfolding eval_mm_speed eval_mm_util
  eval_mm_speed-util trace heap = elim (Bool-cases (a.mm_init (a.mem_reset_brk heap)).0) [
    | inl t ↦ rw t (same_steps trace.ops _ ∙ drop _ _)
    | inr f ↦ rw f refl
  ]
