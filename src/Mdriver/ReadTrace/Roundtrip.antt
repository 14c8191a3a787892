-- ===== src/Mdriver/ReadTrace/Roundtrip.antt =====
-- `read_trace` of mdriver.c reads back the requests that a trace file holds.
use malloc_lab.Base.{
  ℕ, zero, suc, ◌≤◌, ◌≡◌, refl, ap, Bool, true, some, List, [], ◌∷◌, map, arith, if◌then◌else◌,
  ==-refl, ltb, length,
}
use malloc_lab.Mm.Macros.{sub_word}
use malloc_lab.Mdriver.{returns, OpType, alloc, free, realloc, TraceOp}
use malloc_lab.Mdriver.ReadTrace.{Token, letter, numeral, requests, read_trace}

-- The line of a request, as the trace files have it.
abbrev pub line : TraceOp → List Token → List Token
line op ts = elim op.type [
  | alloc ↦ letter 97 ∷ numeral op.index ∷ numeral op.size ∷ ts
  | realloc ↦ letter 114 ∷ numeral op.index ∷ numeral op.size ∷ ts
  | free ↦ letter 102 ∷ numeral op.index ∷ ts
]

abbrev pub lines : List TraceOp → List Token
lines [] = []
lines (op ∷ ops) = line op (lines ops)

-- The request as it is kept: that of `free` has no size.
abbrev pub kept : TraceOp → TraceOp
kept op = elim op.type [ alloc ↦ op | realloc ↦ op | free ↦ record op { size = 0 } ]

abbrev pub max_id : List TraceOp → ℕ → ℕ
max_id [] m = m
max_id (op ∷ ops) m = elim op.type [
  | alloc ↦ max_id ops (if ltb m op.index then op.index else m)
  | realloc ↦ max_id ops (if ltb m op.index then op.index else m)
  | free ↦ max_id ops m
]

requests-line :
    (type : OpType) (i s : ℕ) (ops : List TraceOp) (fuel index size m : ℕ)
    → ((index size m : ℕ)
        → requests fuel index size m (lines ops) ≡ returns (map kept ops, max_id ops m))
    → requests
        (suc fuel)
        index
        size
        m
        (line (record { type = type; index = i; size = s }) (lines ops))
      ≡ returns (
        map kept (record { type = type; index = i; size = s } ∷ ops),
        max_id (record { type = type; index = i; size = s } ∷ ops) m,
      )
unfolding requests
requests-line alloc i s ops fuel index size m f = rw (f i s (if ltb m i then i else m)) refl
requests-line realloc i s ops fuel index size m f = rw (f i s (if ltb m i then i else m)) refl
requests-line free i s ops fuel index size m f = rw (f i size m) refl

-- Fuel for one word of each line is enough.
requests-lines :
    (ops : List TraceOp) (fuel index size m : ℕ)
    → length ops ≤ fuel
    → requests fuel index size m (lines ops) ≡ returns (map kept ops, max_id ops m)
unfolding requests
requests-lines [] fuel index size m h = refl
requests-lines (op ∷ ops) zero index size m h = absurd (omega arith)
requests-lines (op ∷ ops) (suc fuel) index size m h =
    requests-line op.type op.index op.size ops fuel index size m
      λ i s n. requests-lines ops fuel i s n (omega arith)

line_long :
    (type : OpType) (i s : ℕ) (ts : List Token)
    → suc (length ts) ≤ length (line (record { type = type; index = i; size = s }) ts)
line_long alloc i s ts = omega arith
line_long realloc i s ts = omega arith
line_long free i s ts = omega arith

lines_long : (ops : List TraceOp) → length ops ≤ length (lines ops)
lines_long [] = omega arith
lines_long (op ∷ ops) =
    omega (arith, lines_long ops, line_long op.type op.index op.size (lines ops))

length-map : {A B : Type 0} (f : A → B) (xs : List A) → length (map f xs) ≡ length xs
length-map f [] = refl
length-map f (x ∷ xs) = ap suc (length-map f xs)

-- Where malloc gives memory, `read_trace` reads a trace file whose header counts its requests and
-- whose largest index is one below the number of blocks without an error; the trace has those
-- requests, the ones of free without a size.
pub read_trace-lines :
    (given : ℕ → Bool) (junk : ℕ → ℕ) (heapsize ids weight : ℕ) (ops : List TraceOp)
    → ((n : ℕ) → given n ≡ true)
    → max_id ops 0 ≡ sub_word ids 1
    → read_trace given junk
        (some (numeral heapsize ∷ numeral ids ∷ numeral (length ops) ∷ numeral weight ∷ lines ops))
      ≡ returns (record {
        sugg_heapsize = heapsize;
        num_ids = ids;
        num_ops = length ops;
        weight = weight;
        ops = map kept ops;
        blocks = junk;
        block_sizes = junk;
      })
unfolding read_trace
read_trace-lines given junk heapsize ids weight ops memory max =
    rw
      (
        memory 1,
        memory 2,
        memory 3,
        memory 4,
        requests-lines ops (length (lines ops)) 0 0 0 (lines_long ops),
        max,
        ==-refl (sub_word ids 1),
        length-map kept ops,
        ==-refl (length ops),
      )
      refl
