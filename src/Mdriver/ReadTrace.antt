-- ===== src/Mdriver/ReadTrace.antt =====
-- `read_trace` of mdriver.c. A trace file is the list of its words; the four of the header and the
-- operands are numerals, read by `fscanf` as 32-bit numbers.
pub mod Roundtrip
use malloc_lab.Base.{
  ℕ, zero, suc, ◌+◌, ◌-◌, Bool, not, ◌||◌, Option, none, some, List, [], ◌∷◌, if◌then◌else◌, ◌==◌,
  ltb, length,
}
use malloc_lab.Mm.Macros.{sub_word}
use malloc_lab.Mdriver.{
  Run, ◌>>=◌, returns, stops, exited, aborted, looped, OpType, alloc, free, realloc, TraceOp, Trace,
}

-- A word by its first character, or a numeral.
pub data Token : Type 0 where
  letter : ℕ → Token
  numeral : ℕ → Token

-- `fscanf` of one number: what it does not match stays, and the variable is left alone.
abbrev pub scan : ℕ → List Token → ℕ × List Token
scan old [] = (old, [])
scan old (letter c ∷ ts) = (old, letter c ∷ ts)
scan old (numeral n ∷ ts) = (n, ts)

-- 'a', 'r' and 'f'.
abbrev pub op_type : ℕ → Option OpType
op_type c =
    if c == 97
    then some alloc
    else if c == 114
    then some realloc
    else if c == 102
    then some free
    else none

abbrev op_then : TraceOp → Run (List TraceOp × ℕ) → Run (List TraceOp × ℕ)
op_then op rest = rest >>= λ (ops, max_index). returns (op ∷ ops, max_index)

-- The loop over the request lines. Each takes a word, so there are no more of them than words.
pub requests : ℕ → ℕ → ℕ → ℕ → List Token → Run (List TraceOp × ℕ)
requests fuel index size max_index [] = returns ([], max_index)
requests zero index size max_index (t ∷ ts) = stops looped
requests (suc fuel) index size max_index (numeral n ∷ ts) = stops exited
requests (suc fuel) index size max_index (letter c ∷ ts) =
    let (index, ts) = scan index ts in
    let (size', ts') = scan size ts in
    let max_index' = if ltb max_index index then index else max_index in
    elim (op_type c) [
      | none ↦ stops exited
      | some alloc ↦
          op_then (record { type = alloc; index = index; size = size' })
            (requests fuel index size' max_index' ts')
      | some realloc ↦
          op_then (record { type = realloc; index = index; size = size' })
            (requests fuel index size' max_index' ts')
      | some free ↦
          op_then (record { type = free; index = index; size = 0 })
            (requests fuel index size max_index ts)
    ]

-- `given` says of each of the four calls of `malloc` whether it gives memory, and `junk` is what
-- stands in new memory. The file is `none` if it cannot be opened.
unfoldable pub read_trace : (ℕ → Bool) → (ℕ → ℕ) → Option (List Token) → Run Trace
unfolding requests
read_trace given junk none = stops exited
read_trace given junk (some ts) =
    let (sugg_heapsize, ts) = scan (junk 0) ts in
    let (num_ids, ts) = scan (junk 1) ts in
    let (num_ops, ts) = scan (junk 2) ts in
    let (weight, ts) = scan (junk 3) ts in
    if not (given 1) || not (given 2) || not (given 3) || not (given 4)
    then stops exited
    else (requests (length ts) 0 0 0 ts >>= λ (ops, max_index).
        if not (max_index == sub_word num_ids 1)
        then stops aborted
        else if not (num_ops == length ops)
        then stops aborted
        else returns (record {
          sugg_heapsize = sugg_heapsize;
          num_ids = num_ids;
          num_ops = num_ops;
          weight = weight;
          ops = ops;
          blocks = junk;
          block_sizes = junk;
        }))
