-- ===== src/Mdriver.antt =====
-- mdriver.c: the driver that checks and measures an allocator on a trace. Here are its types and
-- what its parts share; the parts are the modules below it.
pub mod Ensures
pub mod Evaluate
pub mod Libc
pub mod MmAllocator
pub mod Options
pub mod Ranges
pub mod ReadTrace
pub mod Results
pub mod Speed
pub mod Timer
pub mod Util
pub mod Valid
mod Tests
use malloc_lab.Base.{
  ℕ, suc, ◌+◌, Bool, Option, none, some, List, ◌∷◌, if◌then◌else◌, ◌==◌, ltb, leb,
}
use malloc_lab.Memory.{Memory}
use malloc_lab.Mm.Macros.{word}

-- How a run ends early: `exit(1)`, a failed `assert`, or a loop of the allocator that does not end.
pub data Stop : Type 0 where
  exited : Stop
  aborted : Stop
  looped : Stop

pub data Run (A : Type 0) : Type 0 where
  returns : A → Run A
  stops : Stop → Run A

infixl 5 ◌>>=◌
abbrev pub ◌>>=◌ : {A B : Type 0} → Run A → (A → Run B) → Run B
returns a >>= k = k a
stops s >>= k = stops s

-- A loop of the allocator that has not ended.
abbrev pub ends : {A : Type 0} → Option A → Run A
ends none = stops looped
ends (some a) = returns a

pub record Range : Type 0 where
  pub lo : ℕ
  pub hi : ℕ

pub data OpType : Type 0 where
  alloc : OpType
  free : OpType
  realloc : OpType

pub record TraceOp : Type 0 where
  pub type : OpType
  pub index : ℕ
  pub size : ℕ

pub record Trace : Type 0 where
  pub sugg_heapsize : ℕ
  pub num_ids : ℕ
  pub num_ops : ℕ
  pub weight : ℕ
  pub ops : List TraceOp
  pub blocks : ℕ → ℕ
  pub block_sizes : ℕ → ℕ

-- The messages that `malloc_error` is called with.
pub data Message : Type 0 where
  not_aligned : Message
  outside_heap : Message
  overlaps : Message
  mm_init_failed : Message
  mm_malloc_failed : Message
  mm_realloc_failed : Message
  not_preserved : Message
  libc_malloc_failed : Message
  libc_realloc_failed : Message

pub record Report : Type 0 where
  pub tracenum : ℕ
  pub line : ℕ
  pub message : Message

pub record Errors : Type 0 where
  pub errors : ℕ
  pub reports : List Report

-- The alignment that config.h asks for.
abbrev pub alignment : ℕ
alignment = 8

pub linenum : ℕ → ℕ
linenum i = i + 5

unfoldable pub malloc_error : ℕ → ℕ → Message → Errors → Errors
malloc_error tracenum opnum message e = record {
  errors = suc e.errors;
  reports = record { tracenum = tracenum; line = linenum opnum; message = message } ∷ e.reports;
}

-- What the driver calls of an allocator, by mm.h, and of memlib.h; `S` is all the state that these
-- functions keep, the bytes of memory among it.
pub record Allocator (S : Type 0) : Type 0 where
  pub mem_reset_brk : S → S
  pub mem_heap_lo : S → ℕ
  pub mem_heap_hi : S → ℕ
  pub mem_heapsize : S → ℕ
  pub mm_init : S → Bool × S
  pub mm_malloc : ℕ → S → Option (ℕ × S)
  pub mm_realloc : ℕ → ℕ → S → Option (ℕ × S)
  pub mm_free : ℕ → S → S
  pub bytes : S → Memory
  pub write : S → Memory → S

-- The two arrays of a trace: an index that is not below `num_ids` is undefined behaviour in C.
abbrev pub assign : (ℕ → ℕ) → ℕ → ℕ → ℕ → ℕ
assign f i v j = if j == i then v else f j

-- `<` of two `int`s, given by their bit patterns.
abbrev pub int_ltb : ℕ → ℕ → Bool
int_ltb a b = ltb (word (a + 0x8000_0000)) (word (b + 0x8000_0000))
