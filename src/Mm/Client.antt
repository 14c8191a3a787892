-- ===== src/Mm/Client.antt =====
-- A client of mm.c: the requests that it makes one after the other, and the pointers that it holds
-- with the sizes that it asked for. A request is for fewer than 2 ^ 32 - 15 bytes. A
-- pointer may be freed once and is not used after that, and a write stays in the bytes that were
-- asked for.
pub mod Covers
pub mod Results
pub mod Serves
mod Tests
pub mod Safe
use malloc_lab.Base.{ℕ, ◌+◌, ◌≤◌, ◌<◌, ◌≡◌, ◌≢◌, List, [], ◌∷◌, ◌++◌, Option, some}
use malloc_lab.Memory.{Memory}
use malloc_lab.Mm.{Heap, write, mm_malloc, mm_free, mm_realloc}
use malloc_lab.Mm.Payload.{Outside}

abbrev pub Client : Type 0
Client = List (ℕ × ℕ)

-- A request of at least one byte that does not wrap.
abbrev pub Asks : ℕ → Type 0
Asks size = (size ≢ 0) × (size + 15 < 0x1_0000_0000)

-- A call for memory, and the pointers that the client still holds if it gets some: `mm_malloc`,
-- `mm_realloc` of `NULL`, and `mm_realloc` of a pointer that the client holds.
pub data Call (c : Client) : Client → Type 0 where
  anew : Call c c
  from_null : Call c c
  again :
      (before : Client) (p s : ℕ) (behind : Client)
      → c ≡ before ++ ((p, s) ∷ behind)
      → Call c (before ++ behind)

abbrev pub run_call : {c rest : Client} → Call c rest → ℕ → Heap → Option (ℕ × Heap)
run_call anew size h = mm_malloc size h
run_call from_null size h = mm_realloc 0 size h
run_call (again before p s behind e) size h = mm_realloc p size h

-- A call is granted or refused, and a call of size 0 gives nothing and gives up the pointer.
pub data Step (h : Heap) (c : Client) : Heap → Client → Type 0 where
  grants :
      (rest : Client) (call : Call c rest) (size p : ℕ) (h' : Heap)
      → Asks size
      → run_call call size h ≡ some (p, h')
      → p ≢ 0
      → Step h c h' ((p, size) ∷ rest)
  refuses :
      (rest : Client) (call : Call c rest) (size : ℕ) (h' : Heap)
      → Asks size
      → run_call call size h ≡ some (0, h')
      → Step h c h' c
  gives_up :
      (rest : Client) (call : Call c rest) (p : ℕ) (h' : Heap)
      → run_call call 0 h ≡ some (p, h')
      → Step h c h' rest
  free :
      (before : Client) (p s : ℕ) (behind : Client)
      → c ≡ before ++ ((p, s) ∷ behind)
      → Step h c (mm_free p h) (before ++ behind)
  store :
      (before : Client) (p s : ℕ) (behind : Client) (m : Memory) (a len : ℕ)
      → c ≡ before ++ ((p, s) ∷ behind)
      → p ≤ a
      → a + len ≤ p + s
      → Outside h.bytes m a len
      → Step h c (write h m) c

pub data Reachable (start : Heap) : Heap → Client → Type 0 where
  begins : Reachable start start []
  goes :
      (h : Heap) (c : Client) (h' : Heap) (c' : Client)
      → Reachable start h c
      → Step h c h' c'
      → Reachable start h' c'
