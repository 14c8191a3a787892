-- ===== src/Mm/Client/Results.antt =====
-- What a client of mm.c can count on in each state that it can reach.
use malloc_lab.Base.{ℕ, ◌≡◌, sym, subst, inl, inr, ◌∷◌, ◌≢◌, Option, some}
use malloc_lab.Mm.{Heap}
use malloc_lab.Mm.Zip.{first}
use malloc_lab.Mm.Fresh.{IsFresh}
use malloc_lab.Mm.Live.{live-IsApart, IsApart}
use malloc_lab.Mm.Client.{Client, Asks, Call, run_call, grants, refuses, Reachable, goes}
use malloc_lab.Mm.Client.Safe.{IsSafe, Covers-IsSafe}
use malloc_lab.Mm.Client.Serves.{
  IsServing, first_call, running, Outcome_cases, request_serves, Reachable-IsServing,
}

IsServing-IsSafe : (h : Heap) (c : Client) → IsServing h c → IsSafe (first h.vm) h.vm.brk c
IsServing-IsSafe h c (first_call n f e) = subst (IsSafe (first h.vm) h.vm.brk) (sym e) tt
IsServing-IsSafe h c (running l r cover) =
    Covers-IsSafe c l (first h.vm) h.vm.brk cover
      (subst (λ k. IsApart (first h.vm) k h.vm.brk) r.view (live-IsApart h r.blocks r.nodes r.heap))

-- In each state that a client can reach which starts from a heap of the kind that `mm_init`
-- leaves on, calls `mm_malloc`, `mm_realloc` of `NULL` and `mm_realloc` of a pointer that it
-- holds, each for fewer than 2 ^ 32 - 15 bytes, frees pointers that it holds, and writes to its
-- bytes only: the bytes that it holds lie in the heap, its pointers are multiples of 8, and no
-- two of them have a byte in common.
pub Reachable-IsSafe :
    (start : Heap) (n : ℕ) (h : Heap) (c : Client)
    → IsFresh start n
    → Reachable start h c
    → IsSafe (first h.vm) h.vm.brk c
Reachable-IsSafe start n h c f r = IsServing-IsSafe h c (Reachable-IsServing start n h c f r)

-- What a call for `size` bytes ends with: a pointer, which the client holds beside the others from
-- there on, or `NULL`.
pub data ServedBy (start : Heap) (c rest : Client) (size : ℕ) (run : Option (ℕ × Heap))
    : Type 0 where
  pointer :
      (p : ℕ) (h' : Heap)
      → run ≡ some (p, h')
      → p ≢ 0
      → Reachable start h' ((p, size) ∷ rest)
      → IsSafe (first h'.vm) h'.vm.brk ((p, size) ∷ rest)
      → ServedBy start c rest size run
  null :
      (h' : Heap)
      → run ≡ some (0, h')
      → Reachable start h' c
      → IsSafe (first h'.vm) h'.vm.brk c
      → ServedBy start c rest size run

-- In each state that a client can reach which starts from a heap of the kind that `mm_init`
-- leaves on, calls `mm_malloc`, `mm_realloc` of `NULL` and `mm_realloc` of a pointer that it
-- holds, each for fewer than 2 ^ 32 - 15 bytes, frees pointers that it holds, and writes to its
-- bytes only: one more such call, for at least one byte, returns: with a pointer that is not
-- `NULL`, which the client then holds in place of the old one, or with `NULL`, and the client
-- keeps what it holds; from there the client can go on, and the bytes that it then holds lie in
-- the heap, at multiples of 8, no two pointers with a byte in common.
pub Reachable_goes_on :
    (start : Heap) (n : ℕ) (h : Heap) (c rest : Client) (call : Call c rest) (size : ℕ)
    → IsFresh start n
    → Reachable start h c
    → Asks size
    → ServedBy start c rest size (run_call call size h)
Reachable_goes_on start n h c rest call size f r asks =
    let (k, runs, does) =
      request_serves h c rest call size asks (Reachable-IsServing start n h c f r) in
    elim (Outcome_cases rest c size k does) [
      | inl ne ↦
          let on =
            goes h c k.1 ((k.0, size) ∷ rest) r (grants rest call size k.0 k.1 asks runs ne) in
          pointer k.0 k.1 runs ne on (Reachable-IsSafe start n k.1 ((k.0, size) ∷ rest) f on)
      | inr z ↦
          let refused = subst (λ q. run_call call size h ≡ some (q, k.1)) z runs in
          let on = goes h c k.1 c r (refuses rest call size k.1 asks refused) in
          null k.1 refused on (Reachable-IsSafe start n k.1 c f on)
    ]
