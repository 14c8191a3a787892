-- ===== src/Mm/Client/Serves.antt =====
-- mm.c under the requests of a client, from `mm_init` on.
use malloc_lab.Base.{
  ℕ, ◌+◌, ◌≤◌, ◌≡◌, refl, sym, subst, ap, ◌≢◌, ◌⊎◌, inl, inr, [], ◌∷◌, ◌++◌, arith, Option, some,
  ==-ne, ◌∙◌,
}
use malloc_lab.Mm.{Heap, mm_malloc, mm_realloc, mm_free}
use malloc_lab.Mm.Zip.{first}
use malloc_lab.Mm.Fresh.{IsFresh}
use malloc_lab.Mm.Live.{Live, IsApart, live-IsApart}
use malloc_lab.Mm.Live.Inserts.{Inserts-split}
use malloc_lab.Mm.Live.Represents.{Represents, free-Represents, write-Represents}
use malloc_lab.Mm.Live.First.{mm_malloc-Served_first}
use malloc_lab.Mm.Live.Move.{Holds, Holds-result, Served-Holds, malloc-Holds, mm_realloc-Holds}
use malloc_lab.Mm.Client.{
  Client, Asks, Call, anew, from_null, again, run_call, Step, grants, refuses, gives_up, free,
  store, Reachable, begins, goes,
}
use malloc_lab.Mm.Client.Covers.{Covers, none, one, Covers-Leaves}

-- The heap is the one of `mm_init`, or it is well formed and its allocated blocks are those of the
-- client.
pub data IsServing (h : Heap) (c : Client) : Type 0 where
  first_call : (n : ℕ) → IsFresh h n → c ≡ [] → IsServing h c
  running : (l : Live) → Represents h l → Covers c l → IsServing h c

pub Outcome : (rest c : Client) (size : ℕ) → ℕ × Heap → Type 0
Outcome rest c size k =
    (IsServing k.1 ((k.0, size) ∷ rest) × (k.0 ≢ 0)) ⊎ ((k.0 ≡ 0) × IsServing k.1 c)

no_pointer : (before : Client) (x : ℕ × ℕ) (behind c : Client) → c ≡ before ++ (x ∷ behind) → c ≢ []
no_pointer [] x behind c e = λ d. cc
no_pointer (y ∷ before) x behind c e = λ d. cc

Holds-Outcome :
    (rest c : Client) (l : Live) (size : ℕ) (k : ℕ × Heap)
    → Covers rest l
    → Holds l size k
    → Outcome rest c size k
unfolding Outcome
Holds-Outcome rest c l size k cover s = inl (
  running s.after s.heap (one k.0 size s.block_size rest l s.after s.inserts s.enough cover),
  λ e. omega (arith, e, Holds-result l size k s),
)

malloc_serves :
    (h : Heap) (c : Client) (size : ℕ)
    → Asks size
    → IsServing h c
    → (k : ℕ × Heap) × (mm_malloc size h ≡ some k) × Outcome c c size k
unfolding Outcome
malloc_serves h c size asks (first_call n f e) =
    let (k, runs, does) = mm_malloc-Served_first h n size f asks.0 asks.1 in
    (
      k,
      runs,
      elim does [
        | inl s ↦
            Holds-Outcome c c [] size k (subst (λ b. Covers b []) (sym e) none)
              (Served-Holds h [] [] size k refl s)
        | inr (z, f') ↦ inr (z, first_call n f' e)
      ],
    )
malloc_serves h c size asks (running l r cover) =
    let (k, runs, does) = malloc-Holds h l size r asks.0 asks.1 in
    (
      k,
      runs,
      elim does [
        | inl s ↦ Holds-Outcome c c l size k cover s
        | inr (z, r') ↦ inr (z, running l r' cover)
      ],
    )

-- A pointer of the client, its block, and the other blocks on the two sides of it.
record Has (h : Heap) (p s : ℕ) (rest : Client) (c : Client) : Type 0 where
  low : Live
  block_size : ℕ
  high : Live
  heap : Represents h (low ++ ((p, block_size) ∷ high))
  enough : s + 8 ≤ block_size
  covers : Covers rest (low ++ high)
  whole : Covers c (low ++ ((p, block_size) ∷ high))

Serving-Has :
    (h : Heap) (c before : Client) (p s : ℕ) (behind : Client)
    → c ≡ before ++ ((p, s) ∷ behind)
    → IsServing h c
    → Has h p s (before ++ behind) c
Serving-Has h c before p s behind e (first_call n f d) =
    absurd (no_pointer before (p, s) behind c e d)
Serving-Has h c before p s behind e (running l r cover) =
    let leaves = Covers-Leaves before p s behind l (subst (λ b. Covers b l) e cover) in
    let (low, high, others, at) =
      Inserts-split (p, leaves.block_size) leaves.others l leaves.inserts in
    record {
      low = low;
      block_size = leaves.block_size;
      high = high;
      heap = subst (Represents h) at r;
      enough = leaves.enough;
      covers = subst (Covers (before ++ behind)) others leaves.covers;
      whole = subst (Covers c) at cover;
    }

realloc_serves :
    (h : Heap) (c before : Client) (p s : ℕ) (behind : Client) (size : ℕ)
    → c ≡ before ++ ((p, s) ∷ behind)
    → Asks size
    → IsServing h c
    → (k : ℕ × Heap) × (mm_realloc p size h ≡ some k) × Outcome (before ++ behind) c size k
unfolding Outcome
realloc_serves h c before p s behind size e asks serving =
    let x = Serving-Has h c before p s behind e serving in
    let (k, runs, does) =
      mm_realloc-Holds h x.low p x.block_size x.high x.heap size asks.0 asks.1 in
    (
      k,
      runs,
      elim does [
        | inl d ↦ Holds-Outcome (before ++ behind) c (x.low ++ x.high) size k x.covers d
        | inr (z, r) ↦ inr (z, running _ r x.whole)
      ],
    )

-- A call of at least one byte returns.
pub request_serves :
    (h : Heap) (c rest : Client) (call : Call c rest) (size : ℕ)
    → Asks size
    → IsServing h c
    → (k : ℕ × Heap) × (run_call call size h ≡ some k) × Outcome rest c size k
unfolding mm_realloc
request_serves h c _ anew size asks w = malloc_serves h c size asks w
request_serves h c _ from_null size asks w = malloc_serves h c size asks w
request_serves h c _ (again before p s behind e) size asks w =
    realloc_serves h c before p s behind size e asks w

low_end : (lo p n : ℕ) (low high : Live) (hi : ℕ) → IsApart lo (low ++ ((p, n) ∷ high)) hi → lo ≤ p
low_end lo p n [] high hi a = a.0
low_end lo p n (x ∷ low) high hi a = omega (arith, a.0, low_end (x.0 + x.1) p n low high hi a.3)

-- A held pointer is not `NULL`.
Has-pointer : (h : Heap) (p s : ℕ) (rest c : Client) → Has h p s rest c → p ≢ 0
Has-pointer h p s rest c x = λ e. omega (
  arith,
  e,
  low_end (first h.vm) p x.block_size x.low x.high h.vm.brk (
      subst (λ l. IsApart (first h.vm) l h.vm.brk) x.heap.view
        (live-IsApart h x.heap.blocks x.heap.nodes x.heap.heap)),
)

realloc_zero : (p : ℕ) (h : Heap) → p ≢ 0 → mm_realloc p 0 h ≡ some (0, mm_free p h)
unfolding mm_realloc
realloc_zero p h ne = rw (==-ne p 0 ne) refl

last_state : (j k : ℕ × Heap) → some j ≡ some k → j.1 ≡ k.1
last_state j k e = let same : j ≡ k = cc in ap (λ (x : ℕ × Heap). x.1) same

free_serves :
    (h : Heap) (c before : Client) (p s : ℕ) (behind : Client)
    → c ≡ before ++ ((p, s) ∷ behind)
    → IsServing h c
    → IsServing (mm_free p h) (before ++ behind)
free_serves h c before p s behind e w =
    let x = Serving-Has h c before p s behind e w in
    running _ (free-Represents h x.low p x.block_size x.high x.heap) x.covers

-- A call of size 0.
zero_serves :
    (h : Heap) (c rest : Client) (call : Call c rest) (p : ℕ) (h' : Heap)
    → run_call call 0 h ≡ some (p, h')
    → IsServing h c
    → IsServing h' rest
unfolding mm_malloc mm_realloc
zero_serves h c _ anew q h' runs w = subst (λ g. IsServing g c) (last_state (0, h) (q, h') runs) w
zero_serves h c _ from_null q h' runs w =
    subst (λ g. IsServing g c) (last_state (0, h) (q, h') runs) w
zero_serves h c _ (again before p s behind e) q h' runs w =
    let x = Serving-Has h c before p s behind e w in
    subst (λ g. IsServing g (before ++ behind))
      (last_state (0, mm_free p h) (q, h')
        (sym (realloc_zero p h (Has-pointer h p s (before ++ behind) c x)) ∙ runs))
      (free_serves h c before p s behind e w)

-- The result of a call is known.
taken :
    (rest c : Client) (size p : ℕ) (h' : Heap) (run : Option (ℕ × Heap))
    → run ≡ some (p, h')
    → ((k : ℕ × Heap) × (run ≡ some k) × Outcome rest c size k)
    → Outcome rest c size (p, h')
taken rest c size p h' run e (k, runs, does) =
    subst (Outcome rest c size) (let same : k ≡ (p, h') = cc in same) does

got :
    (rest c : Client) (size p : ℕ) (h' : Heap)
    → p ≢ 0
    → Outcome rest c size (p, h')
    → IsServing h' ((p, size) ∷ rest)
unfolding Outcome
got rest c size p h' ne (inl (w, _)) = w
got rest c size p h' ne (inr (z, _)) = absurd (ne z)

pub Outcome_cases :
    (rest c : Client) (size : ℕ) (k : ℕ × Heap) → Outcome rest c size k → (k.0 ≢ 0) ⊎ (k.0 ≡ 0)
unfolding Outcome
Outcome_cases rest c size k (inl (_, ne)) = inl ne
Outcome_cases rest c size k (inr (z, _)) = inr z

refused : (rest c : Client) (size : ℕ) (h' : Heap) → Outcome rest c size (0, h') → IsServing h' c
unfolding Outcome
refused rest c size h' (inl (_, ne)) = absurd (ne refl)
refused rest c size h' (inr (_, w)) = w

Step-IsServing :
    (h : Heap) (c : Client) (h' : Heap) (c' : Client)
    → IsServing h c
    → Step h c h' c'
    → IsServing h' c'
Step-IsServing h c _ _ w (grants rest call size p h' asks runs ne) =
    got rest c size p h' ne
      (taken rest c size p h' _ runs (request_serves h c rest call size asks w))
Step-IsServing h c _ _ w (refuses rest call size h' asks runs) =
    refused rest c size h'
      (taken rest c size 0 h' _ runs (request_serves h c rest call size asks w))
Step-IsServing h c _ _ w (gives_up rest call p h' runs) = zero_serves h c rest call p h' runs w
Step-IsServing h c _ _ w (free before p s behind e) = free_serves h c before p s behind e w
Step-IsServing h c _ _ w (store before p s behind m a len e lo hi out) =
    let x = Serving-Has h c before p s behind e w in
    running _
      (write-Represents h x.low p x.block_size x.high x.heap m a len lo (omega (arith, x.enough))
        out)
      x.whole

-- In each state that a client can reach which starts from a heap of the kind that `mm_init`
-- leaves on, calls `mm_malloc`, `mm_realloc` of `NULL` and `mm_realloc` of a pointer that it
-- holds, each for fewer than 2 ^ 32 - 15 bytes, frees pointers that it holds, and writes to its
-- bytes only: either the heap is still of that kind, with one free block that is on no list, and
-- the client holds nothing, or it is well formed and its allocated blocks are those that the
-- client holds, each with room for the bytes and both tags.
pub Reachable-IsServing :
    (start : Heap) (n : ℕ) (h : Heap) (c : Client)
    → IsFresh start n
    → Reachable start h c
    → IsServing h c
Reachable-IsServing start n _ _ f begins = first_call n f refl
Reachable-IsServing start n _ _ f (goes h c h' c' r s) =
    Step-IsServing h c h' c' (Reachable-IsServing start n h c f r) s
