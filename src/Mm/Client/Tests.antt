-- ===== src/Mm/Client/Tests.antt =====
-- A client of mm.c that asks for 100 bytes after `mm_init`.
use malloc_lab.Base.{ℕ, ◌≡◌, refl, sym, ap, subst, ◌⊎◌, Option, none, some, [], ◌∷◌, arith}
use malloc_lab.Memory.{get, put}
use malloc_lab.Memlib.{mem_sbrk}
use malloc_lab.Mm.{
  Heap, mm_init, mm_malloc, mm_free, mm_realloc, coalesce, extend_heap, place, find_fit,
  insert_node, remove_node, adjust_block,
}
use malloc_lab.Mm.Macros.{pack, get_size, get_alloc}
use malloc_lab.Mm.Zip.{first}
use malloc_lab.Mm.Fresh.{IsFresh}
use malloc_lab.Mm.Init.{mm_init-IsFresh}
use malloc_lab.Mm.Tests.{untouched, untouched-IsUntouched, sample, sample_blocks, sample-IsHeap}
use malloc_lab.Mm.Live.Represents.{Represents}
use malloc_lab.Mm.Live.Move.{Holds, mm_realloc-Holds}
use malloc_lab.Mm.Client.{Asks, anew, again, grants, Reachable, begins, goes}
use malloc_lab.Mm.Client.Serves.{IsServing, Reachable-IsServing}
use malloc_lab.Mm.Client.Safe.{IsSafe}
use malloc_lab.Mm.Client.Results.{Reachable-IsSafe, ServedBy, Reachable_goes_on}

abbrev start : Heap
start = (mm_init-IsFresh untouched untouched-IsUntouched (omega arith)).0

start-IsFresh : IsFresh start 4112
start-IsFresh = (mm_init-IsFresh untouched untouched-IsUntouched (omega arith)).2

abbrev begun : Heap
unfolding mm_init coalesce extend_heap insert_node remove_node adjust_block pack get_size get_alloc
    get put mem_sbrk
begun = (mm_init untouched).1

same : begun ≡ start
unfolding begun mm_init
same = ap (λ k. k.1) (mm_init-IsFresh untouched untouched-IsUntouched (omega arith)).1

abbrev heap_of : Option (ℕ × Heap) → Heap
heap_of none = begun
heap_of (some k) = k.1

abbrev served : Heap
served = heap_of (mm_malloc 100 begun)

served_run : mm_malloc 100 begun ≡ some (4112, served)
unfolding mm_init mm_malloc mm_free coalesce extend_heap place find_fit insert_node remove_node
    adjust_block pack get_size get_alloc get put mem_sbrk
served_run = refl

begun-IsFresh : IsFresh begun 4112
begun-IsFresh = subst (λ h. IsFresh h 4112) (sym same) start-IsFresh

asks : Asks 100
asks = (λ e. omega arith, omega arith)

held : Reachable begun served ((4112, 100) ∷ [])
held =
    goes begun [] served _ begins (grants [] anew 100 4112 served asks served_run λ e. omega arith)

Reachable-IsServing_example : IsServing served ((4112, 100) ∷ [])
Reachable-IsServing_example =
    Reachable-IsServing begun 4112 served ((4112, 100) ∷ []) begun-IsFresh held

Reachable-IsSafe_example : IsSafe (first served.vm) served.vm.brk ((4112, 100) ∷ [])
Reachable-IsSafe_example = Reachable-IsSafe begun 4112 served ((4112, 100) ∷ []) begun-IsFresh held

Reachable_goes_on_example : ServedBy begun ((4112, 100) ∷ []) [] 200 (mm_realloc 4112 200 served)
Reachable_goes_on_example =
    Reachable_goes_on begun 4112 served ((4112, 100) ∷ []) [] (again [] 4112 100 [] refl) 200
      begun-IsFresh held (λ e. omega arith, omega arith)

sample-Represents : Represents sample ((4112, 24) ∷ (4168, 16) ∷ [])
sample-Represents = record {
  blocks = sample_blocks;
  nodes = 4136 ∷ [];
  heap = sample-IsHeap;
  view = refl;
}

mm_realloc-Holds_example :
    (k : ℕ × Heap) × (mm_realloc 4112 100 sample ≡ some k)
    × (Holds ((4168, 16) ∷ []) 100 k ⊎ ((k.0 ≡ 0) × Represents k.1 ((4112, 24) ∷ (4168, 16) ∷ [])))
mm_realloc-Holds_example =
    mm_realloc-Holds sample [] 4112 24 ((4168, 16) ∷ []) sample-Represents 100 (λ e. omega arith)
      (omega arith)
