-- ===== src/Mm/Live/Represents.antt =====
-- The allocated blocks that a heap of mm.c represents, under `mm_free` and the writes of the client.
use malloc_lab.Base.{ℕ, ◌+◌, ◌≤◌, ◌≡◌, ap, ◌∙◌, subst, true, List, [], ◌∷◌, ◌++◌, reverse_aux}
use malloc_lab.Memory.{Memory}
use malloc_lab.Mm.{Heap, write, mm_free}
use malloc_lab.Mm.Layout.{Block, block}
use malloc_lab.Mm.Zip.{Zip, first}
use malloc_lab.Mm.Zip.Move.{IsHeap, rewind}
use malloc_lab.Mm.Payload.{Outside, payload-Zip}
use malloc_lab.Mm.Live.{Live, live, live_back, Zip-live}
use malloc_lab.Mm.Live.Free.{Found, find_right, mm_free-Freed}

-- The heap is well formed and has the allocated blocks `l`.
pub record Represents (h : Heap) (l : Live) : Type 0 where
  pub blocks : List Block
  pub nodes : List ℕ
  pub heap : IsHeap h blocks nodes
  pub view : live (first h.vm) blocks ≡ l

pub Zip-Represents :
    (h : Heap) (ls : List Block) (q : ℕ) (rs : List Block) (xs : List ℕ)
    → Zip h ls q q rs xs
    → Represents h (live_back q ls [] ++ live q rs)
Zip-Represents h ls q rs xs z = record {
  blocks = reverse_aux ls rs;
  nodes = xs;
  heap = rewind h ls q rs xs z;
  view = Zip-live h ls q rs xs z;
}

module _ (h : Heap) (low : Live) (p n : ℕ) (high : Live)
    (r : Represents h (low ++ ((p, n) ∷ high))) where
  pub found : Found h p n low high r.nodes
  found = find_right h p n high [] (first h.vm) r.blocks r.nodes low r.heap r.view

  pub free-Represents : Represents (mm_free p h) (low ++ high)
  free-Represents =
      let f = mm_free-Freed h r.blocks r.nodes p n low high r.heap r.view in
      record { blocks = f.blocks; nodes = f.nodes; heap = f.heap; view = f.live_after }

  -- The client writes to a payload.
  pub write-Represents :
      (k : Memory) (a len : ℕ)
      → p ≤ a
      → a + len + 8 ≤ p + n
      → Outside h.bytes k a len
      → Represents (write h k) (low ++ ((p, n) ∷ high))
  write-Represents k a len lo hi out =
      subst (Represents (write h k))
        (ap (λ l. l ++ ((p, n) ∷ live (p + n) found.behind)) found.lows
          ∙ ap (λ l. low ++ ((p, n) ∷ l)) found.highs)
        (Zip-Represents (write h k) found.before p (block n true ∷ found.behind) r.nodes
          (payload-Zip h found.before p n found.behind r.nodes k a len found.zip lo hi out))
