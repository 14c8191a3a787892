-- ===== src/Mm/Client/Covers.antt =====
-- The pointers of a client and the allocated blocks of the heap.
use malloc_lab.Base.{ℕ, ◌+◌, ◌≤◌, [], ◌∷◌, ◌++◌}
use malloc_lab.Mm.Live.{Live}
use malloc_lab.Mm.Live.Inserts.{Inserts, Inserts-swap}
use malloc_lab.Mm.Client.{Client}

-- Each pointer is that of an allocated block of its own, with room for the bytes and both tags, and
-- there are no other blocks.
pub data Covers : Client → Live → Type 0 where
  none : Covers [] []
  one :
      (p size n : ℕ) (c : Client) (l l' : Live)
      → Inserts (p, n) l l'
      → size + 8 ≤ n
      → Covers c l
      → Covers ((p, size) ∷ c) l'

-- The block of a pointer, and the others.
pub record Leaves (p s : ℕ) (rest : Client) (l : Live) : Type 0 where
  pub block_size : ℕ
  pub others : Live
  pub inserts : Inserts (p, block_size) others l
  pub enough : s + 8 ≤ block_size
  pub covers : Covers rest others

pub Covers-Leaves :
    (before : Client) (p s : ℕ) (behind : Client) (l : Live)
    → Covers (before ++ ((p, s) ∷ behind)) l
    → Leaves p s (before ++ behind) l
Covers-Leaves [] p s behind l (one _ _ n _ k _ i e c) = record {
  block_size = n;
  others = k;
  inserts = i;
  enough = e;
  covers = c;
}
Covers-Leaves (x ∷ before) p s behind l (one q t n _ k _ i e c) =
    let rest = Covers-Leaves before p s behind k c in
    let (m, new, old) = Inserts-swap (p, rest.block_size) (q, n) rest.others k l rest.inserts i in
    record {
      block_size = rest.block_size;
      others = m;
      inserts = old;
      enough = rest.enough;
      covers = one q t n _ rest.others m new e rest.covers;
    }
