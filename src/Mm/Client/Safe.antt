-- ===== src/Mm/Client/Safe.antt =====
-- The bytes that a client of mm.c may use.
use malloc_lab.Base.{ℕ, ◌+◌, ◌%◌, ◌≤◌, ◌≡◌, [], ◌∷◌, arith}
use malloc_lab.Memory.{Apart}
use malloc_lab.Mm.Live.{Live, IsApart}
use malloc_lab.Mm.Live.Inserts.{Inserts, here, there}
use malloc_lab.Mm.Live.Beside.{Disjoint, Inserts-Stands}
use malloc_lab.Mm.Client.{Client}
use malloc_lab.Mm.Client.Covers.{Covers, none, one}

-- All between two addresses, at multiples of 8, and no two with a byte in common.
abbrev pub IsSafe : ℕ → ℕ → Client → Type 0
IsSafe lo hi [] = Unit
IsSafe lo hi (x ∷ c) = (lo ≤ x.0) × (x.0 + x.1 ≤ hi) × (x.0 % 8 ≡ 0) × Disjoint x c × IsSafe lo hi c

Inserts-Disjoint :
    (x y : ℕ × ℕ) (l l' : Live)
    → Inserts y l l'
    → Disjoint x l'
    → Apart x.0 x.1 y.0 y.1 × Disjoint x l
Inserts-Disjoint x y l _ (here _) d = d
Inserts-Disjoint x y _ _ (there z k k' i) d =
    let (a, rest) = Inserts-Disjoint x y k k' i d.1 in (a, (d.0, rest))

Covers-Disjoint :
    (p n s : ℕ) (c : Client) (l : Live) → s ≤ n → Covers c l → Disjoint (p, n) l → Disjoint (p, s) c
Covers-Disjoint p n s _ _ le none d = tt
Covers-Disjoint p n s _ l' le (one q t k c l _ i e cover) d =
    let (a, rest) = Inserts-Disjoint (p, n) (q, k) l l' i d in
    (omega (arith, a), Covers-Disjoint p n s c l le cover rest)

pub Covers-IsSafe :
    (c : Client) (l : Live) (lo hi : ℕ) → Covers c l → IsApart lo l hi → IsSafe lo hi c
Covers-IsSafe _ _ lo hi none a = tt
Covers-IsSafe _ l' lo hi (one p s n c l _ i e cover) a =
    let st = Inserts-Stands (p, n) lo l l' hi i a in
    (
      st.low,
      omega (arith, st.high),
      st.aligned,
      Covers-Disjoint p n s c l (omega arith) cover st.beside,
      Covers-IsSafe c l lo hi cover st.others,
    )
