-- ===== src/Mm/Live/Beside.antt =====
-- Allocated blocks that have no byte in common.
use malloc_lab.Base.{ℕ, ◌+◌, ◌%◌, ◌≤◌, ◌≡◌, refl, List, [], ◌∷◌, inl, inr, arith}
use malloc_lab.Memory.{Apart}
use malloc_lab.Mm.Live.{Live, IsApart}
use malloc_lab.Mm.Live.In.{In}
use malloc_lab.Mm.Live.Inserts.{Inserts, here, there}

-- No byte in common with any of them.
abbrev pub Disjoint : ℕ × ℕ → List (ℕ × ℕ) → Type 0
Disjoint x [] = Unit
Disjoint x (y ∷ ys) = Apart x.0 x.1 y.0 y.1 × Disjoint x ys

pub Disjoint-In : (x : ℕ × ℕ) (l : Live) (p n : ℕ) → Disjoint x l → In p n l → Apart x.0 x.1 p n
Disjoint-In x [] p n d i = absurd i
Disjoint-In x (y ∷ l) p n d (inl e) = omega (arith, d.0, e)
Disjoint-In x (y ∷ l) p n d (inr i) = Disjoint-In x l p n d.1 i

-- Blocks among those with one more.
pub Inserts-In : (x : ℕ × ℕ) (l l' : Live) (p n : ℕ) → Inserts x l l' → In p n l → In p n l'
Inserts-In x l _ p n (here _) i = inr i
Inserts-In x _ _ p n (there y k k' j) (inl e) = inl e
Inserts-In x _ _ p n (there y k k' j) (inr i) = inr (Inserts-In x k k' p n j i)

pub Inserts-self : (p n : ℕ) (l l' : Live) → Inserts (p, n) l l' → In p n l'
Inserts-self p n l _ (here _) = inl (refl, refl)
Inserts-self p n _ _ (there y k k' j) = inr (Inserts-self p n k k' j)

IsApart-weaken : (lo q : ℕ) (l : Live) (hi : ℕ) → lo ≤ q → IsApart q l hi → IsApart lo l hi
IsApart-weaken lo q [] hi h a = omega arith
IsApart-weaken lo q (x ∷ l) hi h a = (omega (arith, a.0), a.1, a.2, a.3)

IsApart-high : (lo : ℕ) (l : Live) (hi : ℕ) → IsApart lo l hi → lo ≤ hi
IsApart-high lo [] hi a = a
IsApart-high lo (x ∷ l) hi a = omega (arith, a.0, IsApart-high (x.0 + x.1) l hi a.3)

IsApart-Disjoint :
    (p n lo : ℕ) (l : Live) (hi : ℕ) → p + n ≤ lo → IsApart lo l hi → Disjoint (p, n) l
IsApart-Disjoint p n lo [] hi h a = tt
IsApart-Disjoint p n lo (x ∷ l) hi h a =
    (omega (arith, a.0), IsApart-Disjoint p n (x.0 + x.1) l hi (omega (arith, a.0)) a.3)

-- A block among others that are apart.
pub record Stands (x : ℕ × ℕ) (lo : ℕ) (l : Live) (hi : ℕ) : Type 0 where
  pub low : lo ≤ x.0
  pub high : x.0 + x.1 ≤ hi
  pub aligned : x.0 % 8 ≡ 0
  pub beside : Disjoint x l
  pub others : IsApart lo l hi

pub Inserts-Stands :
    (x : ℕ × ℕ) (lo : ℕ) (l l' : Live) (hi : ℕ)
    → Inserts x l l'
    → IsApart lo l' hi
    → Stands x lo l hi
Inserts-Stands x lo l _ hi (here _) a = record {
  low = a.0;
  high = IsApart-high (x.0 + x.1) l hi a.3;
  aligned = a.1;
  beside = IsApart-Disjoint x.0 x.1 (x.0 + x.1) l hi (omega arith) a.3;
  others = IsApart-weaken lo (x.0 + x.1) l hi (omega (arith, a.0)) a.3;
}
Inserts-Stands x lo _ _ hi (there y k k' i) a =
    let s = Inserts-Stands x (y.0 + y.1) k k' hi i a.3 in
    record {
      low = omega (arith, a.0, s.low);
      high = s.high;
      aligned = s.aligned;
      beside = (omega (arith, s.low), s.beside);
      others = (a.0, a.1, a.2, s.others);
    }
