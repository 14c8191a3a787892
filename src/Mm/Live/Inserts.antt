-- ===== src/Mm/Live/Inserts.antt =====
-- One more block among the allocated blocks, at any place.
use malloc_lab.Base.{ℕ, ◌≡◌, refl, sym, ap, subst, [], ◌∷◌, ◌++◌}
use malloc_lab.Mm.Live.{Live, Adds}

pub data Inserts (x : ℕ × ℕ) : Live → Live → Type 0 where
  here : (l : Live) → Inserts x l (x ∷ l)
  there : (y : ℕ × ℕ) (l l' : Live) → Inserts x l l' → Inserts x (y ∷ l) (y ∷ l')

pub Inserts-between : (x : ℕ × ℕ) (low high : Live) → Inserts x (low ++ high) (low ++ (x ∷ high))
Inserts-between x [] high = here high
Inserts-between x (y ∷ low) high = there y _ _ (Inserts-between x low high)

pub Adds-Inserts : (x : ℕ × ℕ) (l l' : Live) → Adds x l l' → Inserts x l l'
Adds-Inserts x l l' a =
    subst (λ k. Inserts x k l') (sym a.before)
      (subst (Inserts x (a.low ++ a.high)) (sym a.after) (Inserts-between x a.low a.high))

-- Where it stands.
pub Inserts-split :
    (x : ℕ × ℕ) (l l' : Live)
    → Inserts x l l'
    → (low : Live) × (high : Live) × (l ≡ low ++ high) × (l' ≡ low ++ (x ∷ high))
Inserts-split x l _ (here _) = ([], l, refl, refl)
Inserts-split x _ _ (there y m m' i) =
    let (low, high, before, after) = Inserts-split x m m' i in
    (y ∷ low, high, ap (λ k. y ∷ k) before, ap (λ k. y ∷ k) after)

-- Two blocks that are put in, one after the other, may be taken out in either order.
pub Inserts-swap :
    (x y : ℕ × ℕ) (rest l l' : Live)
    → Inserts x rest l
    → Inserts y l l'
    → (m : Live) × Inserts y rest m × Inserts x m l'
Inserts-swap x y rest l _ i (here _) = (y ∷ rest, here rest, there y rest l i)
Inserts-swap x y rest _ _ (here _) (there _ _ m j) = (m, j, here m)
Inserts-swap x y _ _ _ (there z k k' i) (there _ _ m' j) =
    let (m, a, b) = Inserts-swap x y k k' m' i j in (z ∷ m, there z k m a, there z m m' b)
