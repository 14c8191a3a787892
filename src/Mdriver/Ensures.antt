-- ===== src/Mdriver/Ensures.antt =====
-- What a run of mdriver.c ends with, where it is not stopped.
use malloc_lab.Base.{◌≡◌, refl, Bool, true, false, if◌then◌else◌, Option, none, some}
use malloc_lab.Mdriver.{Run, ◌>>=◌, returns, stops, ends}

abbrev pub Ensures : {A : Type 0} → Run A → (A → Type 0) → Type 0
Ensures (returns a) P = P a
Ensures (stops s) P = Unit

module _ {A : Type 0} where
  pub Ensures-ends :
      (o : Option A) (P : A → Type 0) → ((a : A) → o ≡ some a → P a) → Ensures (ends o) P
  Ensures-ends none P f = tt
  Ensures-ends (some a) P f = f a refl

  pub Ensures-of : (r : Run A) (P : A → Type 0) → ((a : A) → r ≡ returns a → P a) → Ensures r P
  Ensures-of (returns a) P f = f a refl
  Ensures-of (stops s) P f = tt

  pub Ensures-bind :
      {B : Type 0} (r : Run B) (k : B → Run A) (Q : B → Type 0) (P : A → Type 0)
      → Ensures r Q
      → ((b : B) → Q b → Ensures (k b) P)
      → Ensures (r >>= k) P
  Ensures-bind (returns b) k Q P e f = f b e
  Ensures-bind (stops s) k Q P e f = tt

  pub Ensures-if :
      (b : Bool) (x y : Run A) (P : A → Type 0)
      → (b ≡ true → Ensures x P)
      → (b ≡ false → Ensures y P)
      → Ensures (if b then x else y) P
  Ensures-if true x y P f g = f refl
  Ensures-if false x y P f g = g refl
