-- ===== src/Mdriver/Timer.antt =====
-- fsecs.c and `ftimer_gettod` of ftimer.c, which config.h chooses: the time that a function takes, as
-- the mean of ten runs by the clock of the system. `double` is a type with the operations that the
-- driver uses.
use malloc_lab.Base.{ℕ, zero, suc, ◌+◌, Bool}
use malloc_lab.Mm.Macros.{sub_word}
use malloc_lab.Mdriver.{Run, ◌>>=◌, returns}

-- `double`: `of_int` converts an `int`, by its bit pattern, and `of_size` a `size_t`; `literal m e` is
-- the literal `mEe`, and `fraction m e` is `mE-e`.
pub record Float (D : Type 0) : Type 0 where
  pub of_int : ℕ → D
  pub of_size : ℕ → D
  pub literal : ℕ → ℕ → D
  pub fraction : ℕ → ℕ → D
  pub plus : D → D → D
  pub minus : D → D → D
  pub times : D → D → D
  pub over : D → D → D
  pub above : D → D → Bool

-- `struct timeval`.
pub record Timeval : Type 0 where
  pub tv_sec : ℕ
  pub tv_usec : ℕ

-- The loop over the runs of the function, which keeps its state.
abbrev pub runs : {S : Type 0} → (S → Run S) → ℕ → S → Run S
runs f zero s = returns s
runs f (suc n) s = f s >>= λ s. runs f n s

-- `gettimeofday` gives the time `now t` when it is called for the time `t`, counted from 0.
module _ {D : Type 0} (d : Float D) (now : ℕ → Timeval) where
  unfoldable pub ftimer_gettod : {S : Type 0} → (S → Run S) → ℕ → S × ℕ → Run (D × S × ℕ)
  ftimer_gettod f n (s, t) =
      let stv = now t in
      runs f n s >>= λ s.
      let etv = now (t + 1) in
      let diff =
        d.plus (d.times (d.literal 1 3) (d.of_int (sub_word etv.tv_sec stv.tv_sec)))
          (d.times (d.fraction 1 3) (d.of_int (sub_word etv.tv_usec stv.tv_usec))) in
      let diff = d.over diff (d.of_int n) in returns (d.times (d.fraction 1 3) diff, s, t + 2)

  unfoldable pub fsecs : {S : Type 0} → (S → Run S) → S × ℕ → Run (D × S × ℕ)
  unfolding ftimer_gettod
  fsecs f s = ftimer_gettod f 10 s
