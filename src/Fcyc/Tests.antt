-- ===== src/Fcyc/Tests.antt =====
-- The sampler of fcyc.c on numbers.
use malloc_lab.Base.{ℕ, ◌+◌, ◌*◌, ◌%◌, ◌≡◌, some, ltb, leb}
use malloc_lab.Fcyc.{fcyc}
use malloc_lab.Fcyc.Ends.{fcyc_returns}

-- The three least of at most 20 measurements are to be within a tenth of each other.
fcyc_returns_example :
    (v : ℕ) × (fcyc ltb (λ a b. leb (10 * b) (11 * a)) 3 20 0 (λ n. 100 + n * 7 % 40) ≡ some v)
fcyc_returns_example = fcyc_returns ltb (λ a b. leb (10 * b) (11 * a)) 3 20 0 λ n. 100 + n * 7 % 40
