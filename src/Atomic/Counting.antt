-- ===== src/Atomic/Counting.antt =====
-- What counters give out.
use httpd_cpp.Base.{ℕ, zero, suc, ◌+◌, ◌%◌, ◌<◌, ◌≡◌, List, [], ◌∷◌, arith}
use httpd_cpp.Atomic.{increment_and_get}

-- The answers of so many calls of `incrementAndGet`, by whatever threads, and the value left.
unfoldable pub count_up : ℕ → ℕ → ℕ → List ℕ × ℕ
unfolding increment_and_get
count_up modulus zero value = ([], value)
count_up modulus (suc n) value =
    let (answer, value') = increment_and_get modulus value in
    let (answers, last) = count_up modulus n value' in (answer ∷ answers, last)

-- `n` numbers from `first` on.
abbrev pub from : ℕ → ℕ → List ℕ
from first zero = []
from first (suc n) = first ∷ from (first + 1) n

pub count_up_lem :
    (modulus n value : ℕ)
    → value + n < modulus
    → count_up modulus n value ≡ (from (value + 1) n, value + n)
unfolding count_up
count_up_lem modulus zero value h = ground arith
count_up_lem modulus (suc n) value h =
    let next : (value + 1) % modulus ≡ value + 1 = grind arith in
    rw (next, count_up_lem modulus n (value + 1) (omega arith)) (ground arith)
