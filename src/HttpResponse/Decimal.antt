-- ===== src/HttpResponse/Decimal.antt =====
-- The digits of `%d` and `%zd`.
use native.Mathlib.Nat.{pow-suc}
use httpd_cpp.Base.{
  ℕ, zero, suc, ◌+◌, ◌-◌, ◌*◌, ◌/◌, ◌%◌, ◌^◌, ◌<◌, ◌≡◌, ap, ◌∙◌, Bool-cases, inl, inr, List, [],
  ◌∷◌, ltb, arith,
}
use httpd_cpp.Bytes.Search.{Without}
use httpd_cpp.HttpResponse.{decimal_from, decimal}

-- The number that digits stand for, read behind `acc`.
abbrev value_from : ℕ → List ℕ → ℕ
value_from acc [] = acc
value_from acc (c ∷ cs) = value_from (acc * 10 + (c - 48)) cs

abbrev pub value : List ℕ → ℕ
value cs = value_from 0 cs

value-decimal_from :
    (fuel n : ℕ) (acc : List ℕ) → n < 10 ^ fuel → value (decimal_from fuel n acc) ≡ value_from n acc
unfolding decimal_from
value-decimal_from zero n acc h = ap (λ k. value_from k acc) (omega arith)
value-decimal_from (suc fuel) n acc h = elim (Bool-cases (ltb n 10)) [
  | inl e ↦ rw e (ap (λ k. value_from k acc) (omega arith))
  | inr e ↦ rw e (
      value-decimal_from fuel (n / 10) ((48 + n % 10) ∷ acc) (omega (arith, pow-suc 10 fuel))
      ∙ ap (λ k. value_from k acc) (omega arith))
]

-- The digits of a `size_t` stand for it.
pub value-decimal : (n : ℕ) → n < 2 ^ 64 → value (decimal n) ≡ n
unfolding decimal
value-decimal n h = value-decimal_from 20 n [] (omega arith)

decimal_from-cr :
    (fuel n : ℕ) (acc : List ℕ) → Without 13 acc → Without 13 (decimal_from fuel n acc)
unfolding decimal_from
decimal_from-cr zero n acc w = w
decimal_from-cr (suc fuel) n acc w = elim (Bool-cases (ltb n 10)) [
  | inl e ↦ rw e ((omega arith), w)
  | inr e ↦ rw e (decimal_from-cr fuel (n / 10) ((48 + n % 10) ∷ acc) ((omega arith), w))
]

pub decimal-cr : (n : ℕ) → Without 13 (decimal n)
unfolding decimal
decimal-cr n = decimal_from-cr 20 n [] tt
