-- ===== src/RequestStore.antt =====
-- The objects that `new HttpRequest` has made and `delete` has not taken back, by address.
pub mod Distinct
use httpd_cpp.Base.{ℕ, ◌≡◌, List, [], ◌∷◌, Option, none, some, ◌==◌, if◌then◌else◌, arith}

module _ {ℓ} {A : Type ℓ} where
  unfoldable pub find : ℕ → List (ℕ × A) → Option A
  find a [] = none
  find a ((b, r) ∷ m) = if b == a then some r else find a m

  unfoldable pub remove : ℕ → List (ℕ × A) → List (ℕ × A)
  remove a [] = []
  remove a ((b, r) ∷ m) = let rest = remove a m in if b == a then rest else (b, r) ∷ rest

  pub find-remove :
      (a b : ℕ) (m : List (ℕ × A)) → find b (remove a m) ≡ (if a == b then none else find b m)
  unfolding find remove
  find-remove a b [] = ground arith
  find-remove a b ((c, r) ∷ m) = ground (arith, find-remove a b m)
