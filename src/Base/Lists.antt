-- ===== src/Base/Lists.antt =====
-- Lists measured and cut by native numbers, under the library's names.
use Prim.Native.Nat.{ℕ, zero, suc, ◌+◌, ◌-◌, ◌≤◌, min}
use mathlib.Core.Path.{◌≡◌, refl, ap, sym, ◌∙◌}
use mathlib.Core.List.{List, [], ◌∷◌, ◌++◌}
use native.Mathlib.Omega.{arith}

module _ {ℓ} {A : Type ℓ} where
  abbrev pub length : List A → ℕ
  length [] = 0
  length (x ∷ xs) = suc (length xs)

  abbrev pub take : ℕ → List A → List A
  take zero xs = []
  take (suc n) [] = []
  take (suc n) (x ∷ xs) = x ∷ take n xs

  abbrev pub drop : ℕ → List A → List A
  drop zero xs = xs
  drop (suc n) [] = []
  drop (suc n) (x ∷ xs) = drop n xs

  abbrev pub replicate : ℕ → A → List A
  replicate zero a = []
  replicate (suc n) a = a ∷ replicate n a

  -- The elements from index `i` up to, not including, index `j`.
  abbrev pub slice : List A → ℕ → ℕ → List A
  slice xs i j = take (j - i) (drop i xs)

pub take-nil {ℓ} : (A : Type ℓ) (n : ℕ) → take {A = A} n [] ≡ []
take-nil A zero = refl
take-nil A (suc n) = refl

module _ {ℓ} {A : Type ℓ} where
  pub length-append : (xs ys : List A) → length (xs ++ ys) ≡ length xs + length ys
  length-append [] ys = omega arith
  length-append (x ∷ xs) ys = omega (arith, length-append xs ys)

  pub length-take : (n : ℕ) (xs : List A) → length (take n xs) ≡ min n (length xs)
  length-take zero xs = omega arith
  length-take (suc n) [] = omega arith
  length-take (suc n) (x ∷ xs) = omega (arith, length-take n xs)

  pub length-drop : (n : ℕ) (xs : List A) → length (drop n xs) ≡ length xs - n
  length-drop zero xs = omega arith
  length-drop (suc n) [] = omega arith
  length-drop (suc n) (x ∷ xs) = omega (arith, length-drop n xs)

  pub length-replicate : (n : ℕ) (a : A) → length (replicate n a) ≡ n
  length-replicate zero a = refl
  length-replicate (suc n) a = ap suc (length-replicate n a)

  pub take-append-drop : (n : ℕ) (xs : List A) → take n xs ++ drop n xs ≡ xs
  take-append-drop zero xs = refl
  take-append-drop (suc n) [] = refl
  take-append-drop (suc n) (x ∷ xs) = ap (◌∷◌ x) (take-append-drop n xs)

  pub take-append_le : (n : ℕ) (xs ys : List A) → n ≤ length xs → take n (xs ++ ys) ≡ take n xs
  take-append_le zero xs ys h = refl
  take-append_le (suc n) [] ys h = absurd (omega arith)
  take-append_le (suc n) (x ∷ xs) ys h = ap (◌∷◌ x) (take-append_le n xs ys (omega arith))

  pub take_all : (n : ℕ) (xs : List A) → length xs ≤ n → take n xs ≡ xs
  take_all zero [] h = refl
  take_all zero (x ∷ xs) h = absurd (omega arith)
  take_all (suc n) [] h = refl
  take_all (suc n) (x ∷ xs) h = ap (◌∷◌ x) (take_all n xs (omega arith))

  pub drop_all : (n : ℕ) (xs : List A) → length xs ≤ n → drop n xs ≡ []
  drop_all zero [] h = refl
  drop_all zero (x ∷ xs) h = absurd (omega arith)
  drop_all (suc n) [] h = refl
  drop_all (suc n) (x ∷ xs) h = drop_all n xs (omega arith)

  pub drop-append_length : (n : ℕ) (xs ys : List A) → n ≡ length xs → drop n (xs ++ ys) ≡ ys
  drop-append_length zero [] ys h = refl
  drop-append_length zero (x ∷ xs) ys h = absurd (omega arith)
  drop-append_length (suc n) [] ys h = absurd (omega arith)
  drop-append_length (suc n) (x ∷ xs) ys h = drop-append_length n xs ys (omega arith)

  pub take-append_length : (n : ℕ) (xs ys : List A) → n ≡ length xs → take n (xs ++ ys) ≡ xs
  take-append_length zero [] ys h = refl
  take-append_length zero (x ∷ xs) ys h = absurd (omega arith)
  take-append_length (suc n) [] ys h = absurd (omega arith)
  take-append_length (suc n) (x ∷ xs) ys h = ap (◌∷◌ x) (take-append_length n xs ys (omega arith))

  pub drop-append_le :
      (n : ℕ) (xs ys : List A) → n ≤ length xs → drop n (xs ++ ys) ≡ drop n xs ++ ys
  drop-append_le zero xs ys h = refl
  drop-append_le (suc n) [] ys h = absurd (omega arith)
  drop-append_le (suc n) (x ∷ xs) ys h = drop-append_le n xs ys (omega arith)

  pub drop-drop : (m n k : ℕ) (xs : List A) → k ≡ n + m → drop m (drop n xs) ≡ drop k xs
  drop-drop m zero k xs e = ap (λ i. drop i xs) (omega arith)
  drop-drop zero (suc n) zero [] e = refl
  drop-drop (suc m) (suc n) zero [] e = refl
  drop-drop zero (suc n) (suc k) [] e = refl
  drop-drop (suc m) (suc n) (suc k) [] e = refl
  drop-drop m (suc n) zero (x ∷ xs) e = absurd (omega arith)
  drop-drop m (suc n) (suc k) (x ∷ xs) e = drop-drop m n k xs (omega arith)

  -- A slice after the elements before it.
  pub take-append-slice : (i j : ℕ) (xs : List A) → i ≤ j → take i xs ++ slice xs i j ≡ take j xs
  take-append-slice zero j xs h = ap (λ k. take k xs) (omega arith)
  take-append-slice (suc i) zero xs h = absurd (omega arith)
  take-append-slice (suc i) (suc j) [] h = take-nil A (suc j - suc i)
  take-append-slice (suc i) (suc j) (x ∷ xs) h = ap (◌∷◌ x) (
      ap (λ k. take i xs ++ take k (drop i xs)) (omega arith)
      ∙ take-append-slice i j xs (omega arith))

  pub slice_of_parts :
      (p c s : List A) (i j : ℕ) → i ≡ length p → j ≡ i + length c → slice (p ++ (c ++ s)) i j ≡ c
  slice_of_parts p c s i j hi hj =
      ap (take (j - i)) (drop-append_length i p (c ++ s) hi)
      ∙ take-append_length (j - i) c s (omega arith)

  pub length-slice : (xs : List A) (i j : ℕ) → i ≤ j → j ≤ length xs → length (slice xs i j) ≡ j - i
  length-slice xs i j h k = omega (arith, length-take (j - i) (drop i xs), length-drop i xs)

  pub append-cancel : (xs ys zs : List A) → xs ++ ys ≡ xs ++ zs → ys ≡ zs
  append-cancel xs ys zs e =
      sym (drop-append_length (length xs) xs ys refl)
      ∙ ap (drop (length xs)) e
      ∙ drop-append_length (length xs) xs zs refl

  pub drop-take : (k n : ℕ) (xs : List A) → k ≤ n → drop k (take n xs) ≡ take (n - k) (drop k xs)
  drop-take zero n xs h = ap (λ i. take i xs) (omega arith)
  drop-take (suc k) zero xs h = absurd (omega arith)
  drop-take (suc k) (suc n) [] h = sym (take-nil A (suc n - suc k))
  drop-take (suc k) (suc n) (x ∷ xs) h =
      drop-take k n xs (omega arith) ∙ ap (λ i. take i (drop k xs)) (omega arith)

  pub take-take : (k n : ℕ) (xs : List A) → k ≤ n → take k (take n xs) ≡ take k xs
  take-take zero n xs h = refl
  take-take (suc k) zero xs h = absurd (omega arith)
  take-take (suc k) (suc n) [] h = refl
  take-take (suc k) (suc n) (x ∷ xs) h = ap (◌∷◌ x) (take-take k n xs (omega arith))

  -- Dropping from a slice moves its start, and taking from it moves its end.
  pub drop-slice :
      (k i j : ℕ) (xs : List A) → i + k ≤ j → drop k (slice xs i j) ≡ slice xs (i + k) j
  drop-slice k i j xs h =
      drop-take k (j - i) (drop i xs) (omega arith)
      ∙ ap (take (j - i - k)) (drop-drop k i (i + k) xs refl)
      ∙ ap (λ n. take n (drop (i + k) xs)) (omega arith)

  pub take-slice :
      (k i j : ℕ) (xs : List A) → i + k ≤ j → take k (slice xs i j) ≡ slice xs i (i + k)
  take-slice k i j xs h =
      take-take k (j - i) (drop i xs) (omega arith) ∙ ap (λ n. take n (drop i xs)) (omega arith)

  pub slice-append_le :
      (xs ys : List A) (i j : ℕ) → i ≤ j → j ≤ length xs → slice (xs ++ ys) i j ≡ slice xs i j
  slice-append_le xs ys i j h k =
      ap (take (j - i)) (drop-append_le i xs ys (omega arith))
      ∙ take-append_le (j - i) (drop i xs) ys (omega (arith, length-drop i xs))

  -- What stands behind index `i` is the slice up to `j`, and what stands behind `j`.
  pub drop-eq-slice-append : (i j : ℕ) (xs : List A) → i ≤ j → drop i xs ≡ slice xs i j ++ drop j xs
  drop-eq-slice-append i j xs h =
      sym (take-append-drop (j - i) (drop i xs))
      ∙ ap (◌++◌ (slice xs i j)) (drop-drop (j - i) i j xs (omega arith))
