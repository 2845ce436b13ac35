-- ===== src/StringMap.antt =====
-- `std::map<std::string, V>`: the entries in the order of their keys, each key once.
use httpd_cpp.Base.{
  ℕ, ◌≡◌, refl, ◌∙◌, ap, true, false, List, [], ◌∷◌, Option, none, some, if◌then◌else◌, Bool-cases,
  inl, inr, arith,
}
use httpd_cpp.Bytes.{equal, less}
use httpd_cpp.Bytes.Search.{equal_iff, equal_refl}

abbrev pub Map {ℓ} : Type ℓ → Type ℓ
Map V = List (List ℕ × V)

module _ {ℓ} {V : Type ℓ} where
  unfoldable pub find : List ℕ → Map V → Option V
  find k [] = none
  find k ((j, w) ∷ m) = if equal j k then some w else find k m

  -- `map::insert` leaves the entry of a key that is there.
  unfoldable pub insert : List ℕ → V → Map V → Map V
  insert k v [] = (k, v) ∷ []
  insert k v ((j, w) ∷ m) =
      if equal j k
      then (j, w) ∷ m
      else if less k j
      then (k, v) ∷ (j, w) ∷ m
      else (j, w) ∷ insert k v m

  -- `m[k] = v` replaces it.
  unfoldable pub assign : List ℕ → V → Map V → Map V
  assign k v [] = (k, v) ∷ []
  assign k v ((j, w) ∷ m) =
      if equal j k
      then (j, v) ∷ m
      else if less k j
      then (k, v) ∷ (j, w) ∷ m
      else (j, w) ∷ assign k v m

  -- Every key is greater than `k`.
  abbrev pub Above : List ℕ → Map V → Type 0
  Above k [] = Unit {0}
  Above k ((j, w) ∷ m) = (less k j ≡ true) × Above k m

  abbrev pub IsSorted : Map V → Type 0
  IsSorted [] = Unit {0}
  IsSorted ((j, w) ∷ m) = Above j m × IsSorted m

less_trans : (a b c : List ℕ) → less a b ≡ true → less b c ≡ true → less a c ≡ true
unfolding less
less_trans [] [] c h k = cc
less_trans [] (y ∷ b) [] h k = cc
less_trans [] (y ∷ b) (z ∷ c) h k = refl
less_trans (x ∷ a) [] c h k = cc
less_trans (x ∷ a) (y ∷ b) [] h k = cc
less_trans (x ∷ a) (y ∷ b) (z ∷ c) h k = ground (arith, less_trans a b c)

less_irrefl : (a : List ℕ) → less a a ≡ false
unfolding less
less_irrefl [] = refl
less_irrefl (x ∷ a) = ground (arith, less_irrefl a)

less_total : (a b : List ℕ) → equal a b ≡ false → less b a ≡ false → less a b ≡ true
unfolding less equal
less_total [] [] h k = cc
less_total [] (y ∷ b) h k = refl
less_total (x ∷ a) [] h k = cc
less_total (x ∷ a) (y ∷ b) h k = ground (arith, less_total a b)

equal-less : (a b : List ℕ) → less a b ≡ true → equal a b ≡ false
unfolding equal
equal-less a b h = elim (Bool-cases (equal a b)) [
  | inl e ↦ cc (less_irrefl b, h, ap (λ c. less c b) ((equal_iff a b).0 e))
  | inr e ↦ e
]

equal_sym : (a b : List ℕ) → equal b a ≡ equal a b
unfolding equal
equal_sym [] [] = refl
equal_sym [] (y ∷ b) = refl
equal_sym (x ∷ a) [] = refl
equal_sym (x ∷ a) (y ∷ b) = ground (arith, equal_sym a b)

module _ {ℓ} {V : Type ℓ} where
  Above-trans : (i j : List ℕ) (m : Map V) → less i j ≡ true → Above j m → Above i m
  Above-trans i j [] h a = tt
  Above-trans i j ((k, w) ∷ m) h a = (less_trans i j k h a.0, Above-trans i j m h a.1)

  find-Above : (k : List ℕ) (m : Map V) → Above k m → find k m ≡ none
  unfolding find
  find-Above k [] a = refl
  find-Above k ((j, w) ∷ m) a = rw (differ) (find-Above k m a.1)
    where
      differ : equal j k ≡ false
      differ = equal_sym k j ∙ equal-less k j a.0

  insert-Above :
      (i k : List ℕ) (v : V) (m : Map V) → less i k ≡ true → Above i m → Above i (insert k v m)
  unfolding insert
  insert-Above i k v [] h a = (h, tt)
  insert-Above i k v ((j, w) ∷ m) h a = ground (arith, insert-Above i k v m h a.1)

  assign-Above :
      (i k : List ℕ) (v : V) (m : Map V) → less i k ≡ true → Above i m → Above i (assign k v m)
  unfolding assign
  assign-Above i k v [] h a = (h, tt)
  assign-Above i k v ((j, w) ∷ m) h a = ground (arith, assign-Above i k v m h a.1)

  -- Both insertions keep the keys in order and distinct.
  pub insert-IsSorted : (k : List ℕ) (v : V) (m : Map V) → IsSorted m → IsSorted (insert k v m)
  unfolding insert
  insert-IsSorted k v [] s = (tt, tt)
  insert-IsSorted k v ((j, w) ∷ m) s = elim (Bool-cases (equal j k)) [
    | inl e ↦ rw e s
    | inr e ↦ elim (Bool-cases (less k j)) [
      | inl l ↦ rw (e, l) ((l, Above-trans k j m l s.0), s)
      | inr l ↦ rw (e, l) (insert-Above j k v m (less_total j k e l) s.0, insert-IsSorted k v m s.1)
    ]
  ]

  pub assign-IsSorted : (k : List ℕ) (v : V) (m : Map V) → IsSorted m → IsSorted (assign k v m)
  unfolding assign
  assign-IsSorted k v [] s = (tt, tt)
  assign-IsSorted k v ((j, w) ∷ m) s = elim (Bool-cases (equal j k)) [
    | inl e ↦ rw e s
    | inr e ↦ elim (Bool-cases (less k j)) [
      | inl l ↦ rw (e, l) ((l, Above-trans k j m l s.0), s)
      | inr l ↦ rw (e, l) (assign-Above j k v m (less_total j k e l) s.0, assign-IsSorted k v m s.1)
    ]
  ]

  abbrev pub or_else : Option V → V → V
  or_else none v = v
  or_else (some w) v = w

  -- The inserted key has its old value, or the new one if it had none.
  pub find-insert_self :
      (k : List ℕ) (v : V) (m : Map V)
      → IsSorted m
      → find k (insert k v m) ≡ some (or_else (find k m) v)
  unfolding find insert
  find-insert_self k v [] s = rw (equal_refl k)
  find-insert_self k v ((j, w) ∷ m) s = elim (Bool-cases (equal j k)) [
    | inl e ↦ rw (e, e)
    | inr e ↦ elim (Bool-cases (less k j)) [
      | inl l ↦ rw (e, l, equal_refl k, find-Above k m (Above-trans k j m l s.0))
      | inr l ↦ rw (e, l, e) (find-insert_self k v m s.1)
    ]
  ]

  pub find-insert_ne :
      (k l : List ℕ) (v : V) (m : Map V) → equal k l ≡ false → find l (insert k v m) ≡ find l m
  unfolding find insert
  find-insert_ne k l v [] h = rw h
  find-insert_ne k l v ((j, w) ∷ m) h = ground (arith, find-insert_ne k l v m h)

  -- The assigned key has the new value.
  pub find-assign_self :
      (k : List ℕ) (v : V) (m : Map V) → IsSorted m → find k (assign k v m) ≡ some v
  unfolding find assign
  find-assign_self k v [] s = rw (equal_refl k)
  find-assign_self k v ((j, w) ∷ m) s = ground (arith, find-assign_self k v m s.1, equal_refl k)

  pub find-assign_ne :
      (k l : List ℕ) (v : V) (m : Map V) → equal k l ≡ false → find l (assign k v m) ≡ find l m
  unfolding find assign
  find-assign_ne k l v [] h = rw h
  find-assign_ne k l v ((j, w) ∷ m) h = elim (Bool-cases (equal j k)) [
    | inl e ↦ rw (e, (equal_iff j k).0 e, h)
    | inr e ↦ ground (arith, find-assign_ne k l v m h)
  ]
