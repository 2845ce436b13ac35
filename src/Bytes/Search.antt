-- ===== src/Bytes/Search.antt =====
-- Where `find` and `search` stop, and a line cut off at the first CRLF.
use mathlib.Core.Option
use httpd_cpp.Base.{
  ℕ, ◌+◌, ◌≤◌, ◌≡◌, refl, sym, ap, ◌∙◌, ◌≢◌, ◌↔◌, inl, inr, true, false, List, [], ◌∷◌, ◌++◌,
  length, drop, ◌==◌, length-append, append_assoc, drop-append_length, ==_iff, ==_refl,
  if◌then◌else◌, Option, none, some, Bool-cases, arith,
}
use httpd_cpp.Bytes.{crlf, starts_with, find, search, equal}

pub equal→eq : (xs ys : List ℕ) → equal xs ys ≡ true → xs ≡ ys
unfolding equal
equal→eq [] [] h = refl
equal→eq [] (y ∷ ys) h = cc
equal→eq (x ∷ xs) [] h = cc
equal→eq (x ∷ xs) (y ∷ ys) h = ground (arith, equal→eq xs ys)

pub equal_refl : (xs : List ℕ) → equal xs xs ≡ true
unfolding equal
equal_refl [] = refl
equal_refl (x ∷ xs) = rw (==_refl x) (equal_refl xs)

pub equal_iff : (xs ys : List ℕ) → (equal xs ys ≡ true) ↔ (xs ≡ ys)
equal_iff xs ys = (equal→eq xs ys, λ e. rw (← e) (equal_refl xs))

pub starts_with-append : (pat xs : List ℕ) → starts_with pat (pat ++ xs) ≡ true
unfolding starts_with
starts_with-append [] xs = refl
starts_with-append (x ∷ pat) xs = rw (==_refl x) (starts_with-append pat xs)

pub starts_with-drop :
    (pat xs : List ℕ) → starts_with pat xs ≡ true → xs ≡ pat ++ drop (length pat) xs
unfolding starts_with
starts_with-drop [] xs h = refl
starts_with-drop (p ∷ pat) [] h = cc
starts_with-drop (p ∷ pat) (x ∷ xs) h = ground (arith, starts_with-drop pat xs)

-- The first line and what stands behind its CRLF.
unfoldable pub split_line : List ℕ → Option (List ℕ × List ℕ)
split_line [] = none
split_line (x ∷ xs) =
    if starts_with crlf (x ∷ xs)
    then some ([], drop 2 (x ∷ xs))
    else Option.map (λ (p : List ℕ × List ℕ). (x ∷ p.0, p.1)) (split_line xs)

-- A line that ends at the first CRLF of the text.
pub record FirstLine (xs l r : List ℕ) : Type 0 where
  pub parts : xs ≡ l ++ (crlf ++ r)
  pub first : (l' r' : List ℕ) → xs ≡ l' ++ (crlf ++ r') → length l ≤ length l'

not-starts : (x : ℕ) (xs r : List ℕ) → starts_with crlf (x ∷ xs) ≡ false → x ∷ xs ≢ crlf ++ r
not-starts x xs r h e = cc (starts_with-append crlf r, ap (starts_with crlf) e)

nil_no_line : (l r : List ℕ) → [] ≢ l ++ (crlf ++ r)
nil_no_line [] r e = cc
nil_no_line (y ∷ l) r e = cc

-- What `split_line` and `search` for CRLF find in a text, and that they agree.
pub data LineCases (xs : List ℕ) : Type 0 where
  no_line :
      split_line xs ≡ none
      → search crlf xs ≡ length xs
      → ((l r : List ℕ) → xs ≢ l ++ (crlf ++ r))
      → LineCases xs
  line :
      (l r : List ℕ)
      → split_line xs ≡ some (l, r)
      → search crlf xs ≡ length l
      → FirstLine xs l r
      → LineCases xs

line_here : (x : ℕ) (xs : List ℕ) → starts_with crlf (x ∷ xs) ≡ true → LineCases (x ∷ xs)
unfolding split_line search
line_here x xs h =
    line [] (drop 2 (x ∷ xs)) (rw h) (rw h)
      (record { parts = starts_with-drop crlf (x ∷ xs) h; first = λ l' r' e. omega arith })

line_later :
    (x : ℕ) (xs : List ℕ) → starts_with crlf (x ∷ xs) ≡ false → LineCases xs → LineCases (x ∷ xs)
unfolding split_line search
line_later x xs h (no_line e n none_at) = no_line (rw (h, e)) (rw (h, n)) later
  where
    later : (l r : List ℕ) → x ∷ xs ≢ l ++ (crlf ++ r)
    later [] r e = not-starts x xs r h e
    later (y ∷ l) r e = none_at l r (ap (drop 1) e)
line_later x xs h (line l r e n f) =
    line (x ∷ l) r (rw (h, e)) (rw (h, n)) (record { parts = ap (◌∷◌ x) f.parts; first = first })
  where
    first : (l' r' : List ℕ) → x ∷ xs ≡ l' ++ (crlf ++ r') → length (x ∷ l) ≤ length l'
    first [] r' e = absurd (not-starts x xs r' h e)
    first (y ∷ l') r' e = omega (arith, f.first l' r' (ap (drop 1) e))

pub line_cases : (xs : List ℕ) → LineCases xs
unfolding split_line search
line_cases [] = no_line refl refl nil_no_line
line_cases (x ∷ xs) = elim (Bool-cases (starts_with crlf (x ∷ xs))) [
  | inl h ↦ line_here x xs h
  | inr h ↦ line_later x xs h (line_cases xs)
]

-- `find` stops behind a part without the byte, at the byte or at the end.
abbrev pub Without : ℕ → List ℕ → Type 0
Without c [] = Unit {0}
Without c (x ∷ xs) = (x ≢ c) × Without c xs

pub data FindCases (c : ℕ) (xs : List ℕ) : Type 0 where
  absent : find c xs ≡ length xs → Without c xs → FindCases c xs
  found : (p s : List ℕ) → find c xs ≡ length p → xs ≡ p ++ (c ∷ s) → Without c p → FindCases c xs

find_later :
    (c x : ℕ) (xs : List ℕ) → (x == c) ≡ false → x ≢ c → FindCases c xs → FindCases c (x ∷ xs)
unfolding find
find_later c x xs h ne (absent e w) = absent (rw (h, e)) (ne, w)
find_later c x xs h ne (found p s e f w) = found (x ∷ p) s (rw (h, e)) (ap (◌∷◌ x) f) (ne, w)

pub find_cases : (c : ℕ) (xs : List ℕ) → FindCases c xs
unfolding find
find_cases c [] = absent refl tt
find_cases c (x ∷ xs) = elim (Bool-cases (x == c)) [
  | inl h ↦ found [] xs (rw h) (ap (λ y. y ∷ xs) ((==_iff x c).0 h)) tt
  | inr h ↦ find_later c x xs h (ground arith) (find_cases c xs)
]

-- A part without the byte is passed over.
pub find-append : (c : ℕ) (p s : List ℕ) → Without c p → find c (p ++ (c ∷ s)) ≡ length p
unfolding find
find-append c [] s w = rw (==_refl c)
find-append c (x ∷ p) s w = ground (arith, find-append c p s w.1)

pub find_absent : (c : ℕ) (xs : List ℕ) → Without c xs → find c xs ≡ length xs
unfolding find
find_absent c [] w = refl
find_absent c (x ∷ xs) w = ground (arith, find_absent c xs w.1)

-- A cut at a byte: where `find` stops in `p ++ (c ∷ s)`, it is not at the end.
pub append_not_end : (c : ℕ) (p s : List ℕ) → (length p == length (p ++ (c ∷ s))) ≡ false
append_not_end c p s = ground (arith, length-append p (c ∷ s))

pub drop-append_suc : (c : ℕ) (p s : List ℕ) → drop (length p + 1) (p ++ (c ∷ s)) ≡ s
drop-append_suc c p s =
    ap (drop (length p + 1)) (sym (append_assoc p (c ∷ []) s))
    ∙ drop-append_length (length p + 1) (p ++ (c ∷ [])) s (omega (arith, length-append p (c ∷ [])))

pub Without-append : (c : ℕ) (p s : List ℕ) → Without c p → Without c s → Without c (p ++ s)
Without-append c [] s h k = k
Without-append c (x ∷ p) s h k = (h.0, Without-append c p s h.1 k)

-- A line with no CR is the first line of what it begins.
pub split_line-append : (l r : List ℕ) → Without 13 l → split_line (l ++ (crlf ++ r)) ≡ some (l, r)
unfolding split_line starts_with
split_line-append [] r w = refl
split_line-append (x ∷ l) r w = rw (not-eq, split_line-append l r w.1)
  where
    not-eq : (13 == x) ≡ false
    not-eq = ground arith
