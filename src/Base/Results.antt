-- ===== src/Base/Results.antt =====
-- What a call can end in: a value, or a fault that ends the process.
use mathlib.Core.Path.{◌≡◌, refl}
use mathlib.Core.Bool.{Bool, true, false}
use mathlib.Core.Option.{some}

-- `assertion` is a failed assert, `length_error` the exception of a string or vector that would
-- exceed its maximal size, `out_of_bounds` an access outside an allocation
-- or a mapping, `dangling` an access to
-- an object that was deleted, `exception` one that the code throws.
pub data Fault : Type 0 where
  assertion length_error out_of_bounds dangling exception : Fault

pub data Result {ℓ} (A : Type ℓ) : Type ℓ where
  ok : A → Result A
  fail : Fault → Result A

infixl 5 ◌>>=◌ ◌>>◌
abbrev pub ◌>>=◌ {ℓ κ} : {A : Type ℓ} {B : Type κ} → Result A → (A → Result B) → Result B
ok a >>= f = f a
fail e >>= f = fail e

abbrev pub ◌>>◌ {ℓ} : {B : Type ℓ} → Result (Unit {0}) → Result B → Result B
m >> k = m >>= λ _. k

abbrev pub assert : Bool → Result (Unit {0})
assert true = ok tt
assert false = fail assertion

-- The call returns, and what it returns satisfies `P`.
abbrev pub Returns {ℓ κ} : {A : Type ℓ} → Result A → (A → Type κ) → Type (ℓ ⊔ κ)
Returns {A} r P = (a : A) × (r ≡ ok a) × P a

pub Returns-bind {ℓ κ μ ν} :
    {A : Type ℓ} {B : Type κ} {P : A → Type μ} {Q : B → Type ν} (m : Result A) (f : A → Result B)
    → Returns m P
    → ((a : A) → P a → Returns (f a) Q)
    → Returns (m >>= f) Q
Returns-bind m f (a, e, p) k = rw e (k a p)

pub bind_ok {ℓ κ} :
    {A : Type ℓ} {B : Type κ} (m : Result A) (f : A → Result B) {a : A} {b : B}
    → m ≡ ok a
    → f a ≡ ok b
    → (m >>= f) ≡ ok b
bind_ok m f e h = rw e h

-- The value that the second part of a sequence was handed, where the sequence has one.
pub between {ℓ κ} :
    {X : Type ℓ} {Y : Type κ} {y : Y} (first : Result X) (second : X → Result Y)
    → (first >>= second) ≡ ok y
    → (x : X) × (first ≡ ok x) × (second x ≡ ok y)
between (fail fault) second e = cc
between (ok x) second e = (x, refl, e)

-- A value is told by the result that it makes.
pub of_ok {ℓ} : {X : Type ℓ} {x y : X} → ok x ≡ ok y → x ≡ y
of_ok e = cc

pub of_some {ℓ} : {X : Type ℓ} {x y : X} → some x ≡ some y → x ≡ y
of_some e = cc
