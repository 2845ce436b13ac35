-- ===== src/HttpRequest/Fields.antt =====
-- What a request keeps of its methods and header lines.
use mathlib.Core.List.{reverse, reverse-append, reverse-reverse}
use httpd_cpp.Base.{ℕ, ◌≡◌, refl, ◌≢◌, true, false, List, [], ◌∷◌, ◌++◌, arith}
use httpd_cpp.Bytes.{codes, equal, is_space}
use httpd_cpp.Bytes.Search.{equal_iff}
use httpd_cpp.StringMap.{Map}
use httpd_cpp.Base.{[], ◌∷◌}
use httpd_cpp.HttpRequest.{
  run_all, handle_func, Method, invalid, get, HttpRequest, is_valid_method, method_of_string,
  method_string, skip_spaces, trim_right, set_method,
}

-- `setMethod` on the name that `methodString` gives a valid method succeeds and sets that method.
pub set_method-method_string {ℓ} :
    {F : Type ℓ} (m : Method) (r : HttpRequest F)
    → m ≢ invalid
    → set_method (method_string m) r ≡ (true, record r { method = m })
unfolding set_method method_string method_of_string is_valid_method equal
set_method-method_string invalid r h = absurd (h refl)
set_method-method_string get r h = refl
set_method-method_string _ r h = refl

-- `setMethod` succeeds on no other name.
pub set_method-true {ℓ} :
    {F : Type ℓ} (name : List ℕ) (r : HttpRequest F)
    → (set_method name r).0 ≡ true
    → name ≡ method_string ((set_method name r).1).method
unfolding set_method method_string method_of_string is_valid_method
set_method-true name r h = ground (
  arith,
  equal_iff name (codes "GET"),
  equal_iff name (codes "POST"),
  equal_iff name (codes "HEAD"),
  equal_iff name (codes "PUT"),
  equal_iff name (codes "DELETE"),
)

-- Nothing but spaces.
abbrev pub Spaces : List ℕ → Type 0
Spaces [] = Unit {0}
Spaces (c ∷ cs) = (is_space c ≡ true) × Spaces cs

-- No space in front.
abbrev pub StartsInk : List ℕ → Type 0
StartsInk [] = Unit {0}
StartsInk (c ∷ cs) = is_space c ≡ false

skip_spaces-append : (s t : List ℕ) → Spaces s → StartsInk t → skip_spaces (s ++ t) ≡ t
unfolding skip_spaces
skip_spaces-append [] [] h k = refl
skip_spaces-append [] (c ∷ t) h k = rw k
skip_spaces-append (c ∷ s) t h k = rw (h.0) (skip_spaces-append s t h.1 k)

-- A value between spaces is found without them, if it neither begins nor ends with a space.
pub trim_lem :
    (s v t : List ℕ)
    → Spaces s
    → StartsInk v
    → StartsInk (reverse v)
    → Spaces (reverse t)
    → v ≢ []
    → trim_right (skip_spaces (s ++ (v ++ t))) ≡ v
unfolding trim_right
trim_lem s [] t hs hv hr ht ne = absurd (ne refl)
trim_lem s (c ∷ v) t hs hv hr ht ne =
    rw
      (
        skip_spaces-append s ((c ∷ v) ++ t) hs hv,
        reverse-append (c ∷ v) t,
        skip_spaces-append (reverse t) (reverse (c ∷ v)) ht hr,
      )
      (reverse-reverse (c ∷ v))

run_all_keeps {ℓ κ μ} :
    {F : Type ℓ} {S : Type κ} (P : S → Type μ) (run : F → S → S) (m : Map F) (s : S)
    → ((f : F) (s : S) → P s → P (run f s))
    → P s
    → P (run_all run m s)
unfolding run_all
run_all_keeps P run [] s keeps h = h
run_all_keeps P run ((k, f) ∷ m) s keeps h = run_all_keeps P run m (run f s) keeps (keeps f s h)

-- What every header function keeps, they all keep.
pub handle_func_keeps {ℓ κ μ} :
    {F : Type ℓ} {S : Type κ} (P : S → Type μ) (run : F → S → S) (r : HttpRequest F) (s : S)
    → ((f : F) (s : S) → P s → P (run f s))
    → P s
    → P (handle_func run r s)
unfolding handle_func
handle_func_keeps P run r s keeps h = run_all_keeps P run r.func s keeps h
