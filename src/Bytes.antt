-- ===== src/Bytes.antt =====
-- Byte strings, and the functions of the standard library that the program applies to them:
-- `std::find`, `std::search`, `std::equal`, `isspace`, and the order of `std::string`.
pub mod Search
use Prim.Native.Char.{code}
use Prim.Native.String.{String}
use httpd_cpp.Base.{
  ℕ, zero, suc, ◌+◌, Bool, true, false, ◌&&◌, ◌||◌, List, [], ◌∷◌, ◌++◌, length, drop, ltb, leb,
  ◌==◌, if◌then◌else◌, Option, none, some,
}

-- The bytes of an ASCII literal.
abbrev pub codes : String → List ℕ
codes String.[] = []
codes (String.◌∷◌ c s) = code c ∷ codes s

abbrev pub crlf : List ℕ
crlf = 13 ∷ 10 ∷ []

unfoldable pub starts_with : List ℕ → List ℕ → Bool
starts_with [] ys = true
starts_with (x ∷ xs) [] = false
starts_with (x ∷ xs) (y ∷ ys) = x == y && starts_with xs ys

-- Both return the index of the end where there is nothing to find.
unfoldable pub find : ℕ → List ℕ → ℕ
find c [] = 0
find c (x ∷ xs) = if x == c then 0 else suc (find c xs)

unfoldable pub search : List ℕ → List ℕ → ℕ
search pat [] = 0
search pat (x ∷ xs) = if starts_with pat (x ∷ xs) then 0 else suc (search pat xs)

unfoldable pub equal : List ℕ → List ℕ → Bool
equal [] [] = true
equal [] (y ∷ ys) = false
equal (x ∷ xs) [] = false
equal (x ∷ xs) (y ∷ ys) = x == y && equal xs ys

-- `operator<` on strings compares the bytes as unsigned numbers.
unfoldable pub less : List ℕ → List ℕ → Bool
less [] [] = false
less [] (y ∷ ys) = true
less (x ∷ xs) [] = false
less (x ∷ xs) (y ∷ ys) = ltb x y || (x == y && less xs ys)

unfoldable pub is_space : ℕ → Bool
is_space c = c == 32 || (leb 9 c && leb c 13)
