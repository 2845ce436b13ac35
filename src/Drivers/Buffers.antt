-- ===== src/Drivers/Buffers.antt =====
-- main_buffer.cpp: a buffer, and what it says of itself on the way.
use httpd_cpp.Base.{
  ℕ, ◌+◌, List, [], ◌∷◌, ◌++◌, length, Option, none, some, Result, ok, fail, out_of_bounds, ◌>>=◌,
  drop, ◌==◌, if◌then◌else◌,
}
use httpd_cpp.Bytes.{codes}
use httpd_cpp.Buffer
use httpd_cpp.Buffer.{
  Buffer, initial_size, readable_bytes, writable_bytes, prependable_bytes, append,
  retrieve_as_string,
}
use httpd_cpp.Buffer.Find.{find_crlf, find_eol}
use httpd_cpp.Buffer.Ints.{append_int32, read_int32}

-- A line of the output.
pub data Line : Type 0 where
  readable writable prependable int32 : ℕ → Line
  cr_find lf_find eol_find : Line
  string : List ℕ → Line

unfoldable pub sizes : Buffer → List Line
sizes b =
    readable (readable_bytes b)
    ∷ writable (writable_bytes b)
    ∷ prependable (prependable_bytes b)
    ∷ []

-- The i-th byte from a pointer into the vector; a null pointer is not to be read.
unfoldable pub at : Option ℕ → ℕ → Buffer → Result ℕ
at none i b = fail out_of_bounds
at (some k) i b = elim (drop (k + i) b.bytes) [ [] ↦ fail out_of_bounds | c ∷ cs ↦ ok c ]

-- What is printed of the line's end. The test of `*eol` has an empty statement.
unfoldable pub ends : Buffer → Result (List Line)
ends b = do
  c ← at (find_crlf b) 0 b
  d ← at (find_crlf b) 1 b
  eol ← at (find_eol b) 0 b
  let cr : List Line = if c == 13 then cr_find ∷ [] else []
  let lf : List Line = if d == 10 then lf_find ∷ [] else []
  ok (cr ++ (lf ++ (eol_find ∷ [])))

-- The array with its final NUL.
abbrev s : List ℕ
s = codes "hello\r\n" ++ (0 ∷ [])

unfoldable pub main : Result (List Line)
main = do
  b0 ← Buffer.new initial_size
  b1 ← append s b0
  found ← ends b1
  b2 ← append_int32 1024 b1
  text ← retrieve_as_string (length s) b2
  number ← read_int32 text.1
  ok (
      sizes b0
      ++ (found
          ++ (sizes b1
              ++ (sizes b2
                  ++ ((string text.0 ∷ sizes text.1) ++ (int32 number.0 ∷ sizes number.1))))))
