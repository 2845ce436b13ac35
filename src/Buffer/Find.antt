-- ===== src/Buffer/Find.antt =====
-- `findCRLF` and `findEOL`: pointers into the content, none for a null pointer.
use httpd_cpp.Base.{
  ℕ, ◌+◌, ◌-◌, ◌≤◌, ◌≡◌, ap, ◌∙◌, ◌≢◌, ◌⊎◌, inl, inr, Bool, false, List, ◌∷◌, ◌++◌, length, slice,
  Option, none, some, Result, ok, assert, ◌>>◌, leb, le→leb, ◌==◌, ==_refl, if◌then◌else◌, add_size,
  arith, length-append,
}
use httpd_cpp.Bytes.{crlf, find, search}
use httpd_cpp.Bytes.Search.{
  split_line, LineCases, no_line, line, line_cases, FindCases, absent, found, find_cases, Without,
}
use httpd_cpp.Buffer.{Buffer, readable_bytes}
use httpd_cpp.Buffer.Content.{IsValid, contents, length-contents, readable_bytes_lem}

-- `std::search` from `start` on; it returns the end of the content if there is no CRLF.
search_crlf : ℕ → Buffer → ℕ
search_crlf start b = add_size start (search crlf (slice b.bytes start b.writer_index))

unfoldable pub find_crlf : Buffer → Option ℕ
unfolding search_crlf
find_crlf b =
    let crlf = search_crlf b.reader_index b in if crlf == b.writer_index then none else some crlf

-- The pointer that `beginWrite()` returns is never null.
abbrev begin_write_is_null : Bool
begin_write_is_null = false

-- The overload with a start. `return crlf = beginWrite() ? NULL : crlf` assigns to `crlf` the value
-- of the conditional, whose test is the pointer `beginWrite()`.
unfoldable pub find_crlf_from : ℕ → Buffer → Result (Option ℕ)
unfolding search_crlf
find_crlf_from start b = do
  assert (leb b.reader_index start)
  assert (leb start b.writer_index)
  let crlf = search_crlf start b
  ok (if begin_write_is_null then some crlf else none)

-- `memchr` over the `n` bytes from `start` on.
memchr : ℕ → ℕ → ℕ → Buffer → Option ℕ
memchr start c n b =
    let i = find c (slice b.bytes start (start + n)) in
    if i == n then none else some (add_size start i)

unfoldable pub find_eol : Buffer → Option ℕ
unfolding memchr
find_eol b = memchr b.reader_index 10 (readable_bytes b) b

unfoldable pub find_eol_from : ℕ → Buffer → Result (Option ℕ)
unfolding memchr
find_eol_from start b = do
  assert (leb b.reader_index start)
  assert (leb start b.writer_index)
  ok (memchr start 10 (b.writer_index - start) b)

-- The index in the buffer at which the first line of its content ends.
abbrev pub line_end : Buffer → Option (List ℕ × List ℕ) → Option ℕ
line_end b none = none
line_end b (some (l, r)) = some (b.reader_index + length l)

-- On a valid buffer `findCRLF` points at the end of the first line of the content, and is null
-- exactly where there is none.
pub find_crlf_lem : {b : Buffer} → IsValid b → find_crlf b ≡ line_end b (split_line (contents b))
unfolding find_crlf
find_crlf_lem {b} v = cases (line_cases (contents b))
  where
    size : length (contents b) ≡ b.writer_index - b.reader_index
    size = length-contents v ∙ readable_bytes_lem v

    cases : LineCases (contents b) → find_crlf b ≡ line_end b (split_line (contents b))
    cases (no_line e n _) = rw (e, n) (ground (arith, size, v.ordered, v.inside, v.small))
    cases (line l r e n f) =
        rw (e, n)
          (ground (
            arith,
            size,
            v.ordered,
            v.inside,
            v.small,
            ap length f.parts,
            length-append l (crlf ++ r),
          ))

-- The overload with a start returns a null pointer, whatever the buffer holds.
pub find_crlf_from_lem :
    (b : Buffer) (start : ℕ)
    → b.reader_index ≤ start
    → start ≤ b.writer_index
    → find_crlf_from start b ≡ ok none
unfolding find_crlf_from
find_crlf_from_lem b start h k = rw (le→leb _ _ h, le→leb _ _ k)

-- On every valid buffer that holds a line, `findCRLF(start)` from its first byte and `findCRLF()`
-- give different answers.
pub find_crlf_overloads_differ :
    {b : Buffer} (l r : List ℕ)
    → IsValid b
    → contents b ≡ l ++ (crlf ++ r)
    → find_crlf_from b.reader_index b ≢ ok (find_crlf b)
find_crlf_overloads_differ {b} l r v e h = cases (line_cases (contents b))
  where
    null : find_crlf b ≡ none
    null = cc (h, find_crlf_from_lem b b.reader_index (omega arith) v.ordered)

    cases : LineCases (contents b) → ⊥
    cases (no_line _ _ f) = f l r e
    cases (line l' r' e' _ _) = cc (null, find_crlf_lem v, ap (line_end b) e')

-- `findEOL` points at the first line feed of the content, and is null exactly where there is none.
pub find_eol_lem :
    {b : Buffer}
    → IsValid b
    → ((find_eol b ≡ none) × Without 10 (contents b))
      ⊎ ((p : List ℕ) × (s : List ℕ) × (find_eol b ≡ some (b.reader_index + length p))
          × (contents b ≡ p ++ (10 ∷ s))
          × Without 10 p)
unfolding find_eol
find_eol_lem {b} v = cases (find_cases 10 (contents b))
  where
    size : length (contents b) ≡ readable_bytes b
    size = length-contents v

    whole : slice b.bytes b.reader_index (b.reader_index + readable_bytes b) ≡ contents b
    whole = ap (slice b.bytes b.reader_index) (omega (arith, readable_bytes_lem v))

    cases :
        FindCases 10 (contents b)
        → ((find_eol b ≡ none) × Without 10 (contents b))
          ⊎ ((p : List ℕ) × (s : List ℕ) × (find_eol b ≡ some (b.reader_index + length p))
              × (contents b ≡ p ++ (10 ∷ s))
              × Without 10 p)
    cases (absent e w) = inl (rw (whole, e, size, ==_refl (readable_bytes b)), w)
    cases (found p s e f w) = inr (
      p,
      s,
      rw (whole, e)
          (ground (
            arith,
            size,
            readable_bytes_lem v,
            v.ordered,
            v.inside,
            v.small,
            ap length f,
            length-append p (10 ∷ s),
          )),
      f,
      w,
    )
