-- ===== src/HttpParse/Text.antt =====
-- The parser over plain text: it takes a line off the text where the code searches a buffer. The
-- parser in the buffer does the same, with no failed assert.
use httpd_cpp.Base.{
  ℕ, zero, suc, ◌+◌, ◌≤◌, ◌≡◌, refl, sym, ap, ◌∙◌, Bool, true, false, Bool-cases, inl, inr, List,
  ◌++◌, length, take, drop, slice, ◌==◌, Option, none, some, if◌then◌else◌, ok, Returns,
  Returns-bind, arith, length-append, take-slice, drop-append_length, append_assoc,
  take-append_length,
}
use httpd_cpp.Bytes.{crlf, find}
use httpd_cpp.Bytes.Search.{split_line, LineCases, no_line, line, line_cases, FirstLine}
use httpd_cpp.Buffer.{Buffer, retrieve_until}
use httpd_cpp.Buffer.Content.{IsValid, contents, length-contents, readable_bytes_lem}
use httpd_cpp.Buffer.Reading.{Holds, retrieve_until_lem}
use httpd_cpp.Buffer.Find.{find_crlf, find_crlf_lem, line_end}
use httpd_cpp.HttpRequest.{add_header}
use httpd_cpp.HttpParse.{
  ParseState, expect_request_line, expect_headers, expect_body, got_all, HttpParse,
  process_request_line, Round, more, done, round, round_at, request_line_round, header_round,
  parse_request,
}

pub data TextRound {ℓ} (F : Type ℓ) : Type ℓ where
  text_more : HttpParse F → List ℕ → TextRound F
  text_done : Bool → HttpParse F → List ℕ → TextRound F

module _ {ℓ} {F : Type ℓ} where
  -- A request line leads to the headers or is refused, with the text left as it was.
  unfoldable pub text_request_line : HttpParse F → List ℕ → List ℕ → List ℕ → TextRound F
  text_request_line p text l rest =
      let (valid, r) = process_request_line l p.request in
      if valid
      then text_more (record { state = expect_headers; request = r }) rest
      else text_done false (record p { request = r }) text

  -- A line without a colon ends the headers.
  unfoldable pub text_header : HttpParse F → List ℕ → List ℕ → TextRound F
  text_header p l rest =
      let colon = find b':' l in
      if colon == length l
      then text_done true (record p { state = got_all }) rest
      else text_more (record p { request = add_header l colon p.request }) rest

  unfoldable pub text_round_at : ParseState → HttpParse F → List ℕ → TextRound F
  text_round_at expect_request_line p text = elim (split_line text) [
    | none ↦ text_done true p text
    | some (l, rest) ↦ text_request_line p text l rest
  ]
  text_round_at expect_headers p text = elim (split_line text) [
    | none ↦ text_done true p text
    | some (l, rest) ↦ text_header p l rest
  ]
  text_round_at expect_body p text = text_done true p text
  text_round_at got_all p text = text_more p text

  unfoldable pub parse_text : ℕ → HttpParse F → List ℕ → Option (Bool × HttpParse F × List ℕ)
  parse_text zero p text = none
  parse_text (suc fuel) p text = elim (text_round_at p.state p text) [
    | text_more p' text' ↦ parse_text fuel p' text'
    | text_done b p' text' ↦ some (b, p', text')
  ]

module _ {ℓ} {F : Type ℓ} (p : HttpParse F) (text : List ℕ) where
  pub text_request_line_at :
      {l rest : List ℕ}
      → split_line text ≡ some (l, rest)
      → text_round_at expect_request_line p text ≡ text_request_line p text l rest
  unfolding text_round_at
  text_request_line_at e = rw (e, text_round_at)

  pub text_header_at :
      {l rest : List ℕ}
      → split_line text ≡ some (l, rest)
      → text_round_at expect_headers p text ≡ text_header p l rest
  unfolding text_round_at
  text_header_at e = rw (e, text_round_at)

  pub parse_more :
      (fuel : ℕ) {q : HttpParse F} {rest : List ℕ}
      → text_round_at p.state p text ≡ text_more q rest
      → parse_text (suc fuel) p text ≡ parse_text fuel q rest
  unfolding parse_text
  parse_more fuel e = rw (e, parse_text)

  pub parse_done :
      (fuel : ℕ) {v : Bool} {q : HttpParse F} {rest : List ℕ}
      → text_round_at p.state p text ≡ text_done v q rest
      → parse_text (suc fuel) p text ≡ some (v, q, rest)
  unfolding parse_text
  parse_done fuel e = rw (e, parse_text)

-- A result in the buffer and the result over text that it stands for.
data SameRound {ℓ} {F : Type ℓ} : TextRound F → Round F → Type ℓ where
  same_more :
      {p : HttpParse F} {text : List ℕ} {b : Buffer}
      → Holds text b
      → SameRound (text_more p text) (more p b)
  same_done :
      {v : Bool} {p : HttpParse F} {text : List ℕ} {b : Buffer}
      → Holds text b
      → SameRound (text_done v p text) (done v p b)

pub data SameParse {ℓ} {F : Type ℓ}
    : Option (Bool × HttpParse F × List ℕ) → Option (Bool × HttpParse F × Buffer) → Type ℓ where
  out_of_fuel : SameParse none none
  returned :
      {v : Bool} {p : HttpParse F} {text : List ℕ} {b : Buffer}
      → Holds text b
      → SameParse (some (v, p, text)) (some (v, p, b))

-- The first line of the content, where the code finds it.
module _ {b : Buffer} (v : IsValid b) (l r : List ℕ) (f : FirstLine (contents b) l r) where
  line_fits : length l + 2 ≤ length (contents b)
  line_fits = omega (arith, ap length f.parts, length-append l (crlf ++ r))

  line_slice : slice b.bytes b.reader_index (b.reader_index + length l) ≡ l
  line_slice =
      sym (
        take-slice (length l) b.reader_index b.writer_index b.bytes
          (omega (arith, line_fits, length-contents v, readable_bytes_lem v)))
      ∙ ap (take (length l)) f.parts
      ∙ take-append_length (length l) l (crlf ++ r) refl

  line_rest : drop (length l + 2) (contents b) ≡ r
  line_rest =
      ap (drop (length l + 2)) (f.parts ∙ sym (append_assoc l crlf r))
      ∙ drop-append_length (length l + 2) (l ++ crlf) r (omega (arith, length-append l crlf))

  retrieve_line : Returns (retrieve_until (b.reader_index + length l + 2) b) (Holds r)
  retrieve_line =
      let (b', e, held) = retrieve_until_lem (length l + 2) v line_fits in
      (
        b',
        ap (λ k. retrieve_until k b) (omega arith) ∙ e,
        record { valid = held.valid; content = held.content ∙ line_rest },
      )

module _ {ℓ} {F : Type ℓ} where
  round_without_line :
      {b : Buffer} (s : ParseState) (p : HttpParse F)
      → IsValid b
      → find_crlf b ≡ none
      → split_line (contents b) ≡ none
      → Returns (round_at s p b) (SameRound (text_round_at s p (contents b)))
  unfolding round_at text_round_at
  round_without_line {b} expect_request_line p v e n =
      rw (e, request_line_round, n, text_round_at)
        (_, refl, same_done (record { valid = v; content = refl }))
  round_without_line {b} expect_headers p v e n =
      rw (e, header_round, n, text_round_at)
        (_, refl, same_done (record { valid = v; content = refl }))
  round_without_line {b} expect_body p v e n =
      (_, refl, same_done (record { valid = v; content = refl }))
  round_without_line {b} got_all p v e n =
      (_, refl, same_more (record { valid = v; content = refl }))

  request_line_lem :
      {b : Buffer} (p : HttpParse F) (l r : List ℕ)
      → (v : IsValid b) → FirstLine (contents b) l r
      → find_crlf b ≡ some (b.reader_index + length l)
      → Returns (request_line_round p b) (SameRound (text_request_line p (contents b) l r))
  unfolding request_line_round text_request_line
  request_line_lem {b} p l r v f e =
      rw (e, request_line_round, line_slice v l r f)
        (elim (Bool-cases (process_request_line l p.request).0) [
          | inl t ↦ rw t (
              Returns-bind (retrieve_until (b.reader_index + length l + 2) b) _
                (retrieve_line v l r f) λ b' held. (_, refl, same_more held))
          | inr t ↦ rw t (_, refl, same_done (record { valid = v; content = refl }))
        ])

  header_lem :
      {b : Buffer} (p : HttpParse F) (l r : List ℕ)
      → (v : IsValid b) → FirstLine (contents b) l r
      → find_crlf b ≡ some (b.reader_index + length l)
      → Returns (header_round p b) (SameRound (text_header p l r))
  unfolding header_round text_header
  header_lem {b} p l r v f e =
      rw (e, header_round, line_slice v l r f)
        (Returns-bind (retrieve_until (b.reader_index + length l + 2) b) _ (retrieve_line v l r f)
          λ b' held. elim (Bool-cases (find b':' l == length l)) [
            | inl t ↦ rw t (_, refl, same_done held)
            | inr t ↦ rw t (_, refl, same_more held)
          ])

  round_with_line :
      {b : Buffer} (s : ParseState) (p : HttpParse F) (l r : List ℕ)
      → (v : IsValid b) → FirstLine (contents b) l r
      → find_crlf b ≡ some (b.reader_index + length l)
      → split_line (contents b) ≡ some (l, r)
      → Returns (round_at s p b) (SameRound (text_round_at s p (contents b)))
  unfolding round_at text_round_at
  round_with_line {b} expect_request_line p l r v f e n =
      rw (n, text_round_at) (request_line_lem p l r v f e)
  round_with_line {b} expect_headers p l r v f e n = rw (n, text_round_at) (header_lem p l r v f e)
  round_with_line {b} expect_body p l r v f e n =
      (_, refl, same_done (record { valid = v; content = refl }))
  round_with_line {b} got_all p l r v f e n =
      (_, refl, same_more (record { valid = v; content = refl }))

  round_lem :
      {b : Buffer} (p : HttpParse F)
      → IsValid b
      → Returns (round p b) (SameRound (text_round_at p.state p (contents b)))
  unfolding round
  round_lem {b} p v = cases (line_cases (contents b))
    where
      cases :
          LineCases (contents b)
          → Returns (round p b) (SameRound (text_round_at p.state p (contents b)))
      cases (no_line e _ _) = round_without_line p.state p v (find_crlf_lem v ∙ ap (line_end b) e) e
      cases (line l r e _ f) =
          round_with_line p.state p l r v f (find_crlf_lem v ∙ ap (line_end b) e) e

  continue_lem :
      {t : TextRound F} {r : Round F} (fuel : ℕ)
      → ((q : HttpParse F) (c : Buffer)
          → IsValid c
          → Returns (parse_request fuel q c) (SameParse (parse_text fuel q (contents c))))
      → SameRound t r
      → Returns
          (elim r [
            | more p' buf' ↦ parse_request fuel p' buf'
            | done b p' buf' ↦ ok (some (b, p', buf'))
          ])
          (SameParse (elim t [
            | text_more p' text' ↦ parse_text fuel p' text'
            | text_done b p' text' ↦ some (b, p', text')
          ]))
  continue_lem fuel ih (same_more {p} {text} {b} held) = rw (← held.content) (ih p b held.valid)
  continue_lem fuel ih (same_done held) = (_, refl, returned held)

  -- On every valid buffer and with every fuel `parseRequest` fails no assert, and does what the
  -- parser over text does to the content: the same value, request and state, and the same bytes
  -- left.
  pub parse_request_lem :
      {b : Buffer} (fuel : ℕ) (p : HttpParse F)
      → IsValid b
      → Returns (parse_request fuel p b) (SameParse (parse_text fuel p (contents b)))
  unfolding parse_request parse_text
  parse_request_lem zero p v = (_, refl, out_of_fuel)
  parse_request_lem {b} (suc fuel) p v =
      Returns-bind (round p b) _ (round_lem p v)
        λ r same. continue_lem fuel (λ q c w. parse_request_lem {b = c} fuel q w) same
