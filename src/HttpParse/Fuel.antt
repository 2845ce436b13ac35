-- ===== src/HttpParse/Fuel.antt =====
-- When the loop of `parseRequest` ends.
use httpd_cpp.Base.{
  ℕ, zero, suc, ◌≤◌, ◌<◌, ◌≡◌, ◌≢◌, refl, sym, ap, ◌∙◌, Bool, Bool-cases, inl, inr, List, ◌++◌,
  length, ◌==◌, Option, none, some, ok, Returns, arith, length-append,
}
use httpd_cpp.Bytes.{crlf, find}
use httpd_cpp.Bytes.Search.{LineCases, no_line, line, line_cases}
use httpd_cpp.Buffer.{Buffer}
use httpd_cpp.Buffer.Content.{IsValid, contents}
use httpd_cpp.HttpParse.{
  ParseState, expect_request_line, expect_headers, expect_body, got_all, HttpParse,
  process_request_line, more, round, round_at, parse_request,
}
use httpd_cpp.HttpParse.Text.{
  TextRound, text_more, text_done, text_request_line, text_header, text_round_at, parse_text,
  SameParse, out_of_fuel, returned, parse_request_lem,
}

module _ {ℓ} {F : Type ℓ} where
  -- A round that leaves more to do has taken a line, and is not at the end of the headers.
  abbrev Progress : List ℕ → TextRound F → Type 0
  Progress text (text_more p rest) = (length rest < length text) × (p.state ≢ got_all)
  Progress text (text_done b p rest) = Unit {0}

  request_line-Progress :
      (p : HttpParse F) (text l rest : List ℕ)
      → length rest < length text
      → Progress text (text_request_line p text l rest)
  unfolding text_request_line
  request_line-Progress p text l rest h = elim (Bool-cases (process_request_line l p.request).0) [
    | inl e ↦ rw e (h, λ q. cc)
    | inr e ↦ rw e tt
  ]

  header-Progress :
      (p : HttpParse F) (text l rest : List ℕ)
      → length rest < length text
      → p.state ≢ got_all
      → Progress text (text_header p l rest)
  unfolding text_header
  header-Progress p text l rest h k = elim (Bool-cases (find b':' l == length l)) [
    | inl e ↦ rw e tt
    | inr e ↦ rw e (h, k)
  ]

  round-Progress :
      (s : ParseState) (p : HttpParse F) (text : List ℕ)
      → p.state ≡ s
      → s ≢ got_all
      → LineCases text
      → Progress text (text_round_at s p text)
  unfolding text_round_at
  round-Progress expect_request_line p text e h (no_line n _ _) = rw (n, text_round_at) tt
  round-Progress expect_request_line p text e h (line l r n _ f) =
      rw (n, text_round_at)
        (request_line-Progress p text l r
          (omega (arith, ap length f.parts, length-append l (crlf ++ r))))
  round-Progress expect_headers p text e h (no_line n _ _) = rw (n, text_round_at) tt
  round-Progress expect_headers p text e h (line l r n _ f) =
      rw (n, text_round_at)
        (header-Progress p text l r (omega (arith, ap length f.parts, length-append l (crlf ++ r)))
          (λ g. h (sym e ∙ g)))
  round-Progress expect_body p text e h c = tt
  round-Progress got_all p text e h c = absurd (h refl)

  finish :
      (fuel : ℕ) (text : List ℕ) (t : TextRound F)
      → ((q : HttpParse F) (rest : List ℕ)
          → length rest < fuel
          → q.state ≢ got_all
          → (o : Bool × HttpParse F × List ℕ) × (parse_text fuel q rest ≡ some o))
      → length text ≤ fuel
      → Progress text t
      → (o : Bool × HttpParse F × List ℕ) × (elim t [
        | text_more p' text' ↦ parse_text fuel p' text'
        | text_done b p' text' ↦ some (b, p', text')
      ]
          ≡ some o)
  finish fuel text (text_more p rest) ih h g = ih p rest (omega arith) g.1
  finish fuel text (text_done b p rest) ih h g = (_, refl)

  pub parse_text_total :
      (fuel : ℕ) (p : HttpParse F) (text : List ℕ)
      → length text < fuel
      → p.state ≢ got_all
      → (o : Bool × HttpParse F × List ℕ) × (parse_text fuel p text ≡ some o)
  unfolding parse_text
  parse_text_total zero p text h k = absurd (omega arith)
  parse_text_total (suc fuel) p text h k =
      finish fuel text (text_round_at p.state p text) (λ q rest. parse_text_total fuel q rest)
        (omega arith) (round-Progress p.state p text refl k (line_cases text))

  -- What `parseRequest` leaves when it returns.
  pub record Parsed (o : Option (Bool × HttpParse F × Buffer)) : Type ℓ where
    pub value : Bool
    pub parser : HttpParse F
    pub rest : Buffer
    pub result : o ≡ some (value, parser, rest)
    pub valid : IsValid rest

  Parsed-of_same :
      {t : Option (Bool × HttpParse F × List ℕ)} {o : Option (Bool × HttpParse F × Buffer)}
      → SameParse t o
      → t ≢ none
      → Parsed o
  Parsed-of_same out_of_fuel h = absurd (h refl)
  Parsed-of_same (returned {v} {p} {b} held) h = record {
    value = v;
    parser = p;
    rest = b;
    result = refl;
    valid = held.valid;
  }

  -- In a state other than got-all, `parseRequest` returns on every content of a valid buffer with
  -- fuel above the content's length, and leaves a valid buffer.
  pub parse_request_total :
      {b : Buffer} (fuel : ℕ) (p : HttpParse F)
      → IsValid b
      → length (contents b) < fuel
      → p.state ≢ got_all
      → Returns (parse_request fuel p b) Parsed
  parse_request_total {b} fuel p v h k =
      let (o, e, same) = parse_request_lem fuel p v in
      let (t, f) = parse_text_total fuel p (contents b) h k in (o, e, Parsed-of_same same (λ g. cc))

  -- In the last state a round changes nothing.
  round_got_all : (p : HttpParse F) (b : Buffer) → p.state ≡ got_all → round p b ≡ ok (more p b)
  unfolding round
  round_got_all p b h = rw (h, round_at)

  -- Once the state is got-all, `parseRequest` goes round for ever on every buffer: no fuel is
  -- enough.
  pub parse_request_stuck :
      (b : Buffer) (fuel : ℕ) (p : HttpParse F)
      → p.state ≡ got_all
      → parse_request fuel p b ≡ ok none
  unfolding parse_request
  parse_request_stuck b zero p h = refl
  parse_request_stuck b (suc fuel) p h = rw (round_got_all p b h) (parse_request_stuck b fuel p h)
