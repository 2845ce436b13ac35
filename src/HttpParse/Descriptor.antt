-- ===== src/HttpParse/Descriptor.antt =====
-- The descriptor of a request while it is parsed.
use httpd_cpp.Base.{
  ℕ, ◌+◌, ◌≡◌, sym, ap, ◌∙◌, Bool, inl, inr, List, take, drop, length, slice, Option, some, Result,
  ok, between, of_ok, of_some, ◌==◌, Bool-cases, Option-cases, zero, suc, arith,
}
use httpd_cpp.Bytes.{find}
use httpd_cpp.Buffer.{Buffer, retrieve_until}
use httpd_cpp.Buffer.Find.{find_crlf}
use httpd_cpp.HttpRequest.{HttpRequest, set_method, set_version, set_path, set_query, add_header}
use httpd_cpp.HttpParse.{
  HttpParse, ParseState, expect_request_line, expect_headers, expect_body, got_all, Round, more,
  done, set_version_text, set_target, after_method, process_request_line, request_line_round,
  header_round, round_at, round, parse_request,
}

module _ {ℓ} {F : Type ℓ} where
  set_version_text-fd : (text : List ℕ) (r : HttpRequest F) → (set_version_text text r).1.fd ≡ r.fd
  unfolding set_version_text set_version
  set_version_text-fd text r = ground arith

  set_target-fd : (target : List ℕ) (r : HttpRequest F) → (set_target target r).fd ≡ r.fd
  unfolding set_target set_path set_query
  set_target-fd target r = ground arith

  after_method-fd : (rest : List ℕ) (r : HttpRequest F) → (after_method rest r).1.fd ≡ r.fd
  unfolding after_method
  after_method-fd rest r =
      let target = set_target-fd (take (find 32 rest) rest) r in
      let version =
        set_version_text-fd (drop (find 32 rest + 1) rest)
          (set_target (take (find 32 rest) rest) r) in
      ground arith

  process_request_line-fd :
      (line : List ℕ) (r : HttpRequest F) → (process_request_line line r).1.fd ≡ r.fd
  unfolding process_request_line set_method
  process_request_line-fd line r =
      let after =
        after_method-fd (drop (find 32 line + 1) line)
          (set_method (take (find 32 line) line) r).1 in
      ground arith

  -- What is left of the descriptor by a round.
  abbrev fd_of : Round F → ℕ
  fd_of (more p b) = p.request.fd
  fd_of (done v p b) = p.request.fd

  request_line_round-fd :
      (p : HttpParse F) (buf : Buffer) {o : Round F}
      → request_line_round p buf ≡ ok o
      → fd_of o ≡ p.request.fd
  unfolding request_line_round
  request_line_round-fd p buf {o} e = elim (Option-cases (find_crlf buf)) [
    | inl n ↦ sym (ap fd_of (of_ok (rw (n, request_line_round) at e)))
    | inr (crlf, s) ↦
        (let line = slice buf.bytes buf.reader_index crlf in
          let same = process_request_line-fd line p.request in
          let h = rw (s, request_line_round) at e in
          elim (Bool-cases (process_request_line line p.request).0) [
            | inl v ↦
                (let (buf', e', last) = between (retrieve_until (crlf + 2) buf) _ (rw v at h) in
                  sym (ap fd_of (of_ok last)) ∙ same)
            | inr v ↦ sym (ap fd_of (of_ok (rw v at h))) ∙ same
          ])
  ]

  header_round-fd :
      (p : HttpParse F) (buf : Buffer) {o : Round F}
      → header_round p buf ≡ ok o
      → fd_of o ≡ p.request.fd
  unfolding header_round add_header
  header_round-fd p buf {o} e = elim (Option-cases (find_crlf buf)) [
    | inl n ↦ sym (ap fd_of (of_ok (rw (n, header_round) at e)))
    | inr (crlf, s) ↦
        (let line = slice buf.bytes buf.reader_index crlf in
          let (buf', e', last) =
            between (retrieve_until (crlf + 2) buf) _ (rw (s, header_round) at e) in
          elim (Bool-cases (find b':' line == length line)) [
            | inl v ↦ sym (ap fd_of (of_ok (rw v at last)))
            | inr v ↦ sym (ap fd_of (of_ok (rw v at last)))
          ])
  ]

  round_at-fd :
      (state : ParseState) (p : HttpParse F) (buf : Buffer) {o : Round F}
      → round_at state p buf ≡ ok o
      → fd_of o ≡ p.request.fd
  unfolding round_at
  round_at-fd expect_request_line p buf e = request_line_round-fd p buf e
  round_at-fd expect_headers p buf e = header_round-fd p buf e
  round_at-fd expect_body p buf e = sym (ap fd_of (of_ok e))
  round_at-fd got_all p buf e = sym (ap fd_of (of_ok e))

  -- `parseRequest` leaves the descriptor of its request as it is.
  pub parse_request-fd :
      (fuel : ℕ) (p : HttpParse F) (buf : Buffer) {o : Bool × HttpParse F × Buffer}
      → parse_request fuel p buf ≡ ok (some o)
      → o.1.request.fd ≡ p.request.fd
  unfolding parse_request round
  parse_request-fd zero p buf e = cc
  parse_request-fd (suc fuel) p buf e =
      let (r, ran, rest) = between (round_at p.state p buf) _ e in
      go r (λ p' buf' o e'. parse_request-fd fuel p' buf' {o = o} e') rest
        (round_at-fd p.state p buf ran)
    where
      go :
          {o : Bool × HttpParse F × Buffer} (r : Round F)
          → ((p : HttpParse F) (buf : Buffer) (o : Bool × HttpParse F × Buffer)
              → parse_request fuel p buf ≡ ok (some o)
              → o.1.request.fd ≡ p.request.fd)
          → (elim r as (λ x. Result (Option (Bool × HttpParse F × Buffer))) [
            | more p' buf' ↦ parse_request fuel p' buf'
            | done b p' buf' ↦ ok (some (b, p', buf'))
          ])
            ≡ ok (some o)
          → fd_of r ≡ p.request.fd
          → o.1.request.fd ≡ p.request.fd
      go {o} (more p' buf') ih e same = ih p' buf' o e ∙ same
      go (done b p' buf') ih e same =
          ap (λ (q : Bool × HttpParse F × Buffer). q.1.request.fd) (sym (of_some (of_ok e))) ∙ same
