-- ===== src/HttpParse.antt =====
-- http_parse.h and http_parse.cpp: the parser of a request that stands in a buffer. A loop whose
-- fuel runs out is `none`.
pub mod Text
pub mod Fuel
pub mod Descriptor
pub mod RoundTrip
use httpd_cpp.Base.{
  ℕ, zero, suc, ◌+◌, ◌-◌, Bool, true, false, not, ◌&&◌, List, [], ◌∷◌, ◌++◌, length, take, drop,
  slice, ltb, ◌==◌, Option, none, some, if◌then◌else◌, Result, ok, fail, ◌>>=◌, ◌>>◌,
}
use httpd_cpp.Bytes.{codes, equal, find}
use httpd_cpp.Buffer.{Buffer, retrieve_until}
use httpd_cpp.Buffer.Find.{find_crlf}
use httpd_cpp.HttpRequest.{
  HttpRequest, http10, http11, set_method, set_path, set_query, set_version, add_header,
}

pub data ParseState : Type 0 where
  expect_request_line expect_headers expect_body got_all : ParseState

pub record HttpParse {ℓ} (F : Type ℓ) : Type ℓ where
  pub state : ParseState
  pub request : HttpRequest F

-- What one round of the loop leaves: more to do, or the value that `parseRequest` returns.
pub data Round {ℓ} (F : Type ℓ) : Type ℓ where
  more : HttpParse F → Buffer → Round F
  done : Bool → HttpParse F → Buffer → Round F

module _ {ℓ} {F : Type ℓ} where
  unfoldable pub new : HttpRequest F → HttpParse F
  new r = record { state = expect_request_line; request = r }

  unfoldable pub is_got_all : HttpParse F → Bool
  is_got_all p = elim p.state [ got_all ↦ true | _ ↦ false ]

  -- The part after the second space.
  set_version_text : List ℕ → HttpRequest F → Bool × HttpRequest F
  set_version_text text r =
      if length text == 8 && equal (take 7 text) (codes "HTTP/1.")
      then (if equal (drop 7 text) (codes "1")
          then (true, set_version http11 r)
          else if equal (drop 7 text) (codes "0")
          then (true, set_version http10 r)
          else (false, r))
      else (false, r)

  -- The part between the spaces; the query keeps its question mark.
  set_target : List ℕ → HttpRequest F → HttpRequest F
  set_target target r =
      let question = find b'?' target in
      if question == length target
      then set_path target r
      else set_query (drop question target) (set_path (take question target) r)

  -- The part after the first space.
  after_method : List ℕ → HttpRequest F → Bool × HttpRequest F
  unfolding set_version_text set_target
  after_method rest r =
      let space = find 32 rest in
      if space == length rest
      then (false, r)
      else set_version_text (drop (space + 1) rest) (set_target (take space rest) r)

  unfoldable pub process_request_line : List ℕ → HttpRequest F → Bool × HttpRequest F
  unfolding after_method
  process_request_line line r =
      let space = find 32 line in
      if space == length line
      then (false, r)
      else (let (valid, r') = set_method (take space line) r in
          if valid then after_method (drop (space + 1) line) r' else (false, r'))

  request_line_round : HttpParse F → Buffer → Result (Round F)
  request_line_round p buf = elim (find_crlf buf) [
    | none ↦ ok (done true p buf)
    | some crlf ↦
        (let (valid, r) = process_request_line (slice buf.bytes buf.reader_index crlf) p.request in
          if valid
          then (do
            buf' ← retrieve_until (crlf + 2) buf
            ok (more (record { state = expect_headers; request = r }) buf'))
          else ok (done false (record p { request = r }) buf))
  ]

  header_round : HttpParse F → Buffer → Result (Round F)
  header_round p buf = elim (find_crlf buf) [
    | none ↦ ok (done true p buf)
    | some crlf ↦
        (let line = slice buf.bytes buf.reader_index crlf in
          let colon = find b':' line in
          do
            buf' ← retrieve_until (crlf + 2) buf
            ok (
                if colon == length line
                then done true (record p { state = got_all }) buf'
                else more (record p { request = add_header line colon p.request }) buf'))
  ]

  round_at : ParseState → HttpParse F → Buffer → Result (Round F)
  unfolding request_line_round header_round
  round_at expect_request_line p buf = request_line_round p buf
  round_at expect_headers p buf = header_round p buf
  round_at expect_body p buf = ok (done true p buf)
  round_at got_all p buf = ok (more p buf)

  unfoldable pub round : HttpParse F → Buffer → Result (Round F)
  unfolding round_at
  round p buf = round_at p.state p buf

  unfoldable pub parse_request :
      ℕ → HttpParse F → Buffer → Result (Option (Bool × HttpParse F × Buffer))
  parse_request zero p buf = ok none
  parse_request (suc fuel) p buf = do
    r ← round p buf
    elim r [ more p' buf' ↦ parse_request fuel p' buf' | done b p' buf' ↦ ok (some (b, p', buf')) ]
