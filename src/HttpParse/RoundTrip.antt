-- ===== src/HttpParse/RoundTrip.antt =====
-- A request that is written out as a client writes it, and parsed again.
use mathlib.Core.List.{reverse}
use httpd_cpp.Base.{
  ℕ, zero, suc, ◌+◌, ◌<◌, ◌≡◌, ◌≢◌, refl, sym, ap, subst, ◌∙◌, Bool, true, false, List, [], ◌∷◌,
  ◌++◌, length, ==_refl, Option, some, Returns, arith, append_assoc, take-append_length,
  drop-append_length, append-nil,
}
use httpd_cpp.Bytes.{codes, crlf, find, equal, is_space}
use httpd_cpp.Bytes.Search.{
  Without, find-append, find_absent, append_not_end, drop-append_suc, Without-append,
  split_line-append,
}
use httpd_cpp.StringMap
use httpd_cpp.Buffer.{Buffer}
use httpd_cpp.Buffer.Content.{IsValid, contents}
use httpd_cpp.Buffer.Reading.{Holds}
use httpd_cpp.HttpRequest.{
  HttpRequest, Method, invalid, Version, http10, http11, method_string, set_path, set_query,
  set_version, add_header, skip_spaces, trim_right,
}
use httpd_cpp.HttpRequest.Fields.{StartsInk, set_method-method_string, trim_lem}
use httpd_cpp.HttpParse.{
  expect_request_line, expect_headers, got_all, HttpParse, new, process_request_line, after_method,
  set_target, set_version_text, parse_request,
}
use httpd_cpp.HttpParse.Text.{
  text_more, text_request_line, text_header, parse_text, SameParse, returned, text_request_line_at,
  text_header_at, parse_more, parse_done, parse_request_lem,
}

pub data Query : Type 0 where
  no_query : Query
  query : List ℕ → Query

abbrev pub query_text : Query → List ℕ
query_text no_query = []
query_text (query q) = b'?' ∷ q

abbrev pub minor : Bool → List ℕ
minor true = codes "1"
minor false = codes "0"

abbrev pub version_of : Bool → Version
version_of true = http11
version_of false = http10

-- What a client asks for: HTTP/1.1 or HTTP/1.0 by `is_11`.
pub record Target : Type 0 where
  pub method : Method
  pub path : List ℕ
  pub query : Query
  pub is_11 : Bool

-- No part holds a byte that would end it.
pub record IsWritable (t : Target) : Type 0 where
  pub known : t.method ≢ invalid
  pub path_space : Without 32 t.path
  pub path_mark : Without b'?' t.path
  pub path_cr : Without 13 t.path
  pub query_space : Without 32 (query_text t.query)
  pub query_cr : Without 13 (query_text t.query)

abbrev pub print_line : Target → List ℕ
print_line t =
    method_string t.method
    ++ (32 ∷ ((t.path ++ query_text t.query) ++ (32 ∷ (codes "HTTP/1." ++ minor t.is_11))))

method-Without : (m : Method) → Without 32 (method_string m) × Without 13 (method_string m)
unfolding method_string
method-Without invalid = omega arith
method-Without _ = omega arith

module _ {ℓ} {F : Type ℓ} where
  abbrev pub with_query : Query → HttpRequest F → HttpRequest F
  with_query no_query r = r
  with_query (query q) r = set_query (b'?' ∷ q) r

  abbrev pub requested : Target → HttpRequest F → HttpRequest F
  requested t r =
      set_version (version_of t.is_11)
        (with_query t.query (set_path t.path (record r { method = t.method })))

  set_target_lem :
      (path : List ℕ) (q : Query) (r : HttpRequest F)
      → Without b'?' path
      → set_target (path ++ query_text q) r ≡ with_query q (set_path path r)
  unfolding set_target
  set_target_lem path no_query r w =
      rw (append-nil path, find_absent b'?' path w, ==_refl (length path))
  set_target_lem path (query q) r w = rw (
    find-append b'?' path q w,
    append_not_end b'?' path q,
    drop-append_length (length path) path (b'?' ∷ q) refl,
    take-append_length (length path) path (b'?' ∷ q) refl,
  )

  set_version_text_lem :
      (b : Bool) (r : HttpRequest F)
      → set_version_text (codes "HTTP/1." ++ minor b) r ≡ (true, set_version (version_of b) r)
  unfolding set_version_text equal
  set_version_text_lem true r = refl
  set_version_text_lem false r = refl

  process_request_line_lem :
      (t : Target) (r : HttpRequest F)
      → IsWritable t
      → process_request_line (print_line t) r ≡ (true, requested t r)
  unfolding process_request_line after_method
  process_request_line_lem t r w =
      rw
        (
          find-append 32 (method_string t.method) _ (method-Without t.method).0,
          append_not_end 32 (method_string t.method),
          take-append_length (length (method_string t.method)) (method_string t.method) _ refl,
          drop-append_suc 32 (method_string t.method),
          set_method-method_string t.method r w.known,
          find-append 32 (t.path ++ query_text t.query) _
              (Without-append 32 t.path _ w.path_space w.query_space),
          append_not_end 32 (t.path ++ query_text t.query),
          take-append_length (length (t.path ++ query_text t.query)) (t.path ++ query_text t.query)
              _ refl,
          drop-append_suc 32 (t.path ++ query_text t.query),
          set_target_lem t.path t.query _ w.path_mark,
        )
        (set_version_text_lem t.is_11 _)

pub record Header : Type 0 where
  pub field : List ℕ
  pub value : List ℕ

pub record IsHeader (h : Header) : Type 0 where
  pub field_colon : Without b':' h.field
  pub field_cr : Without 13 h.field
  pub value_cr : Without 13 h.value
  pub value_front : StartsInk h.value
  pub value_back : StartsInk (reverse h.value)
  pub value_some : h.value ≢ []

abbrev pub AllHeaders : List Header → Type 0
AllHeaders [] = Unit {0}
AllHeaders (h ∷ hs) = IsHeader h × AllHeaders hs

abbrev pub print_header : Header → List ℕ
print_header h = h.field ++ (b':' ∷ 32 ∷ h.value)

abbrev pub print_headers : List Header → List ℕ
print_headers [] = []
print_headers (h ∷ hs) = print_header h ++ (crlf ++ print_headers hs)

abbrev pub print_request : Target → List Header → List ℕ
print_request t hs = print_line t ++ (crlf ++ (print_headers hs ++ crlf))

print_header-cr : (h : Header) → IsHeader h → Without 13 (print_header h)
print_header-cr h w =
    Without-append 13 h.field (b':' ∷ 32 ∷ h.value) w.field_cr
      ((omega arith), ((omega arith), w.value_cr))

print_line-cr : (t : Target) → IsWritable t → Without 13 (print_line t)
print_line-cr t w = Without-append 13 (method_string t.method) _ (method-Without t.method).1 (
  (omega arith),
  Without-append 13 (t.path ++ query_text t.query) _
      (Without-append 13 t.path _ w.path_cr w.query_cr) (version-cr t.is_11),
)
  where
    version-cr : (b : Bool) → Without 13 (32 ∷ (codes "HTTP/1." ++ minor b))
    version-cr true = omega arith
    version-cr false = omega arith

value_lem : (h : Header) → IsHeader h → trim_right (skip_spaces (32 ∷ h.value)) ≡ h.value
unfolding is_space
value_lem h w =
    ap (λ v. trim_right (skip_spaces (32 ∷ v))) (sym (append-nil h.value))
    ∙ trim_lem (32 ∷ []) h.value [] (refl, tt) w.value_front w.value_back tt w.value_some

module _ {ℓ} {F : Type ℓ} where
  abbrev pub with_headers : List Header → HttpRequest F → HttpRequest F
  with_headers [] r = r
  with_headers (h ∷ hs) r =
      with_headers hs (record r { headers = StringMap.insert h.field h.value r.headers })

  add_header_lem :
      (h : Header) (r : HttpRequest F)
      → IsHeader h
      → add_header (print_header h) (length h.field) r
        ≡ record r { headers = StringMap.insert h.field h.value r.headers }
  unfolding add_header
  add_header_lem h r w = rw (
    take-append_length (length h.field) h.field (b':' ∷ 32 ∷ h.value) refl,
    drop-append_suc b':' h.field (32 ∷ h.value),
    value_lem h w,
  )

  header_lem :
      (h : Header) (rest : List ℕ) (r : HttpRequest F)
      → IsHeader h
      → text_header (record { state = expect_headers; request = r }) (print_header h) rest
        ≡ text_more
            (record {
              state = expect_headers;
              request = record r { headers = StringMap.insert h.field h.value r.headers };
            })
            rest
  unfolding text_header
  header_lem h rest r w = rw (
    find-append b':' h.field (32 ∷ h.value) w.field_colon,
    append_not_end b':' h.field (32 ∷ h.value),
    add_header_lem h r w,
  )

  at_headers : HttpRequest F → HttpParse F
  at_headers r = record { state = expect_headers; request = r }

  parse_header :
      (h : Header) (fuel : ℕ) (r : HttpRequest F) (rest : List ℕ)
      → IsHeader h
      → parse_text (suc fuel) (at_headers r) (print_header h ++ (crlf ++ rest))
        ≡ parse_text fuel
            (at_headers (record r { headers = StringMap.insert h.field h.value r.headers }))
            rest
  unfolding at_headers
  parse_header h fuel r rest w = parse_more (at_headers r) (print_header h ++ (crlf ++ rest)) fuel (
      text_header_at _ _ (split_line-append (print_header h) rest (print_header-cr h w))
      ∙ header_lem h rest r w)

  parse_end :
      (fuel : ℕ) (r : HttpRequest F) (rest : List ℕ)
      → parse_text (suc fuel) (at_headers r) (crlf ++ rest)
        ≡ some (true, record { state = got_all; request = r }, rest)
  unfolding text_header at_headers find
  parse_end fuel r rest =
      parse_done (at_headers r) (crlf ++ rest) fuel
        (text_header_at _ _ (split_line-append [] rest tt))

  headers_lem :
      (hs : List Header) (fuel : ℕ) (r : HttpRequest F) (rest : List ℕ)
      → AllHeaders hs
      → length hs < fuel
      → parse_text fuel (at_headers r) (print_headers hs ++ (crlf ++ rest))
        ≡ some (true, record { state = got_all; request = with_headers hs r }, rest)
  headers_lem [] zero r rest w k = absurd (omega arith)
  headers_lem (h ∷ hs) zero r rest w k = absurd (omega arith)
  headers_lem [] (suc fuel) r rest w k = parse_end fuel r rest
  headers_lem (h ∷ hs) (suc fuel) r rest w k =
      ap (parse_text (suc fuel) (at_headers r))
        (append_assoc (print_header h) (crlf ++ print_headers hs) (crlf ++ rest))
      ∙ parse_header h fuel r (print_headers hs ++ (crlf ++ rest)) w.0
      ∙ headers_lem hs fuel _ rest w.1 (omega arith)

  request_line_lem :
      (t : Target) (text : List ℕ) (r : HttpRequest F) (rest : List ℕ)
      → IsWritable t
      → text_request_line
          (record { state = expect_request_line; request = r })
          text
          (print_line t)
          rest
        ≡ text_more (at_headers (requested t r)) rest
  unfolding text_request_line at_headers
  request_line_lem t text r rest w = rw (process_request_line_lem t r w)

  parse_request_line :
      (t : Target) (fuel : ℕ) (r : HttpRequest F) (rest : List ℕ)
      → IsWritable t
      → parse_text
          (suc fuel)
          (record { state = expect_request_line; request = r })
          (print_line t ++ (crlf ++ rest))
        ≡ parse_text fuel (at_headers (requested t r)) rest
  unfolding at_headers
  parse_request_line t fuel r rest w = parse_more _ (print_line t ++ (crlf ++ rest)) fuel (
      text_request_line_at _ _ (split_line-append (print_line t) rest (print_line-cr t w))
      ∙ request_line_lem t _ r rest w)

  print_parse :
      (t : Target) (hs : List Header) (fuel : ℕ) (r : HttpRequest F) (rest : List ℕ)
      → IsWritable t
      → AllHeaders hs
      → length hs + 1 < fuel
      → parse_text fuel (new r) (print_request t hs ++ rest)
        ≡ some (true, record { state = got_all; request = with_headers hs (requested t r) }, rest)
  unfolding new
  print_parse t hs zero r rest w v k = absurd (omega arith)
  print_parse t hs (suc fuel) r rest w v k =
      ap (parse_text (suc fuel) (record { state = expect_request_line; request = r })) regroup
      ∙ parse_request_line t fuel r (print_headers hs ++ (crlf ++ rest)) w
      ∙ headers_lem hs fuel (requested t r) rest v (omega arith)
    where
      regroup :
          print_request t hs ++ rest
          ≡ print_line t ++ (crlf ++ (print_headers hs ++ (crlf ++ rest)))
      regroup =
          append_assoc (print_line t) (crlf ++ (print_headers hs ++ crlf)) rest
          ∙ ap (λ x. print_line t ++ (crlf ++ x)) (append_assoc (print_headers hs) crlf rest)

  done_with_rest :
      {v : Bool} {p : HttpParse F} {rest : List ℕ} {o : Option (Bool × HttpParse F × Buffer)}
      → SameParse (some (v, p, rest)) o
      → (b : Buffer) × (o ≡ some (v, p, b)) × Holds rest b
  done_with_rest (returned {b} held) = (b, refl, held)

  -- A valid buffer begins with a whole request, printed from a method, path, query, version and
  -- headers that are writable (no separator inside a part), and the fuel is above the number of
  -- headers and one: `parseRequest` returns true, has got all, has set exactly these (the first
  -- value of a field that stands twice), and leaves the bytes behind the empty line.
  pub parse_print_request :
      {b : Buffer} (t : Target) (hs : List Header) (fuel : ℕ) (r : HttpRequest F) (rest : List ℕ)
      → IsValid b
      → IsWritable t
      → AllHeaders hs
      → length hs + 1 < fuel
      → contents b ≡ print_request t hs ++ rest
      → Returns (parse_request fuel (new r) b) (λ o.
        (b' : Buffer) × (o
          ≡ some (true, record { state = got_all; request = with_headers hs (requested t r) }, b'))
        × Holds rest b')
  parse_print_request {b} t hs fuel r rest v w a k e =
      let (o, f, same) = parse_request_lem fuel (new r) v in
      (
        o,
        f,
        done_with_rest (
            subst (λ x. SameParse x o)
              (ap (parse_text fuel (new r)) e ∙ print_parse t hs fuel r rest w a k) same),
      )
