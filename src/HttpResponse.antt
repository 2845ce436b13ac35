-- ===== src/HttpResponse.antt =====
-- http_response.h and http_response.cpp: a response, and its bytes in a buffer.
pub mod Render
pub mod Decimal
pub mod Framing
use httpd_cpp.Base.{
  ℕ, zero, suc, ◌+◌, ◌/◌, ◌%◌, Bool, true, false, List, [], ◌∷◌, ◌++◌, length, take, ltb,
  if◌then◌else◌, Result, ok, ◌>>=◌,
}
use httpd_cpp.Bytes.{codes, crlf}
use httpd_cpp.Buffer.{Buffer, append}
use httpd_cpp.StringMap
use httpd_cpp.StringMap.{Map}

pub data StatusCode : Type 0 where
  unknown ok200 moved_permanently301 bad_request400 forbidden403 not_found404 : StatusCode

abbrev pub number : StatusCode → ℕ
number unknown = 0
number ok200 = 200
number moved_permanently301 = 301
number bad_request400 = 400
number forbidden403 = 403
number not_found404 = 404

pub record HttpResponse : Type 0 where
  pub headers : Map (List ℕ)
  pub status_code : StatusCode
  pub status_message : List ℕ
  pub close_connection : Bool
  pub body : List ℕ

unfoldable pub new : Bool → HttpResponse
new close = record {
  headers = [];
  status_code = unknown;
  status_message = [];
  close_connection = close;
  body = [];
}

unfoldable pub set_status_code : StatusCode → HttpResponse → HttpResponse
set_status_code code r = record r { status_code = code }

unfoldable pub set_status_message : List ℕ → HttpResponse → HttpResponse
set_status_message message r = record r { status_message = message }

unfoldable pub get_message_from_status : HttpResponse → List ℕ
get_message_from_status r = elim r.status_code [
  | ok200 ↦ codes "OK"
  | moved_permanently301 ↦ codes "Moved Permanently"
  | bad_request400 ↦ codes "Bad Request"
  | not_found404 ↦ codes "Not Found"
  | _ ↦ []
]

unfoldable pub set_close_connection : Bool → HttpResponse → HttpResponse
set_close_connection on r = record r { close_connection = on }

unfoldable pub add_header : List ℕ → List ℕ → HttpResponse → HttpResponse
add_header key value r = record r { headers = StringMap.assign key value r.headers }

unfoldable pub set_content_type : List ℕ → HttpResponse → HttpResponse
set_content_type content_type r = add_header (codes "Content-Type") content_type r

unfoldable pub set_body : List ℕ → HttpResponse → HttpResponse
set_body body r = record r { body = body }

-- `%d` and `%zd` of a number that is not negative, by its digits from the last to the first.
unfoldable pub decimal_from : ℕ → ℕ → List ℕ → List ℕ
decimal_from zero n acc = acc
decimal_from (suc fuel) n acc =
    let rest = decimal_from fuel (n / 10) ((48 + n % 10) ∷ acc) in
    if ltb n 10 then (48 + n) ∷ acc else rest

-- A number below 2 ^ 64 has at most 20 digits.
unfoldable pub decimal : ℕ → List ℕ
decimal n = decimal_from 20 n []

-- `snprintf` into `buf` leaves 63 bytes at most.
abbrev pub in_buf : List ℕ → List ℕ
in_buf text = take 63 text

pub append_headers : Map (List ℕ) → Buffer → Result Buffer
append_headers [] output = ok output
append_headers ((k, v) ∷ m) output = do
  output ← append k output
  output ← append (codes ": ") output
  output ← append v output
  output ← append crlf output
  append_headers m output

pub append_connection : Bool → List ℕ → Buffer → Result Buffer
append_connection close body output =
    if close then append (codes "Connection: close" ++ crlf) output else (do
      output ← append (in_buf (codes "Content-Length: " ++ (decimal (length body) ++ crlf))) output
      append (codes "Connection: Keep-Alive" ++ crlf) output)

unfoldable pub append_to_buffer : HttpResponse → Buffer → Result Buffer
append_to_buffer r output = do
  output ←
      append (in_buf (codes "HTTP/1.1 " ++ (decimal (number r.status_code) ++ codes " "))) output
  output ← append r.status_message output
  output ← append crlf output
  output ← append_connection r.close_connection r.body output
  output ← append_headers r.headers output
  output ← append crlf output
  append r.body output
