-- ===== src/HttpRequest.antt =====
-- http_request.h: what a request line and its header lines said, and the functions that are to be
-- run for a header. A string that is given by two pointers is the list of the bytes between them.
pub mod Fields
use mathlib.Core.List.{reverse}
use httpd_cpp.Base.{
  ℕ, ◌+◌, Bool, true, false, List, [], ◌∷◌, ◌++◌, take, drop, ltb, Option, none, some,
  if◌then◌else◌,
}
use httpd_cpp.Bytes.{codes, equal, is_space}
use httpd_cpp.StringMap
use httpd_cpp.StringMap.{Map}

pub data Method : Type 0 where
  invalid get post head put delete : Method

pub data Version : Type 0 where
  unknown http10 http11 : Version

-- `F` is what a header function is; a timer is named by its address.
pub record HttpRequest {ℓ} (F : Type ℓ) : Type ℓ where
  pub fd : ℕ
  pub method : Method
  pub version : Version
  pub path : List ℕ
  pub query : List ℕ
  pub timer : Option ℕ
  pub headers : Map (List ℕ)
  pub func : Map F

unfoldable pub is_valid_method : Method → Bool
is_valid_method invalid = false
is_valid_method _ = true

unfoldable pub method_of_string : List ℕ → Method
method_of_string m =
    if equal m (codes "GET")
    then get
    else if equal m (codes "POST")
    then post
    else if equal m (codes "HEAD")
    then head
    else if equal m (codes "PUT")
    then put
    else if equal m (codes "DELETE")
    then delete
    else invalid

unfoldable pub skip_spaces : List ℕ → List ℕ
skip_spaces [] = []
skip_spaces (c ∷ cs) = if is_space c then skip_spaces cs else c ∷ cs

-- `value.resize(value.size() - 1)` while the last byte is a space.
unfoldable pub trim_right : List ℕ → List ℕ
trim_right v = reverse (skip_spaces (reverse v))

unfoldable pub method_string : Method → List ℕ
method_string invalid = codes "UNKNOWN"
method_string get = codes "GET"
method_string post = codes "POST"
method_string head = codes "HEAD"
method_string put = codes "PUT"
method_string delete = codes "DELETE"

-- What `printHeaders` writes.
print_all : Map (List ℕ) → List ℕ
print_all [] = []
print_all ((k, v) ∷ m) = k ++ (codes ": " ++ (v ++ (10 ∷ print_all m)))

module _ {ℓ} {F : Type ℓ} where
  -- The fields that the constructor leaves uninitialised are given as `fd`; no code reads it before
  -- `setFd`.
  unfoldable pub new : ℕ → HttpRequest F
  new fd = record {
    fd = fd;
    method = invalid;
    version = unknown;
    path = [];
    query = [];
    timer = none;
    headers = [];
    func = [];
  }

  unfoldable pub set_method : List ℕ → HttpRequest F → Bool × HttpRequest F
  set_method m r =
      let r' : HttpRequest F = record r { method = method_of_string m } in
      (is_valid_method (method_of_string m), r')

  unfoldable pub set_version : Version → HttpRequest F → HttpRequest F
  set_version v r = record r { version = v }

  unfoldable pub set_path : List ℕ → HttpRequest F → HttpRequest F
  set_path p r = record r { path = p }

  unfoldable pub set_query : List ℕ → HttpRequest F → HttpRequest F
  set_query q r = record r { query = q }

  unfoldable pub set_timer : ℕ → HttpRequest F → HttpRequest F
  set_timer t r = record r { timer = some t }

  unfoldable pub set_fd : ℕ → HttpRequest F → HttpRequest F
  set_fd fd r = record r { fd = fd }

  -- `colon` is the index of the colon in the header line.
  unfoldable pub add_header : List ℕ → ℕ → HttpRequest F → HttpRequest F
  add_header line colon r =
      let field = take colon line in
      let value = trim_right (skip_spaces (drop (colon + 1) line)) in
      record r { headers = StringMap.insert field value r.headers }

  -- The empty string where there is no such header.
  unfoldable pub get_header : List ℕ → HttpRequest F → List ℕ
  get_header field r = elim (StringMap.find field r.headers) [ none ↦ [] | some v ↦ v ]

  -- Only a header that is there gets a function.
  unfoldable pub add_header_func : List ℕ → F → HttpRequest F → HttpRequest F
  add_header_func field f r = elim (StringMap.find field r.headers) [
    | none ↦ r
    | some v ↦ record r { func = StringMap.assign field f r.func }
  ]

  -- Runs the functions in the order of their keys; `run` is a call of one.
  run_all {κ} : {S : Type κ} → (F → S → S) → Map F → S → S
  run_all run [] s = s
  run_all run ((k, f) ∷ m) s = run_all run m (run f s)

  unfoldable pub handle_func {κ} : {S : Type κ} → (F → S → S) → HttpRequest F → S → S
  unfolding run_all
  handle_func run r s = run_all run r.func s

  unfoldable pub print_headers : HttpRequest F → List ℕ
  unfolding print_all
  print_headers r = print_all r.headers
