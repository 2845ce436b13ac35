-- ===== src/Tests/Http.antt =====
-- A request and a response, and the theorems about them.
use httpd_cpp.Base.{
  ℕ, ◌+◌, ◌≡◌, refl, true, false, List, [], ◌∷◌, ◌++◌, length, replicate, none, some, ok, Returns,
  arith,
}
use httpd_cpp.Bytes.{codes, is_space}
use httpd_cpp.Buffer.{Buffer}
use httpd_cpp.Buffer.Content.{IsValid, contents}
use httpd_cpp.Buffer.Reading.{Holds}
use httpd_cpp.HttpRequest
use httpd_cpp.HttpRequest.{HttpRequest, get, post, method_string, set_method}
use httpd_cpp.HttpParse
use httpd_cpp.HttpParse.{HttpParse, got_all, expect_headers, parse_request}
use httpd_cpp.HttpParse.Text.{SameParse, parse_text, parse_request_lem}
use httpd_cpp.HttpParse.Fuel.{Parsed, parse_request_total, parse_request_stuck}
use httpd_cpp.HttpParse.RoundTrip.{
  Target, Header, query, IsWritable, AllHeaders, print_request, with_headers, requested,
  parse_print_request,
}
use httpd_cpp.HttpResponse.{HttpResponse, ok200, append_to_buffer, decimal, decimal_from}
use httpd_cpp.HttpResponse.Decimal.{value}
use httpd_cpp.HttpResponse.Framing.{read_head, kept_head, read_head-append_to_buffer}

abbrev pub index_page : Target
index_page = record {
  method = get;
  path = codes "/index.html";
  query = query (codes "a=1");
  is_11 = true;
}

abbrev pub keep_alive : List Header
keep_alive = record { field = codes "Connection"; value = codes "keep-alive" } ∷ []

-- The request, the first byte of a next one behind it.
abbrev pub request_text : List ℕ
request_text = print_request index_page keep_alive ++ codes "G"

abbrev request_buffer : Buffer
request_buffer = record {
  bytes = replicate 8 0 ++ request_text;
  reader_index = 8;
  writer_index = 8 + length request_text;
}

abbrev fresh : HttpRequest ℕ
fresh = HttpRequest.new 5

request_buffer-IsValid : IsValid request_buffer
unfolding method_string
request_buffer-IsValid = omega arith

pub index_page-IsWritable : IsWritable index_page
index_page-IsWritable = record {
  known = λ e. cc;
  path_space = omega arith;
  path_mark = omega arith;
  path_cr = omega arith;
  query_space = omega arith;
  query_cr = omega arith;
}

pub keep_alive-AllHeaders : AllHeaders keep_alive
unfolding is_space
keep_alive-AllHeaders = (
  record {
    field_colon = omega arith;
    field_cr = omega arith;
    value_cr = omega arith;
    value_front = refl;
    value_back = refl;
    value_some = λ e. cc;
  },
  tt,
)

parse_print_request_example : Returns (parse_request 5 (HttpParse.new fresh) request_buffer) (λ o.
    (b' : Buffer) × (o
      ≡ some (
        true,
        record { state = got_all; request = with_headers keep_alive (requested index_page fresh) },
        b',
      ))
    × Holds (codes "G") b')
unfolding method_string
parse_print_request_example =
    parse_print_request index_page keep_alive 5 fresh (codes "G") request_buffer-IsValid
      index_page-IsWritable keep_alive-AllHeaders (omega arith) refl

parse_request_lem_example :
    Returns
      (parse_request 3 (HttpParse.new fresh) request_buffer)
      (SameParse (parse_text 3 (HttpParse.new fresh) (contents request_buffer)))
parse_request_lem_example = parse_request_lem 3 (HttpParse.new fresh) request_buffer-IsValid

parse_request_total_example :
    Returns (parse_request 100 (HttpParse.new fresh) request_buffer) Parsed
unfolding method_string HttpParse.new
parse_request_total_example =
    parse_request_total 100 (HttpParse.new fresh) request_buffer-IsValid (omega arith) (λ e. cc)

parse_request_stuck_example :
    parse_request 1000 (record { state = got_all; request = fresh }) request_buffer ≡ ok none
parse_request_stuck_example =
    parse_request_stuck request_buffer 1000 (record { state = got_all; request = fresh }) refl

abbrev pub hello : HttpResponse
hello = record {
  headers = (codes "Content-Type", codes "text/html") ∷ [];
  status_code = ok200;
  status_message = codes "OK";
  close_connection = false;
  body = codes "<html>";
}

abbrev pub empty_buffer : Buffer
empty_buffer = record { bytes = replicate 1032 0; reader_index = 8; writer_index = 8 }

pub empty_buffer-IsValid : IsValid empty_buffer
empty_buffer-IsValid = omega arith

read_head-append_to_buffer_example : Returns (append_to_buffer hello empty_buffer) (λ b'.
    (digits : List ℕ) × (read_head 6 (contents b') ≡ some (kept_head hello digits, codes "<html>"))
    × (value digits ≡ 6))
unfolding decimal decimal_from
read_head-append_to_buffer_example =
    read_head-append_to_buffer hello 6 empty_buffer-IsValid refl refl (omega arith) (omega arith)
      (omega arith) (omega arith) (omega arith)
