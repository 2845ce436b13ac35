-- ===== src/Tests/Service.antt =====
-- One run of the callback: a request that arrives in one piece, for a file of six bytes.
use httpd_cpp.Base.{
  ℕ, zero, suc, ◌+◌, ◌≤◌, ◌≡◌, refl, true, [], ◌∷◌, length, some, ok, Returns, arith,
}
use httpd_cpp.Bytes
use httpd_cpp.Bytes.{codes}
use httpd_cpp.Buffer.{cheap_prepend, max_size}
use httpd_cpp.StringMap
use httpd_cpp.HttpRequest
use httpd_cpp.HttpRequest.{HttpRequest}
use httpd_cpp.HttpResponse
use httpd_cpp.HttpResponse.{HttpResponse, decimal, decimal_from}
use httpd_cpp.HttpResponse.Render.{render}
use httpd_cpp.Buffer.Fd.{Received, received, sent}
use httpd_cpp.PriorityQueue.{TimerQueue}
use httpd_cpp.PriorityQueue.Heap.{list_heap}
use httpd_cpp.Callback.{
  World, Stat, HeaderFunc, finish, request, with_message, file_path, handle_headers,
  handle_keep_alive,
}
use httpd_cpp.Callback.Files.{answered}
use httpd_cpp.Callback.Closing.{kept_open, finish_keeps_open}
use httpd_cpp.Callback.Reads.{fails}
use httpd_cpp.Callback.Serving.{response, outcome, request_lem, request_unmapped}
use httpd_cpp.Callback.Total.{with_close, ended, request_total}
use httpd_cpp.Base.{List, Bool, false, none, fail, out_of_bounds, subst, of_some}
use httpd_cpp.Tests.Http.{
  index_page, keep_alive, index_page-IsWritable, keep_alive-AllHeaders, request_text, hello,
  empty_buffer, empty_buffer-IsValid,
}

abbrev piece_then : Received → ℕ → ℕ → Received
piece_then last zero space = received request_text
piece_then last (suc n) space = last

abbrev pub world_then : Received → World
world_then last = record {
  readv = piece_then last;
  stat = λ path. some (record { size = 6; regular = true; readable = true });
  open_file = λ path. some 9;
  mmap = λ size fd. some (codes "<html>");
  write = λ xs. sent (length xs);
  time = record { sec = 1; usec = 0 };
  unset_size = 0;
}

abbrev page_stat : Stat
page_stat = record { size = 6; regular = true; readable = true }

-- Its files have as many bytes as `stat` says.
pub page_mapped : {s : Stat} → some page_stat ≡ some s → s.size ≤ 6
page_mapped found = subst (λ (u : Stat). u.size ≤ 6) (of_some found) (omega arith)

abbrev pub client : HttpRequest HeaderFunc
client = record (HttpRequest.new 5) { timer = some 0 }

abbrev no_timers : TimerQueue
no_timers = record { timers = []; next_address = 1 }

-- Bytes that are no request.
abbrev pub junk_then : ℕ → ℕ → Received
junk_then zero space = received (codes "??")
junk_then (suc n) space = Received.failed 11

abbrev pub junk_world : World
junk_world = record (world_then (Received.failed 11)) { readv = junk_then }

pub junk_fits :
    (path : List ℕ) (close : Bool)
    → cheap_prepend + length (render (with_message (answered junk_world path (with_close close))))
      ≤ max_size
unfolding with_message answered HttpResponse.new HttpResponse.set_body HttpResponse.set_content_type
    HttpResponse.set_status_code HttpResponse.set_status_message HttpResponse.add_header
    HttpResponse.get_message_from_status StringMap.assign StringMap.insert decimal decimal_from
junk_fits path true = omega arith
junk_fits path false = omega arith

request_total_example : Returns (request list_heap 9 junk_world 1 client no_timers) (λ o.
    (r : HttpRequest HeaderFunc) × (o ≡ some (ended list_heap junk_world 1 client no_timers r)))
request_total_example =
    request_total list_heap junk_world 1 client no_timers 9 (codes "??" ∷ []) (fails 11)
      ((λ e. cc), (λ space. refl), λ space. refl) (omega arith) (omega arith) junk_fits
      (λ path s found r o. page_mapped found)

response_fits :
    cheap_prepend
      + length (
          render (
            response list_heap
              (world_then (Received.failed 11))
              1
              client
              no_timers
              index_page
              keep_alive))
    ≤ max_size
unfolding with_message answered file_path handle_headers handle_keep_alive HttpRequest.new
    HttpRequest.get_header HttpRequest.add_header_func HttpRequest.handle_func
    HttpRequest.add_header HttpRequest.set_method HttpRequest.set_version HttpRequest.set_query
    HttpRequest.set_path StringMap.find StringMap.insert StringMap.assign Bytes.equal Bytes.less
    Bytes.find HttpResponse.new HttpResponse.set_body HttpResponse.set_content_type
    HttpResponse.set_status_code HttpResponse.set_status_message HttpResponse.set_close_connection
    HttpResponse.get_message_from_status HttpResponse.add_header decimal decimal_from
response_fits = omega arith

request_lem_example :
    Returns (request list_heap 9 (world_then (Received.failed 11)) 1 client no_timers) (λ o.
      o
      ≡ some (
        some (
            sent (
              length (
                render (
                  response list_heap
                    (world_then (Received.failed 11))
                    1
                    client
                    no_timers
                    index_page
                    keep_alive)))),
        outcome list_heap
            (world_then (Received.failed 11))
            1
            client
            no_timers
            index_page
            keep_alive,
      ))
unfolding HttpRequest.method_string
request_lem_example =
    request_lem list_heap (world_then (Received.failed 11)) 1 client no_timers index_page keep_alive
      9 (request_text ∷ []) (codes "G") index_page-IsWritable keep_alive-AllHeaders refl
      ((λ e. cc), (λ space. refl), λ space. refl) (omega arith) (omega arith) response_fits
      (λ s found r o. page_mapped found)

-- A file that belongs to another user: its owner may read it, and `open` fails.
abbrev closed_file : World
closed_file = record (world_then (Received.failed 11)) {
  open_file = λ path. none;
  mmap = λ size fd. none;
}

request_unmapped_example : request list_heap 9 closed_file 1 client no_timers ≡ fail out_of_bounds
unfolding HttpRequest.method_string
request_unmapped_example =
    request_unmapped list_heap closed_file 1 client no_timers index_page keep_alive 9
      (request_text ∷ []) (codes "G") index_page-IsWritable keep_alive-AllHeaders refl
      ((λ e. cc), (λ space. refl), λ space. refl) (omega arith) (omega arith) refl refl refl refl
      (omega arith)

-- It asks to be closed.
abbrev last_response : HttpResponse
last_response = record hello { close_connection = true }

finish_keeps_open_example :
    finish list_heap (world_then (received [])) 1 client 6 last_response no_timers empty_buffer
    ≡ ok (
      sent (length (render last_response)),
      kept_open list_heap (world_then (received [])) 1 client 6 last_response no_timers,
    )
unfolding decimal decimal_from
finish_keeps_open_example =
    finish_keeps_open list_heap (world_then (received [])) 1 client 6 last_response no_timers
      empty_buffer-IsValid (omega arith) refl (omega arith)
