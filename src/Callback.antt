-- ===== src/Callback.antt =====
-- callback.cpp: what a thread of the pool does with a request that can be read. The system calls
-- are a record of their answers, `World`; EPOLL_CTL_MOD, which arms the descriptor again, is the
-- outcome `kept`, and close and delete are the outcome `closed`.
pub mod Closing
pub mod Files
pub mod Reads
pub mod Serving
pub mod Total
use httpd_cpp.Base.{
  ℕ, zero, suc, ◌+◌, Bool, true, false, not, ◌&&◌, ◌||◌, if◌then◌else◌, ◌==◌, List, [], ◌∷◌, ◌++◌,
  take, length, leb, Option, none, some, Result, ok, fail, out_of_bounds, ◌>>=◌,
}
use httpd_cpp.Bytes.{codes, equal, find}
use httpd_cpp.Buffer
use httpd_cpp.Buffer.{Buffer, initial_size, retrieve_all}
use httpd_cpp.Buffer.Fd.{Received, received, Sent, sent, read_fd, write_fd}
use httpd_cpp.HttpRequest.{HttpRequest, get_header, add_header_func, handle_func}
use httpd_cpp.HttpParse
use httpd_cpp.HttpParse.{HttpParse, parse_request}
use httpd_cpp.HttpResponse
use httpd_cpp.HttpResponse.{
  HttpResponse, ok200, forbidden403, not_found404, set_status_code, set_status_message, set_body,
  set_content_type, set_close_connection, get_message_from_status, append_to_buffer,
}
use httpd_cpp.Timer.{TimeVal}
use httpd_cpp.PriorityQueue.{MinHeap, TimerQueue, add_timer, del_timer}

-- What `stat` says of a file: its size, S_ISREG and S_IRUSR.
pub record Stat : Type 0 where
  pub size : ℕ
  pub regular : Bool
  pub readable : Bool

-- The answers of the system calls in one run of the callback: `readv` at its n-th call, `stat` and
-- `open` of a path, `mmap` of a length and a descriptor, whose answer is the bytes that can be read
-- at the address, `none` for MAP_FAILED, `write`, `gettimeofday`, and what the variable `sbuf` holds if `stat` fails.
pub record World : Type 0 where
  pub readv : ℕ → ℕ → Received
  pub stat : List ℕ → Option Stat
  pub open_file : List ℕ → Option ℕ
  pub mmap : ℕ → Option ℕ → Option (List ℕ)
  pub write : List ℕ → Sent
  pub time : TimeVal
  pub unset_size : ℕ

-- The one function that is bound to a header.
pub data HeaderFunc : Type 0 where
  keep_alive : HeaderFunc

abbrev pub eagain : ℕ
eagain = 11

-- The milliseconds of the timer, and the function `http_close_connect` it calls.
abbrev pub timeout : ℕ
timeout = 500

abbrev pub close_connect : ℕ
close_connect = 0

abbrev pub root : List ℕ
root = codes "/home/yongjie/httpd"

-- The loop over `readFd`: true where it breaks, false where it goes to `error`.
unfoldable pub read_all : ℕ → (ℕ → ℕ → Received) → ℕ → Buffer → Result (Option (Bool × Buffer))
read_all zero readv n buf = ok none
read_all (suc fuel) readv n buf = do
  r ← read_fd (readv n) buf
  elim r.0 [
    | received [] ↦ ok (some (false, r.1))
    | received (x ∷ xs) ↦ read_all fuel readv (n + 1) r.1
    | Received.failed e ↦ ok (some (e == eagain, r.1))
  ]

unfoldable pub handle_keep_alive : HttpRequest HeaderFunc → HttpResponse → HttpResponse
handle_keep_alive request response =
    let s = get_header (codes "Connection") request in
    let r =
      if equal s (codes "keep-alive") then set_close_connection false response else response in
    if equal s (codes "close") then set_close_connection true r else r

unfoldable pub handle_headers :
    HttpRequest HeaderFunc → HttpResponse → HttpRequest HeaderFunc × HttpResponse
handle_headers request response =
    let r : HttpRequest HeaderFunc = add_header_func (codes "Connection") keep_alive request in
    (r, handle_func (λ f. handle_keep_alive r) r response)

-- A path that is handed to the system ends before its first NUL.
unfoldable pub file_path : HttpRequest HeaderFunc → List ℕ
file_path request = let path = root ++ request.path in take (find 0 path) path

-- The bytes that can be read at an address that `mmap` answers: none at MAP_FAILED.
abbrev pub readable_at : Option (List ℕ) → List ℕ
readable_at none = []
readable_at (some bytes) = bytes

-- `string(src_addr, size)`, which reads `size` bytes; no answer of `open` or `mmap` is looked at
-- before.
unfoldable pub string_at : Option (List ℕ) → ℕ → Result (List ℕ)
string_at src_addr size =
    if leb size (length (readable_at src_addr))
    then ok (take size (readable_at src_addr))
    else fail out_of_bounds

-- The response to the file that the request asks for, from `stat` on.
unfoldable pub answer : World → List ℕ → HttpResponse → Result HttpResponse
answer w path response = elim (w.stat path) [
  | none ↦ ok (
      set_content_type (codes "test/html")
        (set_body (codes "<html>") (set_status_code not_found404 response)))
  | some s ↦
      if not s.regular || not s.readable then ok (set_status_code forbidden403 response) else (do
        let response' = set_content_type (codes "text/html") (set_status_code ok200 response)
        body ← string_at (w.mmap s.size (w.open_file path)) s.size
        ok (set_body body response'))
]

unfoldable pub with_message : HttpResponse → HttpResponse
with_message response = set_status_message (get_message_from_status response) response

-- The field `st_size` of `sbuf`.
unfoldable pub file_size : World → List ℕ → ℕ
file_size w path = elim (w.stat path) [ none ↦ w.unset_size | some s ↦ s.size ]

-- `count == sbuf.st_size`, with no statement of its own under it: the next `if` is its body.
unfoldable pub all_sent : Sent → ℕ → Bool
all_sent (sent n) size = n == size
all_sent (Sent.failed e) size = false

pub data Outcome : Type 0 where
  closed : TimerQueue → Outcome
  kept : HttpRequest HeaderFunc → TimerQueue → Outcome

module _ (heap : MinHeap) where
  -- From the rendering of the response to the end. The outcome stands with the answer of `write`.
  unfoldable pub finish :
      World
      → ℕ
      → HttpRequest HeaderFunc
      → ℕ
      → HttpResponse
      → TimerQueue
      → Buffer
      → Result (Sent × Outcome)
  finish w address request size response queue buf = do
    buf' ← append_to_buffer response (retrieve_all buf)
    count ← write_fd w.write buf'
    let (request', queue') =
        add_timer heap address request timeout (some close_connect) w.time queue
    ok (
      count,
      if all_sent count size && response.close_connection
          then closed queue
          else kept request' queue',
    )

  -- `none` where the fuel of a loop runs out. The pair holds the answer of `write`, if it is called.
  unfoldable pub request :
      ℕ → World → ℕ → HttpRequest HeaderFunc → TimerQueue → Result (Option (Option Sent × Outcome))
  request fuel w address re queue = do
    let queue' = del_timer re queue
    buf ← Buffer.new initial_size
    r ← read_all fuel w.readv 0 buf
    elim r [
      | none ↦ ok none
      | some (false, buf') ↦ ok (some (none, closed queue'))
      | some (true, buf') ↦ (do
        p ← parse_request fuel (HttpParse.new re) buf'
        elim p [
          | none ↦ ok none
          | some (valid, parse, buf'') ↦ (do
            let (re', response) = handle_headers parse.request (HttpResponse.new false)
            let path = file_path re'
            response' ← answer w path response
            o ← finish w address re' (file_size w path) (with_message response') queue' buf''
            ok (some (some o.0, o.1)))
        ])
    ]
