-- ===== src/Callback/Total.antt =====
-- The whole callback on whatever bytes a client sends.
use httpd_cpp.Base.{
  ℕ, ◌+◌, ◌≤◌, ◌<◌, ◌≡◌, refl, ap, Bool, true, false, ◌&&◌, if◌then◌else◌, List, length, some, none,
  Option, Bool-cases, inl, inr, arith, Returns, Returns-bind,
}
use httpd_cpp.Buffer.{cheap_prepend, initial_size, max_size}
use httpd_cpp.Buffer.Fd.{Received, Sent}
use httpd_cpp.Bytes.{codes, equal}
use httpd_cpp.HttpRequest.{HttpRequest, get_header}
use httpd_cpp.HttpRequest.Fields.{handle_func_keeps}
use httpd_cpp.HttpParse
use httpd_cpp.HttpParse.{parse_request, got_all}
use httpd_cpp.HttpParse.Fuel.{parse_request_total}
use httpd_cpp.HttpResponse
use httpd_cpp.HttpResponse.{HttpResponse}
use httpd_cpp.HttpResponse.Render.{render}
use httpd_cpp.PriorityQueue.{MinHeap, TimerQueue, del_timer}
use httpd_cpp.Callback.{
  World, HeaderFunc, Outcome, closed, all_sent, file_path, file_size, handle_headers, with_message,
  request, handle_keep_alive,
}
use httpd_cpp.Callback.Files.{Maps, answered, answer_lem}
use httpd_cpp.Callback.Closing.{kept_open, finish_lem}
use httpd_cpp.Callback.Reads.{Answers, Ends, joined, new_read_all_lem}

-- The header functions only say whether the connection is to be closed.
abbrev pub with_close : Bool → HttpResponse
with_close close = record (HttpResponse.new false) { close_connection = close }

keep_alive-with_close :
    (r : HttpRequest HeaderFunc) (response : HttpResponse)
    → (c : Bool) × (response ≡ with_close c)
    → (c : Bool) × (handle_keep_alive r response ≡ with_close c)
unfolding handle_keep_alive HttpResponse.new HttpResponse.set_close_connection
keep_alive-with_close r response (c, e) =
    let connection = get_header (codes "Connection") r in
    elim (Bool-cases (equal connection (codes "keep-alive"))) [
      | inl k ↦ elim (Bool-cases (equal connection (codes "close"))) [
        | inl h ↦ (true, rw (e, h, k) refl)
        | inr h ↦ (false, rw (e, h, k) refl)
      ]
      | inr k ↦ elim (Bool-cases (equal connection (codes "close"))) [
        | inl h ↦ (true, rw (e, h, k) refl)
        | inr h ↦ (c, rw (e, h, k) refl)
      ]
    ]

handle_headers-with_close :
    (r : HttpRequest HeaderFunc)
    → (c : Bool) × ((handle_headers r (HttpResponse.new false)).1 ≡ with_close c)
unfolding handle_headers HttpResponse.new
handle_headers-with_close r =
    handle_func_keeps (λ response. (c : Bool) × (response ≡ with_close c)) _ _ _
      (λ f response h. keep_alive-with_close _ response h) (false, refl)

module _ (heap : MinHeap) (w : World) (address : ℕ) (re : HttpRequest HeaderFunc)
    (queue : TimerQueue) where
  -- The request that the header functions leave, and the response to it.
  abbrev pub handled : HttpRequest HeaderFunc → HttpRequest HeaderFunc
  handled r = (handle_headers r (HttpResponse.new false)).0

  abbrev pub responded : HttpRequest HeaderFunc → HttpResponse
  responded r =
      with_message
        (answered w (file_path (handled r)) (handle_headers r (HttpResponse.new false)).1)

  abbrev pub ended : HttpRequest HeaderFunc → Option Sent × Outcome
  ended r = (
    some (w.write (render (responded r))),
    if all_sent (w.write (render (responded r))) (file_size w (file_path (handled r)))
          && (responded r).close_connection
        then closed (del_timer re queue)
        else kept_open heap w address (handled r) (file_size w (file_path (handled r)))
            (responded r) (del_timer re queue),
  )

  fits_any :
      ((path : List ℕ) (close : Bool)
        → cheap_prepend + length (render (with_message (answered w path (with_close close))))
          ≤ max_size)
      → (r : HttpRequest HeaderFunc) → cheap_prepend + length (render (responded r)) ≤ max_size
  fits_any fits r =
      let (c, e) = handle_headers-with_close r in rw e (fits (file_path (handled r)) c)

  -- Whatever bytes `readv` answers before the stream ends or an error comes, if the fuel is above
  -- the number of reads and bytes, the bytes and every response to a path each fit a new buffer's
  -- vector, and where `stat` finds the file of a path regular and readable by its owner, there
  -- `mmap` maps it and as many bytes can be read as `stat` counted: the callback ends with no
  -- failed assert and no read outside a mapping. After EAGAIN it has written the response to some
  -- request, also where the bytes are no request, and ends as the count, the file's size and the
  -- wish to close say; after anything else it has written nothing, and closes. The request's old
  -- timer is marked.
  pub request_total :
      {last : Received} {again : Bool} (fuel : ℕ) (cs : List (List ℕ))
      → Ends last again
      → Answers w.readv 0 cs last
      → length cs + length (joined cs) < fuel
      → cheap_prepend + initial_size + length (joined cs) ≤ max_size
      → ((path : List ℕ) (close : Bool)
          → cheap_prepend + length (render (with_message (answered w path (with_close close))))
            ≤ max_size)
      → ((path : List ℕ) → Maps w path)
      → Returns (request heap fuel w address re queue) (λ o.
        (r : HttpRequest HeaderFunc) × (o
          ≡ some (if again then ended r else (none, closed (del_timer re queue)))))
  unfolding request HttpParse.new
  request_total {again = false} fuel cs d a h k fits maps =
      new_read_all_lem fuel w.readv cs _ d a (omega arith) k (λ b v same. (_, refl, (re, refl)))
  request_total {again = true} fuel cs d a h k fits maps =
      new_read_all_lem fuel w.readv cs _ d a (omega arith) k λ b v same.
        Returns-bind (parse_request fuel (HttpParse.new re) b) _
          (parse_request_total fuel (HttpParse.new re) v (omega (arith, ap length same)) (λ c. cc))
          λ q done.
            rw
              (
                done.result,
                answer_lem w (file_path (handled done.parser.request)) _ (maps _),
                finish_lem heap w address (handled done.parser.request)
                    (file_size w (file_path (handled done.parser.request)))
                    (responded done.parser.request) (del_timer re queue) done.valid
                    (fits_any fits done.parser.request),
              )
              (_, refl, (done.parser.request, refl))
