-- ===== src/Callback/Closing.antt =====
-- The end of the callback: what it writes, and when it closes the connection.
use httpd_cpp.Base.{
  ℕ, ◌+◌, ◌≤◌, ◌<◌, ◌≡◌, refl, ap, ◌∙◌, ◌&&◌, if◌then◌else◌, ==-false_of_lt, ◌++◌, length,
  length-append, some, ok, arith,
}
use httpd_cpp.Bytes.{crlf}
use httpd_cpp.Buffer.{Buffer, cheap_prepend, max_size, retrieve_all}
use httpd_cpp.Buffer.Content.{IsValid}
use httpd_cpp.Buffer.Reading.{retrieve_all_lem}
use httpd_cpp.Buffer.Fd.{sent, write_fd_lem}
use httpd_cpp.HttpRequest.{HttpRequest}
use httpd_cpp.HttpResponse.{HttpResponse}
use httpd_cpp.HttpResponse.Render.{
  render, append_to_buffer_lem, render_connection, render_headers, status_line,
}
use httpd_cpp.PriorityQueue.{MinHeap, TimerQueue, add_timer}
use httpd_cpp.Callback.{
  World, HeaderFunc, Outcome, closed, kept, all_sent, finish, timeout, close_connect,
}

-- A response is longer than its body.
length-render : (r : HttpResponse) → length r.body < length (render r)
length-render r =
    let connection = render_connection r.close_connection r.body in
    let headers = render_headers r.headers in
    omega (
      arith,
      length-append (status_line r)
          (r.status_message ++ (crlf ++ (connection ++ (headers ++ (crlf ++ r.body))))),
      length-append r.status_message (crlf ++ (connection ++ (headers ++ (crlf ++ r.body)))),
      length-append connection (headers ++ (crlf ++ r.body)),
      length-append headers (crlf ++ r.body),
    )

module _ (heap : MinHeap) (w : World) (address : ℕ) (re : HttpRequest HeaderFunc) (size : ℕ)
    (response : HttpResponse) (queue : TimerQueue) where
  -- The connection stays open, with a new timer.
  abbrev pub kept_open : Outcome
  kept_open =
      let (re', queue') = add_timer heap address re timeout (some close_connect) w.time queue in
      kept re' queue'

  pub finish_lem :
      {buf : Buffer}
      → IsValid buf
      → cheap_prepend + length (render response) ≤ max_size
      → finish heap w address re size response queue buf
        ≡ ok (
          w.write (render response),
          if all_sent (w.write (render response)) size && response.close_connection
              then closed queue
              else kept_open,
        )
  unfolding finish retrieve_all
  finish_lem {buf} v h =
      let e = retrieve_all_lem v in
      let (b', q, a) = append_to_buffer_lem response e.valid h in
      rw (q, write_fd_lem w.write a.valid, a.content, e.content) refl

  -- A count of more bytes than the file has does not close the connection.
  pub open_after_write :
      w.write (render response) ≡ sent (length (render response))
      → size ≤ length response.body
      → (if all_sent (w.write (render response)) size && response.close_connection
          then closed queue
          else kept_open)
        ≡ kept_open
  unfolding all_sent
  open_after_write e s =
      ap (λ c. if all_sent c size && response.close_connection then closed queue else kept_open) e
      ∙ ap (λ c. if c && response.close_connection then closed queue else kept_open)
          (==-false_of_lt _ _ (omega (arith, length-render response)))

  -- If `write` takes the whole response, the buffer is valid, the response fits its vector, and
  -- the file is no longer than the response's body: the connection stays open with a new timer,
  -- also where the response asks to close it.
  pub finish_keeps_open :
      {buf : Buffer}
      → IsValid buf
      → cheap_prepend + length (render response) ≤ max_size
      → w.write (render response) ≡ sent (length (render response))
      → size ≤ length response.body
      → finish heap w address re size response queue buf
        ≡ ok (sent (length (render response)), kept_open)
  finish_keeps_open v h e s = finish_lem v h ∙ ap ok (λ i. (e i, open_after_write e s i))
