-- ===== src/Callback/Serving.antt =====
-- The whole callback, from the bytes of the socket to the bytes written to it.
use httpd_cpp.Base.{
  ℕ, ◌+◌, ◌≤◌, ◌<◌, ◌≡◌, refl, ◌∙◌, false, ◌&&◌, if◌then◌else◌, List, ◌++◌, length, some, none,
  true, fail, out_of_bounds, arith, Returns,
}
use httpd_cpp.Buffer.{cheap_prepend, initial_size, max_size}
use httpd_cpp.Buffer.Fd.{Received}
use httpd_cpp.HttpRequest.{HttpRequest}
use httpd_cpp.HttpParse.RoundTrip.{
  Target, Header, IsWritable, AllHeaders, print_request, requested, with_headers,
  parse_print_request,
}
use httpd_cpp.HttpResponse
use httpd_cpp.HttpResponse.{HttpResponse}
use httpd_cpp.HttpResponse.Render.{render}
use httpd_cpp.PriorityQueue.{MinHeap, TimerQueue, del_timer}
use httpd_cpp.Callback.{
  World, Stat, HeaderFunc, Outcome, closed, all_sent, file_path, file_size, handle_headers,
  with_message, eagain, request,
}
use httpd_cpp.Callback.Closing.{kept_open, finish_lem}
use httpd_cpp.Callback.Files.{Maps, answered, answer_lem, answer_unmapped}
use httpd_cpp.Callback.Reads.{Answers, Ends, fails, joined, new_read_all_lem, reads_before}

module _ (heap : MinHeap) (w : World) (address : ℕ) (re : HttpRequest HeaderFunc)
    (queue : TimerQueue) where
  -- Where the stream ends, or `readv` fails in another way than EAGAIN, after any bytes that fit a
  -- new buffer's vector, and the fuel is above the number of reads: the callback writes nothing,
  -- closes the connection and marks the request's timer.
  request_hung_up :
      {last : Received} (fuel : ℕ) (cs : List (List ℕ))
      → Ends last false
      → Answers w.readv 0 cs last
      → length cs < fuel
      → cheap_prepend + initial_size + length (joined cs) ≤ max_size
      → Returns
          (request heap fuel w address re queue)
          (λ o. o ≡ some (none, closed (del_timer re queue)))
  unfolding request
  request_hung_up fuel cs d a h k =
      new_read_all_lem fuel w.readv cs _ d a h k (λ b v same. (_, refl, refl))

  -- The request as the header functions see it, and the response to it.
  module _ (t : Target) (hs : List Header) where
    abbrev pub parsed : HttpRequest HeaderFunc
    parsed = (handle_headers (with_headers hs (requested t re)) (HttpResponse.new false)).0

    abbrev pub response : HttpResponse
    response = with_message (
        answered w (file_path parsed)
          (handle_headers (with_headers hs (requested t re)) (HttpResponse.new false)).1)

    abbrev pub outcome : Outcome
    outcome =
        if all_sent (w.write (render response)) (file_size w (file_path parsed))
          && response.close_connection
        then closed (del_timer re queue)
        else kept_open heap w address parsed (file_size w (file_path parsed)) response
            (del_timer re queue)

    -- The bytes that `readv` answers before EAGAIN begin with a printed request that is writable,
    -- the fuel is above the number of reads and headers and one, what is read and what is written
    -- each fit a new buffer's vector, and if `stat` finds the path's file regular and readable by
    -- its owner, then where `mmap` maps it as many bytes can be read as `stat` counted: the
    -- callback marks the old timer, writes the response to the parsed request, as it stands after
    -- the header functions, and ends as the count that `write` answers, the file's size and the
    -- response's wish to close say.
    pub request_lem :
        (fuel : ℕ) (cs : List (List ℕ)) (rest : List ℕ)
        → IsWritable t
        → AllHeaders hs
        → joined cs ≡ print_request t hs ++ rest
        → Answers w.readv 0 cs (Received.failed eagain)
        → length cs + length hs + 1 < fuel
        → cheap_prepend + initial_size + length (joined cs) ≤ max_size
        → cheap_prepend + length (render response) ≤ max_size
        → Maps w (file_path parsed)
        → Returns
            (request heap fuel w address re queue)
            (λ o. o ≡ some (some (w.write (render response)), outcome))
    unfolding request
    request_lem fuel cs rest wt ah j a h k m maps =
        new_read_all_lem fuel w.readv cs _ (fails eagain) a (omega arith) k λ b v same.
          let (o, g, (b', e, held)) =
            parse_print_request t hs fuel re rest v wt ah (omega arith) (same ∙ j) in
          rw
            (
              g,
              e,
              answer_lem w (file_path parsed) _ maps,
              finish_lem heap w address parsed (file_size w (file_path parsed)) response
                  (del_timer re queue) held.valid m,
            )
            (_, refl, refl)

    -- The bytes that `readv` answers before EAGAIN begin with a printed request that is writable,
    -- the fuel is above the number of reads and headers and one, and what is read fits a new
    -- buffer's vector; `stat` finds the path's file regular, readable by its owner and not empty,
    -- and `mmap` of what `open` answers fails: the callback reads the body from outside any
    -- mapping.
    pub request_unmapped :
        (fuel : ℕ) (cs : List (List ℕ)) (rest : List ℕ) {s : Stat}
        → IsWritable t
        → AllHeaders hs
        → joined cs ≡ print_request t hs ++ rest
        → Answers w.readv 0 cs (Received.failed eagain)
        → length cs + length hs + 1 < fuel
        → cheap_prepend + initial_size + length (joined cs) ≤ max_size
        → w.stat (file_path parsed) ≡ some s
        → s.regular ≡ true
        → s.readable ≡ true
        → w.mmap s.size (w.open_file (file_path parsed)) ≡ none
        → 0 < s.size
        → request heap fuel w address re queue ≡ fail out_of_bounds
    unfolding request
    request_unmapped fuel cs rest wt ah j a h k found regular readable failed some_bytes =
        reads_before fuel w.readv cs _ (fails eagain) a (omega arith) k λ b v same.
          let (o, g, (b', e, held)) =
            parse_print_request t hs fuel re rest v wt ah (omega arith) (same ∙ j) in
          rw (g, e, answer_unmapped w (file_path parsed) _ found regular readable failed some_bytes)
            refl
