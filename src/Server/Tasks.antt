-- ===== src/Server/Tasks.antt =====
-- A thread of the pool with its task, and the requests and timers that it leaves.
use httpd_cpp.Base.{
  of_ok, of_some, ℕ, ◌≡◌, refl, ap, ◌∙◌, subst, Bool, true, false, ◌&&◌, inl, inr, [], ◌∷◌, ◌++◌,
  Option, some, ok, between, ==_refl, Option-cases, if◌then◌else◌,
}
use httpd_cpp.RequestStore.{find, remove, find-remove}
use httpd_cpp.Buffer
use httpd_cpp.Buffer.{Buffer, initial_size, retrieve_all}
use httpd_cpp.Buffer.Fd.{Sent, write_fd}
use httpd_cpp.PriorityQueue.{MinHeap, TimerQueue, add_timer, del_timer}
use httpd_cpp.PriorityQueue.Delete.{add_timer_lem}
use httpd_cpp.HttpRequest.{HttpRequest}
use httpd_cpp.HttpParse
use httpd_cpp.HttpParse.{parse_request}
use httpd_cpp.HttpResponse
use httpd_cpp.Base.{arith}
use httpd_cpp.HttpParse.Descriptor.{parse_request-fd}
use httpd_cpp.HttpRequest.{add_header_func}
use httpd_cpp.Callback.{handle_headers}
use httpd_cpp.HttpResponse.{HttpResponse, append_to_buffer}
use httpd_cpp.Callback.{
  World, HeaderFunc, Outcome, closed, kept, all_sent, answer, finish, timeout, close_connect,
  read_all,
}
use httpd_cpp.Callback
use httpd_cpp.Server.{Server, run_task}
use httpd_cpp.Server.Races.{run_task-absent}
use httpd_cpp.Server.Ownership.{Inv, drop-Inv, add-Inv}

headers-fd :
    (re : HttpRequest HeaderFunc) (response : HttpResponse)
    → (handle_headers re response).0.fd ≡ re.fd
unfolding handle_headers add_header_func
headers-fd re response = ground arith

module _ (heap : MinHeap) (w : World) (address : ℕ) where
  -- How the callback can end: the connection is closed, or it has a new timer and its descriptor.
  pub data Ending (fd : ℕ) (queue : TimerQueue) : Outcome → Type 0 where
    was_closed : Ending fd queue (closed queue)
    was_kept :
        (re : HttpRequest HeaderFunc)
        → re.fd ≡ fd
        → Ending fd queue (
            kept
              (add_timer heap address re timeout (some close_connect) w.time queue).0
              (add_timer heap address re timeout (some close_connect) w.time queue).1)

  either :
      (re : HttpRequest HeaderFunc) (queue : TimerQueue) (b : Bool)
      → Ending re.fd queue (
          if b
          then closed queue
          else kept
              (add_timer heap address re timeout (some close_connect) w.time queue).0
              (add_timer heap address re timeout (some close_connect) w.time queue).1)
  either re queue true = was_closed
  either re queue false = was_kept re refl

  finish-Ending :
      (re : HttpRequest HeaderFunc) (size : ℕ) (response : HttpResponse) (queue : TimerQueue)
      (buf : Buffer) {o : Sent × Outcome}
      → finish heap w address re size response queue buf ≡ ok o
      → Ending re.fd queue o.1
  unfolding finish
  finish-Ending re size response queue buf {o} e =
      let (buf', e1, rest) = between (append_to_buffer response (retrieve_all buf)) _ e in
      let (count, e2, same) = between (write_fd w.write buf') _ rest in
      subst (λ (p : Sent × Outcome). Ending re.fd queue p.1) (of_ok same)
        (either re queue (all_sent count size && response.close_connection))

  pub request-Ending :
      (fuel : ℕ) (re : HttpRequest HeaderFunc) (queue : TimerQueue) {p : Option Sent × Outcome}
      → Callback.request heap fuel w address re queue ≡ ok (some p)
      → Ending re.fd (del_timer re queue) p.1
  unfolding Callback.request handle_headers add_header_func HttpParse.new
  request-Ending fuel re queue {p} e =
      let (buf, e1, read) = between (Buffer.new initial_size) _ e in
      let (r, e2, parsed) = between (read_all fuel w.readv 0 buf) _ read in
      elim (Option-cases r) [
        | inl n ↦ (let h = rw n at parsed in cc)
        | inr ((false, buf'), s) ↦
            (let h = rw s at parsed in
              subst (λ (o : Option Sent × Outcome). Ending re.fd (del_timer re queue) o.1)
                (of_some (of_ok h)) was_closed)
        | inr ((true, buf'), s) ↦
            (let h = rw s at parsed in
              let (q, e3, done) = between (parse_request fuel (HttpParse.new re) buf') _ h in
              elim (Option-cases q) [
                | inl n ↦ (let k = rw n at done in cc)
                | inr ((valid, parse, buf''), s') ↦
                    (let k = rw s' at done in
                      let (response, e5, sent) = between (answer w _ _) _ k in
                      let (o, e4, same) = between _ _ sent in
                      subst (λ (o : Option Sent × Outcome). Ending re.fd (del_timer re queue) o.1)
                        (of_some (of_ok same))
                        (subst (λ k. Ending k (del_timer re queue) o.1)
                          (headers-fd parse.request (HttpResponse.new false)
                            ∙ parse_request-fd fuel (HttpParse.new re) buf' (e3 ∙ ap ok s'))
                          (finish-Ending _ _ _ _ _ e4)))
              ])
      ]

  -- The server that a run of the callback leaves, by its outcome.
  abbrev pub after : HttpRequest HeaderFunc → Server → Outcome → Server
  after r s (closed queue) = record s {
    queue = queue;
    requests = remove address s.requests;
    closed_fds = s.closed_fds ++ (r.fd ∷ []);
  }
  after r s (kept r' queue) = record s {
    queue = queue;
    requests = (address, r') ∷ remove address s.requests;
  }

  pub after-Inv :
      (r : HttpRequest HeaderFunc) (s : Server) {o : Outcome}
      → Inv s.requests s.queue.timers
      → find address s.requests ≡ some r
      → Ending r.fd (del_timer r s.queue) o
      → Inv (after r s o).requests (after r s o).queue.timers
  after-Inv r s v f was_closed = drop-Inv address r s.queue v f
  after-Inv r s v f (was_kept re same) =
      let (named, perm) =
        add_timer_lem heap address re timeout close_connect w.time (del_timer r s.queue) in
      add-Inv address _ _ (drop-Inv address r s.queue v f)
        (rw (find-remove address address s.requests, ==_refl address) refl) perm refl (λ h. cc) refl
        named

  pub run_task-ran :
      (fuel : ℕ) (s : Server) {r : HttpRequest HeaderFunc} {s' : Server}
      → find address s.requests ≡ some r
      → run_task heap fuel w address s ≡ ok (some s')
      → (p : Option Sent × Outcome) × (Callback.request heap fuel w address r s.queue ≡ ok (some p))
        × (after r s p.1 ≡ s')
  unfolding run_task
  run_task-ran fuel s {r} f e =
      let h = rw (f, run_task) at e in
      let (o, ran, left) = between (Callback.request heap fuel w address r s.queue) _ h in
      elim (Option-cases o) [
        | inl n ↦ (let k = rw n at left in cc)
        | inr ((count, closed queue), n) ↦
            ((count, closed queue), ran ∙ ap ok n, of_some (of_ok (rw n at left)))
        | inr ((count, kept r' queue), n) ↦
            ((count, kept r' queue), ran ∙ ap ok n, of_some (of_ok (rw n at left)))
      ]

  pub run_task-Inv :
      (fuel : ℕ) (s s' : Server)
      → Inv s.requests s.queue.timers
      → run_task heap fuel w address s ≡ ok (some s')
      → Inv s'.requests s'.queue.timers
  run_task-Inv fuel s s' v e = elim (Option-cases (find address s.requests)) [
    | inl none_there ↦ (let h = run_task-absent heap fuel w address s none_there in cc)
    | inr (r, f) ↦
        (let (p, ran, left) = run_task-ran fuel s f e in
          subst (λ (u : Server). Inv u.requests u.queue.timers) left
            (after-Inv r s v f (request-Ending fuel r s.queue ran)))
  ]
