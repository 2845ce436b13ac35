-- ===== src/Server/Answering.antt =====
-- A readable connection, from its event in the main thread to the response that a thread of the
-- pool writes.
use mathlib.Core.List.{Mem, mem-cons_self, mem-filter}
use mathlib.Core.List.Perm
use httpd_cpp.Base.{
  ℕ, ◌+◌, ◌<◌, ◌≤◌, ◌≡◌, refl, ap, ◌∙◌, false, List, ◌∷◌, [], ◌++◌, length, Option, some, ok,
  add_size, ◌==◌, ==_refl, arith, Returns,
}
use httpd_cpp.Buffer.{cheap_prepend, initial_size, max_size}
use httpd_cpp.Buffer.Fd.{Received, Sent, sent}
use httpd_cpp.Timer
use httpd_cpp.Timer.{Timer, TimeVal}
use httpd_cpp.HttpRequest
use httpd_cpp.RequestStore.{find}
use httpd_cpp.PriorityQueue.{MinHeap, TimerQueue, del_timer, add_timer}
use httpd_cpp.PriorityQueue.Delete.{add_timer_lem}
use httpd_cpp.PriorityQueue.Expire.{live}
use httpd_cpp.HttpRequest.{HttpRequest}
use httpd_cpp.HttpParse.RoundTrip.{Target, Header, IsWritable, AllHeaders, print_request}
use httpd_cpp.HttpResponse.Render.{render}
use httpd_cpp.ThreadPool.{ThreadPool, is_full, put, notify_not_empty}
use httpd_cpp.EPoll.{Event}
use httpd_cpp.Callback
use httpd_cpp.Callback.{
  World, HeaderFunc, Outcome, close_connect, eagain, file_path, file_size, timeout, kept, closed,
  all_sent,
}
use httpd_cpp.Callback.Files.{Maps}
use httpd_cpp.Callback.Reads.{Answers, joined}
use httpd_cpp.Callback.Closing.{open_after_write}
use httpd_cpp.Callback.Serving.{parsed, response, request_lem}
use httpd_cpp.Server.{Server, Io, contains, handle_event, is_broken, dispatch, run_task}
use httpd_cpp.Server.Events.{dispatched_eq}
use httpd_cpp.Server.Tasks.{after, Ending, was_closed, was_kept, request-Ending}

-- A run of the callback that is known, in the server.
pub run_task-eq :
    (heap : MinHeap) (w : World) (a fuel : ℕ) (s : Server) {r : HttpRequest HeaderFunc}
    {x : Option Sent} (o : Outcome)
    → find a s.requests ≡ some r
    → Callback.request heap fuel w a r s.queue ≡ ok (some (x, o))
    → run_task heap fuel w a s ≡ ok (some (after heap w a r s o))
unfolding run_task
run_task-eq heap w a fuel s (closed queue) f e = rw (f, run_task, e) refl
run_task-eq heap w a fuel s (kept r' queue) f e = rw (f, run_task, e) refl

-- The connection is open again, with a fresh timer that runs out `timeout` after the time `tv`.
pub record Open (a : ℕ) (re : HttpRequest HeaderFunc) (tv : TimeVal) (closed_before : List ℕ)
    (s' : Server) : Type 0 where
  pub request : HttpRequest HeaderFunc
  pub found : find a s'.requests ≡ some request
  pub same : request.fd ≡ re.fd
  pub none_closed : s'.closed_fds ≡ closed_before
  pub timer : Timer
  pub waits : Mem timer (live s'.queue.timers)
  pub named : timer.request ≡ some a
  pub named_back : request.timer ≡ some timer.address
  pub key : timer.key ≡ add_size (Timer.time_update tv) timeout

kept-Open :
    (heap : MinHeap) (w : World) (a : ℕ) (re r : HttpRequest HeaderFunc) (s : Server)
    (q : TimerQueue)
    → r.fd ≡ re.fd
    → let (r', q') = add_timer heap a r timeout (some close_connect) w.time q in
      Open a re w.time s.closed_fds (after heap w a re s (kept r' q'))
unfolding add_timer find HttpRequest.set_timer
kept-Open heap w a re r s q d =
    let (named, perm) = add_timer_lem heap a r timeout close_connect w.time q in
    let t : Timer = record {
      address = q.next_address;
      key = add_size (Timer.time_update w.time) timeout;
      deleted = false;
      handler = some close_connect;
      request = some a;
    } in
    record {
      request = (add_timer heap a r timeout (some close_connect) w.time q).0;
      found = rw (==_refl a) refl;
      same = d;
      none_closed = refl;
      timer = t;
      waits = (mem-filter _).1 ((Perm.mem_iff perm).1 mem-cons_self, refl);
      named = refl;
      named_back = named;
      key = refl;
    }

abbrev fd_after : Outcome → ℕ → ℕ
fd_after (closed queue) fd = fd
fd_after (kept r queue) fd = r.fd

Ending-fd :
    {heap : MinHeap} {w : World} {a fd : ℕ} {q : TimerQueue} {o : Outcome}
    → Ending heap w a fd q o
    → fd_after o fd ≡ fd
unfolding add_timer HttpRequest.set_timer
Ending-fd was_closed = refl
Ending-fd (was_kept re same) = same

-- `run` of a pool that has room.
put_queue : (a : ℕ) (p : ThreadPool) → is_full p ≡ false → (put a p).queue ≡ p.queue ++ (a ∷ [])
unfolding put notify_not_empty
put_queue a p h = ground (arith, h)

module _ (heap : MinHeap) (w : World) (s : Server) (a : ℕ) (re : HttpRequest HeaderFunc)
    (found : find a s.requests ≡ some re) (t : Target) (hs : List Header) where
  -- A thread of the pool with the task.
  event_answered-task :
      (fuel : ℕ) (cs : List (List ℕ)) (rest : List ℕ)
      → IsWritable t
      → AllHeaders hs
      → joined cs ≡ print_request t hs ++ rest
      → Answers w.readv 0 cs (Received.failed eagain)
      → length cs + length hs + 1 < fuel
      → cheap_prepend + initial_size + length (joined cs) ≤ max_size
      → cheap_prepend + length (render (response heap w a re s.queue t hs)) ≤ max_size
      → w.write (render (response heap w a re s.queue t hs))
        ≡ sent (length (render (response heap w a re s.queue t hs)))
      → file_size w (file_path (parsed heap w a re s.queue t hs))
        ≤ length (response heap w a re s.queue t hs).body
      → Maps w (file_path (parsed heap w a re s.queue t hs))
      → Returns
          (run_task heap fuel w a s)
          (λ o. (s' : Server) × (o ≡ some s') × Open a re w.time s.closed_fds s')
  unfolding add_timer HttpRequest.set_timer
  event_answered-task fuel cs rest wt ah j ans enough small fits whole short maps =
      let (x, ran, same) =
        request_lem heap w a re s.queue t hs fuel cs rest wt ah j ans enough small fits maps in
      let open_again =
        open_after_write heap w a (parsed heap w a re s.queue t hs)
          (file_size w (file_path (parsed heap w a re s.queue t hs)))
          (response heap w a re s.queue t hs) (del_timer re s.queue) whole short in
      let done =
        ran
        ∙ ap ok (
            same
            ∙ ap (λ o. some (some (w.write (render (response heap w a re s.queue t hs))), o))
                open_again) in
      (
        _,
        run_task-eq heap w a fuel s _ found done,
        (
          _,
          refl,
          kept-Open heap w a re (parsed heap w a re s.queue t hs) s (del_timer re s.queue)
              (Ending-fd (request-Ending heap w a fuel re s.queue done)),
        ),
      )

-- A connection's event is readable and not known as deleted, the pool has room, and then some
-- thread of the pool, however the pool has moved on, runs the task: the bytes that `readv` answers
-- before EAGAIN begin with a printed request that is writable, the fuel is above the number of
-- reads and headers and one, what is read and the response each fit a new buffer's vector, `write`
-- takes the whole response, the file is no longer than the response's body, and if `stat` finds
-- the path's file regular and readable by its owner, then where `mmap` maps it as many bytes can
-- be read as `stat` counted. The event puts the request behind the pool's queue; the task ends,
-- closes nothing, and leaves the request with its descriptor and a live timer that it names and
-- that names it, whose key is the time of day and the timeout.
pub event_answered :
    (heap : MinHeap) (io : Io) (fuel : ℕ) (w : World) (s : Server) (p : ThreadPool) (e : Event)
    (re : HttpRequest HeaderFunc) (t : Target) (hs : List Header) (cs : List (List ℕ))
    (rest : List ℕ)
    → contains e.request s.ptr_set ≡ false
    → find e.request s.requests ≡ some re
    → (re.fd == s.sockfd) ≡ false
    → is_broken e.events ≡ false
    → is_full s.pool ≡ false
    → IsWritable t
    → AllHeaders hs
    → joined cs ≡ print_request t hs ++ rest
    → Answers w.readv 0 cs (Received.failed eagain)
    → length cs + length hs + 1 < fuel
    → cheap_prepend + initial_size + length (joined cs) ≤ max_size
    → cheap_prepend + length (render (response heap w e.request re s.queue t hs)) ≤ max_size
    → w.write (render (response heap w e.request re s.queue t hs))
      ≡ sent (length (render (response heap w e.request re s.queue t hs)))
    → file_size w (file_path (parsed heap w e.request re s.queue t hs))
      ≤ length (response heap w e.request re s.queue t hs).body
    → Maps w (file_path (parsed heap w e.request re s.queue t hs))
    → Returns (handle_event heap io e s) (λ s1.
      (s1.pool.queue ≡ s.pool.queue ++ (e.request ∷ []))
      × Returns
          (run_task heap fuel w e.request (record s1 { pool = p }))
          (λ o. (s2 : Server) × (o ≡ some s2) × Open e.request re w.time s.closed_fds s2))
unfolding dispatch
event_answered heap io fuel w s p e re t hs cs rest c f l b room wt ah j ans enough small fits whole
      short maps =
    (
      dispatch e.request s,
      dispatched_eq heap io e s c f l b,
      (
        put_queue e.request s.pool room,
        event_answered-task heap w (record s { pool = p }) e.request re f t hs fuel cs rest wt ah j
            ans enough small fits whole short maps,
      ),
    )
