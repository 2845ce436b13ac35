-- ===== src/Server/Steps.antt =====
-- The program as a whole: the main thread and the threads of the pool, from the set-up on.
use httpd_cpp.Base.{ℕ, ◌+◌, ◌<◌, ◌≡◌, List, length, Option, some, ok}
use httpd_cpp.Timer.{TimeVal}
use httpd_cpp.PriorityQueue.{MinHeap}
use httpd_cpp.ThreadPool
use httpd_cpp.ThreadPool.{ThreadPool}
use httpd_cpp.EPoll.{Event}
use httpd_cpp.Callback.{World}
use httpd_cpp.Server.{Server, Io, round, handle_events, run_task}

-- `clock k` is the time of day at the readings of the k-th sweep, and `io n` what is answered for the
-- n-th event, of all.
module _ (heap : MinHeap) (clock : ℕ → ℕ → TimeVal) (io : ℕ → Io) where
  -- A round; the rest of its events, once the pool has a place; a task that a thread has taken; and
  -- what the threads of the pool do under its mutex. The program takes these steps, in fewer orders.
  pub data Step (s : Server) : Server → Type 0 where
    do_round :
        (fuel k i : ℕ) (system : ℕ → Option (List Event)) {rest : List Event} {s' : Server}
        → length s.queue.timers < fuel
        → round heap fuel system (clock k) (λ n. io (i + n)) s ≡ ok (some (rest, s'))
        → Step s s'
    do_rest :
        (i : ℕ) (es : List Event) {rest : List Event} {s' : Server}
        → handle_events heap io i es s ≡ ok (rest, s')
        → Step s s'
    do_task :
        (fuel address : ℕ) (w : World) {s' : Server}
        → run_task heap fuel w address s ≡ ok (some s')
        → Step s s'
    do_pool : {p : ThreadPool} → ThreadPool.Step s.pool p → Step s (record s { pool = p })

  pub data Reach (s : Server) : Server → Type 0 where
    start : Reach s s
    further : {t u : Server} → Reach s t → Step t u → Reach s u
