-- ===== src/Server/Program.antt =====
-- main_server.cpp event by event: the main thread in its `for` loop, and the tasks that threads of
-- the pool have taken. The requests that a thread is still to serve are kept apart by how far they
-- have come.
pub mod Tasks
pub mod Effects
pub mod Alive
pub mod Safety
pub mod Staffed
pub mod Working
pub mod Progress
pub mod Serving
use mathlib.Core.List.{Mem}
use httpd_cpp.Base.{
  ℕ, ◌+◌, ◌-◌, ◌≤◌, ◌<◌, ◌≡◌, Bool, true, false, List, [], ◌∷◌, ◌++◌, map, length, Option, some, ok,
  ltb, ◌==◌, if◌then◌else◌,
}
use httpd_cpp.RequestStore.{find}
use httpd_cpp.Timer.{Timer, TimeVal}
use httpd_cpp.PriorityQueue.{MinHeap, del_timer}
use httpd_cpp.PriorityQueue.Expire.{live, now}
use httpd_cpp.HttpRequest.{HttpRequest}
use httpd_cpp.ThreadPool
use httpd_cpp.ThreadPool.{ThreadPool, put}
use httpd_cpp.EPoll.{Event}
use httpd_cpp.Callback.{World, HeaderFunc}
use httpd_cpp.Server.{Server, Io, erase, expire, handle_event, run_task}
use httpd_cpp.Server.Sweeping.{exists_at}
use httpd_cpp.Server.Events.{Works}
use httpd_cpp.Server.Rounds.{woken}

-- `todo` are the events of the round that are left. `blocked` is the request whose `pool.run` waits
-- for a place, one at most. `taken` are the requests of tasks that a thread has popped, `running`
-- those of tasks that have done `del_timer`, the first statement of the callback; `run_task`, the whole
-- callback, marks the same timer once more.
pub record Program : Type 0 where
  pub server : Server
  pub todo : List Event
  pub blocked : List ℕ
  pub taken : List ℕ
  pub running : List ℕ

abbrev pub at_start : Server → Program
at_start s = record { server = s; todo = []; blocked = []; taken = []; running = [] }

-- How often a request stands in a list.
unfoldable pub times : ℕ → List ℕ → ℕ
times a [] = 0
times a (b ∷ bs) = let rest = times a bs in if b == a then rest + 1 else rest

abbrev pub events_for : ℕ → List Event → ℕ
events_for a es = times a (map (λ (e : Event). e.request) es)

-- How many tasks there are for a request.
abbrev pub pending : ℕ → Program → ℕ
pending a p = times a p.server.pool.queue + times a p.blocked + times a p.taken + times a p.running

-- The request that is left waiting in `pool.run`, as the pool before and after it shows.
abbrev pub left_waiting : ℕ → ThreadPool → ThreadPool → List ℕ
left_waiting a p q = if ltb p.full_waiting q.full_waiting then a ∷ [] else []

unfoldable pub front : List ℕ → List ℕ
front [] = []
front (a ∷ q) = a ∷ []

-- A thread that was woken has the mutex again.
abbrev pub caller_back : ThreadPool → ThreadPool
caller_back p = record p { full_woken = p.full_woken - 1 }

abbrev pub worker_back : ThreadPool → ThreadPool
worker_back p = record p { woken = p.woken - 1; busy = p.busy + 1 }

-- The events of one `epoll_wait`: for a request one at most, only while it exists, and, as EPOLLONESHOT
-- asks, not while there is a task for it.
pub record Reported (es : List Event) (p : Program) : Type 0 where
  pub once : (a : ℕ) → events_for a es ≤ 1
  pub present : (a : ℕ) → 0 < events_for a es → exists_at (find a p.server.requests) ≡ true
  pub armed : (a : ℕ) → 0 < events_for a es → pending a p ≡ 0

-- `clock k` is the time of day at the readings of the k-th sweep.
module _ (heap : MinHeap) (clock : ℕ → ℕ → TimeVal) where
  pub data Step (p : Program) : Program → Type 0 where
    wait_none :
        (system : ℕ → Option (List Event))
        → p.todo ≡ []
        → p.blocked ≡ []
        → system (length p.server.epoll.events) ≡ some []
        → Step p (record p { server = woken heap [] p.server })
    wait_some :
        (fuel k : ℕ) (system : ℕ → Option (List Event)) (e : Event) (es : List Event) {s : Server}
        → p.todo ≡ []
        → p.blocked ≡ []
        → system (length p.server.epoll.events) ≡ some (e ∷ es)
        → length p.server.queue.timers < fuel
        → expire heap fuel (clock k) (woken heap (e ∷ es) p.server) ≡ ok (some s)
        → Step p (record p { server = s; todo = e ∷ es })
    one_event :
        (io : Io) {e : Event} {es : List Event} {s : Server}
        → p.todo ≡ e ∷ es
        → p.blocked ≡ []
        → handle_event heap io e p.server ≡ ok s
        → Step p (record p {
          server = s;
          todo = es;
          blocked = left_waiting e.request p.server.pool s.pool;
        })
    resume_run :
        {a : ℕ}
        → p.blocked ≡ a ∷ []
        → 0 < p.server.pool.full_woken
        → Step p (record p {
          server = record p.server { pool = put a (caller_back p.server.pool) };
          blocked = left_waiting a (caller_back p.server.pool) (put a (caller_back p.server.pool));
        })
    call_take :
        0 < p.server.pool.busy
        → Step p (record p {
          server = record p.server { pool = ThreadPool.take p.server.pool };
          taken = front p.server.pool.queue ++ p.taken;
        })
    resume_take :
        0 < p.server.pool.woken
        → Step p (record p {
          server = record p.server { pool = ThreadPool.take (worker_back p.server.pool) };
          taken = front p.server.pool.queue ++ p.taken;
        })
    other_pool :
        {q : ThreadPool}
        → ThreadPool.Step p.server.pool q
        → q.queue ≡ p.server.pool.queue
        → Step p (record p { server = record p.server { pool = q } })
    begin_task :
        (a : ℕ) {r : HttpRequest HeaderFunc}
        → 0 < times a p.taken
        → find a p.server.requests ≡ some r
        → Step p (record p {
          server = record p.server { queue = del_timer r p.server.queue };
          taken = erase a p.taken;
          running = a ∷ p.running;
        })
    end_task :
        (fuel a : ℕ) (w : World) {s : Server}
        → 0 < times a p.running
        → run_task heap fuel w a p.server ≡ ok (some s)
        → Step p (record p { server = s; running = erase a p.running })

  pub data Reach (p : Program) : Program → Type 0 where
    here : Reach p p
    next : {q r : Program} → Reach p q → Step q r → Reach p r

  -- The system answers as it is documented to.
  unfoldable pub Answers : {p q : Program} → Step p q → Type 0
  Answers {p} (wait_some fuel k system e es a b c d f) = Reported (e ∷ es) p
  Answers (one_event io a b c) = Works io
  Answers _ = Unit {0}

  -- The timers are long enough: no sweep finds a timer run out whose request's task was handed over
  -- and has not begun.
  unfoldable pub LongEnough : {p q : Program} → Step p q → Type 0
  LongEnough {p} (wait_some fuel k system e es a b c d f) =
      (t : Timer) (a : ℕ) (i : ℕ)
      → Mem t (live p.server.queue.timers)
      → t.request ≡ some a
      → 0 < times a p.server.pool.queue + times a p.taken
      → now heap (clock k) i ≤ t.key
  LongEnough _ = Unit {0}

  -- Every step of a run is as `P` says.
  unfoldable pub Always :
      ((p q : Program) → Step p q → Type 0) → {p q : Program} → Reach p q → Type 0
  Always P here = Unit {0}
  Always P (next {q} {r} run st) = Always P run × P q r st
