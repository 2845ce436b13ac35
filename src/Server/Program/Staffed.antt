-- ===== src/Server/Program/Staffed.antt =====
-- The pool of main_server.cpp among the steps of the program: its invariant, its workers, and the
-- main thread that waits in `pool.run`.
use httpd_cpp.Base.{ℕ, ◌≤◌, ◌<◌, ◌≡◌, ap, subst, true, List, [], length, Result, ok, of_ok, arith}
use httpd_cpp.PriorityQueue.{MinHeap}
use httpd_cpp.ThreadPool
use httpd_cpp.ThreadPool.{ThreadPool, put}
use httpd_cpp.ThreadPool.Invariant
use httpd_cpp.ThreadPool.Invariant.{start-Inv}
use httpd_cpp.ThreadPool.Callers.{callers, Step-workers, Step-callers, take-counts}
use httpd_cpp.EPoll.{Event}
use httpd_cpp.Server.{Server, Io, Setup, set_up, handle_event, drop_connection, dispatch}
use httpd_cpp.Server.SetUp.{set_up_cases}
use httpd_cpp.Server.Sweeping.{is_known}
use httpd_cpp.Server.Events.{Works}
use httpd_cpp.Server.Events.Cases.{EventCases, event_cases, skipped, accepted, dropped, dispatched}
use httpd_cpp.Server.Program.{left_waiting, worker_back}

-- The pool keeps to its invariant and has workers, and the main thread waits for one place at most,
-- as one of the callers that the pool counts.
pub record Staffed (pool : ThreadPool) (blocked : List ℕ) : Type 0 where
  pub inv : Invariant.Inv pool
  pub workers : 0 < pool.workers
  pub counted : length blocked ≤ callers pool
  pub one : length blocked ≤ 1

left_waiting-counted :
    (a : ℕ) (p q : ThreadPool)
    → (length (left_waiting a p q) ≤ callers q) × (length (left_waiting a p q) ≤ 1)
left_waiting-counted a p q = ground arith

-- A step of the pool in which the caller that waits stays.
pub pool-Staffed :
    {p q : ThreadPool} {blocked : List ℕ}
    → ThreadPool.Step p q
    → callers p ≤ callers q
    → Staffed p blocked
    → Staffed q blocked
pool-Staffed st more v = record {
  inv = Invariant.Step-Inv st v.inv;
  workers = omega (arith, v.workers, Step-workers st);
  counted = omega (arith, v.counted, more);
  one = v.one;
}

pub other-Staffed :
    {p q : ThreadPool} {blocked : List ℕ}
    → ThreadPool.Step p q
    → q.queue ≡ p.queue
    → Staffed p blocked
    → Staffed q blocked
other-Staffed st same v = pool-Staffed st (Step-callers st same) v

-- A call of `run`, or the end of its wait.
pub put-Staffed :
    {p q : ThreadPool} {blocked : List ℕ} (a : ℕ) (r : ThreadPool)
    → ThreadPool.Step p q
    → Staffed p blocked
    → Staffed q (left_waiting a r q)
put-Staffed {q = q} a r st v = record {
  inv = Invariant.Step-Inv st v.inv;
  workers = omega (arith, v.workers, Step-workers st);
  counted = (left_waiting-counted a r q).0;
  one = (left_waiting-counted a r q).1;
}

pub call_take-Staffed :
    (p : ThreadPool) {blocked : List ℕ}
    → 0 < p.busy
    → Staffed p blocked
    → Staffed (ThreadPool.take p) blocked
call_take-Staffed p h v = pool-Staffed (ThreadPool.call_take h) (omega (arith, (take-counts p).1)) v

pub resume_take-Staffed :
    (p : ThreadPool) {blocked : List ℕ}
    → 0 < p.woken
    → Staffed p blocked
    → Staffed (ThreadPool.take (worker_back p)) blocked
resume_take-Staffed p h v =
    pool-Staffed (ThreadPool.resume_take h) (omega (arith, (take-counts (worker_back p)).1)) v

unmoved-Staffed : (a : ℕ) {p q : ThreadPool} → p ≡ q → Staffed p [] → Staffed q (left_waiting a p q)
unmoved-Staffed a {p} {q} e v =
    subst (λ r. Staffed r (left_waiting a p r)) e
      (record {
        inv = v.inv;
        workers = v.workers;
        counted = (left_waiting-counted a p p).0;
        one = (left_waiting-counted a p p).1;
      })

module _ (heap : MinHeap) (io : Io) (e : Event) (s : Server) where
  case-Staffed :
      {m : Result Server} {s' : Server}
      → EventCases heap io e s m
      → m ≡ ok s'
      → Staffed s.pool []
      → Staffed s'.pool (left_waiting e.request s.pool s'.pool)
  unfolding drop_connection dispatch
  case-Staffed skipped h v = unmoved-Staffed e.request (ap (λ (t : Server). t.pool) (of_ok h)) v
  case-Staffed (accepted connfd) h v =
      unmoved-Staffed e.request (ap (λ (t : Server). t.pool) (of_ok h)) v
  case-Staffed (dropped f) h v = unmoved-Staffed e.request (ap (λ (t : Server). t.pool) (of_ok h)) v
  case-Staffed (dispatched f) h v =
      subst (λ (t : Server). Staffed t.pool (left_waiting e.request s.pool t.pool)) (of_ok h)
        (put-Staffed e.request s.pool (ThreadPool.run e.request v.workers) v)

  pub event-Staffed :
      {s' : Server}
      → Works io
      → is_known s e.request ≡ true
      → handle_event heap io e s ≡ ok s'
      → Staffed s.pool []
      → Staffed s'.pool (left_waiting e.request s.pool s'.pool)
  event-Staffed w k h v = case-Staffed (event_cases heap io e s w k) h v

pub set_up-Staffed :
    (system : Setup) (address : ℕ) {s : Server} → set_up system address ≡ ok s → Staffed s.pool []
unfolding ThreadPool.start ThreadPool.set_max_queue_size ThreadPool.new
set_up-Staffed system address h =
    let (poll, sockfd, same) = set_up_cases system address h in
    subst (λ (t : Server). Staffed t.pool []) same
      (record {
        inv = start-Inv 20 2;
        workers = omega arith;
        counted = omega arith;
        one = omega arith;
      })
