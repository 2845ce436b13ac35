-- ===== src/Server/Program/Working.antt =====
-- What holds of every state that main_server.cpp reaches: of the requests and of the pool.
use httpd_cpp.Base.{
  ℕ, ◌≤◌, ◌<◌, ◌≡◌, refl, sym, ap, ◌∙◌, subst, inl, inr, List, ◌∷◌, map, some, ok, Option-cases,
  arith,
}
use httpd_cpp.RequestStore.{find}
use httpd_cpp.Timer.{TimeVal}
use httpd_cpp.PriorityQueue.{MinHeap}
use httpd_cpp.PriorityQueue.Expire.{now}
use httpd_cpp.HttpRequest.{HttpRequest}
use httpd_cpp.ThreadPool
use httpd_cpp.ThreadPool.{ThreadPool}
use httpd_cpp.EPoll.{Event}
use httpd_cpp.Callback.{World, HeaderFunc, Outcome, closed, kept}
use httpd_cpp.Server.{Server, Setup, set_up, run_task}
use httpd_cpp.Server.Idle.{expired_lem}
use httpd_cpp.Server.Races.{run_task-absent}
use httpd_cpp.Server.Rounds.{woken}
use httpd_cpp.Server.Tasks.{after, run_task-ran}
use httpd_cpp.Server.Program.{
  Program, at_start, events_for, caller_back, Step, Reach, wait_none, wait_some, one_event,
  resume_run, call_take, resume_take, other_pool, begin_task, end_task, here, next, Answers,
  LongEnough, Always,
}
use httpd_cpp.Server.Program.Tasks.{times-same, times-cons}
use httpd_cpp.Server.Program.Alive.{Alive}
use httpd_cpp.Server.Program.Safety.{Step-Alive, at_start-Alive}
use httpd_cpp.Server.Program.Staffed.{
  Staffed, other-Staffed, put-Staffed, call_take-Staffed, resume_take-Staffed, event-Staffed,
  set_up-Staffed,
}

pub record Working (p : Program) : Type 0 where
  pub alive : Alive p
  pub staffed : Staffed p.server.pool p.blocked

after-pool :
    (heap : MinHeap) (w : World) (a : ℕ) (r : HttpRequest HeaderFunc) (s : Server) (o : Outcome)
    → (after heap w a r s o).pool ≡ s.pool
after-pool heap w a r s (closed q) = refl
after-pool heap w a r s (kept r' q) = refl

-- A task leaves the pool as it is.
pub run_task-pool :
    (heap : MinHeap) (w : World) (fuel a : ℕ) (s : Server) {s' : Server}
    → run_task heap fuel w a s ≡ ok (some s')
    → s'.pool ≡ s.pool
run_task-pool heap w fuel a s e = elim (Option-cases (find a s.requests)) [
  | inl n ↦ (let d = run_task-absent heap fuel w a s n in cc)
  | inr (r, f) ↦
      (let (o, ran, left) = run_task-ran heap w a fuel s f e in
        ap (λ (t : Server). t.pool) (sym left) ∙ after-pool heap w a r s o.1)
]

-- The next event's request is known.
pub next_known :
    (p : Program) {e : Event} {es : List Event} → p.todo ≡ e ∷ es → 0 < events_for e.request p.todo
next_known p {e} {es} h =
    subst (λ us. 0 < events_for e.request us) (sym h)
      (omega (
        arith,
        times-cons e.request e.request (map (λ (u : Event). u.request) es),
        times-same e.request e.request refl,
      ))

module _ (heap : MinHeap) (clock : ℕ → ℕ → TimeVal)
    (mono : (k i j : ℕ) → i ≤ j → now heap (clock k) i ≤ now heap (clock k) j) where
  Step-Staffed :
      {p q : Program} (st : Step heap clock p q)
      → Answers heap clock st
      → Alive p
      → Staffed p.server.pool p.blocked
      → Staffed q.server.pool q.blocked
  unfolding Answers
  Step-Staffed (wait_none system todo unblocked h) _ a v = v
  Step-Staffed {p} (wait_some fuel k system e es {s} todo unblocked h enough ran) _ a v =
      let (x, y) =
        expired_lem heap fuel (clock k) (mono k) (woken heap (e ∷ es) p.server) a.inv enough ran in
      subst (λ (q : ThreadPool). Staffed q p.blocked) (sym x.pool) v
  Step-Staffed {p} (one_event io {e} {es} todo unblocked h) works a v =
      event-Staffed heap io e p.server works (a.known e.request (next_known p todo)) h
        (subst (Staffed p.server.pool) unblocked v)
  Step-Staffed {p} (resume_run {a} blocked h) _ _ v =
      put-Staffed a (caller_back p.server.pool) (ThreadPool.resume_run a h) v
  Step-Staffed {p} (call_take h) _ _ v = call_take-Staffed p.server.pool h v
  Step-Staffed {p} (resume_take h) _ _ v = resume_take-Staffed p.server.pool h v
  Step-Staffed (other_pool step same) _ _ v = other-Staffed step same v
  Step-Staffed (begin_task a h f) _ _ v = v
  Step-Staffed {p} (end_task fuel a w h e) _ _ v =
      subst (λ (q : ThreadPool). Staffed q p.blocked) (sym (run_task-pool heap w fuel a p.server e))
        v

  pub Step-Working :
      {p q : Program} (st : Step heap clock p q)
      → Answers heap clock st
      → LongEnough heap clock st
      → Working p
      → Working q
  Step-Working st works long v = record {
    alive = Step-Alive heap clock mono st works long v.alive;
    staffed = Step-Staffed st works v.alive v.staffed;
  }

  pub Reach-Working :
      (system : Setup) (address : ℕ) {s : Server} {p : Program}
      (run : Reach heap clock (at_start s) p)
      → set_up system address ≡ ok s
      → Always heap clock (λ q r st. Answers heap clock st) run
      → Always heap clock (λ q r st. LongEnough heap clock st) run
      → Working p
  unfolding Always
  Reach-Working system address here e works long = record {
    alive = at_start-Alive system address e;
    staffed = set_up-Staffed system address e;
  }
  Reach-Working system address (next run st) e (works, a) (long, l) =
      Step-Working st a l (Reach-Working system address run e works long)
