-- ===== src/Server/Program/Effects.antt =====
-- What an event does to the tasks, the requests and the timers.
use mathlib.Core.List.{Mem, mem-cons, mem-filter}
use mathlib.Core.List.Perm
use mathlib.Core.Logic.Or
use mathlib.Core.Bool.{false≢true}
use mathlib.Core.HLevel.{⊥_prop}
use httpd_cpp.Base.{
  ℕ, ◌+◌, ◌≤◌, ◌<◌, ◌≡◌, ◌≢◌, refl, sym, ap, ◌∙◌, subst, true, [], ◌∷◌, some, Result, ok, of_ok,
  of_some, ◌==◌, ==_iff, Bool-cases, ==-false_of_ne, inl, inr, arith,
}
use httpd_cpp.RequestStore.{find, find-remove}
use httpd_cpp.Timer.{Timer, TimeVal}
use httpd_cpp.PriorityQueue.{MinHeap, TimerQueue, add_timer}
use httpd_cpp.PriorityQueue.Delete.{add_timer_lem}
use httpd_cpp.PriorityQueue.Expire.{live}
use httpd_cpp.HttpRequest.{HttpRequest}
use httpd_cpp.EPoll.{Event}
use httpd_cpp.Callback.{HeaderFunc, timeout, close_connect}
use httpd_cpp.Server.{Server, Io, drop_connection, dispatch, handle_event}
use httpd_cpp.Server.Ownership.{del_timer-live}
use httpd_cpp.Server.Sweeping.{exists_at, is_known}
use httpd_cpp.Server.Events.{Works}
use httpd_cpp.Server.Events.Cases.{EventCases, event_cases, skipped, accepted, dropped, dispatched}
use httpd_cpp.Server.Program.{times, left_waiting}
use httpd_cpp.Server.Program.Tasks.{times-put}

-- Only the event's request can get a task, and then it exists; no other request goes; a new timer
-- is for a new request.
pub record Effects (e : Event) (s s' : Server) : Type 0 where
  pub tasks :
      (a : ℕ)
      → times a s'.pool.queue + times a (left_waiting e.request s.pool s'.pool)
        ≤ times a s.pool.queue + times a (e.request ∷ [])
  pub handed :
      (a : ℕ)
      → times a s.pool.queue
        < times a s'.pool.queue + times a (left_waiting e.request s.pool s'.pool)
      → exists_at (find a s'.requests) ≡ true
  pub stays :
      (a : ℕ)
      → e.request ≢ a
      → exists_at (find a s.requests) ≡ true
      → exists_at (find a s'.requests) ≡ true
  pub timers :
      (t : Timer) (a : ℕ)
      → Mem t (live s'.queue.timers)
      → t.request ≡ some a
      → exists_at (find a s.requests) ≡ true
      → ¬ Mem t (live s.queue.timers)
      → ⊥

-- A timer that was added, or another one.
pub added-live :
    (heap : MinHeap) (q : TimerQueue) (a : ℕ) (r : HttpRequest HeaderFunc) (tv : TimeVal)
    {t : Timer}
    → Mem t (live (add_timer heap a r timeout (some close_connect) tv q).1.timers)
    → t.request ≢ some a
    → ¬ Mem t (live q.timers)
    → ⊥
added-live heap q a r tv i other absent =
    let (named, perm) = add_timer_lem heap a r timeout close_connect tv q in
    let (j, alive) = (mem-filter _).0 i in
    Or.elim ⊥_prop (mem-cons.0 ((Perm.mem_iff perm).0 j))
      (λ c. other (ap (λ (u : Timer). u.request) c)) (λ k. absent ((mem-filter _).1 (k, alive)))

module _ (heap : MinHeap) (io : Io) (e : Event) (s : Server) where
  -- The pool is as it was.
  unmoved :
      (a : ℕ)
      → times a s.pool.queue + times a (left_waiting e.request s.pool s.pool) ≡ times a s.pool.queue
  unfolding times
  unmoved a = ground arith

  exists_of :
      (a : ℕ) {r : HttpRequest HeaderFunc}
      → find a s.requests ≡ some r
      → exists_at (find a s.requests) ≡ true
  exists_of a f = rw f refl

  case-Effects :
      {m : Result Server} {s' : Server}
      → Works io
      → EventCases heap io e s m
      → m ≡ ok s'
      → Effects e s s'
  unfolding find times drop_connection dispatch
  case-Effects w skipped h = subst (Effects e s) (of_ok h) (record {
    tasks = λ a. omega (arith, unmoved a);
    handed = λ a more. absurd (omega (arith, more, unmoved a));
    stays = λ a other there. there;
    timers = λ t a i named there new. new i;
  })
  case-Effects w (accepted connfd) h = subst (Effects e s) (of_ok h) (record {
    tasks = λ a. omega (arith, unmoved a);
    handed = λ a more. absurd (omega (arith, more, unmoved a));
    stays = λ a other there. ground (arith, there);
    timers = λ t a i named there new.
        added-live heap s.queue (io.fresh s.requests) _ io.time i
          (λ c.
            let same : a ≡ io.fresh s.requests = of_some (sym named ∙ c) in
            false≢true (
              sym (w.fresh s.requests)
              ∙ subst (λ b. exists_at (find b s.requests) ≡ true) same there))
          new;
  })
  case-Effects w (dropped {r} f) h = subst (Effects e s) (of_ok h) (record {
    tasks = λ a. omega (arith, unmoved a);
    handed = λ a more. absurd (omega (arith, more, unmoved a));
    stays = λ a other there.
        rw (find-remove e.request a s.requests, ==-false_of_ne e.request a other) there;
    timers = λ t a i named there new. new (del_timer-live r s.queue i);
  })
  case-Effects w (dispatched {r} f) h = subst (Effects e s) (of_ok h) (record {
    tasks = λ a. omega (arith, times-put e.request a s.pool);
    handed = λ a more. elim (Bool-cases (e.request == a)) [
      | inl c ↦
          subst (λ b. exists_at (find b s.requests) ≡ true) ((==_iff e.request a).0 c)
            (exists_of e.request f)
      | inr c ↦ absurd (ground (arith, more, c, times-put e.request a s.pool))
    ];
    stays = λ a other there. there;
    timers = λ t a i named there new. new i;
  })

  pub event-Effects :
      {s' : Server}
      → Works io
      → is_known s e.request ≡ true
      → handle_event heap io e s ≡ ok s'
      → Effects e s s'
  event-Effects w k h = case-Effects w (event_cases heap io e s w k) h
