-- ===== src/Server/Reachability.antt =====
-- The invariant between requests and timers, over the steps of the program.
use mathlib.Core.List.{not-mem-nil, Nodup-nil}
use httpd_cpp.Base.{
  ℕ, ◌+◌, ◌<◌, ◌≤◌, ◌≡◌, refl, sym, ap, ◌∙◌, subst, false, inl, inr, List, [], ◌∷◌, length, take,
  zero, suc, Option, none, some, ok, fail, dangling, between, Bool-cases, of_ok, of_some, arith,
}
use httpd_cpp.RequestStore.{find}
use httpd_cpp.Timer.{TimeVal}
use httpd_cpp.PriorityQueue
use httpd_cpp.PriorityQueue.{MinHeap}
use httpd_cpp.PriorityQueue.Expire.{now}
use httpd_cpp.EPoll.{EPoll, Event, epoll_wait}
use httpd_cpp.Server.{
  Server, Io, Setup, set_up, round, turn, handle_events, handle_event, is_blocked, contains,
}
use httpd_cpp.Server.SetUp.{set_up_cases}
use httpd_cpp.Server.Ownership.{Inv}
use httpd_cpp.Server.Sweeping.{is_known, absent_cases, expire_lem}
use httpd_cpp.Server.Events.{Works, handle_event_lem}
use httpd_cpp.Server.Tasks.{run_task-Inv}
use httpd_cpp.Server.Steps.{Step, Reach, do_round, do_rest, do_task, do_pool, start, further}

abbrev Together : Server → Type 0
Together s = Inv s.requests s.queue.timers

module _ (heap : MinHeap) where
  pub unknown_eq :
      (io : Io) (e : Event) (s : Server)
      → contains e.request s.ptr_set ≡ false
      → find e.request s.requests ≡ none
      → handle_event heap io e s ≡ fail dangling
  unfolding handle_event
  unknown_eq io e s c f = rw (c, f, handle_event) refl

  unknown_cases :
      (s : Server) (a : ℕ)
      → is_known s a ≡ false
      → (contains a s.ptr_set ≡ false) × (find a s.requests ≡ none)
  unknown_cases s a h = ((ground arith), absent_cases _ (ground arith))

  handle_event-Inv :
      (io : Io) (e : Event) (s : Server) {s' : Server}
      → Works io
      → Together s
      → handle_event heap io e s ≡ ok s'
      → Together s'
  handle_event-Inv io e s {s'} w v h = elim (Bool-cases (is_known s e.request)) [
    | inl k ↦
        (let (u, p, done) = handle_event_lem heap io e s w v k in
          subst Together (of_ok (sym p ∙ h)) done.inv)
    | inr k ↦ (let (c, f) = unknown_cases s e.request k in let fault = unknown_eq io e s c f in cc)
  ]

  handle_events-Inv :
      (io : ℕ → Io) (n : ℕ) (es : List Event) (s : Server) {o : List Event × Server}
      → ((i : ℕ) → Works (io i))
      → Together s
      → handle_events heap io n es s ≡ ok o
      → Together o.1
  unfolding handle_events
  handle_events-Inv io n [] s w v h = subst (λ (o : List Event × Server). Together o.1) (of_ok h) v
  handle_events-Inv io n (e ∷ es) s w v h = elim (Bool-cases (is_blocked heap s)) [
    | inl b ↦ subst (λ (o : List Event × Server). Together o.1) (of_ok (rw b at h)) v
    | inr b ↦
        (let (s', first, rest) = between (handle_event heap (io n) e s) _ (rw b at h) in
          handle_events-Inv io (n + 1) es s' w (handle_event-Inv (io n) e s (w n) v first) rest)
  ]

  turn-Inv :
      (fuel : ℕ) (clock : ℕ → TimeVal) (io : ℕ → Io) (answer : Option ℕ × EPoll) (s : Server)
      {o : List Event × Server}
      → ((i j : ℕ) → i ≤ j → now heap clock i ≤ now heap clock j)
      → ((i : ℕ) → Works (io i))
      → Together s
      → length s.queue.timers < fuel
      → turn heap fuel clock io answer s ≡ ok (some o)
      → Together o.1
  unfolding turn
  turn-Inv fuel clock io (none, epoll) s mono w v enough h = cc
  turn-Inv fuel clock io (some zero, epoll) s mono w v enough h =
      subst (λ (o : List Event × Server). Together o.1) (of_some (of_ok h)) v
  turn-Inv fuel clock io (some (suc n), epoll) s mono w v enough h =
      let (o, p, (s', q, x)) =
        expire_lem heap fuel clock mono (record s { epoll = epoll }) v enough in
      let (r, ran, same) =
        between (handle_events heap io 0 (take (suc n) epoll.events) s') _
          (rw (p ∙ ap ok q) at h) in
      handle_events-Inv io 0 (take (suc n) epoll.events) s' w x.inv
        (ran ∙ ap ok (of_some (of_ok same)))

pub set_up-Inv :
    (system : Setup) (address : ℕ) {s : Server} → set_up system address ≡ ok s → Together s
unfolding PriorityQueue.new
set_up-Inv system address h =
    let (poll, sockfd, same) = set_up_cases system address h in
    subst Together same (record {
      handled = λ t i. absurd (not-mem-nil i);
      owned = λ t i. absurd (not-mem-nil i);
      distinct = Nodup-nil;
    })

module _ (heap : MinHeap) (clock : ℕ → ℕ → TimeVal) (io : ℕ → Io)
    (mono : (k i j : ℕ) → i ≤ j → now heap (clock k) i ≤ now heap (clock k) j)
    (w : (i : ℕ) → Works (io i)) where
  Step-Inv : {s s' : Server} → Step heap clock io s s' → Together s → Together s'
  unfolding round
  Step-Inv {s} (do_round fuel k i system enough h) v =
      turn-Inv heap fuel (clock k) (λ n. io (i + n)) (epoll_wait system s.epoll)
        (record s { ptr_set = [] }) (mono k) (λ n. w (i + n)) v enough h
  Step-Inv {s} (do_rest i es h) v = handle_events-Inv heap io i es s w v h
  Step-Inv {s} {s'} (do_task fuel address world h) v = run_task-Inv heap world address fuel s s' v h
  Step-Inv (do_pool step) v = v

-- After a set-up that succeeds, and then any rounds of the main loop with fuel above the number of
-- timers, handled rests of rounds, tasks of pool threads that end, and steps of the pool, in any
-- order, while no sweep's clock goes back, `accept4` and `epoll_ctl` succeed, and `new` gives an
-- address that is not in use: every timer has a handler, each timer that is not deleted names a
-- request that exists and names it back, and no two name the same.
pub reach-Inv :
    (heap : MinHeap) (clock : ℕ → ℕ → TimeVal) (io : ℕ → Io) (system : Setup) (address : ℕ)
    {s s' : Server}
    → ((k i j : ℕ) → i ≤ j → now heap (clock k) i ≤ now heap (clock k) j)
    → ((i : ℕ) → Works (io i))
    → set_up system address ≡ ok s
    → Reach heap clock io s s'
    → Inv s'.requests s'.queue.timers
reach-Inv heap clock io system address mono w e start = set_up-Inv system address e
reach-Inv heap clock io system address mono w e (further r step) =
    Step-Inv heap clock io mono w step (reach-Inv heap clock io system address mono w e r)
