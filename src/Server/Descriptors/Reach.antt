-- ===== src/Server/Descriptors/Reach.antt =====
-- The sockets of the requests, over the steps of the program.
use mathlib.Core.List.{Perm, Nodup-cons, Nodup-nil, not-mem-nil, perm_append_singleton, perm_middle}
use mathlib.Core.List.Perm
use httpd_cpp.Base.{
  ℕ, zero, suc, ◌+◌, ◌≡◌, refl, sym, ap, ◌∙◌, subst, inl, inr, List, [], ◌∷◌, ◌++◌, take, Option,
  none, some, ok, between, of_ok, of_some, ◌==◌, ==_refl, Bool-cases, Option-cases,
}
use httpd_cpp.RequestStore.{find, remove, find-remove}
use httpd_cpp.RequestStore.Distinct.{not-mem_of_none, remove-Nodup, remove_perm}
use httpd_cpp.Timer.{TimeVal}
use httpd_cpp.PriorityQueue.{MinHeap, TimerQueue, handle_expire_timers, add_timer}
use httpd_cpp.HttpRequest
use httpd_cpp.HttpRequest.{HttpRequest}
use httpd_cpp.EPoll.{EPoll, Event, epoll_wait}
use httpd_cpp.Callback.{World, HeaderFunc, Outcome}
use httpd_cpp.Server.{
  Server, Io, Setup, contains, is_broken, is_blocked, run_handlers, expire, drop_connection,
  dispatch, handle_event, handle_events, turn, round, run_task, set_up,
}
use httpd_cpp.Server.Sweeping.{absent_cases}
use httpd_cpp.Server.Events.{
  Works, connected, accept_connection-eq, skipped_eq, listening_eq, dispatched_eq, dropped_eq,
}
use httpd_cpp.Server.Races.{run_task-absent}
use httpd_cpp.Server.Tasks.{Ending, was_closed, was_kept, after, run_task-ran, request-Ending}
use httpd_cpp.Server.Reachability.{unknown_eq}
use httpd_cpp.Server.Steps.{Reach, do_round, do_rest, do_task, do_pool, start, further}
use httpd_cpp.Server.SetUp.{set_up_cases}
use httpd_cpp.Server.Descriptors.{fds, Conserved, close-Conserved, run_handlers-Conserved}

module _ (heap : MinHeap) where
  expire-Conserved :
      (fuel : ℕ) (clock : ℕ → TimeVal) (s : Server) {s' : Server}
      → Conserved s
      → expire heap fuel clock s ≡ ok (some s')
      → Conserved s'
  unfolding expire
  expire-Conserved fuel clock s v e =
      elim (Option-cases (handle_expire_timers heap fuel clock s.queue)) [
        | inl n ↦ (let h = rw (n, expire) at e in cc)
        | inr (sweep, f) ↦
            (let start : Server = record s { queue = record s.queue { timers = sweep.left } } in
              let (u, ran, same) =
                between (run_handlers sweep.fired start) _ (rw (f, expire) at e) in
              subst Conserved (of_some (of_ok same)) (
                run_handlers-Conserved sweep.fired start
                  (record { distinct = v.distinct; kept = v.kept }) ran))
      ]

  connected-Conserved :
      (io : Io) (connfd : ℕ) (s : Server)
      → Works io
      → Conserved s
      → Conserved (connected heap io connfd s)
  unfolding add_timer HttpRequest.set_timer HttpRequest.set_fd
  connected-Conserved io connfd s w v = record {
    distinct = Nodup-cons.1 (
      not-mem_of_none (io.fresh s.requests) s.requests (absent_cases _ (w.fresh s.requests)),
      v.distinct,
    );
    kept = Perm.trans (perm_append_singleton connfd s.opened_fds) (
        Perm.trans (Perm.cons connfd v.kept)
          (Perm.symm (perm_middle s.closed_fds (fds s.requests))));
  }

  dropped :
      (e : Event) (s : Server) {r : HttpRequest HeaderFunc}
      → Conserved s
      → find e.request s.requests ≡ some r
      → Conserved (drop_connection e.request r s)
  unfolding drop_connection
  dropped e s {r} v f =
      close-Conserved e.request r s (drop_connection e.request r s) v f refl refl refl

  dispatched : (e : Event) (s : Server) → Conserved s → Conserved (dispatch e.request s)
  unfolding dispatch
  dispatched e s v = record { distinct = v.distinct; kept = v.kept }

  handle_event-Conserved :
      (io : Io) (e : Event) (s : Server) {s' : Server}
      → Works io
      → Conserved s
      → handle_event heap io e s ≡ ok s'
      → Conserved s'
  handle_event-Conserved io e s {s'} w v h = elim (Bool-cases (contains e.request s.ptr_set)) [
    | inl c ↦
        subst Conserved (of_ok (sym (skipped_eq heap io e s c) ∙ h))
          (record { distinct = v.distinct; kept = v.kept })
    | inr c ↦ elim (Option-cases (find e.request s.requests)) [
      | inl n ↦ (let fault = unknown_eq heap io e s c n in cc)
      | inr (r, f) ↦ elim (Bool-cases (r.fd == s.sockfd)) [
        | inl l ↦
            (let (connfd, peer, a) = w.accepts s.sockfd in
              subst Conserved
                (of_ok (
                  sym (accept_connection-eq heap io s a (w.adds s.epoll.fd))
                  ∙ sym (listening_eq heap io e s c f l)
                  ∙ h))
                (connected-Conserved io connfd s w v))
        | inr l ↦ elim (Bool-cases (is_broken e.events)) [
          | inl b ↦
              subst Conserved (of_ok (sym (dropped_eq heap io e s c f l b) ∙ h)) (dropped e s v f)
          | inr b ↦
              subst Conserved (of_ok (sym (dispatched_eq heap io e s c f l b) ∙ h))
                (dispatched e s v)
        ]
      ]
    ]
  ]

  handle_events-Conserved :
      (io : ℕ → Io) (n : ℕ) (es : List Event) (s : Server) {o : List Event × Server}
      → ((i : ℕ) → Works (io i))
      → Conserved s
      → handle_events heap io n es s ≡ ok o
      → Conserved o.1
  unfolding handle_events
  handle_events-Conserved io n [] s w v h =
      subst (λ (o : List Event × Server). Conserved o.1) (of_ok h) v
  handle_events-Conserved io n (e ∷ es) s w v h = elim (Bool-cases (is_blocked heap s)) [
    | inl b ↦ subst (λ (o : List Event × Server). Conserved o.1) (of_ok (rw b at h)) v
    | inr b ↦
        (let (s', first, rest) = between (handle_event heap (io n) e s) _ (rw b at h) in
          handle_events-Conserved io (n + 1) es s' w
            (handle_event-Conserved (io n) e s (w n) v first) rest)
  ]

  turn-Conserved :
      (fuel : ℕ) (clock : ℕ → TimeVal) (io : ℕ → Io) (answer : Option ℕ × EPoll) (s : Server)
      {o : List Event × Server}
      → ((i : ℕ) → Works (io i))
      → Conserved s
      → turn heap fuel clock io answer s ≡ ok (some o)
      → Conserved o.1
  unfolding turn
  turn-Conserved fuel clock io (none, epoll) s w v h = cc
  turn-Conserved fuel clock io (some zero, epoll) s w v h =
      subst (λ (o : List Event × Server). Conserved o.1) (of_some (of_ok h))
        (record { distinct = v.distinct; kept = v.kept })
  turn-Conserved fuel clock io (some (suc n), epoll) s w v h =
      let start : Server = record s { epoll = epoll } in
      let (o, swept, rest) = between (expire heap fuel clock start) _ h in
      elim (Option-cases o) [
        | inl k ↦ (let fault = rw k at rest in cc)
        | inr (u, k) ↦
            (let (p, ran, same) =
                between (handle_events heap io 0 (take (suc n) epoll.events) u) _ (rw k at rest) in
              subst (λ (o : List Event × Server). Conserved o.1) (of_some (of_ok same))
                (handle_events-Conserved io 0 (take (suc n) epoll.events) u w
                  (expire-Conserved fuel clock start
                    (record { distinct = v.distinct; kept = v.kept }) (swept ∙ ap ok k))
                  ran))
      ]

  module _ (w : World) (a : ℕ) where
    after-Conserved :
        (r : HttpRequest HeaderFunc) (s : Server) {queue : TimerQueue} {o : Outcome}
        → Conserved s
        → find a s.requests ≡ some r
        → Ending heap w a r.fd queue o
        → Conserved (after heap w a r s o)
    unfolding add_timer HttpRequest.set_timer
    after-Conserved r s v f was_closed = close-Conserved a r s _ v f refl refl refl
    after-Conserved r s v f (was_kept re same) = record {
      distinct = Nodup-cons.1 (
        not-mem_of_none a (remove a s.requests) (rw (find-remove a a s.requests, ==_refl a) refl),
        remove-Nodup a s.requests v.distinct,
      );
      kept = Perm.trans v.kept (
          subst
            (λ k.
              Perm (s.closed_fds ++ fds s.requests)
                (s.closed_fds ++ (k ∷ fds (remove a s.requests))))
            (sym same)
            (Perm.append_left s.closed_fds
              (Perm.map (λ e. e.1.fd) (remove_perm a r s.requests v.distinct f))));
    }

    run_task-Conserved :
        (fuel : ℕ) (s : Server) {s' : Server}
        → Conserved s
        → run_task heap fuel w a s ≡ ok (some s')
        → Conserved s'
    run_task-Conserved fuel s v e = elim (Option-cases (find a s.requests)) [
      | inl n ↦ (let fault = run_task-absent heap fuel w a s n in cc)
      | inr (r, f) ↦
          (let (p, ran, left) = run_task-ran heap w a fuel s f e in
            subst Conserved left
              (after-Conserved r s v f (request-Ending heap w a fuel r s.queue ran)))
    ]

set_up-Conserved :
    (system : Setup) (address : ℕ) {s : Server} → set_up system address ≡ ok s → Conserved s
unfolding HttpRequest.set_fd
set_up-Conserved system address h =
    let (poll, sockfd, same) = set_up_cases system address h in
    subst Conserved same
      (record { distinct = Nodup-cons.1 (not-mem-nil, Nodup-nil); kept = Perm.refl (sockfd ∷ []) })

-- After a set-up that succeeds, and then any rounds of the main loop with fuel above the number of
-- timers, handled rests of rounds, tasks of pool threads that end, and steps of the pool, in any
-- order, while `accept4` and `epoll_ctl` succeed and `new` gives an address that is not in use: no
-- two requests stand at one address, and the descriptors that were opened are, each as often as it
-- was opened, those that were closed and those that a request still holds.
pub reach-Conserved :
    (heap : MinHeap) (clock : ℕ → ℕ → TimeVal) (io : ℕ → Io) (system : Setup) (address : ℕ)
    {s s' : Server}
    → ((i : ℕ) → Works (io i))
    → set_up system address ≡ ok s
    → Reach heap clock io s s'
    → Conserved s'
unfolding round
reach-Conserved heap clock io system address w e start = set_up-Conserved system address e
reach-Conserved heap clock io system address w e
      (further {t} r (do_round fuel k i events enough h)) =
    turn-Conserved heap fuel (clock k) (λ n. io (i + n)) (epoll_wait events t.epoll) _
      (λ n. w (i + n))
      (let v = reach-Conserved heap clock io system address w e r in
        record { distinct = v.distinct; kept = v.kept })
      h
reach-Conserved heap clock io system address w e (further {t} r (do_rest i es h)) =
    handle_events-Conserved heap io i es t w (reach-Conserved heap clock io system address w e r) h
reach-Conserved heap clock io system address w e (further {t} r (do_task fuel a world h)) =
    run_task-Conserved heap world a fuel t (reach-Conserved heap clock io system address w e r) h
reach-Conserved heap clock io system address w e (further r (do_pool step)) =
    let v = reach-Conserved heap clock io system address w e r in
    record { distinct = v.distinct; kept = v.kept }
