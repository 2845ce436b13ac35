-- ===== src/Server/Program/Alive.antt =====
-- A request that is still to be served exists.
use mathlib.Core.List.{Mem}
use httpd_cpp.Base.{
  ℕ, ◌+◌, ◌≤◌, ◌<◌, ◌≡◌, ◌≢◌, refl, sym, ap, ◌∙◌, subst, true, List, [], ◌∷◌, map, length, some, ok,
  of_ok, ltb, ltb→lt, ltb→le, Bool-cases, inl, inr, arith,
}
use httpd_cpp.RequestStore.{find}
use httpd_cpp.Timer.{Timer, TimeVal}
use httpd_cpp.PriorityQueue.{MinHeap}
use httpd_cpp.PriorityQueue.Expire.{live, now}
use httpd_cpp.ThreadPool.{ThreadPool}
use httpd_cpp.EPoll.{Event}
use httpd_cpp.Server.{Server, Io, expire, handle_event}
use httpd_cpp.Server.Ownership.{Inv}
use httpd_cpp.Server.Sweeping.{exists_at, is_known}
use httpd_cpp.Server.Events.{Works, Handled, handle_event_lem}
use httpd_cpp.Server.Program.Effects.{event-Effects}
use httpd_cpp.Server.Idle.{expired_lem}
use httpd_cpp.Server.Rounds.{woken}
use httpd_cpp.Server.Program.{Program, times, events_for, pending, left_waiting, Reported}
use httpd_cpp.Server.Program.Tasks.{times-nil, times-cons, times-same}

-- No request has two tasks, or a task and an event; what a task is for exists; what an event is for
-- is known; and no timer runs for a task that has begun.
pub record Alive (p : Program) : Type 0 where
  pub inv : Inv p.server.requests p.server.queue.timers
  pub once : (a : ℕ) → pending a p + events_for a p.todo ≤ 1
  pub present : (a : ℕ) → 0 < pending a p → exists_at (find a p.server.requests) ≡ true
  pub known : (a : ℕ) → 0 < events_for a p.todo → is_known p.server a ≡ true
  pub idle :
      (t : Timer) (a : ℕ)
      → Mem t (live p.server.queue.timers)
      → t.request ≡ some a
      → ¬ (0 < times a p.running)

none_running : (n : ℕ) → ¬ (0 < n) → n ≡ 0
none_running n h = omega (arith, h)

disjoint : (m n : ℕ) → m ≤ 1 → n ≤ 1 → (0 < n → m ≡ 0) → m + n ≤ 1
disjoint m n h k d = grind arith

module _ (heap : MinHeap) (clock : ℕ → ℕ → TimeVal)
    (mono : (k i j : ℕ) → i ≤ j → now heap (clock k) i ≤ now heap (clock k) j) where
  pub swept-Alive :
      (p : Program) (fuel k : ℕ) (e : Event) (es : List Event) {s : Server}
      → Alive p
      → p.blocked ≡ []
      → length p.server.queue.timers < fuel
      → expire heap fuel (clock k) (woken heap (e ∷ es) p.server) ≡ ok (some s)
      → Reported (e ∷ es) p
      → ((t : Timer) (a : ℕ) (i : ℕ)
          → Mem t (live p.server.queue.timers)
          → t.request ≡ some a
          → 0 < times a p.server.pool.queue + times a p.taken
          → now heap (clock k) i ≤ t.key)
      → Alive (record p { server = s; todo = e ∷ es })
  unfolding times
  swept-Alive p fuel k e es {s} v none_blocked enough h reported long =
      let (x, y) =
        expired_lem heap fuel (clock k) (mono k) (woken heap (e ∷ es) p.server) v.inv enough h in
      let same : (a : ℕ) → times a s.pool.queue ≡ times a p.server.pool.queue =
        λ a. ap (λ (q : ThreadPool). times a q.queue) x.pool in
      record {
        inv = x.inv;
        once = λ a. rw (same a) (
            disjoint (pending a p) _ (omega (arith, v.once a)) (reported.once a)
              (reported.armed a));
        present = λ a n.
            rw
              (y.untouched a (λ u i q j. long u a j i q (
                omega (
                  arith,
                  n,
                  same a,
                  none_running (times a p.running) (v.idle u a i q),
                  ap (times a) none_blocked,
                ))))
              (v.present a (omega (arith, n, same a)));
        known = λ a n. x.known a (reported.present a n);
        idle = λ t a i q. v.idle t a (y.live_before t i) q;
      }

  pub event-Alive :
      (p : Program) (io : Io) (e : Event) (es : List Event) {s : Server}
      → Alive p
      → p.todo ≡ e ∷ es
      → p.blocked ≡ []
      → Works io
      → handle_event heap io e p.server ≡ ok s
      → Alive (record p {
        server = s;
        todo = es;
        blocked = left_waiting e.request p.server.pool s.pool;
      })
  event-Alive p io e es {s} v todo unblocked w h =
      let before : (a : ℕ) → events_for a p.todo ≡ times a (e.request ∷ []) + events_for a es =
        λ a. ap (events_for a) todo ∙ times-cons a e.request (map (λ (u : Event). u.request) es) in
      let none : (a : ℕ) → times a p.blocked ≡ 0 = λ a. ap (times a) unblocked ∙ times-nil a in
      let other : (a : ℕ) → 0 < pending a p + events_for a es → e.request ≢ a =
        λ a n c. omega (arith, n, v.once a, before a, times-same a e.request c) in
      let here_known =
        v.known e.request (omega (arith, before e.request, times-same e.request e.request refl)) in
      let x = event-Effects heap io e p.server w here_known h in
      let (s', f, y) = handle_event_lem heap io e p.server w v.inv here_known in
      let left = subst (Handled e p.server) (of_ok (sym f ∙ h)) y in
      record {
        inv = left.inv;
        once = λ a. omega (arith, v.once a, before a, none a, x.tasks a);
        present = λ a n.
            elim (Bool-cases (
              ltb (times a p.server.pool.queue)
                (times a s.pool.queue + times a (left_waiting e.request p.server.pool s.pool)))) [
                  | inl c ↦ x.handed a (ltb→lt _ _ c)
                  | inr c ↦
                      (let m : 0 < pending a p = omega (arith, n, none a, ltb→le _ _ c) in
                        x.stays a (other a (omega (arith, m))) (v.present a m))
                ];
        known = λ a n.
            left.known a (other a (omega (arith, n))) (v.known a (omega (arith, n, before a)));
        idle =
            λ t a i q n. x.timers t a i q (v.present a (omega (arith, n))) (λ j. v.idle t a j q n);
      }
