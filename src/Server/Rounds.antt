-- ===== src/Server/Rounds.antt =====
-- A round of the main loop.
use mathlib.Core.List.{Mem, map, Nodup, not-mem-nil}
use httpd_cpp.Base.{
  ℕ, suc, ◌<◌, ◌≤◌, ◌≡◌, refl, sym, ap, ◌∙◌, subst, true, List, [], ◌∷◌, ◌++◌, length, drop, Option,
  some, ok, Returns, Returns-bind, ◌>>=◌, take-append_length,
}
use httpd_cpp.RequestStore.{find}
use httpd_cpp.Timer.{TimeVal}
use httpd_cpp.PriorityQueue.{MinHeap}
use httpd_cpp.PriorityQueue.Expire.{now}
use httpd_cpp.EPoll.{epoll_wait}
use httpd_cpp.EPoll.{Event}
use httpd_cpp.Server.{Server, Io, handle_events, expire, turn, round}
use httpd_cpp.Server.Ownership.{Inv}
use httpd_cpp.Server.Sweeping.{exists_at, expire_lem}
use httpd_cpp.Server.Events.{Works, Settled, handle_events_lem}

module _ (heap : MinHeap) where
  -- The server with what `epoll_wait` has answered.
  abbrev pub woken : List Event → Server → Server
  woken es s = record s {
    ptr_set = [];
    epoll = record s.epoll {
      num_events = some (length es);
      events = es ++ drop (length es) s.epoll.events;
    };
  }

  wait_eq :
      (system : ℕ → Option (List Event)) (s : Server) (es : List Event)
      → system (length s.epoll.events) ≡ some es
      → epoll_wait system s.epoll ≡ (some (length es), (woken es s).epoll)
  unfolding epoll_wait
  wait_eq system s es e = rw (e, epoll_wait) refl

  idle_eq :
      (fuel : ℕ) (system : ℕ → Option (List Event)) (clock : ℕ → TimeVal) (io : ℕ → Io) (s : Server)
      → system (length s.epoll.events) ≡ some []
      → round heap fuel system clock io s ≡ ok (some ([], woken [] s))
  unfolding round turn
  idle_eq fuel system clock io s e =
      ap (λ x. turn heap fuel clock io x (record s { ptr_set = [] })) (wait_eq system s [] e)

  busy_eq :
      (fuel : ℕ) (system : ℕ → Option (List Event)) (clock : ℕ → TimeVal) (io : ℕ → Io)
      (s s' : Server) (e0 : Event) (es : List Event)
      → system (length s.epoll.events) ≡ some (e0 ∷ es)
      → expire heap fuel clock (woken (e0 ∷ es) s) ≡ ok (some s')
      → round heap fuel system clock io s
        ≡ handle_events heap io 0 (e0 ∷ es) s' >>= λ p. ok (some p)
  unfolding round turn
  busy_eq fuel system clock io s s' e0 es e f =
      ap (λ x. turn heap fuel clock io x (record s { ptr_set = [] })) (wait_eq system s (e0 ∷ es) e)
      ∙ rw (f, take-append_length (length es) es (drop (suc (length es)) s.epoll.events) refl) refl

  -- The requests, the timers and their handlers belong together (each timer that is not deleted
  -- names a request that exists and names it back, no two the same, and every timer has a
  -- handler); `epoll_wait` answers events for pairwise different requests that exist; the clock
  -- does not go back; the fuel is above the number of timers; `accept4` and `epoll_ctl` succeed,
  -- and `new` gives an address that is not in use: a round of the main loop ends, up to the point
  -- where it waits for a place in the pool. It fails no assert and touches no request that was
  -- deleted; the invariant holds again, and the request of every event that is left exists or is
  -- known as deleted.
  pub round_lem :
      (fuel : ℕ) (system : ℕ → Option (List Event)) (clock : ℕ → TimeVal) (io : ℕ → Io) (s : Server)
      (es : List Event)
      → ((i j : ℕ) → i ≤ j → now heap clock i ≤ now heap clock j)
      → ((i : ℕ) → Works (io i))
      → Inv s.requests s.queue.timers
      → length s.queue.timers < fuel
      → system (length s.epoll.events) ≡ some es
      → Nodup (map (λ (e : Event). e.request) es)
      → ((e : Event) → Mem e es → exists_at (find e.request s.requests) ≡ true)
      → Returns
          (round heap fuel system clock io s)
          (λ o. (p : List Event × Server) × (o ≡ some p) × Settled heap p)
  round_lem fuel system clock io s [] mono w v enough e d k = (
    some ([], woken [] s),
    idle_eq fuel system clock io s e,
    (([], woken [] s), refl, record { inv = v; known = λ u i. absurd (not-mem-nil i) }),
  )
  round_lem fuel system clock io s (e0 ∷ es) mono w v enough e d k =
      let (o, p, (s', q, x)) = expire_lem heap fuel clock mono (woken (e0 ∷ es) s) v enough in
      let run = busy_eq fuel system clock io s s' e0 es e (p ∙ ap ok q) in
      subst (λ m. Returns m (λ o. (p : List Event × Server) × (o ≡ some p) × Settled heap p))
        (sym run)
        (Returns-bind (handle_events heap io 0 (e0 ∷ es) s') _
          (handle_events_lem heap io 0 (e0 ∷ es) s' w x.inv d λ u i. x.known u.request (k u i))
          λ a h. (some a, refl, (a, refl, h)))
