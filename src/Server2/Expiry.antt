-- ===== src/Server2/Expiry.antt =====
-- Expired timers in a round of the earlier server, which has no set of deleted requests.
use mathlib.Core.List.{Mem}
use httpd_cpp.Base.{
  ℕ, suc, ◌<◌, ◌≤◌, ◌≡◌, refl, ap, ◌∙◌, inl, inr, List, [], ◌∷◌, ◌++◌, length, take-append_length,
  drop, Option, none, some, ok, fail, dangling, between, of_ok, Option-cases,
}
use httpd_cpp.RequestStore.{find}
use httpd_cpp.Timer.{Timer, TimeVal}
use httpd_cpp.PriorityQueue.{MinHeap, Sweep, handle_expire_timers}
use httpd_cpp.PriorityQueue.Expire.{live, now, handle_expire_timers_lem}
use httpd_cpp.EPoll.{Event, epoll_wait}
use httpd_cpp.Callback.{World}
use httpd_cpp.Server
use httpd_cpp.Server.{Server, Io}
use httpd_cpp.Server.Ownership.{Inv}
use httpd_cpp.Server.Sweeping.{absent_cases, Owned-perm, run_handlers_lem, Swept-gone}
use httpd_cpp.Server2.{http_close_connect, run_handlers, handle_event, handle_events, turn, round}

close_agrees :
    (a : ℕ) (s : Server) (l : List ℕ) {s' : Server}
    → Server.http_close_connect a s ≡ ok s'
    → http_close_connect a (record s { ptr_set = l }) ≡ ok (record s' { ptr_set = l })
unfolding Server.http_close_connect http_close_connect
close_agrees a s l {s'} e = elim (Option-cases (find a s.requests)) [
  | inl n ↦ (let h = rw (n, Server.http_close_connect) at e in cc)
  | inr (r, f) ↦
      rw (f, http_close_connect)
        (ap (λ (u : Server). ok (record u { ptr_set = l }))
          (of_ok (rw (f, Server.http_close_connect) at e)))
]

-- The handlers of the two servers do the same, the set aside.
run_handlers_agree :
    (ts : List Timer) (s : Server) (l : List ℕ) {s' : Server}
    → Server.run_handlers ts s ≡ ok s'
    → run_handlers ts (record s { ptr_set = l }) ≡ ok (record s' { ptr_set = l })
unfolding Server.run_handlers run_handlers
run_handlers_agree [] s l e = ap (λ (u : Server). ok (record u { ptr_set = l })) (of_ok e)
run_handlers_agree (t ∷ ts) s l e = elim (Option-cases t.request) [
  | inl n ↦ (let h = rw n at e in cc)
  | inr (a, f) ↦
      (let (u, first, rest) = between (Server.http_close_connect a s) _ (rw f at e) in
        rw (f, close_agrees a s l first) (run_handlers_agree ts u l rest))
]

module _ (heap : MinHeap) where
  absent_event :
      (fuel : ℕ) (io : ℕ → Io) (w : ℕ → World) (n : ℕ) (e : Event) (es : List Event) (s : Server)
      → find e.request s.requests ≡ none
      → handle_events heap fuel io w n (e ∷ es) s ≡ fail dangling
  unfolding handle_events handle_event
  absent_event fuel io w n e es s f = rw (f, handle_event) refl

  -- What is left of a server once the system has answered these events.
  abbrev woken : List Event → Server → Server
  woken es s = record s {
    epoll = record s.epoll {
      num_events = some (length es);
      events = es ++ drop (length es) s.epoll.events;
    };
  }

  wait_eq :
      (system : ℕ → Option (List Event)) (s : Server) (es : List Event)
      → system (length s.epoll.events) ≡ some es
      → epoll_wait system s.epoll ≡ (some (length es), (woken es s).epoll)
  unfolding epoll_wait
  wait_eq system s es e = rw (e, epoll_wait) refl

  busy_eq :
      (fuel : ℕ) (system : ℕ → Option (List Event)) (clock : ℕ → TimeVal) (io : ℕ → Io)
      (w : ℕ → World) (s s' : Server) (e : Event) (es : List Event) (sweep : Sweep heap)
      → system (length s.epoll.events) ≡ some (e ∷ es)
      → handle_expire_timers heap fuel clock s.queue ≡ some sweep
      → Server.run_handlers sweep.fired
          (record (woken (e ∷ es) s) { queue = record s.queue { timers = sweep.left } })
        ≡ ok s'
      → round heap fuel system clock io w s
        ≡ handle_events heap fuel io w 0 (e ∷ es) (record s' { ptr_set = s.ptr_set })
  unfolding round turn
  busy_eq fuel system clock io w s s' e es sweep answer ran p =
      ap (λ x. turn heap fuel clock io w x s) (wait_eq system s (e ∷ es) answer)
      ∙ rw
          (
            turn,
            ran,
            run_handlers_agree sweep.fired
                (record (woken (e ∷ es) s) { queue = record s.queue { timers = sweep.left } })
                s.ptr_set p,
            take-append_length (length es) es (drop (suc (length es)) s.epoll.events) refl,
          )
          refl

  -- In the earlier server: the requests, the timers and their handlers belong together, the clock
  -- does not go back, the fuel is above the number of timers, and `epoll_wait` answers first an
  -- event for a request whose timer is not deleted and whose key is before every reading of the
  -- clock: the round reads a request that its own sweep has deleted.
  pub expired_event_dangles :
      (fuel : ℕ) (system : ℕ → Option (List Event)) (clock : ℕ → TimeVal) (io : ℕ → Io)
      (w : ℕ → World) (s : Server) (t : Timer) (e : Event) (es : List Event)
      → ((i j : ℕ) → i ≤ j → now heap clock i ≤ now heap clock j)
      → Inv s.requests s.queue.timers
      → length s.queue.timers < fuel
      → system (length s.epoll.events) ≡ some (e ∷ es)
      → Mem t (live s.queue.timers)
      → t.request ≡ some e.request
      → ((i : ℕ) → t.key < now heap clock i)
      → round heap fuel system clock io w s ≡ fail dangling
  expired_event_dangles fuel system clock io w s t e es mono v enough answer i named late =
      let (sweep, ran, swept) =
        handle_expire_timers_lem heap clock mono fuel s.queue v.handled enough in
      let (s', p, done) =
        run_handlers_lem sweep.fired (live sweep.left)
          (record (woken (e ∷ es) s) { queue = record s.queue { timers = sweep.left } })
          (Owned-perm swept.conserved (record { owned = v.owned; distinct = v.distinct })) in
      busy_eq fuel system clock io w s s' e es sweep answer ran p
      ∙ absent_event fuel io w 0 e es (record s' { ptr_set = s.ptr_set })
          (absent_cases _
            (Swept-gone heap fuel clock mono s v enough t e.request swept done i named late))
