-- ===== src/Tests/Rounds.antt =====
-- A server with one connection, whose timer has run out, and the theorems at it.
use native.Mathlib.Nat.{le_refl}
use mathlib.Core.Logic.Or
use mathlib.Core.HLevel.{⊥_prop}
use mathlib.Core.Bool.{Bool-set}
use mathlib.Core.List.{Mem, mem-cons, mem-cons_self, not-mem-nil, Nodup-nil, Nodup-cons}
use httpd_cpp.Base.{
  ℕ, ◌+◌, ◌≤◌, ◌≡◌, refl, sym, ap, ◌∙◌, true, false, List, [], ◌∷◌, some, replicate, fail, dangling,
  Returns, arith,
}
use httpd_cpp.Timer
use httpd_cpp.Timer.{Timer, TimeVal}
use httpd_cpp.HttpRequest
use httpd_cpp.HttpRequest.{HttpRequest}
use httpd_cpp.PriorityQueue.Heap.{list_heap}
use httpd_cpp.RequestStore.{find}
use httpd_cpp.InetAddress
use httpd_cpp.InetAddress.{InetAddress}
use httpd_cpp.EPoll.{Event}
use httpd_cpp.ThreadPool
use httpd_cpp.ThreadPool.{ThreadPool}
use httpd_cpp.Callback.{HeaderFunc, World}
use httpd_cpp.Server.{Server, Io, round, expire, dispatch, run_task}
use httpd_cpp.Server.Ownership.{Store, Inv}
use httpd_cpp.Server.Sweeping.{exists_at}
use httpd_cpp.Server.Events.{Works, Settled}
use httpd_cpp.Server.Rounds.{round_lem}
use httpd_cpp.Base.{of_some, none}
use httpd_cpp.Server.Idle.{expire_closes_idle}
use httpd_cpp.Server.Races.{expired_task_dangles}
use httpd_cpp.Tests.Queues.{one_second, some-handler}
use httpd_cpp.Server2
use httpd_cpp.Buffer.Fd.{received}
use httpd_cpp.Tests.Service.{world_then}
use httpd_cpp.Server2.Expiry.{expired_event_dangles}

abbrev pub overdue : Timer
overdue = record { address = 0; key = 500; deleted = false; handler = some 0; request = some 200 }

abbrev pub listener : HttpRequest HeaderFunc
listener = record (HttpRequest.new 0) { fd = 3 }

abbrev pub connection : HttpRequest HeaderFunc
connection = record (HttpRequest.new 0) { fd = 5; timer = some 0 }

abbrev pub server : Server
server = record {
  requests = (100, listener) ∷ (200, connection) ∷ [];
  queue = record { timers = overdue ∷ []; next_address = 1 };
  pool = ThreadPool.start 2 (ThreadPool.set_max_queue_size 20 ThreadPool.new);
  ptr_set = [];
  epoll = record {
    fd = 4;
    events = replicate 4 (record { events = 0; request = 0 });
    num_events = some 0;
  };
  sockfd = 3;
  opened_fds = 3 ∷ [];
  closed_fds = [];
}

-- Above every address in use.
unfoldable pub above : Store → ℕ
above [] = 0
above ((a, r) ∷ m) = a + 1 + above m

find-high : (m : Store) (k : ℕ) → above m ≤ k → exists_at (find k m) ≡ false
unfolding above find
find-high [] k h = refl
find-high ((a, r) ∷ m) k h = ground (arith, find-high m k)

abbrev pub willing : Io
willing = record {
  accept4 = λ fd. some (7, InetAddress.new 0);
  fresh = above;
  epoll_ctl = λ fd c. true;
  time = record { sec = 1; usec = 0 };
  unset_fd = 0;
}

pub willing-Works : (i : ℕ) → Works willing
willing-Works i = record {
  accepts = λ fd. (7, InetAddress.new 0, refl);
  adds = λ fd c. refl;
  fresh = λ m. find-high m (above m) (le_refl _);
}

abbrev pub readable : ℕ → Event
readable request = record { events = 1; request = request }

abbrev both_ready : List Event
both_ready = readable 200 ∷ readable 100 ∷ []

pub server-Inv : Inv server.requests server.queue.timers
unfolding find
server-Inv = record {
  handled = λ t m e.
      Or.elim ⊥_prop (mem-cons.0 m) (λ p. some-handler (ap (λ (u : Timer). u.handler) (sym p) ∙ e))
        not-mem-nil;
  owned =
      λ t m. Or.elim (Bool-set _ _) (mem-cons.0 m) (λ p. rw p refl) (λ k. absurd (not-mem-nil k));
  distinct = Nodup-cons.1 (not-mem-nil, Nodup-nil);
}

round_lem_example :
    Returns
      (round list_heap 2 (λ n. some both_ready) one_second (λ i. willing) server)
      (λ o. (p : List Event × Server) × (o ≡ some p) × Settled list_heap p)
unfolding find
round_lem_example =
    round_lem list_heap 2 (λ n. some both_ready) one_second (λ i. willing) server both_ready
      (λ i j h. le_refl _) willing-Works server-Inv (omega arith) refl
      (Nodup-cons.1 (
        (λ i. Or.elim ⊥_prop (mem-cons.0 i) (λ e. omega (arith, e)) not-mem-nil),
        Nodup-cons.1 (not-mem-nil, Nodup-nil),
      ))
      (λ e i.
        Or.elim (Bool-set _ _) (mem-cons.0 i) (λ p. rw p refl)
          (λ j.
            Or.elim (Bool-set _ _) (mem-cons.0 j) (λ p. rw p refl) (λ k. absurd (not-mem-nil k))))

expired_task_dangles_example : Returns (expire list_heap 2 one_second (dispatch 200 server)) (λ o.
    (s' : Server) × (o ≡ some s')
    × Mem 200 s'.pool.queue
    × ((fuel : ℕ) (w : World) → run_task list_heap fuel w 200 s' ≡ fail dangling))
unfolding Timer.time_update ThreadPool.is_full ThreadPool.start ThreadPool.set_max_queue_size
    ThreadPool.new
expired_task_dangles_example =
    expired_task_dangles list_heap 2 one_second 200 overdue server (λ i j h. le_refl _) server-Inv
      (omega arith) refl mem-cons_self refl (λ i. omega arith)

expired_event_dangles_example :
    Server2.round list_heap 2
      (λ n. some both_ready)
      one_second
      (λ i. willing)
      (λ i. world_then (received []))
      server
    ≡ fail dangling
unfolding Timer.time_update
expired_event_dangles_example =
    expired_event_dangles list_heap 2 (λ n. some both_ready) one_second (λ i. willing)
      (λ i. world_then (received [])) server overdue (readable 200) (readable 100 ∷ [])
      (λ i j h. le_refl _) server-Inv (omega arith) refl mem-cons_self refl (λ i. omega arith)

expire_closes_idle_example : Returns (expire list_heap 2 one_second server) (λ o.
    (s' : Server) × (o ≡ some s')
    × (find 200 s'.requests ≡ none)
    × Mem 5 s'.closed_fds
    × (find 100 s'.requests ≡ find 100 server.requests))
unfolding Timer.time_update find
expire_closes_idle_example =
    expire_closes_idle list_heap 2 one_second server overdue 200 100 connection (λ i j h. le_refl _)
      server-Inv (omega arith) mem-cons_self refl refl (λ i. omega arith)
      (λ u i p k. absurd (
        Or.elim ⊥_prop (mem-cons.0 i)
          (λ c. omega (arith, of_some (ap (λ (w : Timer). w.request) (sym c) ∙ p))) not-mem-nil))
