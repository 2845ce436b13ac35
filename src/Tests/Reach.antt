-- ===== src/Tests/Reach.antt =====
-- A server that has just been set up, and its first round, in which a client connects.
use native.Mathlib.Nat.{le_refl}
use mathlib.Core.Logic.Or
use mathlib.Core.Bool.{Bool-set}
use mathlib.Core.List.{mem-cons, not-mem-nil, Nodup-nil, Nodup-cons}
use httpd_cpp.Base.{◌≡◌, refl, ap, ◌∙◌, true, List, [], ◌∷◌, some, replicate, Returns, arith}
use httpd_cpp.HttpRequest
use httpd_cpp.HttpRequest.{HttpRequest}
use httpd_cpp.PriorityQueue.Heap.{list_heap}
use httpd_cpp.RequestStore.{find}
use httpd_cpp.EPoll.{Event}
use httpd_cpp.ThreadPool
use httpd_cpp.ThreadPool.{ThreadPool}
use httpd_cpp.SocketOps.Calls
use httpd_cpp.Socket
use httpd_cpp.EPoll
use httpd_cpp.EPoll.{epoll_add}
use httpd_cpp.Base.{ok}
use httpd_cpp.PriorityQueue
use httpd_cpp.Server.Steps.{start, further, do_round}
use httpd_cpp.Server.Reachability.{reach-Inv}
use httpd_cpp.Server.{Setup, set_up, Server, round}
use httpd_cpp.Server.Ownership.{Inv}
use httpd_cpp.Server.Events.{Settled}
use httpd_cpp.Server.Rounds.{round_lem}
use httpd_cpp.Tests.Queues.{one_second}
use httpd_cpp.Tests.Rounds.{listener, willing, willing-Works, readable}
use httpd_cpp.Server.Descriptors.{Conserved}
use httpd_cpp.Server.Descriptors.Reach.{reach-Conserved}

abbrev pub calls : Setup
calls = record {
  epoll_create = some 4;
  socket = λ family. some 3;
  bind = λ fd address. true;
  listen = λ fd backlog. true;
  epoll_ctl = λ fd c. true;
}

abbrev pub fresh_server : Server
fresh_server = record {
  requests = (100, listener) ∷ [];
  queue = record { timers = []; next_address = 0 };
  pool = ThreadPool.start 2 (ThreadPool.set_max_queue_size 20 ThreadPool.new);
  ptr_set = [];
  epoll = record {
    fd = 4;
    events = replicate 1024 (record { events = 0; request = 0 });
    num_events = some 0;
  };
  sockfd = 3;
  opened_fds = 3 ∷ [];
  closed_fds = [];
}

pub fresh_server_eq : set_up calls 100 ≡ ok fresh_server
unfolding set_up EPoll.new Calls.create_nonblock_socket Socket.new Socket.bind_address Calls.bind
    Socket.listen Calls.listen Socket.fd epoll_add PriorityQueue.new HttpRequest.set_fd
    HttpRequest.new
fresh_server_eq = refl

one_connection :
    Returns
      (round list_heap 1 (λ n. some (readable 100 ∷ [])) one_second (λ i. willing) fresh_server)
      (λ o. (p : List Event × Server) × (o ≡ some p) × Settled list_heap p)
unfolding find
one_connection =
    round_lem list_heap 1 (λ n. some (readable 100 ∷ [])) one_second (λ i. willing) fresh_server
      (readable 100 ∷ []) (λ i j h. le_refl _) willing-Works
      (reach-Inv list_heap (λ k. one_second) (λ i. willing) calls 100 (λ k i j h. le_refl _)
        willing-Works fresh_server_eq start)
      (omega arith) refl (Nodup-cons.1 (not-mem-nil, Nodup-nil))
      (λ e i. Or.elim (Bool-set _ _) (mem-cons.0 i) (λ p. rw p refl) (λ k. absurd (not-mem-nil k)))

reach-Inv_example : let s = one_connection.2.0.1 in Inv s.requests s.queue.timers
reach-Inv_example =
    reach-Inv list_heap (λ k. one_second) (λ i. willing) calls 100 (λ k i j h. le_refl _)
      willing-Works fresh_server_eq
      (further start (
        do_round 1 0 0 (λ n. some (readable 100 ∷ [])) (omega arith)
          (one_connection.1 ∙ ap ok one_connection.2.1)))

reach-Conserved_example : Conserved one_connection.2.0.1
reach-Conserved_example =
    reach-Conserved list_heap (λ k. one_second) (λ i. willing) calls 100 willing-Works
      fresh_server_eq
      (further start (
        do_round 1 0 0 (λ n. some (readable 100 ∷ [])) (omega arith)
          (one_connection.1 ∙ ap ok one_connection.2.1)))
