-- ===== src/Server/Events.antt =====
-- One event of the main loop, and the events of a round.
pub mod Cases
use mathlib.Core.List.{
  Mem, map, Nodup, Nodup-cons, mem-cons_self, mem-cons_of_mem, mem-map_of_mem, not-mem-nil,
}
use httpd_cpp.Base.{
  ℕ, ◌+◌, ◌≡◌, ◌≢◌, refl, sym, subst, true, false, inl, inr, List, [], ◌∷◌, ◌++◌, Option, none,
  some, ok, Returns, Returns-bind, ◌==◌, Bool-cases, arith,
}
use httpd_cpp.InetAddress.{InetAddress}
use httpd_cpp.RequestStore.{find, remove, find-remove}
use httpd_cpp.PriorityQueue.{MinHeap, del_timer}
use httpd_cpp.PriorityQueue.Delete.{add_timer_lem}
use httpd_cpp.PriorityQueue.{add_timer}
use httpd_cpp.HttpRequest
use httpd_cpp.Socket
use httpd_cpp.SocketOps.Calls
use httpd_cpp.EPoll.{epoll_add}
use httpd_cpp.Callback.{timeout, close_connect}
use httpd_cpp.HttpRequest.{HttpRequest}
use httpd_cpp.EPoll.{Event, Ctl}
use httpd_cpp.Callback.{HeaderFunc}
use httpd_cpp.Server.{
  Server, Io, contains, erase, accept_connection, is_broken, bit, epollin, drop_connection,
  dispatch, handle_event, handle_events, is_blocked,
}
use httpd_cpp.Server.Ownership.{Store, Inv, drop-Inv, add-Inv}
use httpd_cpp.Server.Sweeping.{exists_at, is_known, absent_cases}

-- The calls for a new connection succeed, and the allocator gives an address that is not in use.
pub record Works (io : Io) : Type 0 where
  pub accepts :
      (fd : ℕ) → (connfd : ℕ) × (peer : InetAddress) × (io.accept4 fd ≡ some (connfd, peer))
  pub adds : (epoll_fd : ℕ) (c : Ctl) → io.epoll_ctl epoll_fd c ≡ true
  pub fresh : (m : Store) → exists_at (find (io.fresh m) m) ≡ false

-- What an event leaves for the others.
pub record Handled (e : Event) (s s' : Server) : Type 0 where
  pub inv : Inv s'.requests s'.queue.timers
  pub known : (a : ℕ) → e.request ≢ a → is_known s a ≡ true → is_known s' a ≡ true

pub contains-erase : (a b : ℕ) (l : List ℕ) → a ≢ b → contains b (erase a l) ≡ contains b l
unfolding erase
contains-erase a b [] h = refl
contains-erase a b (c ∷ l) h = ground (arith, contains-erase a b l)

pub exists_cases :
    (o : Option (HttpRequest HeaderFunc))
    → exists_at o ≡ true
    → (r : HttpRequest HeaderFunc) × (o ≡ some r)
exists_cases none h = cc
exists_cases (some r) h = (r, refl)

not_broken : (events : ℕ) → is_broken events ≡ false → bit epollin events ≡ true
unfolding is_broken
not_broken events h = ground arith

pub known-cons :
    (b a : ℕ) (r : HttpRequest HeaderFunc) (s : Server)
    → is_known s a ≡ true
    → is_known (record s { requests = (b, r) ∷ s.requests }) a ≡ true
unfolding find
known-cons b a r s h = ground arith

module _ (heap : MinHeap) where
  -- The server with one more connection.
  abbrev pub connected : Io → ℕ → Server → Server
  connected io connfd s =
      let address = io.fresh s.requests in
      let (re, queue) =
        add_timer heap address (HttpRequest.set_fd connfd (HttpRequest.new io.unset_fd)) timeout
          (some close_connect) io.time s.queue in
      record s {
        requests = (address, re) ∷ s.requests;
        queue = queue;
        opened_fds = s.opened_fds ++ (connfd ∷ []);
      }

  pub accept_connection-eq :
      (io : Io) (s : Server) {connfd : ℕ} {peer : InetAddress}
      → io.accept4 s.sockfd ≡ some (connfd, peer)
      → ((c : Ctl) → io.epoll_ctl s.epoll.fd c ≡ true)
      → accept_connection heap io s ≡ ok (connected io connfd s)
  unfolding accept_connection Socket.accept Calls.accept epoll_add
  accept_connection-eq io s e f =
      rw (e, f _, accept_connection, Socket.accept, Calls.accept, epoll_add) refl

  accept_connection_lem :
      (io : Io) (e : Event) (s : Server)
      → Works io
      → Inv s.requests s.queue.timers
      → Returns (accept_connection heap io s) (Handled e s)
  accept_connection_lem io e s w v =
      let (connfd, peer, f) = w.accepts s.sockfd in
      let re = HttpRequest.set_fd connfd (HttpRequest.new io.unset_fd) in
      let (named, perm) =
        add_timer_lem heap (io.fresh s.requests) re timeout close_connect io.time s.queue in
      (
        connected io connfd s,
        accept_connection-eq io s f (w.adds s.epoll.fd),
        record {
          inv =
              add-Inv (io.fresh s.requests) _ _ v (absent_cases _ (w.fresh s.requests)) perm refl
                (λ h. cc) refl named;
          known = λ a h q. known-cons (io.fresh s.requests) a _ s q;
        },
      )

  pub skipped_eq :
      (io : Io) (e : Event) (s : Server)
      → contains e.request s.ptr_set ≡ true
      → handle_event heap io e s ≡ ok (record s { ptr_set = erase e.request s.ptr_set })
  unfolding handle_event
  skipped_eq io e s c = rw (c, handle_event) refl

  pub listening_eq :
      (io : Io) (e : Event) (s : Server) {r : HttpRequest HeaderFunc}
      → contains e.request s.ptr_set ≡ false
      → find e.request s.requests ≡ some r
      → (r.fd == s.sockfd) ≡ true
      → handle_event heap io e s ≡ accept_connection heap io s
  unfolding handle_event
  listening_eq io e s c f l = rw (c, f, l, handle_event) refl

  pub dispatched_eq :
      (io : Io) (e : Event) (s : Server) {r : HttpRequest HeaderFunc}
      → contains e.request s.ptr_set ≡ false
      → find e.request s.requests ≡ some r
      → (r.fd == s.sockfd) ≡ false
      → is_broken e.events ≡ false
      → handle_event heap io e s ≡ ok (dispatch e.request s)
  unfolding handle_event
  dispatched_eq io e s c f l b = rw (c, f, l, b, not_broken e.events b, handle_event) refl

  pub dropped_eq :
      (io : Io) (e : Event) (s : Server) {r : HttpRequest HeaderFunc}
      → contains e.request s.ptr_set ≡ false
      → find e.request s.requests ≡ some r
      → (r.fd == s.sockfd) ≡ false
      → is_broken e.events ≡ true
      → handle_event heap io e s ≡ ok (drop_connection e.request r s)
  unfolding handle_event
  dropped_eq io e s c f l b = rw (c, f, l, b, handle_event) refl

  pub handle_event_lem :
      (io : Io) (e : Event) (s : Server)
      → Works io
      → Inv s.requests s.queue.timers
      → is_known s e.request ≡ true
      → Returns (handle_event heap io e s) (Handled e s)
  unfolding drop_connection remove del_timer dispatch
  handle_event_lem io e s w v k = elim (Bool-cases (contains e.request s.ptr_set)) [
    | inl c ↦ (
      record s { ptr_set = erase e.request s.ptr_set },
      skipped_eq io e s c,
      record { inv = v; known = λ a h q. rw (contains-erase e.request a s.ptr_set h) q },
    )
    | inr c ↦
        (let (r, f) = exists_cases (find e.request s.requests) (ground arith) in
          elim (Bool-cases (r.fd == s.sockfd)) [
            | inl l ↦
                subst (λ m. Returns m (Handled e s)) (sym (listening_eq io e s c f l))
                  (accept_connection_lem io e s w v)
            | inr l ↦ elim (Bool-cases (is_broken e.events)) [
              | inl b ↦ (
                drop_connection e.request r s,
                dropped_eq io e s c f l b,
                record {
                  inv = drop-Inv e.request r s.queue v f;
                  known = λ a h q. ground (arith, find-remove e.request a s.requests);
                },
              )
              | inr b ↦ (
                dispatch e.request s,
                dispatched_eq io e s c f l b,
                record { inv = v; known = λ a h q. q },
              )
            ]
          ])
  ]

  -- What is left of the events is known.
  pub record Settled (o : List Event × Server) : Type 0 where
    pub inv : Inv o.1.requests o.1.queue.timers
    pub known : (e : Event) → Mem e o.0 → is_known o.1 e.request ≡ true

  pub handle_events_lem :
      (io : ℕ → Io) (n : ℕ) (es : List Event) (s : Server)
      → ((i : ℕ) → Works (io i))
      → Inv s.requests s.queue.timers
      → Nodup (map (λ (e : Event). e.request) es)
      → ((e : Event) → Mem e es → is_known s e.request ≡ true)
      → Returns (handle_events heap io n es s) Settled
  unfolding handle_events
  handle_events_lem io n [] s w v d k =
      (([], s), refl, record { inv = v; known = λ e i. absurd (not-mem-nil i) })
  handle_events_lem io n (e ∷ es) s w v d k = elim (Bool-cases (is_blocked heap s)) [
    | inl b ↦ rw b ((e ∷ es, s), refl, record { inv = v; known = k })
    | inr b ↦ rw b (
        Returns-bind (handle_event heap (io n) e s) (handle_events heap io (n + 1) es)
          (handle_event_lem (io n) e s (w n) v (k e mem-cons_self))
          λ s' h. handle_events_lem io (n + 1) es s' w h.inv (Nodup-cons.0 d).1 λ e' i.
            h.known e'.request
              (λ p. (Nodup-cons.0 d).0 (
                subst (λ a. Mem a (map (λ (u : Event). u.request) es)) (sym p)
                  (mem-map_of_mem (λ (u : Event). u.request) i)))
              (k e' (mem-cons_of_mem e i)))
  ]
