-- ===== src/Server.antt =====
-- main_server.cpp: the main thread, which waits for events, closes what has expired, accepts
-- connections and hands readable ones to the pool. Requests are named by their addresses, and a
-- task of the pool is the address of the request that it serves. What the system keeps for a
-- descriptor (its options, the events it waits for, the answer of `epoll_del` on a descriptor that
-- was closed, the action for SIGPIPE) is not part of the state.
pub mod Ownership
pub mod Sweeping
pub mod Events
pub mod Rounds
pub mod Races
pub mod Tasks
pub mod Steps
pub mod Reachability
pub mod Descriptors
pub mod Idle
pub mod Answering
pub mod Totality
pub mod Program
pub mod SetUp
use httpd_cpp.Base.{
  ℕ, zero, suc, ◌+◌, ◌/◌, ◌%◌, ◌^◌, Bool, true, false, not, ◌&&◌, ◌||◌, List, [], ◌∷◌, ◌++◌, length,
  take, Option, none, some, Result, ok, fail, assertion, dangling, assert, ◌>>=◌, ◌>>◌, ltb, ◌==◌,
  if◌then◌else◌,
}
use httpd_cpp.RequestStore.{find, remove}
use httpd_cpp.Timer.{Timer, TimeVal}
use httpd_cpp.PriorityQueue
use httpd_cpp.PriorityQueue.{MinHeap, TimerQueue, Sweep, add_timer, del_timer, handle_expire_timers}
use httpd_cpp.HttpRequest
use httpd_cpp.HttpRequest.{HttpRequest}
use httpd_cpp.ThreadPool
use httpd_cpp.ThreadPool.{ThreadPool, put}
use httpd_cpp.InetAddress
use httpd_cpp.InetAddress.{InetAddress, af_inet}
use httpd_cpp.SocketOps.Calls
use httpd_cpp.Socket
use httpd_cpp.EPoll
use httpd_cpp.EPoll.{EPoll, Event, Ctl, epoll_add, epoll_del, epoll_wait}
use httpd_cpp.Callback.{World, HeaderFunc, Outcome, closed, kept, timeout, close_connect}
use httpd_cpp.Callback

-- `requests` are the objects that exist. `opened_fds` and `closed_fds` are histories: the sockets that
-- were given out for requests, and the arguments of `::close`.
pub record Server : Type 0 where
  pub requests : List (ℕ × HttpRequest HeaderFunc)
  pub queue : TimerQueue
  pub pool : ThreadPool
  pub ptr_set : List ℕ
  pub epoll : EPoll
  pub sockfd : ℕ
  pub opened_fds : List ℕ
  pub closed_fds : List ℕ

-- What the system and the allocator answer while one event is handled: `accept4`, `new` for what
-- exists already, `epoll_ctl` (true for 0), `gettimeofday`, and what the fresh object's `fd_` holds.
pub record Io : Type 0 where
  pub accept4 : ℕ → Option (ℕ × InetAddress)
  pub fresh : List (ℕ × HttpRequest HeaderFunc) → ℕ
  pub epoll_ctl : ℕ → Ctl → Bool
  pub time : TimeVal
  pub unset_fd : ℕ

-- Bits of the events.
abbrev pub bit : ℕ → ℕ → Bool
bit k events = events / 2 ^ k % 2 == 1

abbrev pub epollin : ℕ
epollin = 0

abbrev pub epollerr : ℕ
epollerr = 3

abbrev epollrdhup : ℕ
epollrdhup = 13

-- EPOLLIN | EPOLLET | EPOLLONESHOT, and the same without the last.
abbrev pub one_shot : ℕ
one_shot = 1 + 2 ^ 31 + 2 ^ 30

abbrev pub edge : ℕ
edge = 1 + 2 ^ 31

abbrev pub contains : ℕ → List ℕ → Bool
contains a [] = false
contains a (b ∷ bs) = b == a || contains a bs

unfoldable pub erase : ℕ → List ℕ → List ℕ
erase a [] = []
erase a (b ∷ bs) = let rest = erase a bs in if b == a then rest else b ∷ rest

-- `CallBack::http_close_connect`.
unfoldable pub http_close_connect : ℕ → Server → Result Server
http_close_connect address s = elim (find address s.requests) [
  | none ↦ fail dangling
  | some r ↦ ok (record s {
    closed_fds = s.closed_fds ++ (r.fd ∷ []);
    requests = remove address s.requests;
    ptr_set = address ∷ s.ptr_set;
  })
]

-- The handlers of expired timers; a timer without a request would hand on a null pointer.
unfoldable pub run_handlers : List Timer → Server → Result Server
run_handlers [] s = ok s
run_handlers (t ∷ ts) s = elim t.request [
  | none ↦ fail dangling
  | some address ↦ http_close_connect address s >>= run_handlers ts
]

module _ (heap : MinHeap) where
  -- `queue.handle_expire_timers()`, whose handlers leave the queue alone; `none` where the fuel runs
  -- out.
  unfoldable pub expire : ℕ → (ℕ → TimeVal) → Server → Result (Option Server)
  expire fuel clock s = elim (handle_expire_timers heap fuel clock s.queue) [
    | none ↦ ok none
    | some sweep ↦ (do
      s' ← run_handlers sweep.fired (record s { queue = record s.queue { timers = sweep.left } })
      ok (some s'))
  ]

  -- An event at the listening socket.
  unfoldable pub accept_connection : Io → Server → Result Server
  accept_connection io s =
      let (connfd?, peer) =
        Socket.accept io.accept4 (InetAddress.new 0) (record { sockfd = s.sockfd }) in
      elim connfd? [
        | none ↦ fail assertion
        | some connfd ↦
            (let re = HttpRequest.set_fd connfd (HttpRequest.new io.unset_fd) in
              let address = io.fresh s.requests in
              let (re', queue) =
                add_timer heap address re timeout (some close_connect) io.time s.queue in
              do
                assert (epoll_add io.epoll_ctl connfd address one_shot s.epoll)
                ok (record s {
                  requests = (address, re') ∷ s.requests;
                  queue = queue;
                  opened_fds = s.opened_fds ++ (connfd ∷ []);
                }))
      ]

-- What is left to do with a connection: `EPOLLERR`, `EPOLLRDHUP`, or no `EPOLLIN`.
unfoldable pub is_broken : ℕ → Bool
is_broken events = bit epollerr events || bit epollrdhup events || not (bit epollin events)

unfoldable pub drop_connection : ℕ → HttpRequest HeaderFunc → Server → Server
drop_connection address r s = record s {
  queue = del_timer r s.queue;
  closed_fds = s.closed_fds ++ (r.fd ∷ []);
  requests = remove address s.requests;
}

unfoldable pub dispatch : ℕ → Server → Server
dispatch address s = record s { pool = put address s.pool }

module _ (heap : MinHeap) where
  unfoldable pub handle_event : Io → Event → Server → Result Server
  handle_event io e s =
      if contains e.request s.ptr_set
      then ok (record s { ptr_set = erase e.request s.ptr_set })
      else elim (find e.request s.requests) [
        | none ↦ fail dangling
        | some r ↦
            if r.fd == s.sockfd
            then accept_connection heap io s
            else ok (
                if is_broken e.events
                then drop_connection e.request r s
                else if bit epollin e.events
                then dispatch e.request s
                else s)
      ]

  -- Whether the main thread waits in `pool.run` for a place in the queue.
  abbrev pub is_blocked : Server → Bool
  is_blocked s = ltb 0 (s.pool.full_waiting + s.pool.full_woken)

  -- The `for` loop, from its n-th event on, until `pool.run` has to wait; what is left to handle
  -- stands with the state.
  unfoldable pub handle_events : (ℕ → Io) → ℕ → List Event → Server → Result (List Event × Server)
  handle_events io n [] s = ok ([], s)
  handle_events io n (e ∷ es) s =
      if is_blocked s
      then ok (e ∷ es, s)
      else handle_event (io n) e s >>= handle_events io (n + 1) es

  -- A turn of the main loop, once the number of events is there.
  unfoldable pub turn :
      ℕ
      → (ℕ → TimeVal)
      → (ℕ → Io)
      → Option ℕ × EPoll
      → Server
      → Result (Option (List Event × Server))
  turn fuel clock io (none, epoll) s = fail assertion
  turn fuel clock io (some zero, epoll) s = ok (some ([], record s { epoll = epoll }))
  turn fuel clock io (some (suc n), epoll) s = do
    swept ← expire heap fuel clock (record s { epoll = epoll })
    elim swept [
      | none ↦ ok none
      | some s' ↦ (do r ← handle_events io 0 (take (suc n) epoll.events) s'; ok (some r))
    ]

  -- One turn of the main loop.
  unfoldable pub round :
      ℕ
      → (ℕ → Option (List Event))
      → (ℕ → TimeVal)
      → (ℕ → Io)
      → Server
      → Result (Option (List Event × Server))
  round fuel system clock io s =
      turn fuel clock io (epoll_wait system s.epoll) (record s { ptr_set = [] })

  -- A thread of the pool with its task.
  unfoldable pub run_task : ℕ → World → ℕ → Server → Result (Option Server)
  run_task fuel w address s = elim (find address s.requests) [
    | none ↦ fail dangling
    | some r ↦ (do
      o ← Callback.request heap fuel w address r s.queue
      ok (elim o [
        | none ↦ none
        | some (count, closed queue) ↦ some (record s {
          queue = queue;
          requests = remove address s.requests;
          closed_fds = s.closed_fds ++ (r.fd ∷ []);
        })
        | some (count, kept r' queue) ↦
            some (record s { queue = queue; requests = (address, r') ∷ remove address s.requests })
      ]))
  ]

-- The system's answers to the calls before the loop.
pub record Setup : Type 0 where
  pub epoll_create : Option ℕ
  pub socket : ℕ → Option ℕ
  pub bind : ℕ → InetAddress → Bool
  pub listen : ℕ → ℕ → Bool
  pub epoll_ctl : ℕ → Ctl → Bool

-- `main`, up to the loop. The listening request, an object of `main`, stands at `address`.
unfoldable pub set_up : Setup → ℕ → Result Server
set_up system address = do
  let pool = ThreadPool.start 2 (ThreadPool.set_max_queue_size 20 ThreadPool.new)
  poll ← EPoll.new system.epoll_create
  sockfd ← Calls.create_nonblock_socket system.socket af_inet
  assert (ltb 0 sockfd)
  let request = HttpRequest.set_fd sockfd (HttpRequest.new 0)
  let socket = Socket.new sockfd
  Socket.bind_address system.bind (InetAddress.new 3001) socket
  Socket.listen system.listen socket
  assert (epoll_add system.epoll_ctl (Socket.fd socket) address edge poll)
  ok (record {
    requests = (address, request) ∷ [];
    queue = PriorityQueue.new;
    pool = pool;
    ptr_set = [];
    epoll = poll;
    sockfd = sockfd;
    opened_fds = sockfd ∷ [];
    closed_fds = [];
  })
