-- ===== src/Server2.antt =====
-- main_server2.cpp: the earlier server, whose main thread answers the requests itself. It makes a
-- pool too, and hands it nothing. The state is that of main_server.cpp, whose set of deleted
-- requests this one lacks. What is printed is left out, and so is `strerror`.
pub mod Expiry
use httpd_cpp.Base.{
  ℕ, zero, ◌+◌, ◌>>◌, Bool, true, false, not, ◌||◌, List, [], ◌∷◌, ◌++◌, take, Option, none, some,
  Result, ok, fail, dangling, ◌>>=◌, ◌==◌, if◌then◌else◌,
}
use httpd_cpp.Bytes.{codes}
use httpd_cpp.RequestStore.{find, remove}
use httpd_cpp.Buffer
use httpd_cpp.Buffer.{initial_size, retrieve_all}
use httpd_cpp.Buffer.Fd.{write_fd}
use httpd_cpp.Timer.{Timer, TimeVal}
use httpd_cpp.PriorityQueue
use httpd_cpp.PriorityQueue.{MinHeap, add_timer, del_timer, handle_expire_timers}
use httpd_cpp.HttpRequest
use httpd_cpp.HttpRequest.{HttpRequest}
use httpd_cpp.HttpParse
use httpd_cpp.HttpParse.{parse_request}
use httpd_cpp.HttpResponse
use httpd_cpp.HttpResponse.{
  HttpResponse, ok200, set_status_code, set_content_type, set_body, append_to_buffer,
}
use httpd_cpp.ThreadPool
use httpd_cpp.InetAddress
use httpd_cpp.InetAddress.{InetAddress, af_inet}
use httpd_cpp.SocketOps.Calls
use httpd_cpp.Socket
use httpd_cpp.EPoll
use httpd_cpp.EPoll.{EPoll, Event, epoll_wait, epoll_add}
use httpd_cpp.Callback.{World, HeaderFunc, close_connect, read_all, string_at, with_message}
use httpd_cpp.Server.{Server, Io, Setup, bit, epollin, epollerr, edge}

abbrev pub epollhup : ℕ
epollhup = 4

-- The descriptor -1, as its 32 bits.
abbrev minus_one : ℕ
minus_one = 4294967295

abbrev timeout : ℕ
timeout = 2000

unfoldable pub http_close_connect : ℕ → Server → Result Server
http_close_connect address s = elim (find address s.requests) [
  | none ↦ fail dangling
  | some r ↦
      ok (record s {
        closed_fds = s.closed_fds ++ (r.fd ∷ []);
        requests = remove address s.requests;
      })
]

unfoldable pub run_handlers : List Timer → Server → Result Server
run_handlers [] s = ok s
run_handlers (t ∷ ts) s = elim t.request [
  | none ↦ fail dangling
  | some address ↦ http_close_connect address s >>= run_handlers ts
]

-- The descriptor of the accepted connection is not looked at, nor is the answer of `epoll_add`.
module _ (heap : MinHeap) where
  unfoldable pub accept_connection : Io → Server → Server
  accept_connection io s =
      let (connfd?, peer) =
        Socket.accept io.accept4 (InetAddress.new 0) (record { sockfd = s.sockfd }) in
      let connfd : ℕ = elim connfd? [ none ↦ minus_one | some fd ↦ fd ] in
      let re = HttpRequest.set_fd connfd (HttpRequest.new io.unset_fd) in
      let address = io.fresh s.requests in
      let (re', queue) = add_timer heap address re timeout (some close_connect) io.time s.queue in
      let opened : List ℕ = elim connfd? [
        | none ↦ s.opened_fds
        | some fd ↦ s.opened_fds ++ (fd ∷ [])
      ] in
      record s { requests = (address, re') ∷ s.requests; queue = queue; opened_fds = opened }

unfoldable pub is_broken : ℕ → Bool
is_broken events = bit epollerr events || bit epollhup events || not (bit epollin events)

-- `close(request->getFd())`; the request is not deleted.
unfoldable pub close_fd : HttpRequest HeaderFunc → Server → Server
close_fd r s = record s { closed_fds = s.closed_fds ++ (r.fd ∷ []) }

-- The response, with the 538 bytes at the address that `mmap` answers.
unfoldable pub answer : World → HttpResponse → Result HttpResponse
answer w response = do
  body ← string_at (w.mmap 538 (w.open_file (codes "./index.html"))) 538
  ok (
      set_body body
        (with_message (set_status_code ok200 (set_content_type (codes "text/html") response))))

module _ (heap : MinHeap) where
  -- From the new buffer to the end of the event; `none` where the fuel of a loop runs out.
  unfoldable pub serve : ℕ → World → ℕ → HttpRequest HeaderFunc → Server → Result (Option Server)
  serve fuel w address r s = do
    buf ← Buffer.new initial_size
    read ← read_all fuel w.readv 0 buf
    elim read [
      | none ↦ ok none
      | some (false, buf') ↦ ok (some (close_fd r s))
      | some (true, buf') ↦ (do
        p ← parse_request fuel (HttpParse.new r) buf'
        elim p [
          | none ↦ ok none
          | some (valid, parse, buf'') ↦ (do
            response ← answer w (HttpResponse.new false)
            out ← append_to_buffer response (retrieve_all buf'')
            count ← write_fd w.write out
            let (r', queue) =
                add_timer heap address parse.request timeout (some close_connect) w.time s.queue
            ok (
                some (record s {
                  queue = queue;
                  requests = (address, r') ∷ remove address s.requests;
                })))
        ])
    ]

  unfoldable pub handle_event : ℕ → Io → World → Event → Server → Result (Option Server)
  handle_event fuel io w e s = elim (find e.request s.requests) [
    | none ↦ fail dangling
    | some r ↦
        if r.fd == s.sockfd
        then ok (some (accept_connection heap io s))
        else (let s' : Server = record s { queue = del_timer r s.queue } in
            if is_broken e.events then ok (some (close_fd r s')) else serve fuel w e.request r s')
  ]

  unfoldable pub handle_events :
      ℕ → (ℕ → Io) → (ℕ → World) → ℕ → List Event → Server → Result (Option Server)
  handle_events fuel io w n [] s = ok (some s)
  handle_events fuel io w n (e ∷ es) s = do
    o ← handle_event fuel (io n) (w n) e s
    elim o [ none ↦ ok none | some s' ↦ handle_events fuel io w (n + 1) es s' ]

  -- With -1 for the number of events the loop over them is empty.
  unfoldable pub turn :
      ℕ
      → (ℕ → TimeVal)
      → (ℕ → Io)
      → (ℕ → World)
      → Option ℕ × EPoll
      → Server
      → Result (Option Server)
  turn fuel clock io w (some zero, epoll) s = ok (some (record s { epoll = epoll }))
  turn fuel clock io w (num, epoll) s = elim (handle_expire_timers heap fuel clock s.queue) [
    | none ↦ ok none
    | some sweep ↦ (do
      s' ←
          run_handlers sweep.fired
            (record s { epoll = epoll; queue = record s.queue { timers = sweep.left } })
      let n : ℕ = elim num [ none ↦ 0 | some k ↦ k ]
      handle_events fuel io w 0 (take n epoll.events) s')
  ]

  unfoldable pub round :
      ℕ
      → (ℕ → Option (List Event))
      → (ℕ → TimeVal)
      → (ℕ → Io)
      → (ℕ → World)
      → Server
      → Result (Option Server)
  round fuel system clock io w s = turn fuel clock io w (epoll_wait system s.epoll) s

-- `main`, up to the loop.
unfoldable pub set_up : Setup → ℕ → Result Server
set_up system address = do
  let pool = ThreadPool.start 4 (ThreadPool.set_max_queue_size 7 ThreadPool.new)
  poll ← EPoll.new system.epoll_create
  sockfd ← Calls.create_nonblock_socket system.socket af_inet
  let request = HttpRequest.set_fd sockfd (HttpRequest.new 0)
  let socket = Socket.new sockfd
  Socket.bind_address system.bind (InetAddress.new 3001) socket
  Socket.listen system.listen socket
  let added = epoll_add system.epoll_ctl (Socket.fd socket) address edge poll
  ok (record {
    requests = (address, request) ∷ [];
    queue = PriorityQueue.new;
    pool = pool;
    ptr_set = [];
    epoll = poll;
    sockfd = sockfd;
    opened_fds = sockfd ∷ [];
    closed_fds = [];
  })
