-- ===== src/Server/SetUp.antt =====
-- The server that a set-up leaves.
use httpd_cpp.Base.{ℕ, ◌≡◌, [], ◌∷◌, ok, between, of_ok, assert, ltb}
use httpd_cpp.InetAddress
use httpd_cpp.InetAddress.{af_inet}
use httpd_cpp.SocketOps.Calls
use httpd_cpp.Socket
use httpd_cpp.PriorityQueue
use httpd_cpp.HttpRequest
use httpd_cpp.ThreadPool
use httpd_cpp.EPoll
use httpd_cpp.EPoll.{EPoll, epoll_add}
use httpd_cpp.Server.{Server, Setup, set_up, edge}

-- With the listening request alone, an empty queue of timers and a pool of two.
abbrev pub ready : EPoll → ℕ → ℕ → Server
ready poll sockfd address = record {
  requests = (address, HttpRequest.set_fd sockfd (HttpRequest.new 0)) ∷ [];
  queue = PriorityQueue.new;
  pool = ThreadPool.start 2 (ThreadPool.set_max_queue_size 20 ThreadPool.new);
  ptr_set = [];
  epoll = poll;
  sockfd = sockfd;
  opened_fds = sockfd ∷ [];
  closed_fds = [];
}

pub set_up_cases :
    (system : Setup) (address : ℕ) {s : Server}
    → set_up system address ≡ ok s
    → (poll : EPoll) × (sockfd : ℕ) × (ready poll sockfd address ≡ s)
unfolding set_up
set_up_cases system address h =
    let (poll, e1, h1) = between (EPoll.new system.epoll_create) _ h in
    let (sockfd, e2, h2) = between (Calls.create_nonblock_socket system.socket af_inet) _ h1 in
    let (positive, e3, h3) = between (assert (ltb 0 sockfd)) _ h2 in
    let socket = Socket.new sockfd in
    let (bound, e4, h4) =
      between (Socket.bind_address system.bind (InetAddress.new 3001) socket) _ h3 in
    let (listening, e5, h5) = between (Socket.listen system.listen socket) _ h4 in
    let (added, e6, same) =
      between (assert (epoll_add system.epoll_ctl (Socket.fd socket) address edge poll)) _ h5 in
    (poll, sockfd, of_ok same)
