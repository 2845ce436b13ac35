-- ===== src/Socket.antt =====
-- socket.h and socket.cpp: a socket descriptor with an owner.
use httpd_cpp.Base.{ℕ, Bool, Option, none, some, Result, if◌then◌else◌}
use httpd_cpp.InetAddress.{InetAddress, set_sock_addr_inet}
use httpd_cpp.SocketOps.Calls

pub record Socket : Type 0 where
  pub sockfd : ℕ

unfoldable pub new : ℕ → Socket
new sockfd = record { sockfd = sockfd }

unfoldable pub fd : Socket → ℕ
fd s = s.sockfd

unfoldable pub bind_address : (ℕ → InetAddress → Bool) → InetAddress → Socket → Result (Unit {0})
bind_address system addr s = Calls.bind system s.sockfd addr

unfoldable pub listen : (ℕ → ℕ → Bool) → Socket → Result (Unit {0})
listen system s = Calls.listen system s.sockfd

-- The descriptor, and the peer's address, which keeps its value if there is none.
unfoldable pub accept :
    (ℕ → Option (ℕ × InetAddress)) → InetAddress → Socket → Option ℕ × InetAddress
accept system peer s = elim (Calls.accept system s.sockfd) [
  | none ↦ (none, peer)
  | some (connfd, addr) ↦ (some connfd, set_sock_addr_inet addr peer)
]

-- The numbers of the levels and options.
abbrev ipproto_tcp : ℕ
ipproto_tcp = 6

abbrev tcp_nodelay : ℕ
tcp_nodelay = 1

abbrev sol_socket : ℕ
sol_socket = 1

abbrev so_reuseaddr : ℕ
so_reuseaddr = 2

abbrev so_keepalive : ℕ
so_keepalive = 9

module _ {ℓ} {A : Type ℓ} where
  -- The destructor.
  unfoldable pub destroy : (ℕ → A) → Socket → A
  destroy system s = Calls.close system s.sockfd

  unfoldable pub shutdown_write : (ℕ → ℕ → A) → Socket → A
  shutdown_write shutdown s = Calls.shutdown_write shutdown s.sockfd

  -- `setsockopt` at a descriptor, a level, an option and its value.
  module _ (setsockopt : ℕ → ℕ → ℕ → ℕ → A) where
    unfoldable pub set_tcp_no_delay : Bool → Socket → A
    set_tcp_no_delay on s = setsockopt s.sockfd ipproto_tcp tcp_nodelay (if on then 1 else 0)

    unfoldable pub set_reuse_addr : Bool → Socket → A
    set_reuse_addr on s = setsockopt s.sockfd sol_socket so_reuseaddr (if on then 1 else 0)

    unfoldable pub set_keep_alive : Bool → Socket → A
    set_keep_alive on s = setsockopt s.sockfd sol_socket so_keepalive (if on then 1 else 0)

-- It has an empty body.
unfoldable pub set_reuse_port : Bool → Socket → Socket
set_reuse_port on s = s
