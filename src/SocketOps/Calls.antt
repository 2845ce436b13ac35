-- ===== src/SocketOps/Calls.antt =====
-- socket_ops.cpp: the wrappers of the system's calls on sockets. What the system answers is a
-- parameter; a failed call is reported by `perror`, and most are then asserted away. A cast of an
-- address pointer gives the same address, so the casts have no model of their own.
use httpd_cpp.Base.{
  ℕ, Bool, List, Option, none, some, Result, ok, fail, assertion, assert, ◌>>◌, ltb,
}
use httpd_cpp.InetAddress.{InetAddress}

abbrev pub max_conn : ℕ
max_conn = 1024

-- A failed call, `none`, gives -1, which the assert rejects as it does 0.
unfoldable pub create_nonblock_socket : (ℕ → Option ℕ) → ℕ → Result ℕ
create_nonblock_socket socket family = elim (socket family) [
  | none ↦ fail assertion
  | some sockfd ↦ (do assert (ltb 0 sockfd); ok sockfd)
]

-- `true` stands for the answer 0, `false` for -1.
unfoldable pub bind : (ℕ → InetAddress → Bool) → ℕ → InetAddress → Result (Unit {0})
bind system sockfd addr = assert (system sockfd addr)

unfoldable pub listen : (ℕ → ℕ → Bool) → ℕ → Result (Unit {0})
listen system sockfd = assert (system sockfd max_conn)

-- The descriptor of the connection, and its peer.
unfoldable pub accept : (ℕ → Option (ℕ × InetAddress)) → ℕ → Option (ℕ × InetAddress)
accept accept4 sockfd = accept4 sockfd

abbrev shut_wr : ℕ
shut_wr = 1

module _ {ℓ} {A : Type ℓ} where
  unfoldable pub close : (ℕ → A) → ℕ → A
  close system sockfd = system sockfd

  unfoldable pub shutdown_write : (ℕ → ℕ → A) → ℕ → A
  shutdown_write shutdown sockfd = shutdown sockfd shut_wr

  -- `iov` are the lengths of the buffers.
  unfoldable pub readv : (ℕ → List ℕ → A) → ℕ → List ℕ → A
  readv system sockfd iov = system sockfd iov

-- The conversions between text and addresses have an empty body.
unfoldable pub to_ip_port : List ℕ → InetAddress → List ℕ
to_ip_port buf addr = buf

unfoldable pub to_ip : List ℕ → InetAddress → List ℕ
to_ip buf addr = buf

unfoldable pub from_ip_port : List ℕ → ℕ → InetAddress → InetAddress
from_ip_port ip port addr = addr
