-- ===== src/InetAddress.antt =====
-- inet_address.h and inet_address.cpp: an IPv4 address and port, in network byte order.
use httpd_cpp.Base.{ℕ, List, Option, none, some, Result, fail, exception}
use httpd_cpp.SocketOps.{host_to_net32, host_to_net16}

-- `sockaddr_in`.
pub record InetAddress : Type 0 where
  pub family : ℕ
  pub port : ℕ
  pub address : ℕ

abbrev pub af_inet : ℕ
af_inet = 2

abbrev inaddr_any : ℕ
inaddr_any = 0

unfoldable pub new : ℕ → InetAddress
new port = record {
  family = af_inet;
  address = host_to_net32 inaddr_any;
  port = host_to_net16 port;
}

-- `inet_pton` is the system's answer to the text, `none` where it is 0 or -1. The throw stands
-- outside the `if`.
unfoldable pub new_ip : (List ℕ → Option ℕ) → List ℕ → ℕ → Result InetAddress
new_ip inet_pton ip port =
    let addr : InetAddress = record { family = af_inet; address = 0; port = host_to_net16 port } in
    let addr' : InetAddress = elim (inet_pton ip) [
      | none ↦ addr
      | some a ↦ record addr { address = a }
    ] in
    fail exception

unfoldable pub get_family : InetAddress → ℕ
get_family a = a.family

unfoldable pub set_sock_addr_inet : InetAddress → InetAddress → InetAddress
set_sock_addr_inet addr a = addr
