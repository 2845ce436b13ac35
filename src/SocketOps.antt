-- ===== src/SocketOps.antt =====
-- socket_ops.h and socket_ops.cpp: the conversions between host and network byte order.
-- The host is little-endian, so `htonl` and `ntohl` reverse the four bytes of a word, `htons` and
-- `ntohs` the two. An integer is its bit pattern.
pub mod Order
pub mod Transfer
pub mod Calls
use httpd_cpp.Base.{ℕ, zero, suc, ◌+◌, ◌*◌, ◌/◌, ◌%◌, ◌^◌, List, [], ◌∷◌}

-- The bytes of a word in memory, and the word that bytes in memory hold.
abbrev pub to_memory : ℕ → ℕ → List ℕ
to_memory zero x = []
to_memory (suc n) x = x % 256 ∷ to_memory n (x / 256)

abbrev pub from_memory : List ℕ → ℕ
from_memory [] = 0
from_memory (x ∷ xs) = x + 256 * from_memory xs

abbrev swap_bytes32 : ℕ → ℕ
swap_bytes32 x =
    x % 256 * 2 ^ 24 + x / 2 ^ 8 % 256 * 2 ^ 16 + x / 2 ^ 16 % 256 * 2 ^ 8 + x / 2 ^ 24 % 256

abbrev swap_bytes16 : ℕ → ℕ
swap_bytes16 x = x % 256 * 2 ^ 8 + x / 2 ^ 8 % 256

unfoldable pub host_to_net32 : ℕ → ℕ
host_to_net32 x = swap_bytes32 x

unfoldable pub host_to_net16 : ℕ → ℕ
host_to_net16 x = swap_bytes16 x

unfoldable pub net_to_host32 : ℕ → ℕ
net_to_host32 x = swap_bytes32 x

unfoldable pub net_to_host16 : ℕ → ℕ
net_to_host16 x = swap_bytes16 x
