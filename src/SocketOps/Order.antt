-- ===== src/SocketOps/Order.antt =====
-- The byte order of the integers that a buffer holds.
use httpd_cpp.Base.{ℕ, ◌/◌, ◌%◌, ◌^◌, ◌<◌, ◌≡◌, [], ◌∷◌, arith}
use httpd_cpp.SocketOps.{
  to_memory, from_memory, host_to_net32, host_to_net16, net_to_host32, net_to_host16,
}

-- A 32-bit word that is converted, stored, loaded and converted back is itself, and its bytes
-- stand in memory with the most significant one first.
pub host_to_net32_memory :
    (x : ℕ)
    → x < 2 ^ 32
    → (net_to_host32 (from_memory (to_memory 4 (host_to_net32 x))) ≡ x)
      × (to_memory 4 (host_to_net32 x)
          ≡ x / 2 ^ 24 ∷ x / 2 ^ 16 % 256 ∷ x / 2 ^ 8 % 256 ∷ x % 256 ∷ [])
unfolding host_to_net32 net_to_host32
host_to_net32_memory x h = (omega arith, ground arith)

pub host_to_net16_memory :
    (x : ℕ)
    → x < 2 ^ 16
    → (net_to_host16 (from_memory (to_memory 2 (host_to_net16 x))) ≡ x)
      × (to_memory 2 (host_to_net16 x) ≡ x / 2 ^ 8 ∷ x % 256 ∷ [])
unfolding host_to_net16 net_to_host16
host_to_net16_memory x h = (omega arith, ground arith)
