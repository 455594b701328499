-- ===== src/Calls/Sockets.antt =====
-- `net::create_listening_socket` of src/boson/src/net/socket.cc. The calls of the C library that it makes are
-- parameters.
pub mod Leaking
mod Tests
use boson.Prelude.{ℕ, ◌-◌, Int32, int, ltb, List, [], ◌∷◌, if◌then◌else◌}
use boson.Calls.State.{Answer, Kernel, Os, N, pure, ◌>>=◌, answered}
use boson.Calls.Syscalls.{socket}

-- `setsockopt`, `bind` and `listen` with their arguments, and the byte order of the network.
pub record SocketCalls (K : Type 0) : Type 0 where
  pub setsockopt : List ℕ → K → Answer × K
  pub bind : List ℕ → K → Answer × K
  pub listen : List ℕ → K → Answer × K
  pub htons : ℕ → ℕ

-- SOL_SOCKET and SO_REUSEADDR on Linux.
abbrev pub sol_socket : ℕ
sol_socket = 1

abbrev pub so_reuseaddr : ℕ
so_reuseaddr = 2

-- The socket, or the exception that is thrown.
pub data ListeningSocket : Type 0 where
  listening : (sockfd : Int32) → ListeningSocket
  error_opening error_setsockopt error_binding : ListeningSocket

module _ {K : Type 0} (kernel : Kernel K) (calls : SocketCalls K) where
  abbrev ask : (List ℕ → K → Answer × K) → List ℕ → N K Int32
  ask f args o = answered (f args o.kernel) o

  -- The parameter `non_block` is not used, and the result of `listen` is dropped.
  unfoldable pub create_listening_socket :
      (port max_connections domain type protocol receive_from : ℕ) → N K ListeningSocket
  unfolding socket
  create_listening_socket port max_connections domain type protocol receive_from = do
    sockfd ← socket kernel domain type protocol
    if ltb sockfd (int 0) then pure error_opening else (do
      let fd = sockfd - int 0
      reused ← ask calls.setsockopt (fd ∷ sol_socket ∷ so_reuseaddr ∷ 1 ∷ [])
      if ltb reused (int 0) then pure error_setsockopt else (do
        bound ← ask calls.bind (fd ∷ domain ∷ receive_from ∷ calls.htons port ∷ [])
        if ltb bound (int 0) then pure error_binding else (do
          ignored ← ask calls.listen (fd ∷ max_connections ∷ [])
          pure (listening sockfd))))
