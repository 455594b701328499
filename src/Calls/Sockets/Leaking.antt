-- ===== src/Calls/Sockets/Leaking.antt =====
-- What is left open by `create_listening_socket`.
use Prim.Native.Nat.{bit_or}
use boson.Prelude.{ℕ, ◌≡◌, ◌⊎◌, inl, inr, refl, ap, int, List, [], ◌∷◌, some, arith}
use boson.Calls.State.{Answer, returned, failed, Kernel, Os, sys_socket, o_nonblock}
use boson.Calls.Syscalls.{socket}
use boson.Calls.Sockets.{
  SocketCalls, ListeningSocket, listening, error_opening, error_setsockopt, error_binding,
  sol_socket, so_reuseaddr, create_listening_socket,
}

Answer-cases : (a : Answer) → ((n : ℕ) × (a ≡ returned n)) ⊎ ((e : ℕ) × (a ≡ failed e))
Answer-cases (returned n) = inl (n, refl)
Answer-cases (failed e) = inr (e, refl)

module _ {K : Type 0} (kernel : Kernel K) (calls : SocketCalls K) (Open : ℕ → K → Type 0) where
  -- A descriptor is open after the call that gives it, and the calls on a socket do not close one.
  abbrev pub Opens : Type 0
  Opens =
      (args : List ℕ) (k k' : K) (fd : ℕ)
      → kernel.call sys_socket args k ≡ (returned fd, k')
      → Open fd k'

  abbrev pub Keeps : (List ℕ → K → Answer × K) → Type 0
  Keeps f = (args : List ℕ) (k : K) (fd : ℕ) → Open fd k → Open fd (f args k).1

  -- The calls that the function makes, one after the other, and what the kernel answers.
  abbrev pub opened : (domain type protocol : ℕ) → K → Answer × K
  opened domain type protocol k =
      kernel.call sys_socket (domain ∷ bit_or type o_nonblock ∷ protocol ∷ []) k

  abbrev pub reused : (fd : ℕ) → K → Answer × K
  reused fd k = calls.setsockopt (fd ∷ sol_socket ∷ so_reuseaddr ∷ 1 ∷ []) k

  abbrev pub bound : (fd port domain receive_from : ℕ) → K → Answer × K
  bound fd port domain receive_from k =
      calls.bind (fd ∷ domain ∷ receive_from ∷ calls.htons port ∷ []) k

  -- What becomes of the socket `fd`, from the answers for the option and the address.
  abbrev pub outcome : Answer → Answer → (fd : ℕ) → ListeningSocket
  outcome (failed e) b fd = error_setsockopt
  outcome (returned n) (failed e) fd = error_binding
  outcome (returned n) (returned m) fd = listening (int fd)

  opened_leaks :
      (port max_connections domain type protocol receive_from fd : ℕ) (o : Os K)
      → Keeps calls.setsockopt
      → Keeps calls.bind
      → Keeps calls.listen
      → (opened domain type protocol o.kernel).0 ≡ returned fd
      → Open fd (opened domain type protocol o.kernel).1
      → (o' : Os K) × (create_listening_socket kernel calls port max_connections domain type
            protocol receive_from o
          ≡ some (
            outcome
                (reused fd (opened domain type protocol o.kernel).1).0
                (bound fd port domain receive_from
                  (reused fd (opened domain type protocol o.kernel).1).1).0
                fd,
            o',
          ))
        × Open fd o'.kernel
  unfolding create_listening_socket socket
  opened_leaks port max_connections domain type protocol receive_from fd o sets binds listens f1
        open1 =
      let a1 = opened domain type protocol o.kernel in
      let a2 = reused fd a1.1 in
      let open2 : Open fd a2.1 = sets _ a1.1 fd open1 in
      elim (Answer-cases a2.0) [
        | inr (e2, f2) ↦ (record o { kernel = a2.1; errno = e2 }, ground (arith, f1, f2), open2)
        | inl (n2, f2) ↦
            let a3 = bound fd port domain receive_from a2.1 in
            let open3 : Open fd a3.1 = binds _ a2.1 fd open2 in
            elim (Answer-cases a3.0) [
              | inr (e3, f3) ↦
                  (record o { kernel = a3.1; errno = e3 }, ground (arith, f1, f2, f3), open3)
              | inl (n3, f3) ↦
                  let a4 = calls.listen (fd ∷ max_connections ∷ []) a3.1 in
                  let open4 : Open fd a4.1 = listens _ a3.1 fd open3 in
                  elim (Answer-cases a4.0) [
                    | inr (e4, f4) ↦ (
                      record o { kernel = a4.1; errno = e4 },
                      ground (arith, f1, f2, f3, f4),
                      open4,
                    )
                    | inl (n4, f4) ↦
                        (record o { kernel = a4.1 }, ground (arith, f1, f2, f3, f4), open4)
                  ]
            ]
      ]

  -- The call ends whatever the kernel answers. If the kernel opens no socket, it throws that. Otherwise the
  -- descriptor that the kernel gave to this call is open at its end in each case: where the option is refused
  -- and where the address is refused, which it throws without the number of the socket, and where it
  -- returns the socket. A descriptor is open after the call that gives it, and the calls on a socket do not
  -- close one.
  pub create_listening_socket_leaks :
      (port max_connections domain type protocol receive_from : ℕ) (o : Os K)
      → Opens
      → Keeps calls.setsockopt
      → Keeps calls.bind
      → Keeps calls.listen
      → (result : ListeningSocket) × (o' : Os K) × (create_listening_socket kernel calls port
            max_connections domain type protocol receive_from o
          ≡ some (result, o'))
        × (((e : ℕ) × ((opened domain type protocol o.kernel).0 ≡ failed e)
              × (result ≡ error_opening))
            ⊎ ((fd : ℕ) × ((opened domain type protocol o.kernel).0 ≡ returned fd)
                × (result
                    ≡ outcome
                        (reused fd (opened domain type protocol o.kernel).1).0
                        (bound fd port domain receive_from
                          (reused fd (opened domain type protocol o.kernel).1).1).0
                        fd)
                × Open fd o'.kernel))
  unfolding create_listening_socket socket
  create_listening_socket_leaks port max_connections domain type protocol receive_from o opens sets
        binds listens =
      let a1 = opened domain type protocol o.kernel in
      elim (Answer-cases a1.0) [
        | inr (e, f) ↦ (
          error_opening,
          record o { kernel = a1.1; errno = e },
          ground (arith, f),
          inl (e, f, refl),
        )
        | inl (fd, f) ↦
            let (o', r, still) =
              opened_leaks port max_connections domain type protocol receive_from fd o sets binds
                listens f (opens _ o.kernel a1.1 fd (ap (λ (x : Answer). (x, a1.1)) f)) in
            (_, o', r, inr (fd, f, refl, still))
      ]
