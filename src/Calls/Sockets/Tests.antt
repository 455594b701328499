-- ===== src/Calls/Sockets/Tests.antt =====
-- A kernel that lists the open descriptors, where the address is in use.
use boson.Prelude.{ℕ, ◌≡◌, ◌⊎◌, ap, subst, true, List, [], ◌∷◌, some, mem, arith}
use boson.Calls.State.{Answer, returned, failed, Kernel, Os}
use boson.Calls.Sample.{start}
use boson.Calls.Sockets.{SocketCalls, ListeningSocket, error_opening, create_listening_socket}
use boson.Calls.Sockets.Leaking.{outcome, create_listening_socket_leaks}

abbrev descriptors : Kernel (List ℕ)
descriptors = record {
  call = λ id args k. (returned 7, 7 ∷ k);
  socket_error = λ fd k. (returned 0, k);
  get_fd = λ fd k. 0;
  set_fl = λ fd flags k. k;
  now = λ k. 0;
}

-- EADDRINUSE
abbrev in_use : SocketCalls (List ℕ)
in_use = record {
  setsockopt = λ args k. (returned 0, k);
  bind = λ args k. (failed 98, k);
  listen = λ args k. (returned 0, k);
  htons = λ port. port;
}

abbrev no_descriptors : Os (List ℕ)
no_descriptors = record {
  world = (start []).world;
  errno = 0;
  kernel = [];
  channels = (start []).channels;
}

abbrev opened_answer : Answer
opened_answer = returned 7

create_listening_socket_leaks_example :
    (result : ListeningSocket) × (o : Os (List ℕ)) × (create_listening_socket descriptors in_use 80
        10 2 1 0 0 no_descriptors
      ≡ some (result, o))
    × (((e : ℕ) × (opened_answer ≡ failed e) × (result ≡ error_opening))
        ⊎ ((fd : ℕ) × (opened_answer ≡ returned fd)
            × (result
                ≡ outcome descriptors in_use (λ fd k. mem fd k ≡ true) (returned 0) (failed 98) fd)
            × (mem fd o.kernel ≡ true)))
create_listening_socket_leaks_example =
    create_listening_socket_leaks descriptors in_use (λ fd k. mem fd k ≡ true) 80 10 2 1 0 0
      no_descriptors newly_open (λ args k fd h. h) (λ args k fd h. h) (λ args k fd h. h)
  where
    newly_open :
        (args k k' : List ℕ) (fd : ℕ)
        → ◌≡◌ {A = Answer × List ℕ} (returned 7, 7 ∷ k) (returned fd, k')
        → mem fd k' ≡ true
    newly_open args k k' fd e =
        let kept : 7 ∷ k ≡ k' = ap (λ (x : Answer × List ℕ). x.1) e in
        let same : returned 7 ≡ returned fd = ap (λ (x : Answer × List ℕ). x.0) e in
        subst (λ (l : List ℕ). mem fd l ≡ true) kept (ground (arith, same))
