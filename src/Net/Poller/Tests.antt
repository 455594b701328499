-- ===== src/Net/Poller/Tests.antt =====
-- A poller of eight descriptors, of which 3 is registered.
use boson.Prelude.{ℕ, ◌≡◌, ◌≢◌, refl, ◌==◌, true, false, [], ◌∷◌, some, get, arith}
use boson.Net.Poller.{
  Poller, register_fd, unregister, interrupt_loop, register_read, signal_fd_closed, get_read_data,
  get_write_data,
}
use boson.Net.Poller.Laws.{get_read_data-register_read, signal_fd_closed_twice}

abbrev watching : Poller
watching = record {
  waiters = record {
    size = 8;
    at = λ fd. record {
      registered = fd == 3;
      read_enabled = fd == 3;
      write_enabled = false;
      read_data = 12;
      write_data = 0;
    };
  };
  force_next_loop_immediate_exit = false;
  looping = true;
  platform = register_fd 3 ∷ [];
}

get_read_data-register_read_trial :
    (q : Poller) × (register_read watching 4 77 ≡ some q)
    × (get_read_data q 4 ≡ some (true, 77))
    × (get_write_data q 4 ≡ get_write_data watching 4)
    × ((other : ℕ) → other ≢ 4 → get q.waiters other ≡ get watching.waiters other)
    × (q.platform ≡ register_fd 3 ∷ register_fd 4 ∷ [])
get_read_data-register_read_trial = get_read_data-register_read watching 4 77 (omega arith)

signal_fd_closed_twice_trial :
    (q : Poller) × (signal_fd_closed watching 3 ≡ some q)
    × (q.platform ≡ register_fd 3 ∷ unregister 3 ∷ interrupt_loop ∷ [])
    × (get_read_data q 3 ≡ get_read_data watching 3)
    × (get_write_data q 3 ≡ get_write_data watching 3)
    × (signal_fd_closed q 3 ≡ some q)
signal_fd_closed_twice_trial = signal_fd_closed_twice watching 3 (omega arith) refl
