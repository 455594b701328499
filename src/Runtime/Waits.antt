-- ===== src/Runtime/Waits.antt =====
-- `wait_readiness` of src/boson/src/syscalls.cc and `usleep` up to the switch of contexts, with the
-- registrations of src/boson/boson/syscall_traits.h.
pub mod Prepared
mod Tests
use boson.Prelude.{ℕ, zero, suc, Bool, true, false, Option, none, some}
use boson.Net.Poller
use boson.Runtime.State.{Thread, M, pure, ◌>>=◌, ◌>>◌, lift, thread, set_thread}
use boson.Runtime.Clock.{add_timer_date, usleep_date}
use boson.Runtime.Routine.{start_event_round, add_timer, add_read, add_write, commit_event_round}

-- `add_event<IsRead>::apply`.
abbrev pub add_event : Bool → (r fd : ℕ) → M (Unit {0})
add_event true r fd = add_read r fd
add_event false r fd = add_write r fd

-- `add_timer<HasTimer>::apply`, with the timeout if there is one.
abbrev pub add_timeout : Option ℕ → (now r : ℕ) → M (Unit {0})
add_timeout none now r = pure tt
add_timeout (some timeout_ms) now r = add_timer r (add_timer_date now timeout_ms)

unfoldable pub prepare_wait : Bool → Option ℕ → (now r fd : ℕ) → M (Unit {0})
prepare_wait read timeout now r fd = do
  start_event_round r
  add_event read r fd
  add_timeout timeout now r
  commit_event_round r

unfoldable pub prepare_sleep : (now r duration_us : ℕ) → M (Unit {0})
prepare_sleep now r duration_us = do
  start_event_round r
  add_timer r (usleep_date now duration_us)
  commit_event_round r

-- `thread::signal_fd_closed`, and `engine::signal_fd_closed` on the threads below `n`.
unfoldable pub thread_signal_fd_closed : (t fd : ℕ) → M (Unit {0})
thread_signal_fd_closed t fd = do
  th ← thread t
  loop ← lift (Poller.signal_fd_closed th.event_loop fd)
  set_thread t (record th { event_loop = loop })

unfoldable pub signal_fd_closed : (n fd : ℕ) → M (Unit {0})
unfolding thread_signal_fd_closed
signal_fd_closed zero fd = pure tt
signal_fd_closed (suc n) fd = signal_fd_closed n fd >> thread_signal_fd_closed n fd
