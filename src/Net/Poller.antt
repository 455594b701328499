-- ===== src/Net/Poller.antt =====
-- `internal::netpoller` of src/boson/boson/internal/netpoller.h: for each file descriptor, whether a
-- routine waits to read or to write and under which number. What it asks of the platform (epoll) is
-- kept as a list, oldest first. Its wait is not here.
pub mod Laws
mod Tests
use boson.Prelude.{
  ℕ, ◌-◌, ◌^◌, Bool, true, false, not, List, [], ◌∷◌, ◌++◌, Option, none, some, Vector, filled, get,
  put, if◌then◌else◌, ◌>>=◌,
}

pub data PlatformCall : Type 0 where
  register_fd unregister : ℕ → PlatformCall
  interrupt_loop : PlatformCall

pub record FdData : Type 0 where
  pub registered : Bool
  pub read_enabled : Bool
  pub write_enabled : Bool
  pub read_data : ℕ
  pub write_data : ℕ

pub record Poller : Type 0 where
  pub waiters : Vector FdData
  pub force_next_loop_immediate_exit : Bool
  -- Whether the loop holds `loop_mutex_`.
  pub looping : Bool
  pub platform : List PlatformCall

unfoldable pub init : ℕ → Poller
init max_fds = record {
  waiters = filled max_fds (record {
    registered = false;
    read_enabled = false;
    write_enabled = false;
    read_data = 0;
    write_data = 0;
  });
  force_next_loop_immediate_exit = false;
  looping = false;
  platform = [];
}

abbrev pub ask : Poller → PlatformCall → Poller
ask p c = record p { platform = p.platform ++ c ∷ [] }

abbrev pub change : Poller → ℕ → (FdData → FdData) → Option Poller
change p fd f = do
  d ← get p.waiters fd
  waiters ← put p.waiters fd (f d)
  some (record p { waiters = waiters })

unfoldable pub interrupt : Poller → Poller
interrupt p =
    if not p.looping
    then record p { force_next_loop_immediate_exit = true }
    else ask p interrupt_loop

unfoldable pub signal_new_fd : Poller → ℕ → Option Poller
signal_new_fd p fd = change (ask p (register_fd fd)) fd (λ d. record d { registered = true })

unfoldable pub signal_fd_closed : Poller → ℕ → Option Poller
signal_fd_closed p fd = do
  d ← get p.waiters fd
  q ← change p fd (λ e. record e { registered = false })
  some (if d.registered then ask (ask q (unregister fd)) interrupt_loop else p)

unfoldable pub register_read : Poller → ℕ → ℕ → Option Poller
unfolding signal_new_fd
register_read p fd value = do
  d ← get p.waiters fd
  q ← (if not d.registered then signal_new_fd p fd else some p)
  change q fd (λ e. record e { read_data = value; read_enabled = true })

unfoldable pub register_write : Poller → ℕ → ℕ → Option Poller
unfolding signal_new_fd
register_write p fd value = do
  d ← get p.waiters fd
  q ← (if not d.registered then signal_new_fd p fd else some p)
  change q fd (λ e. record e { write_data = value; write_enabled = true })

-- The data becomes `-1`, as a 64-bit number.
unfoldable pub unregister_read : Poller → ℕ → Option Poller
unregister_read p fd = change p fd (λ d. record d { read_enabled = false; read_data = 2 ^ 64 - 1 })

unfoldable pub unregister_write : Poller → ℕ → Option Poller
unregister_write p fd =
    change p fd (λ d. record d { write_enabled = false; write_data = 2 ^ 64 - 1 })

unfoldable pub get_read_data : Poller → ℕ → Option (Bool × ℕ)
get_read_data p fd = do d ← get p.waiters fd; some (d.read_enabled, d.read_data)

unfoldable pub get_write_data : Poller → ℕ → Option (Bool × ℕ)
get_write_data p fd = do d ← get p.waiters fd; some (d.write_enabled, d.write_data)
