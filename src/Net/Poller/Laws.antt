-- ===== src/Net/Poller/Laws.antt =====
-- What registering and closing a file descriptor do to it, to the others and to the platform.
use boson.Prelude.{
  ℕ, ◌<◌, ◌≡◌, ◌≢◌, refl, true, false, [], ◌∷◌, ◌++◌, some, get, update, if◌then◌else◌, arith,
  Bool-cases, Option-cases, inl, inr,
}
use boson.Net.Poller.{
  Poller, FdData, register_fd, unregister, interrupt_loop, register_read, register_write,
  signal_new_fd, signal_fd_closed, get_read_data, get_write_data,
}

-- A registration in range does not fault and keeps the table's size.
pub register_read-size :
    (p : Poller) (fd value : ℕ)
    → fd < p.waiters.size
    → (q : Poller) × (register_read p fd value ≡ some q) × (q.waiters.size ≡ p.waiters.size)
unfolding register_read signal_new_fd
register_read-size p fd value h = elim (Option-cases (register_read p fd value)) [
  | inl e ↦ absurd (ground arith)
  | inr (q, e) ↦ (q, e, ground arith)
]

pub register_write-size :
    (p : Poller) (fd value : ℕ)
    → fd < p.waiters.size
    → (q : Poller) × (register_write p fd value ≡ some q) × (q.waiters.size ≡ p.waiters.size)
unfolding register_write signal_new_fd
register_write-size p fd value h = elim (Option-cases (register_write p fd value)) [
  | inl e ↦ absurd (ground arith)
  | inr (q, e) ↦ (q, e, ground arith)
]

-- A registered reader is found under its number, as long as the descriptor is in range. Other
-- descriptors and the writer of this one keep what they had, and the platform is asked to watch the
-- descriptor exactly if it was not registered.
pub get_read_data-register_read :
    (p : Poller) (fd value : ℕ)
    → fd < p.waiters.size
    → (q : Poller) × (register_read p fd value ≡ some q)
      × (get_read_data q fd ≡ some (true, value))
      × (get_write_data q fd ≡ get_write_data p fd)
      × ((other : ℕ) → other ≢ fd → get q.waiters other ≡ get p.waiters other)
      × (q.platform ≡ (
          if (p.waiters.at fd).registered then p.platform else p.platform ++ register_fd fd ∷ []))
unfolding register_read get_read_data get_write_data signal_new_fd
get_read_data-register_read p fd value h = elim (Bool-cases (p.waiters.at fd).registered) [
  | inl e ↦ (known, ground arith, ground arith, ground arith, (λ other ne. ground arith), rw e)
  | inr e ↦ (added, ground arith, ground arith, ground arith, (λ other ne. ground arith), rw e)
]
  where
    set_read : FdData → FdData
    set_read d = record d { read_data = value; read_enabled = true }

    known : Poller
    known = record p {
      waiters = record {
        size = p.waiters.size;
        at = update p.waiters.at fd (set_read (p.waiters.at fd));
      };
    }

    first : ℕ → FdData
    first = update p.waiters.at fd (record (p.waiters.at fd) { registered = true })

    added : Poller
    added = record p {
      waiters = record { size = p.waiters.size; at = update first fd (set_read (first fd)) };
      platform = p.platform ++ register_fd fd ∷ [];
    }

-- Closing a registered descriptor asks the platform to stop watching it and to wake its loop, and
-- keeps who waits on it; a second close asks for nothing.
pub signal_fd_closed_twice :
    (p : Poller) (fd : ℕ)
    → fd < p.waiters.size
    → (p.waiters.at fd).registered ≡ true
    → (q : Poller) × (signal_fd_closed p fd ≡ some q)
      × (q.platform ≡ (p.platform ++ unregister fd ∷ []) ++ interrupt_loop ∷ [])
      × (get_read_data q fd ≡ get_read_data p fd)
      × (get_write_data q fd ≡ get_write_data p fd)
      × (signal_fd_closed q fd ≡ some q)
unfolding signal_fd_closed get_read_data get_write_data
signal_fd_closed_twice p fd h e =
    (closed, ground arith, refl, ground arith, ground arith, ground arith)
  where
    closed : Poller
    closed = record p {
      waiters = record {
        size = p.waiters.size;
        at = update p.waiters.at fd (record (p.waiters.at fd) { registered = false });
      };
      platform = (p.platform ++ unregister fd ∷ []) ++ interrupt_loop ∷ [];
    }
