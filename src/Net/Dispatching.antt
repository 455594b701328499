-- ===== src/Net/Dispatching.antt =====
-- What `internal::netpoller` of src/boson/boson/internal/netpoller.h does with the events of its loop, and its
-- wait. Its handler, with its state `H`, is a parameter; the threads' handler does not register descriptors.
pub mod Counting
pub mod Once
mod Tests
use boson.Prelude.{
  ℕ, ◌-◌, Int32, int, Bool, true, false, List, [], ◌∷◌, Option, none, some, get, put, if◌then◌else◌,
  ◌>>=◌,
}
use boson.Net.Poller.{FdData, Poller, change}
use boson.Net.EventLoop
use boson.Net.EventLoop.{Handler, LoopEndReason, LoopKernel, EventLoop, ebadf}

-- `net_event_handler`.
pub record NetEventHandler (H : Type 0) : Type 0 where
  pub read : (fd : ℕ) → (waiter : ℕ) → (status : Int32) → H → Option H
  pub write : (fd : ℕ) → (waiter : ℕ) → (status : Int32) → H → Option H
  pub callback : H → Option H

module _ {H : Type 0} (handler : NetEventHandler H) where
  unfoldable pub dispatch_read : ℕ → Int32 → Poller × H → Option (Poller × H)
  dispatch_read fd status (p, h) = do
    current_data ← get p.waiters fd
    (if current_data.read_enabled
        then (do
          h' ← handler.read fd current_data.read_data status h
          p' ← change p fd (λ d. record d { read_enabled = false })
          some (p', h'))
        else some (p, h))

  unfoldable pub dispatch_write : ℕ → Int32 → Poller × H → Option (Poller × H)
  dispatch_write fd status (p, h) = do
    current_data ← get p.waiters fd
    (if current_data.write_enabled
        then (do
          h' ← handler.write fd current_data.write_data status h
          p' ← change p fd (λ d. record d { write_enabled = false })
          some (p', h'))
        else some (p, h))

  unfoldable pub closed : ℕ → Poller × H → Option (Poller × H)
  unfolding dispatch_read dispatch_write
  closed fd s = do s' ← dispatch_read fd (int 0 - ebadf) s; dispatch_write fd (int 0 - ebadf) s'

  -- The netpoller as the handler of its loop.
  unfoldable pub poller_handler : Handler (Poller × H)
  unfolding dispatch_read dispatch_write closed
  poller_handler = record { read = dispatch_read; write = dispatch_write; closed = closed }

  abbrev pub set_poller :
      {K : Type 0} → EventLoop K (Poller × H) → (Poller → Poller) → EventLoop K (Poller × H)
  set_poller l f = record l { handled = (f l.handled.0, l.handled.1) }

  -- `loop_mutex_` is free at the start.
  unfoldable pub wait :
      {K : Type 0}
      → LoopKernel K
      → ℕ
      → Int32
      → EventLoop K (Poller × H)
      → Option (LoopEndReason × EventLoop K (Poller × H))
  unfolding poller_handler EventLoop.wait
  wait kernel fuel timeout_ms l = do
    (reason, l') ←
        EventLoop.wait kernel poller_handler fuel
          (if l.handled.0.force_next_loop_immediate_exit then int 0 else timeout_ms)
          (set_poller l (λ p. record p { looping = true; force_next_loop_immediate_exit = false }))
    let unlocked = set_poller l' (λ p. record p { looping = false })
    h ← handler.callback unlocked.handled.1
    some (reason, record unlocked { handled = (unlocked.handled.0, h) })
