-- ===== src/Runtime/Dispatch.antt =====
-- What a thread does with what reaches it: `thread::read`, `thread::write` and `handle_engine_event` of
-- src/boson/src/internal/thread.cc.
pub mod Passing
mod Tests
use boson.Prelude.{
  ℕ, zero, suc, ◌+◌, ◌-◌, Int32, int, add_size, sub_size, Bool, true, false, not, List, [], ◌∷◌,
  ◌++◌, Option, none, some, if◌then◌else◌,
}
use boson.Memory.SparseVector
use boson.Net.Poller
use boson.Runtime.State.{
  RoutineStatus, status_number, Routine, RoutineSlot, slot, ThreadStatus, ThreadCommand,
  add_routine, schedule_waiting_routine, finish, fd_ready, Thread, World, M, pure, fault, ◌>>=◌,
  ◌>>◌, assert, lift, routine, thread, set_thread, new_ref, is_valid, target,
}
use boson.Runtime.Thread.{pop_a_waiter, unregister_expired_slot, schedule_routine}
use boson.Runtime.Routine.{event_is_a_fd_wait, event_happened, set_as_semaphore_event_candidate}

-- `suspended_slots_[index]`.
abbrev pub slot_at : ℕ → ℕ → M RoutineSlot
slot_at t index = do th ← thread t; lift (SparseVector.read th.suspended_slots index)

abbrev set_loop : ℕ → (Poller.Poller → Option Poller.Poller) → M (Unit {0})
set_loop t f = do
  th ← thread t
  loop ← lift (f th.event_loop)
  set_thread t (record th { event_loop = loop })

-- A reader that is ready. The status of the event is shadowed by that of the routine.
unfoldable pub wake_reader : ℕ → ℕ → ℕ → RoutineSlot → M (Unit {0})
wake_reader t fd key x = do
  r ← target x.ptr
  body ← routine r
  let status = status_number body.status
  assert (event_is_a_fd_wait body x.event_index fd)
  set_loop t (λ loop. Poller.unregister_read loop fd)
  happened ← event_happened r x.event_index status
  unregister_expired_slot t key

unfoldable pub read : ℕ → ℕ → ℕ → Int32 → M (Unit {0})
unfolding wake_reader
read t fd key status = do
  th ← thread t
  if not (SparseVector.has th.suspended_slots key) then pure tt else (do
    x ← slot_at t key
    valid ← is_valid x.ptr
    if valid then wake_reader t fd key x else pure tt)

unfoldable pub wake_writer : ℕ → ℕ → ℕ → RoutineSlot → Int32 → M (Unit {0})
wake_writer t fd key x status = do
  r ← target x.ptr
  body ← routine r
  assert (event_is_a_fd_wait body x.event_index fd)
  set_loop t (λ loop. Poller.unregister_write loop fd)
  happened ← event_happened r x.event_index status
  unregister_expired_slot t key

unfoldable pub write : ℕ → ℕ → ℕ → Int32 → M (Unit {0})
unfolding wake_writer
write t fd key status = do
  th ← thread t
  if not (SparseVector.has th.suspended_slots key) then pure tt else (do
    x ← slot_at t key
    valid ← is_valid x.ptr
    if valid then wake_writer t fd key x status else pure tt)

-- `data.first.lock()`, and the pop if the semaphore is still there.
unfoldable pub pass_on : ℕ → M (Unit {0})
pass_on s w = elim (w.semaphores s) [ none ↦ some (tt, w) | some sem ↦ pop_a_waiter s w ]

-- A wake-up for the waiter in a slot: it becomes a candidate, or the wake-up goes to the next waiter.
unfoldable pub wake_waiter : ℕ → ℕ → ℕ → M (Unit {0})
unfolding pass_on
wake_waiter t s index = do
  x ← slot_at t index
  valid ← is_valid x.ptr
  if valid
      then (do r ← target x.ptr; set_as_semaphore_event_candidate r x.event_index)
      else (do pass_on s; unregister_expired_slot t index)

unfoldable pub handle_command : ℕ → ThreadCommand → M (Unit {0})
unfolding wake_waiter
handle_command t (add_routine r) = do p ← new_ref (some r); schedule_routine t (slot (some p) 0)
handle_command t (schedule_waiting_routine s index) = wake_waiter t s index
handle_command t finish = do
  th ← thread t
  set_thread t (record th { status = ThreadStatus.finishing })
handle_command t (fd_ready event_index fd status reads) = fault

-- The loop over the queue of commands, which a command may extend; without fuel it is a fault.
unfoldable pub handle_engine_event : ℕ → ℕ → M (Unit {0})
unfolding handle_command
handle_engine_event zero t = fault
handle_engine_event (suc n) t = do
  th ← thread t
  elim th.engine_queue [
    | [] ↦ pure tt
    | c ∷ cs ↦ (do
      set_thread t
          (record th { engine_queue = cs; nb_pending_commands = sub_size th.nb_pending_commands 1 })
      handle_command t c
      handle_engine_event n t)
  ]
