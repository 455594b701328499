-- ===== src/Runtime/Routine.antt =====
-- `internal::routine` of src/boson/src/internal/routine.cc: a round of events that a routine waits for,
-- and what happens when one of them does.
pub mod Round
pub mod Storing
pub mod Adding
pub mod Wakeup
pub mod Opening
pub mod Cancelling
mod Tests
use boson.Prelude.{
  ℕ, zero, suc, ◌+◌, ◌-◌, ◌==◌, ltb, Int32, int, Bool, true, false, not, ◌&&◌, List, [], ◌∷◌, ◌++◌,
  Option, none, some, if◌then◌else◌, length, get_elem?, set,
}
use boson.Sync.Semaphore
use boson.Sync.Semaphore.{taken, refused, missed}
use boson.Runtime.State.{
  RoutineStatus, is_new, running, yielding, wait_events, sema_event_candidate, EventType,
  WaitedEvent, timer, io_read, io_write, sema_wait, Routine, RoutineSlot, slot, Thread, M, pure,
  fault, ◌>>=◌, ◌>>◌, assert, lift, routine, set_routine, thread, set_thread, semaphore,
  set_semaphore, new_ref, is_valid, target, release, invalidate_all,
}
use boson.Runtime.Thread.{
  pop_a_waiter, register_semaphore_wait, register_timer, register_read, register_write, drop_timer,
  drop_suspended, unregister_expired_slot, schedule_routine,
}

unfoldable pub start_event_round : ℕ → M (Unit {0})
start_event_round r = do
  p ← new_ref (some r)
  body ← routine r
  set_routine r (record body { events = []; current_ptr = some p })

abbrev add_event : ℕ → WaitedEvent → M Routine
add_event r e = do
  body ← routine r
  let body' = record body { events = body.events ++ e ∷ [] }
  set_routine r body'
  pure body'

-- The `fetch_add` after a routine was put in a queue of waiters, and the pop that it may call for.
unfoldable pub restore_and_pop : ℕ → M (Unit {0})
restore_and_pop s = do
  sem ← semaphore s
  let restored = Semaphore.restore_ticket sem.counter
  set_semaphore s (record sem { counter = restored.1 })
  if restored.0 then pop_a_waiter s else pure tt

unfoldable pub add_semaphore_wait : ℕ → ℕ → M (Unit {0})
unfolding restore_and_pop
add_semaphore_wait r s = do
  body ← add_event r (sema_wait s 0 0)
  let last = length body.events - 1
  slot_index ← register_semaphore_wait body.thread (slot body.current_ptr last)
  sem ← semaphore s
  (index, sem') ← lift (Semaphore.write sem (body.thread, slot_index))
  set_semaphore s sem'
  set_routine r (record body { events = set body.events last (sema_wait s index slot_index) })
  restore_and_pop s

unfoldable pub add_timer : ℕ → ℕ → M (Unit {0})
add_timer r date = do
  body ← add_event r (timer date)
  register_timer body.thread date (slot body.current_ptr (length body.events - 1))

unfoldable pub add_read : ℕ → ℕ → M (Unit {0})
add_read r fd = do
  body ← add_event r (io_read fd)
  register_read body.thread fd (slot body.current_ptr (length body.events - 1))

unfoldable pub add_write : ℕ → ℕ → M (Unit {0})
add_write r fd = do
  body ← add_event r (io_write fd)
  register_write body.thread fd (slot body.current_ptr (length body.events - 1))

-- `commit_event_round` up to the switch to the thread's context.
unfoldable pub commit_event_round : ℕ → M (Unit {0})
commit_event_round r = do body ← routine r; set_routine r (record body { status = wait_events })

-- What both a cancelled round and a round that ends do to an event that did not happen.
unfoldable pub drop_event : ℕ → WaitedEvent → M (Unit {0})
drop_event t (timer date) = drop_timer t date
drop_event t (io_read fd) = drop_suspended t
drop_event t (io_write fd) = drop_suspended t
drop_event t (sema_wait s index slot_index) = do
  drop_suspended t
  sem ← semaphore s
  (found, sem') ← lift (Semaphore.free sem index)
  set_semaphore s sem'
  if found then unregister_expired_slot t slot_index else pure tt

unfoldable pub drop_events : ℕ → List WaitedEvent → M (Unit {0})
drop_events t [] = pure tt
drop_events t (e ∷ es) = drop_event t e >> drop_events t es

unfoldable pub cancel_event_round : ℕ → M (Unit {0})
cancel_event_round r = do
  body ← routine r
  drop_events body.thread body.events
  released ← release body.current_ptr
  invalidate_all body.current_ptr
  set_routine r (record body { events = [] })

unfoldable pub set_as_semaphore_event_candidate : ℕ → ℕ → M (Unit {0})
set_as_semaphore_event_candidate r index = do
  body ← routine r
  set_routine r (record body { status = sema_event_candidate })
  schedule_routine body.thread (slot body.current_ptr index)

unfoldable pub event_is_a_fd_wait : Routine → ℕ → ℕ → Bool
event_is_a_fd_wait body index fd = elim (get_elem? body.events index) [
  | some (io_read f) ↦ fd == f
  | some (io_write f) ↦ fd == f
  | _ ↦ false
]

-- `if (&other != &event)`: the events but the one at an index.
unfoldable pub others : List WaitedEvent → ℕ → List WaitedEvent
others [] i = []
others (e ∷ es) zero = es
others (e ∷ es) (suc i) = e ∷ others es i

-- The end of a round by a semaphore: the scheduler takes the routine back.
unfoldable pub finish_by_semaphore : ℕ → ℕ → EventType → M Bool
unfolding drop_events drop_event
finish_by_semaphore r index type = do
  body ← routine r
  drop_events body.thread (others body.events index)
  released ← release body.current_ptr
  invalidate_all body.current_ptr
  set_routine r (record body {
    status = yielding;
    happened_type = type;
    happened_rc = int 0;
    happened_index = index;
  })
  pure true

-- The end of a round by any other event: the routine is scheduled under a new reference.
unfoldable pub finish_by_event : ℕ → ℕ → EventType → Int32 → M Bool
unfolding drop_events drop_event
finish_by_event r index type rc = do
  body ← routine r
  drop_events body.thread (others body.events index)
  set_routine r (record body {
    status = yielding;
    happened_type = type;
    happened_rc = rc;
    happened_index = index;
  })
  released ← release body.current_ptr
  fresh ← new_ref released
  schedule_routine body.thread (slot (some fresh) 0)
  invalidate_all body.current_ptr
  pure true

-- A candidate that missed the ticket goes back to the queue. The event keeps its old `slot_index`.
unfoldable pub wait_again : ℕ → ℕ → ℕ → ℕ → M Bool
unfolding restore_and_pop
wait_again r index s slot_index = do
  body ← routine r
  slot_index' ← register_semaphore_wait body.thread (slot body.current_ptr index)
  sem ← semaphore s
  (queue_index, sem') ← lift (Semaphore.write sem (body.thread, slot_index'))
  set_semaphore s sem'
  set_routine r (record body {
    happened_rc = int 0;
    events = set body.events index (sema_wait s queue_index slot_index);
  })
  restore_and_pop s
  pure false

unfoldable pub candidate_happened : ℕ → ℕ → ℕ → ℕ → M Bool
unfolding finish_by_semaphore wait_again
candidate_happened r index s slot_index = do
  body ← routine r
  drop_suspended body.thread
  unregister_expired_slot body.thread slot_index
  sem ← semaphore s
  let ticket = Semaphore.take_ticket sem.counter
  set_semaphore s (record sem { counter = ticket.1 })
  elim ticket.0 [
    | taken ↦ finish_by_semaphore r index EventType.sema_wait
    | refused ↦ finish_by_semaphore r index EventType.sema_closed
    | missed ↦ wait_again r index s slot_index
  ]

-- ETIMEDOUT on Linux, negated.
abbrev pub timed_out : Int32
timed_out = int 0 - 110

unfoldable pub event_happened : ℕ → ℕ → Int32 → M Bool
unfolding finish_by_event candidate_happened
event_happened r index rc = do
  body ← routine r
  event ← lift (get_elem? body.events index)
  elim event [
    | timer date ↦ finish_by_event r index EventType.timer timed_out
    | io_read fd ↦ drop_suspended body.thread >> finish_by_event r index EventType.io_read rc
    | io_write fd ↦ drop_suspended body.thread >> finish_by_event r index EventType.io_write rc
    | sema_wait s queue_index slot_index ↦ candidate_happened r index s slot_index
  ]
