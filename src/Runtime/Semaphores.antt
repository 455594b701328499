-- ===== src/Runtime/Semaphores.antt =====
-- `semaphore::post`, `disable` and `wait` of src/boson/src/semaphore.cc on the objects of the runtime. What
-- happens from the switch to the thread's context until the routine is resumed is the parameter `suspend`.
pub mod Draining
pub mod Queued
pub mod Popped
pub mod Granted
pub mod Handover
pub mod Posted
pub mod TimedOut
pub mod Expired
pub mod Timed
pub mod Lost
mod Tests
use boson.Prelude.{
  ℕ, zero, suc, ◌+◌, ◌-◌, Int32, int, leb, Bool, true, false, List, [], ◌∷◌, Option, none, some,
  if◌then◌else◌,
}
use boson.Sync.Semaphore
use boson.Sync.Semaphore.{SemaphoreReturnValue, taken, refused, missed, disabled_standpoint}
use boson.Runtime.Clock.{semaphore_date}
use boson.Runtime.State.{
  RoutineStatus, EventType, Routine, schedule_waiting_routine, World, M, pure, fault, ◌>>=◌, ◌>>◌,
  lift, routine, set_routine, semaphore, set_semaphore,
}
use boson.Runtime.Thread.{push_command, pop_a_waiter}
use boson.Runtime.Routine.{start_event_round, add_semaphore_wait, add_timer, commit_event_round}

unfoldable pub post : ℕ → M SemaphoreReturnValue
unfolding pop_a_waiter
post s = do
  sem ← semaphore s
  let posted = Semaphore.post_ticket sem.counter
  set_semaphore s (record sem { counter = posted.2 })
  (if posted.1 then pop_a_waiter s else pure tt)
  pure posted.0

-- `while (read(waiter))`; without fuel it is a fault.
unfoldable pub drain_waiters : ℕ → ℕ → M (Unit {0})
drain_waiters zero s = fault
drain_waiters (suc n) s = do
  sem ← semaphore s
  (waiter, sem') ← lift (Semaphore.read sem)
  set_semaphore s sem'
  elim waiter [
    | none ↦ pure tt
    | some (t, index) ↦ (do push_command t (schedule_waiting_routine s index); drain_waiters n s)
  ]

-- The queue has at most as many waiters as cells.
unfoldable pub disable : ℕ → M (Unit {0})
unfolding drain_waiters
disable s = do
  sem ← semaphore s
  set_semaphore s (record sem { counter = disabled_standpoint })
  drain_waiters (suc sem.waiters.cells.size) s

abbrev pub value_of : EventType → SemaphoreReturnValue
value_of EventType.sema_wait = SemaphoreReturnValue.ok
value_of EventType.sema_closed = SemaphoreReturnValue.disabled
value_of EventType.nothing = SemaphoreReturnValue.timedout
value_of EventType.timer = SemaphoreReturnValue.timedout
value_of EventType.io_read = SemaphoreReturnValue.timedout
value_of EventType.io_write = SemaphoreReturnValue.timedout

-- What every wait does after the routine was resumed.
unfoldable pub run_again : ℕ → M Routine
run_again r = do
  body ← routine r
  set_routine r
      (record body { previous_status = RoutineStatus.wait_events; status = RoutineStatus.running })
  pure body

-- `wait` up to the switch to the thread's context: the result where there is no need to wait.
unfoldable pub begin_wait : (now r s : ℕ) → Int32 → M (Option SemaphoreReturnValue)
begin_wait now r s timeout = do
  sem ← semaphore s
  let ticket = Semaphore.take_ticket sem.counter
  set_semaphore s (record sem { counter = ticket.1 })
  elim ticket.0 [
    | taken ↦ pure (some SemaphoreReturnValue.ok)
    | refused ↦ pure (some SemaphoreReturnValue.disabled)
    | missed ↦ (do
      start_event_round r
      add_semaphore_wait r s
      (if leb (int 0) timeout then add_timer r (semaphore_date now (timeout - int 0)) else pure tt)
      commit_event_round r
      pure none)
  ]

-- `wait` from the resumption on.
unfoldable pub end_wait : ℕ → M SemaphoreReturnValue
unfolding run_again
end_wait r = do body ← run_again r; pure (value_of body.happened_type)

unfoldable pub wait : (ℕ → M (Unit {0})) → (now r s : ℕ) → Int32 → M SemaphoreReturnValue
unfolding begin_wait end_wait
wait suspend now r s timeout = do
  ticket ← begin_wait now r s timeout
  elim ticket [ some value ↦ pure value | none ↦ suspend r >> end_wait r ]
