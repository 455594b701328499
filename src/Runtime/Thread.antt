-- ===== src/Runtime/Thread.antt =====
-- The parts of `internal::thread` of src/boson/src/internal/thread.cc that routines call.
use boson.Prelude.{
  ℕ, ◌==◌, ltb, add_size, sub_size, Bool, true, false, List, [], ◌∷◌, ◌++◌, Option, none, some,
  if◌then◌else◌,
}
use boson.Memory.SparseVector
use boson.Sync.Semaphore
use boson.Net.Poller
use boson.Runtime.State.{
  RoutineStatus, is_new, running, yielding, wait_events, sema_event_candidate, finished,
  RoutineSlot, slot, TimedRoutinesSet, ThreadCommand, schedule_waiting_routine, M, pure, ◌>>=◌,
  ◌>>◌, assert, lift, routine, thread, set_thread, semaphore, set_semaphore, target,
}

-- The slot that a vector is grown by.
abbrev pub no_slot : RoutineSlot
no_slot = slot none 0

-- `thread::push_command`, with `wakeUp`.
unfoldable pub push_command : ℕ → ThreadCommand → M (Unit {0})
push_command t c = do
  th ← thread t
  set_thread t (record th {
    nb_pending_commands = add_size th.nb_pending_commands 1;
    engine_queue = th.engine_queue ++ c ∷ [];
    event_loop = Poller.interrupt th.event_loop;
  })

-- `semaphore::pop_a_waiter`.
unfoldable pub pop_a_waiter : ℕ → M (Unit {0})
pop_a_waiter s = do
  sem ← semaphore s
  (waiter, sem') ← lift (Semaphore.read sem)
  set_semaphore s sem'
  elim waiter [
    | none ↦ pure tt
    | some (t, index) ↦ push_command t (schedule_waiting_routine s index)
  ]

-- `suspended_slots_.allocate()` and the assignment to the new cell.
unfoldable pub store_slot : ℕ → RoutineSlot → M ℕ
store_slot t x = do
  th ← thread t
  (index, slots) ← lift (SparseVector.allocate no_slot th.suspended_slots)
  slots' ← lift (SparseVector.write slots index x)
  set_thread t (record th { suspended_slots = slots' })
  pure index

abbrev pub add_suspended : ℕ → M (Unit {0})
add_suspended t = do
  th ← thread t
  set_thread t (record th { nb_suspended_routines = add_size th.nb_suspended_routines 1 })

abbrev pub drop_suspended : ℕ → M (Unit {0})
drop_suspended t = do
  th ← thread t
  set_thread t (record th { nb_suspended_routines = sub_size th.nb_suspended_routines 1 })

unfoldable pub register_semaphore_wait : ℕ → RoutineSlot → M ℕ
unfolding store_slot
register_semaphore_wait t x = do index ← store_slot t x; add_suspended t; pure index

-- `timed_routines_[date]`, made if it is missing, with one more slot.
unfoldable pub add_timed : ℕ → ℕ → List (ℕ × TimedRoutinesSet) → List (ℕ × TimedRoutinesSet)
add_timed date index [] = (date, record { nb_active = 1; slots = index ∷ [] }) ∷ []
add_timed date index ((d, set) ∷ sets) =
    if date == d
    then (d, record { nb_active = add_size set.nb_active 1; slots = set.slots ++ index ∷ [] })
      ∷ sets
    else if ltb date d
    then (date, record { nb_active = 1; slots = index ∷ [] }) ∷ (d, set) ∷ sets
    else (d, set) ∷ add_timed date index sets

unfoldable pub register_timer : ℕ → ℕ → RoutineSlot → M (Unit {0})
unfolding store_slot add_timed
register_timer t date x = do
  index ← store_slot t x
  th ← thread t
  set_thread t (record th { timed_routines = add_timed date index th.timed_routines })

-- `--neighbor_timers->nb_active`; the set of the date is a fault if it is gone.
unfoldable pub drop_timed : ℕ → List (ℕ × TimedRoutinesSet) → Option (List (ℕ × TimedRoutinesSet))
drop_timed date [] = none
drop_timed date ((d, set) ∷ sets) =
    let rest = drop_timed date sets in
    if date == d
    then some ((d, record set { nb_active = sub_size set.nb_active 1 }) ∷ sets)
    else elim rest [ none ↦ none | some sets' ↦ some ((d, set) ∷ sets') ]

unfoldable pub drop_timer : ℕ → ℕ → M (Unit {0})
unfolding drop_timed
drop_timer t date = do
  th ← thread t
  sets ← lift (drop_timed date th.timed_routines)
  set_thread t (record th { timed_routines = sets })

unfoldable pub register_read : ℕ → ℕ → RoutineSlot → M (Unit {0})
unfolding store_slot
register_read t fd x = do
  index ← store_slot t x
  th ← thread t
  loop ← lift (Poller.register_read th.event_loop fd index)
  set_thread t (record th { event_loop = loop })
  add_suspended t

unfoldable pub register_write : ℕ → ℕ → RoutineSlot → M (Unit {0})
unfolding store_slot
register_write t fd x = do
  index ← store_slot t x
  th ← thread t
  loop ← lift (Poller.register_write th.event_loop fd index)
  set_thread t (record th { event_loop = loop })
  add_suspended t

unfoldable pub unregister_expired_slot : ℕ → ℕ → M (Unit {0})
unregister_expired_slot t index = do
  th ← thread t
  slots ← lift (SparseVector.free th.suspended_slots index)
  set_thread t (record th { suspended_slots = slots })

abbrev pub may_be_scheduled : RoutineStatus → Bool
may_be_scheduled is_new = true
may_be_scheduled running = false
may_be_scheduled yielding = true
may_be_scheduled wait_events = false
may_be_scheduled sema_event_candidate = true
may_be_scheduled finished = false

unfoldable pub schedule_routine : ℕ → RoutineSlot → M (Unit {0})
schedule_routine t x = do
  r ← target x.ptr
  body ← routine r
  assert (may_be_scheduled body.status)
  th ← thread t
  set_thread t (record th { scheduled_routines = th.scheduled_routines ++ x ∷ [] })
