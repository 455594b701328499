-- ===== src/Runtime/Loop.antt =====
-- `thread::loop` of src/boson/src/internal/thread.cc, and `routine::resume` and `resume_routine` of
-- src/boson/src/internal/routine.cc. The clock (in nanoseconds), the wait of the netpoller with what it tells
-- the thread, and the switches of contexts are parameters.
pub mod Timeouts
pub mod Ending
mod Tests
use boson.Prelude.{
  ℕ, zero, suc, ◌+◌, ◌-◌, ◌*◌, ◌/◌, ◌%◌, ◌^◌, ◌==◌, ltb, leb, Int32, int, Bool, true, false, not,
  ◌&&◌, ◌||◌, List, [], ◌∷◌, Option, none, some, if◌then◌else◌,
}
use boson.Net.EventLoop.{LoopEndReason, max_iter_reached, timed_out, error_occured}
use boson.Runtime.State.{
  RoutineStatus, is_new, running, yielding, Routine, TimedRoutinesSet, ThreadStatus, Thread, World,
  M, pure, fault, ◌>>=◌, ◌>>◌, routine, set_routine, thread,
}
use boson.Runtime.Clock.{ms}
use boson.Runtime.Dispatch.{handle_engine_event}
use boson.Runtime.Schedule.{execute_scheduled_routines, fire_timed_out_routines}

-- The milliseconds from `now` to the date, cut towards 0 and narrowed to an `int`, of which the low 32
-- bits stay.
unfoldable pub ms_until : (now date : ℕ) → Int32
ms_until now date =
    if leb now (date * ms)
    then int ((date * ms - now) / ms) % 2 ^ 32
    else (int 0 + 2 ^ 32 - (now - date * ms) / ms % 2 ^ 32) % 2 ^ 32

-- The timeout of the next wait, and whether the first date is over.
unfoldable pub next_timeout :
    (now : ℕ) → (timeout_ms : Int32) → List (ℕ × TimedRoutinesSet) → Int32 × Bool
unfolding ms_until
next_timeout now timeout_ms [] = (timeout_ms, false)
next_timeout now timeout_ms ((date, set) ∷ sets) =
    if timeout_ms == int 0
    then (timeout_ms, false)
    else (let narrowed = ms_until now date in
        let timeout = if ltb narrowed (int 0) then int 0 else narrowed in
        (timeout, timeout == int 0))

abbrev pub is_timed_out : LoopEndReason → Bool
is_timed_out max_iter_reached = false
is_timed_out timed_out = true
is_timed_out error_occured = false

abbrev pub is_finished : ThreadStatus → Bool
is_finished ThreadStatus.finished = true
is_finished _ = false

module _ (resume : ℕ → ℕ → M (Unit {0})) (clock : M ℕ) (wait : ℕ → Int32 → M LoopEndReason) where
  -- A turn of the loop, with the timeout of the next. `fuel` bounds the commands and the slots of the turn.
  unfoldable pub loop_turn : (fuel t : ℕ) → Int32 → M Int32
  unfolding next_timeout handle_engine_event fire_timed_out_routines execute_scheduled_routines
  loop_turn fuel t timeout_ms = do
    now ← clock
    th ← thread t
    let next = next_timeout now timeout_ms th.timed_routines
    status ← wait t next.0
    th' ← thread t
    (if ltb 0 th'.nb_pending_commands then handle_engine_event fuel t else pure tt)
    (if next.1 || is_timed_out status then fire_timed_out_routines t else pure tt)
    (again, idle) ← execute_scheduled_routines resume fuel t
    pure (if again then int 0 else int 0 - 1)

  -- Without fuel for another turn it is a fault. What follows the loop, `notify_end`, is the engine's.
  unfoldable pub loop_from : (turns fuel t : ℕ) → Int32 → M (Unit {0})
  unfolding loop_turn
  loop_from zero fuel t timeout_ms = fault
  loop_from (suc n) fuel t timeout_ms = do
    th ← thread t
    if is_finished th.status
        then pure tt
        else (do timeout_ms' ← loop_turn fuel t timeout_ms; loop_from n fuel t timeout_ms')

  unfoldable pub loop : (turns fuel t : ℕ) → M (Unit {0})
  unfolding loop_from
  loop turns fuel t = loop_from turns fuel t (int 0 - 1)

-- The code of a new routine, up to the switch back to its thread.
unfoldable pub resume_routine : (func : M (Unit {0})) → ℕ → M (Unit {0})
resume_routine func r = do
  body ← routine r
  set_routine r (record body { status = running })
  func
  body' ← routine r
  set_routine r (record body' { status = RoutineStatus.finished })

-- `jump` gives the control to the routine until it gives it back, with a function to call in its thread, if it
-- wants one.
module _ (jump : ℕ → M (Option (ℕ → M (Unit {0})))) where
  -- Without fuel for another request it is a fault.
  unfoldable pub serve : ℕ → ℕ → Option (ℕ → M (Unit {0})) → M (Unit {0})
  serve n r none = pure tt
  serve zero r (some func) = do body ← routine r; elim body.status [ running ↦ fault | _ ↦ pure tt ]
  serve (suc n) r (some func) = do
    body ← routine r
    elim body.status [
      | running ↦ (do func body.thread; context ← jump r; serve n r context)
      | _ ↦ pure tt
    ]

  unfoldable pub resume : (fuel r t : ℕ) → M (Unit {0})
  unfolding serve
  resume fuel r t = do
    body ← routine r
    set_routine r (record body { thread = t })
    elim body.status [
      | is_new ↦ (do context ← jump r; serve fuel r context)
      | yielding ↦ (do context ← jump r; serve fuel r context)
      | _ ↦ fault
    ]
