-- ===== src/Runtime/Schedule.antt =====
-- The turns of a thread: `execute_scheduled_routines`, and the timers that `loop` fires, of
-- src/boson/src/internal/thread.cc. What a routine does in its turn is the parameter `resume`.
pub mod Rest
mod Tests
use boson.Prelude.{
  ℕ, zero, suc, ◌+◌, ◌-◌, ◌==◌, Int32, int, Bool, true, false, not, ◌&&◌, List, [], ◌∷◌, ◌++◌,
  Option, none, some, if◌then◌else◌, length,
}
use boson.Memory.SparseVector
use boson.Net.Poller
use boson.Runtime.State.{
  RoutineStatus, is_new, running, yielding, wait_events, sema_event_candidate, finished, Routine,
  RoutineSlot, slot, TimedRoutinesSet, ThreadStatus, Thread, World, M, pure, fault, ◌>>=◌, ◌>>◌,
  assert, lift, routine, set_routine, thread, set_thread, new_ref, is_valid, target, release,
}
use boson.Runtime.Thread.{unregister_expired_slot, may_be_scheduled}
use boson.Runtime.Routine.{event_happened}

abbrev pub is_empty {ℓ} : {A : Type ℓ} → List A → Bool
is_empty [] = true
is_empty (x ∷ xs) = false

-- A candidate tries to get its ticket; who gets it, or needs none, may run. With the reference that
-- then owns the routine.
unfoldable pub try_ticket : ℕ → RoutineSlot → M (Bool × Option ℕ)
try_ticket r x = do
  body ← routine r
  elim body.status [
    | sema_event_candidate ↦ (do
      run ← event_happened r x.event_index (int 0)
      if run then (do p ← new_ref (some r); pure (true, some p)) else pure (false, x.ptr))
    | _ ↦ pure (true, x.ptr)
  ]

-- What becomes of a routine after its turn: the slots that it has in the next round.
unfoldable pub after_turn : ℕ → Option ℕ → M (List RoutineSlot)
after_turn r p = do
  body ← routine r
  elim body.status [
    | is_new ↦ fault
    | running ↦ fault
    | yielding ↦ (do o ← release p; q ← new_ref o; pure (slot (some q) 0 ∷ []))
    | wait_events ↦ (do o ← release p; pure [])
    | sema_event_candidate ↦ (do set_routine r (record body { status = wait_events }); pure [])
    | finished ↦ pure []
  ]

module _ (resume : ℕ → ℕ → M (Unit {0})) where
  unfoldable pub run_slot : ℕ → RoutineSlot → M (List RoutineSlot)
  unfolding try_ticket after_turn
  run_slot t x = do
    valid ← is_valid x.ptr
    if not valid then pure [] else (do
      r ← target x.ptr
      th ← thread t
      set_thread t (record th { running_routine = some r })
      body ← routine r
      assert (may_be_scheduled body.status)
      (run, p) ← try_ticket r x
      r' ← target p
      body' ← routine r'
      assert (may_be_scheduled body'.status)
      (if run then resume r t else pure tt)
      after_turn r p)

  -- The loop over `scheduled_routines_`, with the slots of the next round; without fuel it is a fault.
  unfoldable pub run_slots : ℕ → ℕ → List RoutineSlot → M (List RoutineSlot)
  unfolding run_slot
  run_slots zero t upcoming = fault
  run_slots (suc n) t upcoming = do
    th ← thread t
    elim th.scheduled_routines [
      | [] ↦ pure upcoming
      | x ∷ xs ↦ (do
        more ← run_slot t x
        th' ← thread t
        set_thread t (record th' { scheduled_routines = rest th'.scheduled_routines })
        run_slots n t (upcoming ++ more))
    ]
    where
      rest : List RoutineSlot → List RoutineSlot
      rest [] = []
      rest (y ∷ ys) = ys

unfoldable pub free_slots : ℕ → List ℕ → M (Unit {0})
free_slots t [] = pure tt
free_slots t (i ∷ is) = unregister_expired_slot t i >> free_slots t is

-- The sets of dates in front that no routine waits for are dropped with their slots.
unfoldable pub clean_timers : ℕ → List (ℕ × TimedRoutinesSet) → M (List (ℕ × TimedRoutinesSet))
unfolding free_slots
clean_timers t [] = pure []
clean_timers t ((d, set) ∷ sets) =
    if set.nb_active == 0
    then free_slots t set.slots >> clean_timers t sets
    else pure ((d, set) ∷ sets)

-- The end of `execute_scheduled_routines`: whether it asks for another turn at once, and whether it told
-- the engine that the thread is idle.
unfoldable pub finish_round : ℕ → M (Bool × Bool)
finish_round t = do
  th ← thread t
  if is_empty th.scheduled_routines && is_empty th.timed_routines && (th.nb_suspended_routines == 0)
      then (if th.nb_pending_commands == 0
          then elim th.status [
            | ThreadStatus.finishing ↦ (do
              set_thread t (record th { status = ThreadStatus.finished })
              pure (false, false))
            | _ ↦ pure (false, true)
          ]
          else pure (true, false))
      else if is_empty th.scheduled_routines
      then (if th.nb_pending_commands == 0
          then pure (false, length th.timed_routines + th.nb_suspended_routines == 0)
          else (do
            set_thread t (record th { event_loop = Poller.interrupt th.event_loop })
            pure (true, false)))
      else pure (true, false)

unfoldable pub execute_scheduled_routines : (ℕ → ℕ → M (Unit {0})) → ℕ → ℕ → M (Bool × Bool)
unfolding run_slots clean_timers finish_round
execute_scheduled_routines resume fuel t = do
  upcoming ← run_slots resume fuel t []
  th ← thread t
  set_thread t (record th { scheduled_routines = upcoming })
  sets ← clean_timers t th.timed_routines
  th' ← thread t
  set_thread t (record th' { timed_routines = sets })
  finish_round t

-- The slots of a date that is over.
unfoldable pub fire_slots : ℕ → List ℕ → M (Unit {0})
fire_slots t [] = pure tt
fire_slots t (i ∷ is) = do
  th ← thread t
  x ← lift (SparseVector.read th.suspended_slots i)
  valid ← is_valid x.ptr
  (if valid
      then (do r ← target x.ptr; happened ← event_happened r x.event_index (int 0); pure tt)
      else pure tt)
  unregister_expired_slot t i
  fire_slots t is

-- The first date of `timed_routines_` is over; there must be one.
unfoldable pub fire_timed_out_routines : ℕ → M (Unit {0})
unfolding fire_slots
fire_timed_out_routines t = do
  th ← thread t
  elim th.timed_routines [
    | [] ↦ fault
    | (d, set) ∷ sets ↦ (do
      fire_slots t set.slots
      th' ← thread t
      set_thread t (record th' { timed_routines = rest th'.timed_routines }))
  ]
  where
    rest : List (ℕ × TimedRoutinesSet) → List (ℕ × TimedRoutinesSet)
    rest [] = []
    rest (x ∷ xs) = xs
