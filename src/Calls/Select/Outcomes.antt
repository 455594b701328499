-- ===== src/Calls/Select/Outcomes.antt =====
-- What `select_any` returns: from the selector that is ready first, or from the one whose event happened.
use boson.Prelude.{ℕ, ◌+◌, ◌^◌, ◌<◌, ◌≡◌, Int32, true, false, List, [], some, get_elem?, arith}
use boson.Runtime.State.{WaitedEvent, EventType, wait_events, World}
use boson.Runtime.Routine.Round.{counted, SlotsOk}
use boson.Runtime.Routine.Opening.{start-Open, commit-Open}
use boson.Runtime.Routine.Cancelling.{Cancelled, cancel_event_round-Cancelled}
use boson.Runtime.Routine.Wakeup.{outcome}
use boson.Runtime.Waits.Prepared.{WokenFrom, Open-WokenFrom}
use boson.Calls.State.{SyscallId, Kernel, Channel, Os, N}
use boson.Calls.Select.{Selector, event_syscall, finish_round, execute, select_any}
use boson.Calls.Select.Rounds.{Subscribed, InRange, at, subscribe_all-Subscribed}

module _ {K R : Type 0} (kernel : Kernel K) (suspend : ℕ → N K (Unit {0})) (r : ℕ) (w0 : World)
    (chans : ℕ → Channel) (k k' : K) (e e' n : ℕ) (ss ss' : List (Selector K R))
    (events : List WaitedEvent) where
  -- If a selector is ready, after others that are not, `select_any` gives the result of its call to its
  -- callback, in a state where the round is cancelled: the routine has no events, the reference of the round is
  -- dead, and the thread counts and has scheduled what it did before. Slots, registrations of descriptors and
  -- timer sets that the round added may stay. The descriptors are in range, and the
  -- thread's slots are well formed and its counter has room.
  pub select_any_ready :
      (id : SyscallId) (fd : ℕ) (args : List ℕ) (return_code : Int32) (func : Int32 → N K R)
      → Subscribed kernel k e ss true n ss' events k' e'
      → get_elem? ss' n ≡ some (event_syscall id fd args return_code func)
      → SlotsOk w0 (w0.routines r).thread
      → InRange (w0.threads (w0.routines r).thread).event_loop.waiters.size events
      → (w0.threads (w0.routines r).thread).nb_suspended_routines + counted events < 2 ^ 64
      → (w : World) × (select_any kernel r suspend ss (at w0 k e chans)
          ≡ func return_code (at w k' e' chans))
        × Cancelled w0 r w0.next_ref w
  unfolding select_any finish_round execute
  select_any_ready id fd args return_code func turns chosen slots range small =
      let (w1, f1, o1) = start-Open w0 r slots in
      let (w2, f2, o2) =
        subscribe_all-Subscribed kernel w0 r w0.next_ref chans 0 [] w1 k k' e e' n ss ss' true
          events turns o1 range (omega (arith, small)) in
      let (w3, f3, c, same) = cancel_event_round-Cancelled w0 r w0.next_ref events w2 o2 small in
      (w3, ground (arith, f1, f2, f3, chosen), c)

  -- If no selector is ready, `select_any` gives the control away, with its routine waiting and an event
  -- for each selector in their order: whatever event happens then, it wakes the routine under its own index
  -- and with its own type. When the control is given back, the selector of that index is executed, as one of a
  -- round that was not cancelled. The conditions are those of `select_any_ready`.
  pub select_any_waits :
      Subscribed kernel k e ss false n ss' events k' e'
      → SlotsOk w0 (w0.routines r).thread
      → InRange (w0.threads (w0.routines r).thread).event_loop.waiters.size events
      → (w0.threads (w0.routines r).thread).nb_suspended_routines + counted events < 2 ^ 64
      → (w : World) × ((w.routines r).status ≡ wait_events)
        × ((index : ℕ) (event : WaitedEvent) (rc code : Int32) (type : EventType)
            → get_elem? events index ≡ some event
            → outcome event rc ≡ some (type, code)
            → WokenFrom w0 w r index w0.next_ref rc type code)
        × ((index : ℕ) (selector : Selector K R) (o : Os K)
            → suspend r (at w k' e' chans) ≡ some (tt, o)
            → (o.world.routines r).happened_index ≡ index
            → get_elem? ss' index ≡ some selector
            → select_any kernel r suspend ss (at w0 k e chans)
              ≡ execute kernel r selector (o.world.routines r).happened_type false o)
  unfolding select_any finish_round
  select_any_waits turns slots range small =
      let (w1, f1, o1) = start-Open w0 r slots in
      let (w2, f2, o2) =
        subscribe_all-Subscribed kernel w0 r w0.next_ref chans 0 [] w1 k k' e e' n ss ss' false
          events turns o1 range (omega (arith, small)) in
      let (w3, f3, o3, status, same) = commit-Open w0 r w0.next_ref events w2 o2 in
      (
        w3,
        status,
        λ index event rc code type at out.
            Open-WokenFrom w0 w3 r w0.next_ref events index event rc code type o3 at out small,
        λ index selector o back happened chosen. ground (arith, f1, f2, f3, back, happened, chosen),
      )
