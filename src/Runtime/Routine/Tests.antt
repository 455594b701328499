-- ===== src/Runtime/Routine/Tests.antt =====
-- The theorems on rounds of events at a routine that waits for three of them.
use boson.Prelude.{◌≡◌, refl, true, int, [], ◌∷◌, some, arith, ◌+◌}
use boson.Memory.SparseVector
use boson.Memory.SparseVector.{SparseVector}
use boson.Queues.VectorizedQueue.{has}
use boson.Runtime.State.{timer, io_read, sema_wait, EventType, World}
use boson.Runtime.Routine.{others, drop_events, event_happened}
use boson.Runtime.Routine.Round.{Dropped, RoundOk, counted}
use boson.Runtime.Routine.Round.Whole.{drop_events-Dropped}
use boson.Runtime.Sample.{queue, queue-WellFormed, round, host-SlotsOk, world}
use boson.Runtime.Routine.Wakeup.{Waiting, Woken, event_happened-Woken}

rest-RoundOk : RoundOk world 0 (timer 100 ∷ sema_wait 0 0 2 ∷ [])
unfolding has SparseVector.has
rest-RoundOk = (
  refl,
  ((λ l e. absurd (ground arith)), tt),
  ((record { waiters = queue; counter = int 0 }, refl, queue-WellFormed, (λ m. refl)), tt, tt),
)

drop_events-Dropped_example :
    (w' : World) × (drop_events 0 (timer 100 ∷ sema_wait 0 0 2 ∷ []) world ≡ some (tt, w'))
    × Dropped world 0 1 w'
drop_events-Dropped_example =
    drop_events-Dropped (timer 100 ∷ sema_wait 0 0 2 ∷ []) world 0 rest-RoundOk host-SlotsOk
      (omega arith) (omega arith)

world-Waiting : Waiting world 0 0 0
unfolding others
world-Waiting = record {
  ref = refl;
  owned = refl;
  fresh = omega arith;
  round = rest-RoundOk;
  slots = host-SlotsOk;
  small = omega arith;
  counts = omega arith;
}

event_happened-Woken_example :
    (w' : World) × (event_happened 0 0 (int 7) world ≡ some (true, w'))
    × Woken world 0 0 0 EventType.io_read
        (int 7)
        (counted (io_read 5 ∷ []) + counted (others round 0))
        w'
unfolding others
event_happened-Woken_example =
    event_happened-Woken world 0 0 0 (int 7) (int 7) (io_read 5) EventType.io_read refl refl
      world-Waiting (omega arith)
