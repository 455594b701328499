-- ===== src/Runtime/Semaphores/Tests.antt =====
-- A semaphore with one waiter is disabled, and a wait for an empty one is ended by a post, or
-- by its timeout.
use boson.Prelude.{◌-◌, arith, ◌≡◌, refl, int, [], ◌∷◌, some}
use boson.Memory.SparseVector.{has}
use boson.Queues.VectorizedQueue.{empty_queue}
use boson.Queues.VectorizedQueue.Invariant.{empty-Holds}
use boson.Sync.Semaphore.{SemaphoreReturnValue, disabled_standpoint}
use boson.Runtime.State.{World, RoutineStatus}
use boson.Runtime.Sample.{queue, queue-Holds, world, host, host-SlotsOk}
use boson.Runtime.Semaphores.{disable, wait}
use boson.Runtime.Semaphores.Handover.{resumed_by_post, Resumed}
use boson.Runtime.Semaphores.Posted.{Free, wait-post}
use boson.Runtime.Semaphores.Expired.{Expired, date_passes}
use boson.Runtime.Semaphores.Timed.{wait-fire_timed_out_routines}
use boson.Runtime.Semaphores.Draining.{Drained, disable-Drained}

disable-Drained_example :
    (w' : World) × (disable 0 world ≡ some (tt, w'))
    × Drained world 0 disabled_standpoint ((0, (0, 2)) ∷ []) w'
disable-Drained_example =
    disable-Drained world 0 (record { waiters = queue; counter = int 0 }) ((0, (0, 2)) ∷ []) refl
      queue-Holds

abbrev no_waiters : World
no_waiters = record world {
  semaphores = λ s. some (record { waiters = empty_queue; counter = int 0 });
}

no_waiters-Free : Free no_waiters 5 0 2 (λ l. has host.suspended_slots l)
no_waiters-Free = record {
  on = refl;
  to_do = refl;
  scheduled = refl;
  suspended = refl;
  slots = host-SlotsOk;
  in_use = λ l. refl;
}

wait-post_example :
    (w : World) × (wait (resumed_by_post 2 3) 0 5 3 (int 0 - 1) no_waiters
      ≡ some (SemaphoreReturnValue.ok, w))
    × ((w.routines 5).status ≡ RoutineStatus.running)
    × Resumed 5 0 3 1 2 (λ l. has host.suspended_slots l) no_waiters.semaphores w
wait-post_example =
    wait-post no_waiters 0 5 3 0 2 (int 0 - 1) (λ l. has host.suspended_slots l)
      (record { waiters = empty_queue; counter = int 0 }) refl no_waiters-Free (omega arith) refl
      refl empty-Holds

abbrev no_dates : World
no_dates = record no_waiters { threads = λ t. record host { timed_routines = [] } }

no_dates-Free : Free no_dates 5 0 2 (λ l. has host.suspended_slots l)
no_dates-Free = record {
  on = refl;
  to_do = refl;
  scheduled = refl;
  suspended = refl;
  slots = host-SlotsOk;
  in_use = λ l. refl;
}

wait-fire_timed_out_routines_example :
    (w : World) × (wait date_passes 7000000 5 3 (int 20) no_dates
      ≡ some (SemaphoreReturnValue.timedout, w))
    × ((w.routines 5).status ≡ RoutineStatus.running)
    × Expired 5 0 3 1 2 (λ l. has host.suspended_slots l) no_dates.semaphores w
wait-fire_timed_out_routines_example =
    wait-fire_timed_out_routines no_dates 7000000 5 3 2 (int 20) (λ l. has host.suspended_slots l)
      (record { waiters = empty_queue; counter = int 0 }) refl no_dates-Free refl (omega arith) refl
      refl empty-Holds
