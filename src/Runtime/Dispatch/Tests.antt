-- ===== src/Runtime/Dispatch/Tests.antt =====
-- A wake-up for a slot whose reference is dead.
use boson.Prelude.{◌≡◌, refl, [], none, some, int}
use boson.Memory.SparseVector.{has}
use boson.Sync.Semaphore.{Semaphore}
use boson.Runtime.State.{World}
use boson.Runtime.Dispatch.{wake_waiter}
use boson.Runtime.Dispatch.Passing.{PassedOn, wake_waiter-PassedOn}
use boson.Runtime.Sample.{queue, queue-Holds, host-SlotsOk, world}

abbrev woken : World
woken = record world { refs = λ p. none }

abbrev sem : Semaphore
sem = record { waiters = queue; counter = int 0 }

wake_waiter-PassedOn_example :
    (w' : World) × (wake_waiter 0 0 1 woken ≡ some (tt, w')) × PassedOn woken 0 0 1 0 2 sem w' []
unfolding has
wake_waiter-PassedOn_example =
    wake_waiter-PassedOn woken 0 0 1 0 0 2 sem [] (host-SlotsOk.0) (host-SlotsOk.1) refl refl refl
      queue-Holds
