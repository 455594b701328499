-- ===== src/Calls/Channels/Tests.antt =====
-- A routine reads from an empty channel, and another one writes.
use boson.Prelude.{int, ℕ, List, [], some, update}
use boson.Queues.VectorizedQueue.{empty_queue}
use boson.Sync.Semaphore.{Semaphore}
use boson.Runtime.Sample.{world}
use boson.Calls.State.{Answer, Os, N, pure}
use boson.Calls.Sample.{chan, start}

-- The semaphore of the readers has no ticket, that of the writers two.
abbrev empty_channel : Os (List Answer)
empty_channel = record (start []) {
  world = record world {
    semaphores =
        update (λ s. some (record { waiters = empty_queue; counter = int 0 })) 8
          (some (record { waiters = empty_queue; counter = int 2 }));
  };
  channels = λ c. record chan { tail = 2 };
}

-- No one else runs.
abbrev nobody : ℕ → N (List Answer) (Unit {0})
nobody r = pure tt
