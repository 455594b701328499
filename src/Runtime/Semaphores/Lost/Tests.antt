-- ===== src/Runtime/Semaphores/Lost/Tests.antt =====
-- Two waiters of one semaphore, of which the first one also waits for a date.
use boson.Prelude.{ℕ, ◌≡◌, refl, true, false, ◌==◌, int, [], ◌∷◌, none, some, arith}
use boson.Memory.SparseVector.{has, read}
use boson.Queues.VectorizedQueue.{VectorizedQueue, Cell, cell}
use boson.Queues.VectorizedQueue.Invariant.{Holds}
use boson.Sync.Semaphore.{WaitingUnit}
use boson.Runtime.State.{sema_wait, timer, World}
use boson.Runtime.Sample.{host-SlotsOk, waiter, world}
use boson.Runtime.Semaphores.Lost.{Front, Stuck, one_turn, post_loses_wakeup}

abbrev two_waiters : VectorizedQueue WaitingUnit
two_waiters = record {
  cells = record { size = 2; at = λ i. waiter_at i };
  first_free_cell = none;
  head = some 0;
  tail = some 1;
}
  where
    waiter_at : ℕ → Cell WaitingUnit
    waiter_at i = elim (i == 0) [
      | true ↦ cell (some (0, 0)) none (some 1)
      | false ↦ cell (some (7, 9)) (some 0) none
    ]

two_waiters-Holds : Holds two_waiters ((0, (0, 0)) ∷ (1, (7, 9)) ∷ [])
two_waiters-Holds = (
  [],
  record {
    chain = (refl, refl, refl, (refl, refl, refl, (refl, refl)));
    distinct = (refl, (refl, tt));
    free_chain = refl;
    free_distinct = tt;
    covered = ground arith;
    apart = ground arith;
  },
)

abbrev at_the_date : World
at_the_date = record world {
  routines = λ r. record waiter { events = sema_wait 3 0 0 ∷ timer 100 ∷ [] };
  semaphores = λ s. some (record { waiters = two_waiters; counter = int 0 });
}

at_the_date-Front : Front at_the_date 0 0 3 0 0 0 1 100 ((1, (7, 9)) ∷ [])
unfolding has read
at_the_date-Front = record {
  sem = record { waiters = two_waiters; counter = int 0 };
  on = refl;
  events = refl;
  ptr = refl;
  owner = refl;
  there = refl;
  counter = refl;
  waiters = two_waiters-Holds;
  first = refl;
  kept = refl;
  to_do = refl;
  scheduled = refl;
  timed = refl;
  slots = host-SlotsOk;
  used = refl;
  wait_slot = refl;
  date_slot = refl;
}

post_loses_wakeup_example :
    (w : World) × (one_turn 2 3 0 at_the_date ≡ some (tt, w)) × Stuck w 0 0 3 0 1 ((1, (7, 9)) ∷ [])
post_loses_wakeup_example =
    post_loses_wakeup at_the_date 0 0 3 0 0 0 1 100 0 ((1, (7, 9)) ∷ []) at_the_date-Front
