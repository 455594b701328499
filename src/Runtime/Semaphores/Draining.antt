-- ===== src/Runtime/Semaphores/Draining.antt =====
-- `disable` wakes every waiter.
use boson.Prelude.{
  ℕ, zero, suc, ◌<◌, ◌≡◌, ◌≢◌, refl, sym, ap, ◌∙◌, ◌==◌, ==_iff, List, [], ◌∷◌, ◌++◌, append_assoc,
  append-nil, some, length, update, if◌then◌else◌, arith, add_size, Bool-cases, inl, inr,
}
use boson.Queues.VectorizedQueue.Segment.{Entries}
use boson.Queues.VectorizedQueue.Invariant.{Holds}
use boson.Queues.VectorizedQueue.Capacity.{Holds-length}
use boson.Queues.VectorizedQueue.Refinement.{read-first}
use boson.Sync.Semaphore
use boson.Sync.Semaphore.{WaitingUnit, disabled_standpoint}
use boson.Net.Poller
use boson.Runtime.State.{Thread, ThreadCommand, schedule_waiting_routine, World}
use boson.Runtime.Thread.{push_command}
use boson.Runtime.Semaphores.{drain_waiters, disable}

-- The commands that wake the waiters of a thread, in the order of the queue.
unfoldable pub wakeups : (s u : ℕ) → Entries WaitingUnit → List ThreadCommand
wakeups s u [] = []
wakeups s u ((i, (t, slot)) ∷ xs) =
    if t == u then schedule_waiting_routine s slot ∷ wakeups s u xs else wakeups s u xs

-- The queue is empty, the counter is `c`, and each thread has the commands of its waiters.
pub record Drained (w : World) (s c : ℕ) (xs : Entries WaitingUnit) (w' : World) : Type 0 where
  pub sem : Semaphore.Semaphore
  pub there : w'.semaphores s ≡ some sem
  pub counter : sem.counter ≡ c
  pub waiters : Holds sem.waiters []
  pub commands :
      (u : ℕ) → (w'.threads u).engine_queue ≡ (w.threads u).engine_queue ++ wakeups s u xs
  pub others : (z : ℕ) → z ≢ s → w'.semaphores z ≡ w.semaphores z
  pub routines : w'.routines ≡ w.routines
  pub refs : w'.refs ≡ w.refs

abbrev pushed : World → ℕ → ℕ → ℕ → Thread
pushed w t s slot = record (w.threads t) {
  nb_pending_commands = add_size (w.threads t).nb_pending_commands 1;
  engine_queue = (w.threads t).engine_queue ++ schedule_waiting_routine s slot ∷ [];
  event_loop = Poller.interrupt (w.threads t).event_loop;
}

drain_waiters-Drained :
    (xs : Entries WaitingUnit) (n : ℕ) (w : World) (s : ℕ) (sem : Semaphore.Semaphore)
    → length xs < n
    → w.semaphores s ≡ some sem
    → Holds sem.waiters xs
    → (w' : World) × (drain_waiters n s w ≡ some (tt, w')) × Drained w s sem.counter xs w'
unfolding drain_waiters Semaphore.read push_command wakeups
drain_waiters-Drained xs zero w s sem h e q = absurd (omega arith)
drain_waiters-Drained [] (suc n) w s sem h e q =
    let (q', f, held) = read-first [] q in
    (
      record w { semaphores = update w.semaphores s (some (record sem { waiters = q' })) },
      ground (arith, e, f),
      record {
        sem = record sem { waiters = q' };
        there = ground arith;
        counter = refl;
        waiters = held;
        commands = λ u. sym (append-nil _);
        others = λ z ne. ground arith;
        routines = refl;
        refs = refl;
      },
    )
drain_waiters-Drained ((i, (t, slot)) ∷ xs) (suc n) w s sem h e q =
    let (q', f, held) = read-first ((i, (t, slot)) ∷ xs) q in
    let sem' : Semaphore.Semaphore = record sem { waiters = q' } in
    let v : World = record w {
      semaphores = update w.semaphores s (some sem');
      threads = update w.threads t (pushed w t s slot);
    } in
    let (w', g, d) = drain_waiters-Drained xs n v s sem' (omega arith) (ground arith) held in
    (
      w',
      ground (arith, e, f, g),
      record {
        sem = d.sem;
        there = d.there;
        counter = d.counter;
        waiters = d.waiters;
        commands = λ u. d.commands u ∙ first_waiter u;
        others = λ z ne. d.others z ne ∙ ground arith;
        routines = d.routines;
        refs = d.refs;
      },
    )
  where
    first_waiter :
        (u : ℕ)
        → (update w.threads t (pushed w t s slot) u).engine_queue ++ wakeups s u xs
          ≡ (w.threads u).engine_queue ++ wakeups s u ((i, (t, slot)) ∷ xs)
    first_waiter u = elim (Bool-cases (t == u)) [
      | inl here ↦
          let same : t ≡ u = (==_iff t u).0 here in
          rw here (
            append_assoc (w.threads t).engine_queue (schedule_waiting_routine s slot ∷ []) _
            ∙ ap
                (λ (y : ℕ).
                  (w.threads y).engine_queue ++ schedule_waiting_routine s slot ∷ wakeups s u xs)
                same)
      | inr other ↦ rw other refl
    ]

-- `disable` of a semaphore with a well-formed queue ends without a fault: no waiter is left in the queue,
-- the counter is the disabled standpoint, and every thread has, behind the commands that it had, one
-- command for each of its waiters in the order of the queue. Other semaphores, the routines and the
-- references stay.
pub disable-Drained :
    (w : World) (s : ℕ) (sem : Semaphore.Semaphore) (xs : Entries WaitingUnit)
    → w.semaphores s ≡ some sem
    → Holds sem.waiters xs
    → (w' : World) × (disable s w ≡ some (tt, w')) × Drained w s disabled_standpoint xs w'
unfolding disable
disable-Drained w s sem xs e q =
    let sem' : Semaphore.Semaphore = record sem { counter = disabled_standpoint } in
    let v : World = record w { semaphores = update w.semaphores s (some sem') } in
    let (w', g, d) =
      drain_waiters-Drained xs (suc sem.waiters.cells.size) v s sem' (omega (arith, Holds-length q))
        (ground arith) q in
    (
      w',
      ground (arith, e, g),
      record {
        sem = d.sem;
        there = d.there;
        counter = d.counter;
        waiters = d.waiters;
        commands = d.commands;
        others = λ z ne. d.others z ne ∙ ground arith;
        routines = d.routines;
        refs = d.refs;
      },
    )
