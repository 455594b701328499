-- ===== src/Runtime/Semaphores/Popped.antt =====
-- A `post` that finds a waiter, and what its command makes of the waiter: `semaphore::post` of
-- src/boson/src/semaphore.cc and `thread::handle_engine_event` of src/boson/src/internal/thread.cc.
use boson.Prelude.{
  ℕ, suc, ◌≡◌, ◌≢◌, refl, ltb, leb, int, increment, true, false, [], ◌∷◌, ◌++◌, some, update, arith,
  add_size, sub_size,
}
use boson.Memory.SparseVector
use boson.Queues.VectorizedQueue.Segment.{Entries}
use boson.Queues.VectorizedQueue.Invariant.{Holds}
use boson.Queues.VectorizedQueue.Refinement.{read-first}
use boson.Sync.Semaphore
use boson.Sync.Semaphore.{WaitingUnit, SemaphoreReturnValue, disabling_threshold}
use boson.Net.Poller
use boson.Runtime.State.{RoutineStatus, slot, Thread, World, schedule_waiting_routine}
use boson.Runtime.Thread.{push_command, pop_a_waiter, schedule_routine}
use boson.Runtime.Routine.{set_as_semaphore_event_candidate}
use boson.Runtime.Routine.Round.{update_twice}
use boson.Runtime.Dispatch.{handle_engine_event, handle_command, wake_waiter}
use boson.Runtime.Semaphores.{post}

pub record Popped (w : World) (s t j : ℕ) (sem : Semaphore.Semaphore) (xs : Entries WaitingUnit)
    (w' : World) : Type 0 where
  pub sem' : Semaphore.Semaphore
  pub there : w'.semaphores s ≡ some sem'
  pub rest : (z : ℕ) → z ≢ s → w'.semaphores z ≡ w.semaphores z
  pub counter : sem'.counter ≡ increment sem.counter
  pub waiters : Holds sem'.waiters xs
  pub routines : w'.routines ≡ w.routines
  pub refs : w'.refs ≡ w.refs
  pub next_ref : w'.next_ref ≡ w.next_ref
  pub thread : w'.threads t ≡ record (w.threads t) {
    nb_pending_commands = add_size (w.threads t).nb_pending_commands 1;
    engine_queue = (w.threads t).engine_queue ++ schedule_waiting_routine s j ∷ [];
    event_loop = Poller.interrupt (w.threads t).event_loop;
  }

pub post-Popped :
    (w : World) (s i t j : ℕ) (sem : Semaphore.Semaphore) (xs : Entries WaitingUnit)
    → w.semaphores s ≡ some sem
    → ltb disabling_threshold sem.counter ≡ false
    → leb (int 0) sem.counter ≡ true
    → Holds sem.waiters ((i, (t, j)) ∷ xs)
    → (w' : World) × (post s w ≡ some (SemaphoreReturnValue.ok, w')) × Popped w s t j sem xs w'
unfolding post pop_a_waiter push_command Semaphore.read Semaphore.post_ticket
post-Popped w s i t j sem xs e enabled above q =
    let (q', f, held) = read-first ((i, (t, j)) ∷ xs) q in
    let sem1 : Semaphore.Semaphore = record sem { counter = increment sem.counter } in
    let sem2 : Semaphore.Semaphore = record sem1 { waiters = q' } in
    (
      record w {
        semaphores = update (update w.semaphores s (some sem1)) s (some sem2);
        threads = update w.threads t (record (w.threads t) {
          nb_pending_commands = add_size (w.threads t).nb_pending_commands 1;
          engine_queue = (w.threads t).engine_queue ++ schedule_waiting_routine s j ∷ [];
          event_loop = Poller.interrupt (w.threads t).event_loop;
        });
      },
      ground (arith, e, f, enabled, above),
      record {
        sem' = sem2;
        there = ground arith;
        rest = λ z ne. ground arith;
        counter = refl;
        waiters = held;
        routines = refl;
        refs = refl;
        next_ref = refl;
        thread = ground arith;
      },
    )

-- The routine and its thread after the command: it is scheduled to try its event `k`.
pub record Candidate (w : World) (r k : ℕ) (w' : World) : Type 0 where
  pub routine :
      w'.routines r ≡ record (w.routines r) { status = RoutineStatus.sema_event_candidate }
  pub refs : w'.refs ≡ w.refs
  pub next_ref : w'.next_ref ≡ w.next_ref
  pub semaphores : w'.semaphores ≡ w.semaphores
  pub thread : w'.threads (w.routines r).thread ≡ record (w.threads (w.routines r).thread) {
    nb_pending_commands = sub_size (w.threads (w.routines r).thread).nb_pending_commands 1;
    engine_queue = [];
    scheduled_routines =
        (w.threads (w.routines r).thread).scheduled_routines
        ++ slot (w.routines r).current_ptr k ∷ [];
  }

pub handle_engine_event-Candidate :
    (w : World) (n r s p j k : ℕ)
    → (w.threads (w.routines r).thread).engine_queue ≡ schedule_waiting_routine s j ∷ []
    → SparseVector.read (w.threads (w.routines r).thread).suspended_slots j ≡ some (slot (some p) k)
    → (w.routines r).current_ptr ≡ some p
    → w.refs p ≡ some (some r)
    → (w' : World) × (handle_engine_event (suc (suc n)) (w.routines r).thread w ≡ some (tt, w'))
      × Candidate w r k w'
unfolding handle_engine_event handle_command wake_waiter set_as_semaphore_event_candidate
    schedule_routine
handle_engine_event-Candidate w n r s p j k queue there ptr owner =
    let t = (w.routines r).thread in
    let a : Thread = record (w.threads t) {
      engine_queue = [];
      nb_pending_commands = sub_size (w.threads t).nb_pending_commands 1;
    } in
    let b : Thread = record (update w.threads t a t) {
      scheduled_routines =
          (update w.threads t a t).scheduled_routines ++ slot (w.routines r).current_ptr k ∷ [];
    } in
    (
      record w {
        routines =
            update w.routines r
              (record (w.routines r) { status = RoutineStatus.sema_event_candidate });
        threads = update (update w.threads t a) t b;
      },
      ground (arith, queue, there, ptr, owner),
      record {
        routine = ground arith;
        refs = refl;
        next_ref = refl;
        semaphores = refl;
        thread = update_twice w.threads t a (λ th. record th {
          scheduled_routines = th.scheduled_routines ++ slot (w.routines r).current_ptr k ∷ [];
        });
      },
    )
