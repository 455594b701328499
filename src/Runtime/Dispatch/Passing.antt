-- ===== src/Runtime/Dispatch/Passing.antt =====
-- A wake-up for a waiter that another event has woken: the next waiter gets it.
use boson.Prelude.{
  ℕ, ◌≡◌, ◌≢◌, refl, ==_iff, true, false, List, [], ◌∷◌, ◌++◌, some, update, arith, add_size,
}
use boson.Memory.SparseVector
use boson.Memory.SparseVector.{SparseVector, has}
use boson.Memory.SparseVector.FreeList.{Rep}
use boson.Memory.SparseVector.Allocation.{free-Freed}
use boson.Queues.VectorizedQueue.Segment.{Entries}
use boson.Queues.VectorizedQueue.Invariant.{Holds}
use boson.Queues.VectorizedQueue.Refinement.{read-first}
use boson.Sync.Semaphore
use boson.Sync.Semaphore.{WaitingUnit, Semaphore}
use boson.Net.Poller
use boson.Runtime.State.{RoutineSlot, Thread, schedule_waiting_routine, World, is_valid}
use boson.Runtime.Thread.{no_slot, push_command, pop_a_waiter, unregister_expired_slot}
use boson.Runtime.Dispatch.{wake_waiter, pass_on}

-- A slot in use can be read.
slot-read :
    (v : SparseVector RoutineSlot) (i : ℕ)
    → has v i ≡ true
    → SparseVector.read v i ≡ some (v.data_cells.at i)
unfolding has SparseVector.read
slot-read v i h = ground arith

module _ (w : World) (t s index u j : ℕ) (sem : Semaphore.Semaphore) where
  abbrev pushed : Thread
  pushed = record (w.threads u) {
    nb_pending_commands = add_size (w.threads u).nb_pending_commands 1;
    engine_queue = (w.threads u).engine_queue ++ schedule_waiting_routine s j ∷ [];
    event_loop = Poller.interrupt (w.threads u).event_loop;
  }

  -- The slot of the dead waiter is freed, the entry of the next one is out of the queue, and its thread
  -- has the command that wakes it.
  pub record PassedOn (v : World) (xs : Entries WaitingUnit) : Type 0 where
    pub sem' : Semaphore.Semaphore
    pub there : v.semaphores s ≡ some sem'
    pub counter : sem'.counter ≡ sem.counter
    pub waiters : Holds sem'.waiters xs
    pub command :
        (v.threads u).engine_queue ≡ (w.threads u).engine_queue ++ schedule_waiting_routine s j ∷ []
    pub freed : has (v.threads t).suspended_slots index ≡ false
    pub slots :
        (l : ℕ)
        → l ≢ index
        → has (v.threads t).suspended_slots l ≡ has (w.threads t).suspended_slots l

-- A wake-up for a slot in use whose reference is dead does not fault: it goes to the thread of the
-- first waiter of the semaphore, the others wait on in their order, the counter stays, and of the slots
-- exactly the one of the dead reference becomes free.
pub wake_waiter-PassedOn :
    (w : World) (t s index i u j : ℕ) (sem : Semaphore) (xs : Entries WaitingUnit) (fs : List ℕ)
    → Rep (w.threads t).suspended_slots fs
    → has (w.threads t).suspended_slots index ≡ true
    → is_valid ((w.threads t).suspended_slots.data_cells.at index).ptr w ≡ some (false, w)
    → w.semaphores s ≡ some sem
    → Holds sem.waiters ((i, (u, j)) ∷ xs)
    → (w' : World) × (wake_waiter t s index w ≡ some (tt, w')) × PassedOn w t s index u j sem w' xs
unfolding wake_waiter pass_on pop_a_waiter push_command unregister_expired_slot Semaphore.read
wake_waiter-PassedOn w t s index i u j sem xs fs r h dead e q =
    let (q', f, held) = read-first ((i, (u, j)) ∷ xs) q in
    let (v, fr) = free-Freed no_slot index r h in
    let x = slot-read (w.threads t).suspended_slots index h in
    let ts : ℕ → Thread = update w.threads u (pushed w t s index u j sem) in
    let same : (ts t).suspended_slots ≡ (w.threads t).suspended_slots =
      ground (arith, ==_iff u t) in
    let fw : SparseVector.free (ts t).suspended_slots index ≡ some v = rw same fr.result in
    let sem' : Semaphore = record sem { waiters = q' } in
    (
      record w {
        semaphores = update w.semaphores s (some sem');
        threads = update ts t (record (ts t) { suspended_slots = v });
      },
      ground (arith, x, dead, e, f, fw),
      record {
        sem' = sem';
        there = ground arith;
        counter = refl;
        waiters = held;
        command = ground (arith, ==_iff u t, ==_iff t u);
        freed = ground (arith, fr.others index);
        slots = λ l ne. ground (arith, fr.others l, ==_iff index l);
      },
    )
