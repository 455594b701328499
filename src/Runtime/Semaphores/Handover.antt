-- ===== src/Runtime/Semaphores/Handover.antt =====
-- A wait for a ticket and the post that ends it, over the queue of the semaphore, the commands of the thread
-- and its schedule.
use boson.Prelude.{
  ℕ, suc, ◌≡◌, ◌≢◌, sym, ap, subst, ◌∙◌, ◌==◌, Int32, int, decrement, Bool, true, not, ◌&&◌, List,
  [], ◌∷◌, ◌++◌, Option, some, none, arith, sub_size,
}
use boson.Memory.SparseVector
use boson.Memory.SparseVector.{SparseVector, has}
use boson.Memory.SparseVector.FreeList.{Rep}
use boson.Queues.VectorizedQueue.Segment.{Entries}
use boson.Queues.VectorizedQueue.Invariant.{Holds}
use boson.Sync.Semaphore
use boson.Sync.Semaphore.{SemaphoreReturnValue, WaitingUnit, disabling_threshold}
use boson.Runtime.State.{
  RoutineStatus, sema_wait, EventType, RoutineSlot, Routine, slot, Thread, World, M, ◌>>=◌, ◌>>◌,
  pure, fault, routine, thread, ThreadCommand, schedule_waiting_routine,
}
use boson.Runtime.Routine.Round.{SlotsOk}
use boson.Runtime.Dispatch.{handle_engine_event}
use boson.Runtime.Schedule.{try_ticket}
use boson.Runtime.Semaphores.{post}
use boson.Runtime.Semaphores.Popped.{post-Popped, handle_engine_event-Candidate}
use boson.Runtime.Semaphores.Granted.{try_ticket-Granted}

-- What happens until a routine that waits runs again, if another one posts: its thread takes the commands, and
-- then the routine that is scheduled first tries to get a ticket.
abbrev pub next_turn : (fuel : ℕ) → ℕ → M (Unit {0})
next_turn fuel r = do
  body ← routine r
  handle_engine_event fuel body.thread
  th ← thread body.thread
  elim th.scheduled_routines [ [] ↦ fault | x ∷ xs ↦ (do run ← try_ticket r x; pure tt) ]

abbrev pub resumed_by_post : (fuel s : ℕ) → ℕ → M (Unit {0})
resumed_by_post fuel s r = do result ← post s; next_turn fuel r

-- The routine waits for the semaphore alone, under the reference `p` and in the slot `j` of the thread `t`, of
-- which `n` routines are suspended and the slots `used` in use. The semaphore has the counter `c` and the
-- waiters `xs`, and the thread the commands and turns that are named.
pub record Waits (v : World) (r t s p i j n : ℕ) (used : ℕ → Bool) (c : Int32)
    (xs : Entries WaitingUnit) (commands : List ThreadCommand) (turns : List RoutineSlot)
    (ss : ℕ → Option Semaphore.Semaphore) : Type 0 where
  pub sem : Semaphore.Semaphore
  pub on : (v.routines r).thread ≡ t
  pub events : (v.routines r).events ≡ sema_wait s i j ∷ []
  pub ptr : (v.routines r).current_ptr ≡ some p
  pub owner : v.refs p ≡ some (some r)
  pub apart : p ≢ v.next_ref
  pub there : v.semaphores s ≡ some sem
  pub rest : (z : ℕ) → z ≢ s → v.semaphores z ≡ ss z
  pub counter : sem.counter ≡ c
  pub waiters : Holds sem.waiters xs
  pub to_do : (v.threads t).engine_queue ≡ commands
  pub scheduled : (v.threads t).scheduled_routines ≡ turns
  pub suspended : (v.threads t).nb_suspended_routines ≡ n
  pub slots : SlotsOk v t
  pub in_use : (l : ℕ) → has (v.threads t).suspended_slots l ≡ used l
  pub mine : used j ≡ true
  pub slot_there : SparseVector.read (v.threads t).suspended_slots j ≡ some (slot (some p) 0)

-- The wait is over: `n` routines are suspended, and the slots `used` in use.
pub record Resumed (r t s p n : ℕ) (used : ℕ → Bool) (ss : ℕ → Option Semaphore.Semaphore)
    (v' : World) : Type 0 where
  pub sem : Semaphore.Semaphore
  pub there : v'.semaphores s ≡ some sem
  pub rest : (z : ℕ) → z ≢ s → v'.semaphores z ≡ ss z
  pub counter : sem.counter ≡ int 0
  pub waiters : Holds sem.waiters []
  pub happened : (v'.routines r).happened_type ≡ EventType.sema_wait
  pub same_thread : (v'.routines r).thread ≡ t
  pub dead : v'.refs p ≡ none
  pub suspended : (v'.threads t).nb_suspended_routines ≡ n
  pub commands : (v'.threads t).engine_queue ≡ []
  pub slots : (l : ℕ) → has (v'.threads t).suspended_slots l ≡ used l

module _ (r t s p i j n : ℕ) (used : ℕ → Bool) (ss : ℕ → Option Semaphore.Semaphore) where
  pub post_signals :
      (v : World)
      → Waits v r t s p i j n used (int 0) ((i, (t, j)) ∷ []) [] [] ss
      → (w : World) × (post s v ≡ some (SemaphoreReturnValue.ok, w))
        × Waits w r t s p i j n used (int 1) [] (schedule_waiting_routine s j ∷ []) [] ss
  post_signals v k =
      let (w, e, q) =
        post-Popped v s i t j k.sem [] k.there (ground (arith, k.counter))
          (ground (arith, k.counter)) k.waiters in
      let same : w.routines r ≡ v.routines r = ap (λ (f : ℕ → Routine). f r) q.routines in
      let same_slots : (w.threads t).suspended_slots ≡ (v.threads t).suspended_slots =
        ap (λ (th : Thread). th.suspended_slots) q.thread in
      (
        w,
        e,
        record {
          sem = q.sem';
          on = ap (λ (b : Routine). b.thread) same ∙ k.on;
          events = ap (λ (b : Routine). b.events) same ∙ k.events;
          ptr = ap (λ (b : Routine). b.current_ptr) same ∙ k.ptr;
          owner = ap (λ (f : ℕ → Option (Option ℕ)). f p) q.refs ∙ k.owner;
          apart = λ is. k.apart (is ∙ q.next_ref);
          there = q.there;
          rest = λ z ne. q.rest z ne ∙ k.rest z ne;
          counter = ground (arith, q.counter, k.counter);
          waiters = q.waiters;
          to_do =
              ap (λ (th : Thread). th.engine_queue) q.thread
              ∙ ap (λ l. l ++ schedule_waiting_routine s j ∷ []) k.to_do;
          scheduled = ap (λ (th : Thread). th.scheduled_routines) q.thread ∙ k.scheduled;
          suspended = ap (λ (th : Thread). th.nb_suspended_routines) q.thread ∙ k.suspended;
          slots = (
            k.slots.0,
            subst (λ (x : SparseVector RoutineSlot). Rep x k.slots.0) (sym same_slots) k.slots.1,
          );
          in_use = λ l. ap (λ (x : SparseVector RoutineSlot). has x l) same_slots ∙ k.in_use l;
          mine = k.mine;
          slot_there =
              ap (λ (x : SparseVector RoutineSlot). SparseVector.read x j) same_slots
              ∙ k.slot_there;
        },
      )

  command_schedules :
      (v : World) (m : ℕ)
      → Waits v r t s p i j n used (int 1) [] (schedule_waiting_routine s j ∷ []) [] ss
      → (w : World) × (handle_engine_event (suc (suc m)) t v ≡ some (tt, w))
        × Waits w r t s p i j n used (int 1) [] [] (slot (some p) 0 ∷ []) ss
        × ((w.routines r).status ≡ RoutineStatus.sema_event_candidate)
  command_schedules v m k =
      let (w, e, q) =
        handle_engine_event-Candidate v m r s p j 0
          (subst (λ (u : ℕ). (v.threads u).engine_queue ≡ schedule_waiting_routine s j ∷ [])
            (sym k.on) k.to_do)
          (subst
            (λ (u : ℕ). SparseVector.read (v.threads u).suspended_slots j ≡ some (slot (some p) 0))
            (sym k.on) k.slot_there)
          k.ptr k.owner in
      let thread : w.threads t ≡ record (v.threads t) {
        nb_pending_commands = sub_size (v.threads t).nb_pending_commands 1;
        engine_queue = [];
        scheduled_routines =
            (v.threads t).scheduled_routines ++ slot (v.routines r).current_ptr 0 ∷ [];
      } =
        subst
          (λ (u : ℕ). w.threads u ≡ record (v.threads u) {
            nb_pending_commands = sub_size (v.threads u).nb_pending_commands 1;
            engine_queue = [];
            scheduled_routines =
                (v.threads u).scheduled_routines ++ slot (v.routines r).current_ptr 0 ∷ [];
          })
          k.on q.thread in
      let same_slots : (w.threads t).suspended_slots ≡ (v.threads t).suspended_slots =
        ap (λ (th : Thread). th.suspended_slots) thread in
      (
        w,
        subst (λ (u : ℕ). handle_engine_event (suc (suc m)) u v ≡ some (tt, w)) k.on e,
        record {
          sem = k.sem;
          on = ap (λ (b : Routine). b.thread) q.routine ∙ k.on;
          events = ap (λ (b : Routine). b.events) q.routine ∙ k.events;
          ptr = ap (λ (b : Routine). b.current_ptr) q.routine ∙ k.ptr;
          owner = ap (λ (f : ℕ → Option (Option ℕ)). f p) q.refs ∙ k.owner;
          apart = λ is. k.apart (is ∙ q.next_ref);
          there = ap (λ (f : ℕ → Option Semaphore.Semaphore). f s) q.semaphores ∙ k.there;
          rest =
              λ z ne. ap (λ (f : ℕ → Option Semaphore.Semaphore). f z) q.semaphores ∙ k.rest z ne;
          counter = k.counter;
          waiters = k.waiters;
          to_do = ap (λ (th : Thread). th.engine_queue) thread;
          scheduled =
              ap (λ (th : Thread). th.scheduled_routines) thread
              ∙ ap (λ (l : List RoutineSlot). l ++ slot (v.routines r).current_ptr 0 ∷ [])
                  k.scheduled
              ∙ ap (λ (o : Option ℕ). slot o 0 ∷ []) k.ptr;
          suspended = ap (λ (th : Thread). th.nb_suspended_routines) thread ∙ k.suspended;
          slots = (
            k.slots.0,
            subst (λ (x : SparseVector RoutineSlot). Rep x k.slots.0) (sym same_slots) k.slots.1,
          );
          in_use = λ l. ap (λ (x : SparseVector RoutineSlot). has x l) same_slots ∙ k.in_use l;
          mine = k.mine;
          slot_there =
              ap (λ (x : SparseVector RoutineSlot). SparseVector.read x j) same_slots
              ∙ k.slot_there;
        },
        ap (λ (b : Routine). b.status) q.routine,
      )

  candidate_resumes :
      (v : World)
      → Waits v r t s p i j n used (int 1) [] [] (slot (some p) 0 ∷ []) ss
      → (v.routines r).status ≡ RoutineStatus.sema_event_candidate
      → (w : World) × (try_ticket r (slot (some p) 0) v ≡ some ((true, some v.next_ref), w))
        × Resumed r t s p (sub_size n 1) (λ l. used l && not (j == l)) ss w
  candidate_resumes v k candidate =
      let (w, e, q) =
        try_ticket-Granted v r s p i j k.sem k.slots.0 candidate k.events k.ptr k.owner k.apart
          (subst (λ (u : ℕ). Rep (v.threads u).suspended_slots k.slots.0) (sym k.on) k.slots.1)
          (subst (λ (u : ℕ). has (v.threads u).suspended_slots j ≡ true) (sym k.on)
            (k.in_use j ∙ k.mine))
          k.there (ground (arith, k.counter)) (ground (arith, k.counter)) in
      let thread : w.threads t ≡ record (v.threads t) {
        nb_suspended_routines = sub_size (v.threads t).nb_suspended_routines 1;
        suspended_slots = q.slots;
      } =
        subst
          (λ (u : ℕ). w.threads u ≡ record (v.threads u) {
            nb_suspended_routines = sub_size (v.threads u).nb_suspended_routines 1;
            suspended_slots = q.slots;
          })
          k.on q.thread in
      let freed =
        subst
          (λ (u : ℕ).
            (l : ℕ) → has q.slots l ≡ (has (v.threads u).suspended_slots l && not (j == l)))
          k.on q.freed in
      (
        w,
        e,
        record {
          sem = record k.sem { counter = decrement k.sem.counter };
          there = q.there;
          rest = λ z ne. q.rest z ne ∙ k.rest z ne;
          counter = ground (arith, k.counter);
          waiters = k.waiters;
          happened = ap (λ (b : Routine). b.happened_type) q.routine ∙ q.happened_type;
          same_thread = ap (λ (b : Routine). b.thread) q.routine ∙ q.same_thread ∙ k.on;
          dead = q.dead;
          suspended =
              ap (λ (th : Thread). th.nb_suspended_routines) thread
              ∙ ap (λ (m : ℕ). sub_size m 1) k.suspended;
          commands = ap (λ (th : Thread). th.engine_queue) thread ∙ k.to_do;
          slots = λ l.
              ap (λ (th : Thread). has th.suspended_slots l) thread
              ∙ freed l
              ∙ ap (λ (b : Bool). b && not (j == l)) (k.in_use l);
        },
      )

  pub turn_resumes :
      (v : World) (m : ℕ)
      → Waits v r t s p i j n used (int 1) [] (schedule_waiting_routine s j ∷ []) [] ss
      → (w : World) × (next_turn (suc (suc m)) r v ≡ some (tt, w))
        × Resumed r t s p (sub_size n 1) (λ l. used l && not (j == l)) ss w
  turn_resumes v m k =
      let (v1, e1, k1, candidate) = command_schedules v m k in
      let (v2, e2, k2) = candidate_resumes v1 k1 candidate in
      let on = k.on in let turns = k1.scheduled in (v2, ground (arith, e1, e2, on, turns), k2)

  pub post_resumes :
      (v : World) (m : ℕ)
      → Waits v r t s p i j n used (int 0) ((i, (t, j)) ∷ []) [] [] ss
      → (w : World) × (resumed_by_post (suc (suc m)) s r v ≡ some (tt, w))
        × Resumed r t s p (sub_size n 1) (λ l. used l && not (j == l)) ss w
  post_resumes v m k =
      let (v1, e1, k1) = post_signals v k in
      let (v2, e2, k2) = turn_resumes v1 m k1 in (v2, ground (arith, e1, e2), k2)
