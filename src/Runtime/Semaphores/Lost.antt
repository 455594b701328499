-- ===== src/Runtime/Semaphores/Lost.antt =====
-- A wake-up that no waiter gets: the command of `semaphore::post` is handled and the date of the routine
-- fires in one turn of `thread::loop` of src/boson/src/internal/thread.cc.
mod Tests
use boson.Prelude.{
  ℕ, suc, ◌+◌, ◌-◌, ◌≡◌, ◌≢◌, refl, sym, ap, subst, ◌∙◌, ◌==◌, ==_iff, int, Int32, increment, Bool,
  true, false, not, ◌&&◌, List, [], ◌∷◌, ◌++◌, append_assoc, Option, some, none, update, arith,
  add_size, sub_size, if◌then◌else◌,
}
use boson.Memory.SparseVector
use boson.Memory.SparseVector.{SparseVector, has}
use boson.Memory.SparseVector.FreeList.{Rep}
use boson.Memory.SparseVector.Allocation.{free-Freed}
use boson.Queues.VectorizedQueue.Segment.{Entries, has_index}
use boson.Queues.VectorizedQueue.Spec.{remove}
use boson.Queues.VectorizedQueue.Invariant.{Holds}
use boson.Queues.VectorizedQueue.Refinement.{lazy_free-remove}
use boson.Sync.Semaphore
use boson.Sync.Semaphore.{WaitingUnit, SemaphoreReturnValue}
use boson.Runtime.State.{
  RoutineStatus, WaitedEvent, sema_wait, timer, EventType, RoutineSlot, Routine, slot, Thread,
  World, M, ◌>>=◌, ◌>>◌, bind_ok, schedule_waiting_routine,
}
use boson.Runtime.Thread.{no_slot}
use boson.Runtime.Routine.{event_happened, drop_event, drop_events, others}
use boson.Runtime.Routine.Round.{SlotsOk, update_self, update_twice}
use boson.Runtime.Dispatch.{handle_engine_event}
use boson.Runtime.Schedule.{fire_timed_out_routines, run_slot}
use boson.Runtime.Semaphores.{post}
use boson.Runtime.Semaphores.Popped.{post-Popped, handle_engine_event-Candidate}
use boson.Runtime.Semaphores.TimedOut.{fired, finish_by_timer, fire_timed_out_routines-Fired}
use boson.Runtime.Semaphores.Expired.{one_slot}

abbrev uncounted : Thread → Thread
uncounted th = record th { nb_suspended_routines = sub_size th.nb_suspended_routines 1 }

-- The timer of a round whose waiter has already left the queue: no slot is freed.
event_happened-gone :
    (w : World) (r t s p i j d : ℕ) (xs : Entries WaitingUnit) (sem : Semaphore.Semaphore)
    → (w.routines r).thread ≡ t
    → (w.routines r).events ≡ sema_wait s i j ∷ timer d ∷ []
    → (w.routines r).current_ptr ≡ some p
    → w.refs p ≡ some (some r)
    → w.semaphores s ≡ some sem
    → Holds sem.waiters xs
    → has_index i xs ≡ false
    → remove i xs ≡ xs
    → (sem' : Semaphore.Semaphore) × (event_happened r 1 (int 0) w
        ≡ some (
          true,
          fired
              (record w {
                threads = update w.threads t (uncounted (w.threads t));
                semaphores = update w.semaphores s (some sem');
              })
              r
              t
              p,
        ))
      × (sem'.counter ≡ sem.counter)
      × Holds sem'.waiters xs
unfolding event_happened drop_events drop_event others Semaphore.free
event_happened-gone w r t s p i j d xs sem on events ptr owner e q gone same =
    let (q', f, held) = lazy_free-remove i q in
    let sem' : Semaphore.Semaphore = record sem { waiters = q' } in
    let only : others (w.routines r).events 1 ≡ sema_wait s i j ∷ [] =
      ap (λ (l : List WaitedEvent). others l 1) events in
    let t' = (w.routines r).thread in
    let all : drop_events t' (sema_wait s i j ∷ []) w
        ≡ some (
          tt,
          record w {
            threads = update w.threads t' (uncounted (w.threads t'));
            semaphores = update w.semaphores s (some sem');
          },
        ) =
      ground (arith, e, f, gone) in
    let ended =
      finish_by_timer w (update w.threads t' (uncounted (w.threads t')))
        (update w.semaphores s (some sem')) r p
        (ap (λ (l : List WaitedEvent). drop_events t' l w) only ∙ all) ptr owner in
    let run : event_happened r 1 (int 0) w
        ≡ some (
          true,
          fired
              (record w {
                threads = update w.threads t' (uncounted (w.threads t'));
                semaphores = update w.semaphores s (some sem');
              })
              r t' p,
        ) =
      ground (arith, events, ended) in
    (
      sem',
      subst
          (λ (u : ℕ).
            event_happened r 1 (int 0) w
            ≡ some (
              true,
              fired
                  (record w {
                    threads = update w.threads u (uncounted (w.threads u));
                    semaphores = update w.semaphores s (some sem');
                  })
                  r u p,
            ))
          on run,
      refl,
      subst (λ (l : Entries WaitingUnit). Holds q' l) same held,
    )

-- A routine that waits for a semaphore in front of the waiters `xs`, and for the date `d`.
pub record Front (v : World) (r t s p i j k d : ℕ) (xs : Entries WaitingUnit) : Type 0 where
  pub sem : Semaphore.Semaphore
  pub on : (v.routines r).thread ≡ t
  pub events : (v.routines r).events ≡ sema_wait s i j ∷ timer d ∷ []
  pub ptr : (v.routines r).current_ptr ≡ some p
  pub owner : v.refs p ≡ some (some r)
  pub there : v.semaphores s ≡ some sem
  pub counter : sem.counter ≡ int 0
  pub waiters : Holds sem.waiters ((i, (t, j)) ∷ xs)
  pub first : has_index i xs ≡ false
  pub kept : remove i xs ≡ xs
  pub to_do : (v.threads t).engine_queue ≡ []
  pub scheduled : (v.threads t).scheduled_routines ≡ []
  pub timed : (v.threads t).timed_routines ≡ (d, one_slot k) ∷ []
  pub slots : SlotsOk v t
  pub used : has (v.threads t).suspended_slots k ≡ true
  pub wait_slot : SparseVector.read (v.threads t).suspended_slots j ≡ some (slot (some p) 0)
  pub date_slot : SparseVector.read (v.threads t).suspended_slots k ≡ some (slot (some p) 1)

-- What a thread does with a post and a date in one turn of its loop, before the turns of the routines.
abbrev pub one_turn : (fuel s t : ℕ) → M (Unit {0})
one_turn fuel s t = do result ← post s; handle_engine_event fuel t; fire_timed_out_routines t

-- The routine is a candidate of the semaphore, which has a ticket for it; `q` is the next reference.
record Chosen (v : World) (r t s p q i j k d : ℕ) (xs : Entries WaitingUnit) : Type 0 where
  sem : Semaphore.Semaphore
  on : (v.routines r).thread ≡ t
  events : (v.routines r).events ≡ sema_wait s i j ∷ timer d ∷ []
  ptr : (v.routines r).current_ptr ≡ some p
  owner : v.refs p ≡ some (some r)
  next_ref : v.next_ref ≡ q
  there : v.semaphores s ≡ some sem
  counter : sem.counter ≡ int 1
  waiters : Holds sem.waiters xs
  to_do : (v.threads t).engine_queue ≡ []
  scheduled : (v.threads t).scheduled_routines ≡ slot (some p) 0 ∷ []
  timed : (v.threads t).timed_routines ≡ (d, one_slot k) ∷ []
  slots : SlotsOk v t
  used : has (v.threads t).suspended_slots k ≡ true
  date_slot : SparseVector.read (v.threads t).suspended_slots k ≡ some (slot (some p) 1)

-- The ticket is free, the waiters `xs` are in the queue, and nothing will wake one of them.
pub record Stuck (w : World) (r t s p q : ℕ) (xs : Entries WaitingUnit) : Type 0 where
  pub sem : Semaphore.Semaphore
  pub happened : (w.routines r).happened_type ≡ EventType.timer
  pub there : w.semaphores s ≡ some sem
  pub counter : sem.counter ≡ int 1
  pub waiters : Holds sem.waiters xs
  pub to_do : (w.threads t).engine_queue ≡ []
  pub scheduled : (w.threads t).scheduled_routines ≡ slot (some p) 0 ∷ slot (some q) 0 ∷ []
  pub no_turn :
      (resume : ℕ → ℕ → M (Unit {0})) → run_slot resume t (slot (some p) 0) w ≡ some ([], w)

date_loses :
    (v : World) (r t s p q i j k d : ℕ) (xs : Entries WaitingUnit)
    → has_index i xs ≡ false
    → remove i xs ≡ xs
    → Chosen v r t s p q i j k d xs
    → (w : World) × (fire_timed_out_routines t v ≡ some (tt, w)) × Stuck w r t s p q xs
unfolding run_slot
date_loses v r t s p q i j k d xs gone kept h =
    let (sem', run, counter, held) =
      event_happened-gone v r t s p i j d xs h.sem h.on h.events h.ptr h.owner h.there h.waiters
        gone kept in
    let (u, fr) = free-Freed no_slot k h.slots.1 h.used in
    let f : World =
      fired
        (record v {
          threads = update v.threads t (uncounted (v.threads t));
          semaphores = update v.semaphores s (some sem');
        })
        r t p in
    let th : f.threads t ≡ record (uncounted (v.threads t)) {
      scheduled_routines = (v.threads t).scheduled_routines ++ slot (some v.next_ref) 0 ∷ [];
    } =
      update_twice v.threads t (uncounted (v.threads t)) (λ x. record x {
        scheduled_routines = x.scheduled_routines ++ slot (some v.next_ref) 0 ∷ [];
      }) in
    let (w, fire, k1) =
      fire_timed_out_routines-Fired v f r t p k d (one_slot k) u h.timed refl h.date_slot h.owner
        run (ap (λ (x : Thread). SparseVector.free x.suspended_slots k) th ∙ fr.result)
        (ap (λ (x : Thread). x.timed_routines) th ∙ h.timed) in
    let dead : w.refs p ≡ none = ap (λ (x : ℕ → Option (Option ℕ)). x p) k1.refs ∙ ground arith in
    (
      w,
      fire,
      record {
        sem = sem';
        happened =
            ap (λ (x : ℕ → Routine). (x r).happened_type) k1.routines
            ∙ ap (λ (b : Routine). b.happened_type) (update_self v.routines r _);
        there =
            ap (λ (x : ℕ → Option Semaphore.Semaphore). x s) k1.semaphores
            ∙ update_self v.semaphores s (some sem');
        counter = counter ∙ h.counter;
        waiters = held;
        to_do =
            ap (λ (x : Thread). x.engine_queue) k1.thread
            ∙ ap (λ (x : Thread). x.engine_queue) th
            ∙ h.to_do;
        scheduled =
            ap (λ (x : Thread). x.scheduled_routines) k1.thread
            ∙ ap (λ (x : Thread). x.scheduled_routines) th
            ∙ ap (λ (l : List RoutineSlot). l ++ slot (some v.next_ref) 0 ∷ []) h.scheduled
            ∙ ap (λ (x : ℕ). slot (some p) 0 ∷ slot (some x) 0 ∷ []) h.next_ref;
        no_turn = λ resume. ground (arith, dead);
      },
    )

-- A routine waits for a ticket, in front of other waiters, and for a date. If a ticket is posted, and its
-- thread handles the command of the post and fires the date in one turn of its loop, then the routine is told
-- of the date; its candidacy stands in the schedule under a dead reference, and its turn there does nothing.
-- The ticket stays free, the other waiters stay in the queue, and the thread has no command that would wake
-- one of them.
pub post_loses_wakeup :
    (v : World) (r t s p i j k d m : ℕ) (xs : Entries WaitingUnit)
    → Front v r t s p i j k d xs
    → (w : World) × (one_turn (suc (suc m)) s t v ≡ some (tt, w)) × Stuck w r t s p v.next_ref xs
post_loses_wakeup v r t s p i j k d m xs h =
    let (v1, e1, k1) =
      post-Popped v s i t j h.sem xs h.there (ground (arith, h.counter)) (ground (arith, h.counter))
        h.waiters in
    let same1 : v1.routines r ≡ v.routines r = ap (λ (f : ℕ → Routine). f r) k1.routines in
    let on1 : (v1.routines r).thread ≡ t = ap (λ (b : Routine). b.thread) same1 ∙ h.on in
    let slots1 : (v1.threads t).suspended_slots ≡ (v.threads t).suspended_slots =
      ap (λ (th : Thread). th.suspended_slots) k1.thread in
    let (v2, e2, k2) =
      handle_engine_event-Candidate v1 m r s p j 0
        (subst (λ (u : ℕ). (v1.threads u).engine_queue ≡ schedule_waiting_routine s j ∷ [])
          (sym on1)
          (ap (λ (th : Thread). th.engine_queue) k1.thread
            ∙ ap (λ l. l ++ schedule_waiting_routine s j ∷ []) h.to_do))
        (subst
          (λ (u : ℕ). SparseVector.read (v1.threads u).suspended_slots j ≡ some (slot (some p) 0))
          (sym on1)
          (ap (λ (x : SparseVector RoutineSlot). SparseVector.read x j) slots1 ∙ h.wait_slot))
        (ap (λ (b : Routine). b.current_ptr) same1 ∙ h.ptr)
        (ap (λ (f : ℕ → Option (Option ℕ)). f p) k1.refs ∙ h.owner) in
    let handled : handle_engine_event (suc (suc m)) t v1 ≡ some (tt, v2) =
      subst (λ (u : ℕ). handle_engine_event (suc (suc m)) u v1 ≡ some (tt, v2)) on1 e2 in
    let th2 : v2.threads t ≡ record (v1.threads t) {
      nb_pending_commands = sub_size (v1.threads t).nb_pending_commands 1;
      engine_queue = [];
      scheduled_routines =
          (v1.threads t).scheduled_routines ++ slot (v1.routines r).current_ptr 0 ∷ [];
    } =
      subst
        (λ (u : ℕ). v2.threads u ≡ record (v1.threads u) {
          nb_pending_commands = sub_size (v1.threads u).nb_pending_commands 1;
          engine_queue = [];
          scheduled_routines =
              (v1.threads u).scheduled_routines ++ slot (v1.routines r).current_ptr 0 ∷ [];
        })
        on1 k2.thread in
    let slots2 : (v2.threads t).suspended_slots ≡ (v.threads t).suspended_slots =
      ap (λ (th : Thread). th.suspended_slots) th2 ∙ slots1 in
    let (v3, e3, stuck) = date_loses v2 r t s p v.next_ref i j k d xs h.first h.kept (record {
      sem = k1.sem';
      on = ap (λ (b : Routine). b.thread) k2.routine ∙ on1;
      events =
          ap (λ (b : Routine). b.events) k2.routine
          ∙ ap (λ (b : Routine). b.events) same1
          ∙ h.events;
      ptr =
          ap (λ (b : Routine). b.current_ptr) k2.routine
          ∙ ap (λ (b : Routine). b.current_ptr) same1
          ∙ h.ptr;
      owner =
          ap (λ (f : ℕ → Option (Option ℕ)). f p) k2.refs
          ∙ ap (λ (f : ℕ → Option (Option ℕ)). f p) k1.refs
          ∙ h.owner;
      next_ref = k2.next_ref ∙ k1.next_ref;
      there = ap (λ (f : ℕ → Option Semaphore.Semaphore). f s) k2.semaphores ∙ k1.there;
      counter = ground (arith, k1.counter, h.counter);
      waiters = k1.waiters;
      to_do = ap (λ (th : Thread). th.engine_queue) th2;
      scheduled =
          ap (λ (th : Thread). th.scheduled_routines) th2
          ∙ ap (λ (th : Thread). th.scheduled_routines ++ slot (v1.routines r).current_ptr 0 ∷ [])
              k1.thread
          ∙ ap (λ (l : List RoutineSlot). l ++ slot (v1.routines r).current_ptr 0 ∷ []) h.scheduled
          ∙ ap (λ (b : Routine). slot b.current_ptr 0 ∷ []) same1
          ∙ ap (λ (o : Option ℕ). slot o 0 ∷ []) h.ptr;
      timed =
          ap (λ (th : Thread). th.timed_routines) th2
          ∙ ap (λ (th : Thread). th.timed_routines) k1.thread
          ∙ h.timed;
      slots = (
        h.slots.0,
        subst (λ (x : SparseVector RoutineSlot). Rep x h.slots.0) (sym slots2) h.slots.1,
      );
      used = ap (λ (x : SparseVector RoutineSlot). has x k) slots2 ∙ h.used;
      date_slot = ap (λ (x : SparseVector RoutineSlot). SparseVector.read x k) slots2 ∙ h.date_slot;
    }) in
    (v3, ground (arith, e1, handled, e3), stuck)
