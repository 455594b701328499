-- ===== src/Runtime/Semaphores/Posted.antt =====
-- A whole wait of `semaphore::wait` of src/boson/src/semaphore.cc that a post ends.
use boson.Prelude.{
  ℕ, suc, ◌+◌, ◌^◌, ◌<◌, ◌≡◌, ◌≢◌, refl, sym, ap, subst, ◌∙◌, ◌==◌, ==_iff, leb, Int32, int,
  decrement, Bool, false, not, ◌&&◌, ◌||◌, List, [], ◌∷◌, ◌++◌, Option, some, none, update, arith,
  sub_size, length, set,
}
use boson.Memory.SparseVector
use boson.Memory.SparseVector.{SparseVector, has}
use boson.Memory.SparseVector.FreeList.{Rep}
use boson.Queues.VectorizedQueue.Invariant.{Holds}
use boson.Sync.Semaphore
use boson.Sync.Semaphore.{SemaphoreReturnValue}
use boson.Runtime.State.{RoutineStatus, WaitedEvent, sema_wait, Routine, slot, Thread, World, ◌>>◌}
use boson.Runtime.Routine.{start_event_round, add_semaphore_wait, commit_event_round}
use boson.Runtime.Routine.Round.{SlotsOk, update_self}
use boson.Runtime.Routine.Storing.{Stored}
use boson.Runtime.Semaphores.{wait, begin_wait, end_wait, run_again}
use boson.Runtime.Semaphores.Queued.{add_semaphore_wait-Queued}
use boson.Runtime.Semaphores.Handover.{resumed_by_post, Waits, Resumed, post_resumes}

-- Before the wait: the thread `t` of the routine has nothing else to do.
pub record Free (v : World) (r t n : ℕ) (used : ℕ → Bool) : Type 0 where
  pub on : (v.routines r).thread ≡ t
  pub to_do : (v.threads t).engine_queue ≡ []
  pub scheduled : (v.threads t).scheduled_routines ≡ []
  pub suspended : (v.threads t).nb_suspended_routines ≡ n
  pub slots : SlotsOk v t
  pub in_use : (l : ℕ) → has (v.threads t).suspended_slots l ≡ used l

queued-Waits :
    (v : World) (r t s p n : ℕ) (used : ℕ → Bool) (ss : ℕ → Option Semaphore.Semaphore)
    (sem : Semaphore.Semaphore)
    → ((z : ℕ) → z ≢ s → v.semaphores z ≡ ss z)
    → Free v r t n used
    → n + 1 < 2 ^ 64
    → (v.routines r).events ≡ []
    → (v.routines r).current_ptr ≡ some p
    → v.refs p ≡ some (some r)
    → p ≢ v.next_ref
    → v.semaphores s ≡ some sem
    → sem.counter ≡ decrement (int 0)
    → Holds sem.waiters []
    → (w : World) × (i : ℕ) × (j : ℕ) × ((add_semaphore_wait r s >> commit_event_round r) v
        ≡ some (tt, w))
      × (used j ≡ false)
      × Waits w r t s p i j (n + 1) (λ l. used l || j == l) (int 0) ((i, (t, j)) ∷ []) [] [] ss
unfolding commit_event_round
queued-Waits v r t s p n used ss sem before free room events ptr owner apart e minus q =
    let (w1, e1, k) =
      add_semaphore_wait-Queued v r s sem []
        (subst (λ (u : ℕ). SlotsOk v u) (sym free.on) free.slots)
        (subst (λ (u : ℕ). (v.threads u).nb_suspended_routines + 1 < 2 ^ 64) (sym free.on)
          (omega (arith, room, free.suspended)))
        e (ground (arith, minus)) q in
    let body : Routine = record (w1.routines r) { status = RoutineStatus.wait_events } in
    let w : World = record w1 { routines = update w1.routines r body } in
    let here : w.routines r ≡ body = update_self w1.routines r body in
    let thread : w.threads t ≡ record (v.threads t) {
      suspended_slots = k.slots;
      nb_suspended_routines = (v.threads t).nb_suspended_routines + 1;
    } =
      subst
        (λ (u : ℕ). w.threads u ≡ record (v.threads u) {
          suspended_slots = k.slots;
          nb_suspended_routines = (v.threads u).nb_suspended_routines + 1;
        })
        free.on k.thread in
    let stored : Stored (v.threads t).suspended_slots (slot (some p) 0) k.j k.slots =
      subst (λ (u : ℕ). Stored (v.threads u).suspended_slots (slot (some p) 0) k.j k.slots) free.on
        (subst
          (λ (l : List WaitedEvent).
            Stored (v.threads (v.routines r).thread).suspended_slots (slot (some p) (length l)) k.j
              k.slots)
          events
          (subst
            (λ (o : Option ℕ).
              Stored (v.threads (v.routines r).thread).suspended_slots
                (slot o (length (v.routines r).events)) k.j k.slots)
            ptr k.stored)) in
    (
      w,
      k.i,
      k.j,
      ground (arith, e1),
      sym (free.in_use k.j) ∙ stored.fresh,
      record {
        sem = k.sem';
        on =
            ap (λ (b : Routine). b.thread) here
            ∙ ap (λ (b : Routine). b.thread) k.routine
            ∙ free.on;
        events =
            ap (λ (b : Routine). b.events) here
            ∙ ap (λ (b : Routine). b.events) k.routine
            ∙ ap
                (λ (l : List WaitedEvent).
                  set (l ++ sema_wait s 0 0 ∷ []) (length l) (sema_wait s k.i k.j))
                events;
        ptr =
            ap (λ (b : Routine). b.current_ptr) here
            ∙ ap (λ (b : Routine). b.current_ptr) k.routine
            ∙ ptr;
        owner = ap (λ (f : ℕ → Option (Option ℕ)). f p) k.refs ∙ owner;
        apart = λ is. apart (is ∙ k.next_ref);
        there = k.there;
        rest = λ z ne. k.rest z ne ∙ before z ne;
        counter = ground (arith, k.counter, minus);
        waiters = subst (λ (u : ℕ). Holds k.sem'.waiters ((k.i, (u, k.j)) ∷ [])) free.on k.waiters;
        to_do = ap (λ (th : Thread). th.engine_queue) thread ∙ free.to_do;
        scheduled = ap (λ (th : Thread). th.scheduled_routines) thread ∙ free.scheduled;
        suspended =
            ap (λ (th : Thread). th.nb_suspended_routines) thread
            ∙ ap (λ (m : ℕ). m + 1) free.suspended;
        slots = (
          stored.rep.0,
          subst (λ (th : Thread). Rep th.suspended_slots stored.rep.0) (sym thread) stored.rep.1,
        );
        in_use = λ l.
            ap (λ (th : Thread). has th.suspended_slots l) thread
            ∙ stored.used l
            ∙ ap (λ (b : Bool). b || k.j == l) (free.in_use l);
        mine = ground (arith, ==_iff k.j k.j);
        slot_there =
            ap (λ (th : Thread). SparseVector.read th.suspended_slots k.j) thread ∙ stored.there;
      },
    )

-- The wait up to the switch of contexts.
pub begin_wait-Waits :
    (w : World) (now r s n : ℕ) (timeout : Int32) (used : ℕ → Bool) (sem : Semaphore.Semaphore)
    → leb (int 0) timeout ≡ false
    → Free w r (w.routines r).thread n used
    → n + 1 < 2 ^ 64
    → w.semaphores s ≡ some sem
    → sem.counter ≡ int 0
    → Holds sem.waiters []
    → (v : World) × (i : ℕ) × (j : ℕ) × (begin_wait now r s timeout w ≡ some (none, v))
      × (used j ≡ false)
      × Waits v r
          (w.routines r).thread
          s
          w.next_ref
          i
          j
          (n + 1)
          (λ l. used l || j == l)
          (int 0)
          ((i, ((w.routines r).thread, j)) ∷ [])
          []
          []
          w.semaphores
unfolding begin_wait start_event_round Semaphore.take_ticket
begin_wait-Waits w now r s n timeout used sem negative free room e counter q =
    let t = (w.routines r).thread in
    let p = w.next_ref in
    let body : Routine = record (w.routines r) { events = []; current_ptr = some p } in
    let sem1 : Semaphore.Semaphore = record sem { counter = decrement sem.counter } in
    let w1 : World = record w {
      semaphores = update w.semaphores s (some sem1);
      refs = update w.refs p (some (some r));
      next_ref = p + 1;
      routines = update w.routines r body;
    } in
    let here : w1.routines r ≡ body = update_self w.routines r body in
    let (w2, i, j, e2, fresh, k2) =
      queued-Waits w1 r t s p n used w.semaphores sem1 (λ z ne. ground arith)
        (record {
          on = ap (λ (b : Routine). b.thread) here;
          to_do = free.to_do;
          scheduled = free.scheduled;
          suspended = free.suspended;
          slots = free.slots;
          in_use = free.in_use;
        })
        room (ap (λ (b : Routine). b.events) here) (ap (λ (b : Routine). b.current_ptr) here)
        (update_self w.refs p (some (some r))) (λ is. absurd (omega (arith, is)))
        (update_self w.semaphores s (some sem1)) (ap decrement counter) q in
    (w2, i, j, ground (arith, e, counter, negative, e2), fresh, k2)

-- The wait from the resumption on.
pub end_wait-Resumed :
    (w : World) (r t s p n : ℕ) (used : ℕ → Bool) (ss : ℕ → Option Semaphore.Semaphore)
    → Resumed r t s p n used ss w
    → (v : World) × (end_wait r w ≡ some (SemaphoreReturnValue.ok, v))
      × ((v.routines r).status ≡ RoutineStatus.running)
      × (v.semaphores ≡ w.semaphores)
      × Resumed r t s p n used ss v
unfolding end_wait run_again
end_wait-Resumed w r t s p n used ss k =
    let after : Routine = record (w.routines r) {
      previous_status = RoutineStatus.wait_events;
      status = RoutineStatus.running;
    } in
    let ran : update w.routines r after r ≡ after = update_self w.routines r after in
    let granted = k.happened in
    (
      record w { routines = update w.routines r after },
      ground (arith, granted),
      ap (λ (b : Routine). b.status) ran,
      refl,
      record {
        sem = k.sem;
        there = k.there;
        rest = k.rest;
        counter = k.counter;
        waiters = k.waiters;
        happened = ap (λ (b : Routine). b.happened_type) ran ∙ k.happened;
        same_thread = ap (λ (b : Routine). b.thread) ran ∙ k.same_thread;
        dead = k.dead;
        suspended = k.suspended;
        commands = k.commands;
        slots = k.slots;
      },
    )

-- The slot and the count of the wait are given back.
pub given_back :
    (w : World) (r t s p j n : ℕ) (used : ℕ → Bool) (ss : ℕ → Option Semaphore.Semaphore)
    → used j ≡ false
    → n + 1 < 2 ^ 64
    → Resumed r t s p (sub_size (n + 1) 1) (λ l. (used l || j == l) && not (j == l)) ss w
    → Resumed r t s p n used ss w
given_back w r t s p j n used ss fresh room k = record {
  sem = k.sem;
  there = k.there;
  rest = k.rest;
  counter = k.counter;
  waiters = k.waiters;
  happened = k.happened;
  same_thread = k.same_thread;
  dead = k.dead;
  suspended = k.suspended ∙ omega (arith, room);
  commands = k.commands;
  slots = λ l. k.slots l ∙ ground (arith, fresh, ==_iff j l);
}

-- On a semaphore without a ticket and without waiters, a routine waits for as long as it takes, on a thread
-- with well-formed slots, room in its counter, and neither commands nor turns. If another routine posts
-- then, the wait ends: it returns that it got the ticket, the semaphore has no ticket and no waiters as before, others stay,
-- the reference of the round is dead, and the thread counts as many suspended routines, has the same
-- slots in use, and no command. Two commands of fuel are enough.
pub wait-post :
    (w : World) (now r s m n : ℕ) (timeout : Int32) (used : ℕ → Bool) (sem : Semaphore.Semaphore)
    → leb (int 0) timeout ≡ false
    → Free w r (w.routines r).thread n used
    → n + 1 < 2 ^ 64
    → w.semaphores s ≡ some sem
    → sem.counter ≡ int 0
    → Holds sem.waiters []
    → (w' : World) × (wait (resumed_by_post (suc (suc m)) s) now r s timeout w
        ≡ some (SemaphoreReturnValue.ok, w'))
      × ((w'.routines r).status ≡ RoutineStatus.running)
      × Resumed r (w.routines r).thread s w.next_ref n used w.semaphores w'
unfolding wait
wait-post w now r s m n timeout used sem negative free room e counter q =
    let t = (w.routines r).thread in
    let (w1, i, j, e1, fresh, k1) =
      begin_wait-Waits w now r s n timeout used sem negative free room e counter q in
    let (w2, e2, k2) =
      post_resumes r t s w.next_ref i j (n + 1) (λ l. used l || j == l) w.semaphores w1 m k1 in
    let (w3, e3, runs, same, k3) =
      end_wait-Resumed w2 r t s w.next_ref n used w.semaphores
        (given_back w2 r t s w.next_ref j n used w.semaphores fresh room k2) in
    (w3, ground (arith, e1, e2, e3), runs, k3)
