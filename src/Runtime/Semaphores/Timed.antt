-- ===== src/Runtime/Semaphores/Timed.antt =====
-- A wait with a timeout, from its first line to its result.
use boson.Prelude.{
  ℕ, ◌+◌, ◌-◌, ◌^◌, ◌<◌, ◌≡◌, ◌≢◌, refl, sym, ap, subst, ◌∙◌, ◌==◌, leb, Int32, int, decrement,
  Bool, true, false, ◌||◌, List, [], ◌∷◌, ◌++◌, Option, some, update, arith, length, length-append,
  set,
}
use boson.Memory.SparseVector
use boson.Memory.SparseVector.{SparseVector, has}
use boson.Memory.SparseVector.FreeList.{Rep}
use boson.Queues.VectorizedQueue.Invariant.{Holds}
use boson.Sync.Semaphore
use boson.Sync.Semaphore.{SemaphoreReturnValue}
use boson.Runtime.State.{
  RoutineStatus, WaitedEvent, sema_wait, timer, RoutineSlot, Routine, slot, Thread, World, ◌>>◌,
  bind_ok,
}
use boson.Runtime.Clock.{semaphore_date}
use boson.Runtime.Thread.{register_timer}
use boson.Runtime.Routine.{start_event_round, add_semaphore_wait, add_timer, commit_event_round}
use boson.Runtime.Routine.Round.{SlotsOk, update_self, update_twice}
use boson.Runtime.Routine.Storing.{Stored}
use boson.Runtime.Semaphores.{wait, begin_wait, end_wait, run_again}
use boson.Runtime.Semaphores.Queued.{add_semaphore_wait-Queued}
use boson.Runtime.Semaphores.Posted.{Free}
use boson.Runtime.Semaphores.Expired.{
  one_slot, register_timer-Stored, TimedWaits, Expired, date_passes, date_expires,
}

-- A timer that is added to a round, on a thread without other dates, before the switch of contexts.
record TimerAdded (w : World) (r t d k : ℕ) (u : SparseVector RoutineSlot) (v : World)
    : Type 0 where
  body : Routine
  routine : v.routines r ≡ body
  on : body.thread ≡ t
  ptr : body.current_ptr ≡ (w.routines r).current_ptr
  events : body.events ≡ (w.routines r).events ++ timer d ∷ []
  refs : v.refs ≡ w.refs
  semaphores : v.semaphores ≡ w.semaphores
  thread :
      v.threads t
      ≡ record (w.threads t) { suspended_slots = u; timed_routines = (d, one_slot k) ∷ [] }
  stored :
      Stored
        (w.threads t).suspended_slots
        (slot (w.routines r).current_ptr (length (w.routines r).events))
        k
        u

add_timer-TimerAdded :
    (w : World) (r t d : ℕ)
    → (w.routines r).thread ≡ t
    → SlotsOk w t
    → (w.threads t).timed_routines ≡ []
    → (v : World) × (k : ℕ) × (u : SparseVector RoutineSlot) × ((add_timer r d
            >> commit_event_round r)
          w
        ≡ some (tt, v))
      × TimerAdded w r t d k u v
unfolding add_timer commit_event_round
add_timer-TimerAdded w r t d on ok none_timed =
    let body : Routine = record (w.routines r) { events = (w.routines r).events ++ timer d ∷ [] } in
    let last = length body.events - 1 in
    let at_end : last ≡ length (w.routines r).events =
      omega (arith, length-append (w.routines r).events (timer d ∷ [])) in
    let w1 : World = record w { routines = update w.routines r body } in
    let (k, u, run, st) = register_timer-Stored w1 t d (slot body.current_ptr last) ok none_timed in
    let run' =
      subst
        (λ (x : ℕ).
          register_timer x d (slot body.current_ptr last) w1
          ≡ some (
            tt,
            record w1 {
              threads = update w.threads t (record (w.threads t) {
                suspended_slots = u;
                timed_routines = (d, one_slot k) ∷ [];
              });
            },
          ))
        (sym on) run in
    (
      record w {
        routines =
            update w1.routines r (record (w1.routines r) { status = RoutineStatus.wait_events });
        threads =
            update w.threads t
              (record (w.threads t) { suspended_slots = u; timed_routines = (d, one_slot k) ∷ [] });
      },
      k,
      u,
      ground (arith, run'),
      record {
        body = record body { status = RoutineStatus.wait_events };
        routine =
            update_twice w.routines r body (λ b. record b { status = RoutineStatus.wait_events });
        on = on;
        ptr = refl;
        events = refl;
        refs = refl;
        semaphores = refl;
        thread = ground arith;
        stored =
            subst
              (λ (x : ℕ).
                Stored (w.threads t).suspended_slots (slot (w.routines r).current_ptr x) k u)
              at_end st;
      },
    )

queued-TimedWaits :
    (v : World) (r t s p d n : ℕ) (used : ℕ → Bool) (ss : ℕ → Option Semaphore.Semaphore)
    (sem : Semaphore.Semaphore)
    → ((z : ℕ) → z ≢ s → v.semaphores z ≡ ss z)
    → Free v r t n used
    → (v.threads t).timed_routines ≡ []
    → n + 1 < 2 ^ 64
    → (v.routines r).events ≡ []
    → (v.routines r).current_ptr ≡ some p
    → v.refs p ≡ some (some r)
    → v.semaphores s ≡ some sem
    → sem.counter ≡ decrement (int 0)
    → Holds sem.waiters []
    → (w : World) × (i : ℕ) × (j : ℕ) × (k : ℕ) × ((add_semaphore_wait r s
            >> (add_timer r d >> commit_event_round r))
          v
        ≡ some (tt, w))
      × TimedWaits w r t s p i j k d n used ss
queued-TimedWaits v r t s p d n used ss sem before free none_timed room events ptr owner e minus q =
    let (w1, e1, k1) =
      add_semaphore_wait-Queued v r s sem []
        (subst (λ (u : ℕ). SlotsOk v u) (sym free.on) free.slots)
        (subst (λ (u : ℕ). (v.threads u).nb_suspended_routines + 1 < 2 ^ 64) (sym free.on)
          (omega (arith, room, free.suspended)))
        e (ground (arith, minus)) q in
    let thread : w1.threads t ≡ record (v.threads t) {
      suspended_slots = k1.slots;
      nb_suspended_routines = (v.threads t).nb_suspended_routines + 1;
    } =
      subst
        (λ (u : ℕ). w1.threads u ≡ record (v.threads u) {
          suspended_slots = k1.slots;
          nb_suspended_routines = (v.threads u).nb_suspended_routines + 1;
        })
        free.on k1.thread in
    let old : (l : ℕ) → has k1.slots l ≡ (used l || k1.j == l) = λ l.
      k1.stored.used l
      ∙ ap (λ (b : Bool). b || k1.j == l)
          (ap (λ (u : ℕ). has (v.threads u).suspended_slots l) free.on ∙ free.in_use l) in
    let fresh : used k1.j ≡ false =
      sym (free.in_use k1.j)
      ∙ subst (λ (u : ℕ). has (v.threads u).suspended_slots k1.j ≡ false) free.on k1.stored.fresh in
    let on1 : (w1.routines r).thread ≡ t = ap (λ (b : Routine). b.thread) k1.routine ∙ free.on in
    let ptr1 : (w1.routines r).current_ptr ≡ some p =
      ap (λ (b : Routine). b.current_ptr) k1.routine ∙ ptr in
    let events1 : (w1.routines r).events ≡ sema_wait s k1.i k1.j ∷ [] =
      ap (λ (b : Routine). b.events) k1.routine
      ∙ ap
          (λ (l : List WaitedEvent).
            set (l ++ sema_wait s 0 0 ∷ []) (length l) (sema_wait s k1.i k1.j))
          events in
    let (w2, k, u, e2, k2) =
      add_timer-TimerAdded w1 r t d on1
        (
          k1.stored.rep.0,
          subst (λ (th : Thread). Rep th.suspended_slots k1.stored.rep.0) (sym thread)
              k1.stored.rep.1,
        )
        (ap (λ (th : Thread). th.timed_routines) thread ∙ none_timed) in
    let slots1 : (w1.threads t).suspended_slots ≡ k1.slots =
      ap (λ (th : Thread). th.suspended_slots) thread in
    let new : (l : ℕ) → has u l ≡ ((used l || k1.j == l) || k == l) = λ l.
      k2.stored.used l
      ∙ ap (λ (b : Bool). b || k == l)
          (ap (λ (x : SparseVector RoutineSlot). has x l) slots1 ∙ old l) in
    let fresh2 : (used k || k1.j == k) ≡ false =
      sym (old k) ∙ ap (λ (x : SparseVector RoutineSlot). has x k) (sym slots1) ∙ k2.stored.fresh in
    (
      w2,
      k1.i,
      k1.j,
      k,
      bind_ok (add_semaphore_wait r s) (λ _. add_timer r d >> commit_event_round r) {w = v}
            {w' = w1} e1
          ∙ e2,
      record {
        sem = k1.sem';
        on = ap (λ (b : Routine). b.thread) k2.routine ∙ k2.on;
        events =
            ap (λ (b : Routine). b.events) k2.routine
            ∙ k2.events
            ∙ ap (λ (l : List WaitedEvent). l ++ timer d ∷ []) events1;
        ptr = ap (λ (b : Routine). b.current_ptr) k2.routine ∙ k2.ptr ∙ ptr1;
        owner =
            ap (λ (f : ℕ → Option (Option ℕ)). f p) k2.refs
            ∙ ap (λ (f : ℕ → Option (Option ℕ)). f p) k1.refs
            ∙ owner;
        there = ap (λ (f : ℕ → Option Semaphore.Semaphore). f s) k2.semaphores ∙ k1.there;
        rest = λ z ne.
            ap (λ (f : ℕ → Option Semaphore.Semaphore). f z) k2.semaphores
            ∙ k1.rest z ne
            ∙ before z ne;
        counter = ground (arith, k1.counter, minus);
        waiters =
            subst (λ (x : ℕ). Holds k1.sem'.waiters ((k1.i, (x, k1.j)) ∷ [])) free.on k1.waiters;
        to_do =
            ap (λ (th : Thread). th.engine_queue) k2.thread
            ∙ ap (λ (th : Thread). th.engine_queue) thread
            ∙ free.to_do;
        suspended =
            ap (λ (th : Thread). th.nb_suspended_routines) k2.thread
            ∙ ap (λ (th : Thread). th.nb_suspended_routines) thread
            ∙ ap (λ (m : ℕ). m + 1) free.suspended;
        timed = ap (λ (th : Thread). th.timed_routines) k2.thread;
        slots = (
          k2.stored.rep.0,
          subst (λ (th : Thread). Rep th.suspended_slots k2.stored.rep.0) (sym k2.thread)
              k2.stored.rep.1,
        );
        in_use =
            λ l. ap (λ (th : Thread). has th.suspended_slots l) k2.thread ∙ new l ∙ ground arith;
        free_before = ground (arith, fresh, fresh2);
        slot_there =
            ap (λ (th : Thread). SparseVector.read th.suspended_slots k) k2.thread
            ∙ k2.stored.there
            ∙ ap (λ (o : Option ℕ). some (slot o (length (w1.routines r).events))) ptr1
            ∙ ap (λ (l : List WaitedEvent). some (slot (some p) (length l))) events1;
      },
    )

-- On a semaphore without a ticket and without waiters, a routine waits with a timeout, on a thread with
-- well-formed slots, room in its counter, and no commands, turns or dates. If the date is the next thing to
-- happen, the wait ends: it returns that it timed out, the semaphore has no ticket and no waiters as
-- before, others stay, the reference of the round is dead, and the thread counts as many suspended routines
-- and has the same slots in use, no command and no date.
pub wait-fire_timed_out_routines :
    (w : World) (now r s n : ℕ) (timeout : Int32) (used : ℕ → Bool) (sem : Semaphore.Semaphore)
    → leb (int 0) timeout ≡ true
    → Free w r (w.routines r).thread n used
    → (w.threads (w.routines r).thread).timed_routines ≡ []
    → n + 1 < 2 ^ 64
    → w.semaphores s ≡ some sem
    → sem.counter ≡ int 0
    → Holds sem.waiters []
    → (w' : World) × (wait date_passes now r s timeout w ≡ some (SemaphoreReturnValue.timedout, w'))
      × ((w'.routines r).status ≡ RoutineStatus.running)
      × Expired r (w.routines r).thread s w.next_ref n used w.semaphores w'
unfolding wait begin_wait end_wait run_again start_event_round Semaphore.take_ticket
wait-fire_timed_out_routines w now r s n timeout used sem timed free none_timed room e counter q =
    let t = (w.routines r).thread in
    let p = w.next_ref in
    let d = semaphore_date now (timeout - int 0) in
    let body : Routine = record (w.routines r) { events = []; current_ptr = some p } in
    let sem1 : Semaphore.Semaphore = record sem { counter = decrement sem.counter } in
    let w1 : World = record w {
      semaphores = update w.semaphores s (some sem1);
      refs = update w.refs p (some (some r));
      next_ref = p + 1;
      routines = update w.routines r body;
    } in
    let here : w1.routines r ≡ body = update_self w.routines r body in
    let (w2, i, j, k, e2, k2) =
      queued-TimedWaits w1 r t s p d n used w.semaphores sem1 (λ z ne. ground arith)
        (record {
          on = ap (λ (b : Routine). b.thread) here;
          to_do = free.to_do;
          scheduled = free.scheduled;
          suspended = free.suspended;
          slots = free.slots;
          in_use = free.in_use;
        })
        none_timed room (ap (λ (b : Routine). b.events) here)
        (ap (λ (b : Routine). b.current_ptr) here) (update_self w.refs p (some (some r)))
        (update_self w.semaphores s (some sem1)) (ap decrement counter) q in
    let (w3, e3, k3) = date_expires w2 r t s p i j k d n used w.semaphores room k2 in
    let after : Routine = record (w3.routines r) {
      previous_status = RoutineStatus.wait_events;
      status = RoutineStatus.running;
    } in
    let ran : update w3.routines r after r ≡ after = update_self w3.routines r after in
    let out = k3.happened in
    (
      record w3 { routines = update w3.routines r after },
      ground (arith, e, counter, timed, e2, e3, out),
      ap (λ (b : Routine). b.status) ran,
      record {
        sem = k3.sem;
        there = k3.there;
        rest = k3.rest;
        counter = k3.counter;
        waiters = k3.waiters;
        happened = ap (λ (b : Routine). b.happened_type) ran ∙ k3.happened;
        dead = k3.dead;
        suspended = k3.suspended;
        commands = k3.commands;
        timed = k3.timed;
        slots = k3.slots;
      },
    )
