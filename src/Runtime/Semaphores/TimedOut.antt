-- ===== src/Runtime/Semaphores/TimedOut.antt =====
-- A waiter of a semaphore that its date wakes: `routine::event_happened` of
-- src/boson/src/internal/routine.cc for the timer of a wait, which takes the routine out of the queue.
use boson.Prelude.{
  ℕ, ◌+◌, ◌≡◌, refl, ap, subst, ◌∙◌, ==_iff, int, true, List, [], ◌∷◌, ◌++◌, Option, some, none,
  update, arith, sub_size,
}
use boson.Memory.SparseVector
use boson.Memory.SparseVector.{SparseVector, has}
use boson.Queues.VectorizedQueue.Segment.{Entries, has_index}
use boson.Queues.VectorizedQueue.Spec.{remove}
use boson.Queues.VectorizedQueue.Invariant.{Holds}
use boson.Queues.VectorizedQueue.Refinement.{lazy_free-remove}
use boson.Sync.Semaphore
use boson.Sync.Semaphore.{WaitingUnit}
use boson.Runtime.State.{
  RoutineStatus, WaitedEvent, sema_wait, timer, EventType, RoutineSlot, TimedRoutinesSet, slot,
  Thread, World,
}
use boson.Runtime.Thread.{unregister_expired_slot, schedule_routine}
use boson.Runtime.Routine.{
  event_happened, finish_by_event, drop_event, drop_events, others, timed_out,
}
use boson.Runtime.Routine.Adding.{rethread}
use boson.Runtime.Routine.Round.{update_self, update_twice}
use boson.Runtime.Schedule.{fire_slots, fire_timed_out_routines}
use boson.Runtime.Semaphores.Granted.{freed_thread}

-- The wait of a round that another event ends: its entry is still in the queue.
drop_wait :
    (w : World) (t s i j : ℕ) (unit : WaitingUnit) (sem : Semaphore.Semaphore)
    (v : SparseVector RoutineSlot)
    → w.semaphores s ≡ some sem
    → Holds sem.waiters ((i, unit) ∷ [])
    → SparseVector.free (w.threads t).suspended_slots j ≡ some v
    → (sem' : Semaphore.Semaphore) × (drop_event t (sema_wait s i j) w
        ≡ some (
          tt,
          record w {
            threads = update w.threads t (freed_thread (w.threads t) v);
            semaphores = update w.semaphores s (some sem');
          },
        ))
      × (sem'.counter ≡ sem.counter)
      × Holds sem'.waiters []
unfolding drop_event unregister_expired_slot Semaphore.free
drop_wait w t s i j unit sem v e q free =
    let (q', f, held) = lazy_free-remove i q in
    let sem' : Semaphore.Semaphore = record sem { waiters = q' } in
    let a : Thread = record (w.threads t) {
      nb_suspended_routines = sub_size (w.threads t).nb_suspended_routines 1;
    } in
    let freed : SparseVector.free (update w.threads t a t).suspended_slots j ≡ some v =
      rw (update_self w.threads t a) free in
    let here : has_index i ((i, unit) ∷ []) ≡ true = ground (arith, ==_iff i i) in
    let gone : remove i ((i, unit) ∷ []) ≡ [] = ground (arith, ==_iff i i) in
    let w' : World = record w { semaphores = update w.semaphores s (some sem') } in
    let run : drop_event t (sema_wait s i j) w
        ≡ some (
          tt,
          record w' {
            threads =
                update (update w.threads t a) t
                  (record (update w.threads t a t) { suspended_slots = v });
          },
        ) =
      ground (arith, e, f, here, freed) in
    (
      sem',
      run
          ∙ ap (λ (x : World). some (tt, x))
              (rethread w' t a (λ th. record th { suspended_slots = v })),
      refl,
      subst (λ (xs : Entries WaitingUnit). Holds q' xs) gone held,
    )

-- The round ends by its timer: the routine is scheduled under a new reference.
abbrev pub fired : World → ℕ → ℕ → ℕ → World
fired w r t p = record w {
  routines = update w.routines r (record (w.routines r) {
    status = RoutineStatus.yielding;
    happened_type = EventType.timer;
    happened_rc = timed_out;
    happened_index = 1;
  });
  refs = update (update (update w.refs p (some none)) w.next_ref (some (some r))) p none;
  next_ref = w.next_ref + 1;
  threads = update w.threads t (record (w.threads t) {
    scheduled_routines = (w.threads t).scheduled_routines ++ slot (some w.next_ref) 0 ∷ [];
  });
}

pub finish_by_timer :
    (w : World) (ths : ℕ → Thread) (ss : ℕ → Option Semaphore.Semaphore) (r p : ℕ)
    → drop_events (w.routines r).thread (others (w.routines r).events 1) w
      ≡ some (tt, record w { threads = ths; semaphores = ss })
    → (w.routines r).current_ptr ≡ some p
    → w.refs p ≡ some (some r)
    → finish_by_event r 1 EventType.timer timed_out w
      ≡ some (true, fired (record w { threads = ths; semaphores = ss }) r (w.routines r).thread p)
unfolding finish_by_event schedule_routine
finish_by_timer w ths ss r p dropped ptr owner = ground (arith, dropped, ptr, owner)

pub event_happened-timer :
    (w : World) (r s p i j d : ℕ) (unit : WaitingUnit) (sem : Semaphore.Semaphore)
    (v : SparseVector RoutineSlot)
    → (w.routines r).events ≡ sema_wait s i j ∷ timer d ∷ []
    → (w.routines r).current_ptr ≡ some p
    → w.refs p ≡ some (some r)
    → w.semaphores s ≡ some sem
    → Holds sem.waiters ((i, unit) ∷ [])
    → SparseVector.free (w.threads (w.routines r).thread).suspended_slots j ≡ some v
    → (sem' : Semaphore.Semaphore) × (event_happened r 1 (int 0) w
        ≡ some (
          true,
          fired
              (record w {
                threads =
                    update w.threads
                      (w.routines r).thread
                      (freed_thread (w.threads (w.routines r).thread) v);
                semaphores = update w.semaphores s (some sem');
              })
              r
              (w.routines r).thread
              p,
        ))
      × (sem'.counter ≡ sem.counter)
      × Holds sem'.waiters []
unfolding event_happened drop_events others
event_happened-timer w r s p i j d unit sem v events ptr owner e q free =
    let t = (w.routines r).thread in
    let (sem', run, counter, held) = drop_wait w t s i j unit sem v e q free in
    let only : others (w.routines r).events 1 ≡ sema_wait s i j ∷ [] =
      ap (λ (l : List WaitedEvent). others l 1) events in
    let all : drop_events t (sema_wait s i j ∷ []) w
        ≡ some (
          tt,
          record w {
            threads = update w.threads t (freed_thread (w.threads t) v);
            semaphores = update w.semaphores s (some sem');
          },
        ) =
      ground (arith, run) in
    let ended =
      finish_by_timer w (update w.threads t (freed_thread (w.threads t) v))
        (update w.semaphores s (some sem')) r p
        (ap (λ (l : List WaitedEvent). drop_events t l w) only ∙ all) ptr owner in
    (sem', ground (arith, events, ended), counter, held)

-- The first date of the thread, with one slot, is over.
pub record Fired (w1 : World) (t : ℕ) (u : SparseVector RoutineSlot) (v : World) : Type 0 where
  pub routines : v.routines ≡ w1.routines
  pub refs : v.refs ≡ w1.refs
  pub semaphores : v.semaphores ≡ w1.semaphores
  pub thread : v.threads t ≡ record (w1.threads t) { suspended_slots = u; timed_routines = [] }

pub fire_timed_out_routines-Fired :
    (w w1 : World) (r t p k d : ℕ) (set : TimedRoutinesSet) (u : SparseVector RoutineSlot)
    → (w.threads t).timed_routines ≡ (d, set) ∷ []
    → set.slots ≡ k ∷ []
    → SparseVector.read (w.threads t).suspended_slots k ≡ some (slot (some p) 1)
    → w.refs p ≡ some (some r)
    → event_happened r 1 (int 0) w ≡ some (true, w1)
    → SparseVector.free (w1.threads t).suspended_slots k ≡ some u
    → (w1.threads t).timed_routines ≡ (d, set) ∷ []
    → (v : World) × (fire_timed_out_routines t w ≡ some (tt, v)) × Fired w1 t u v
unfolding fire_timed_out_routines fire_slots unregister_expired_slot
fire_timed_out_routines-Fired w w1 r t p k d set u timed slots there owner happened free timed1 =
    let a : Thread = record (w1.threads t) { suspended_slots = u } in
    let w2 : World = record w1 { threads = update w1.threads t a } in
    let ran : fire_slots t (k ∷ []) w ≡ some (tt, w2) =
      ground (arith, there, owner, happened, free) in
    let all : fire_slots t set.slots w ≡ some (tt, w2) = ap (λ l. fire_slots t l w) slots ∙ ran in
    (
      record w2 { threads = update w2.threads t (record (w2.threads t) { timed_routines = [] }) },
      ground (arith, timed, all, timed1),
      record {
        routines = refl;
        refs = refl;
        semaphores = refl;
        thread = update_twice w1.threads t a (λ th. record th { timed_routines = [] });
      },
    )
