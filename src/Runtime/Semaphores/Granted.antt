-- ===== src/Runtime/Semaphores/Granted.antt =====
-- A candidate that gets its ticket, and so its turn: `thread::execute_scheduled_routines` of
-- src/boson/src/internal/thread.cc with `routine::event_happened` of src/boson/src/internal/routine.cc.
use boson.Prelude.{
  ℕ, ◌+◌, ◌≡◌, ◌≢◌, refl, ap, ◌∙◌, ◌==◌, ltb, leb, int, decrement, true, false, not, ◌&&◌, List, [],
  ◌∷◌, Option, some, none, update, arith, sub_size,
}
use boson.Memory.SparseVector
use boson.Memory.SparseVector.{SparseVector, has}
use boson.Memory.SparseVector.FreeList.{Rep}
use boson.Memory.SparseVector.Allocation.{free-Freed}
use boson.Sync.Semaphore
use boson.Sync.Semaphore.{disabling_threshold}
use boson.Runtime.State.{
  RoutineStatus, WaitedEvent, sema_wait, EventType, RoutineSlot, Routine, slot, Thread, World, ◌>>◌,
  bind_ok, set_thread, lift,
}
use boson.Runtime.Thread.{no_slot, drop_suspended, unregister_expired_slot}
use boson.Runtime.Routine.{
  event_happened, candidate_happened, finish_by_semaphore, drop_events, others,
}
use boson.Runtime.Routine.Adding.{rethread}
use boson.Runtime.Routine.Round.{update_self}
use boson.Runtime.Schedule.{try_ticket}

-- The semaphore has lost the ticket, the slot of the wait is free, its reference `p` is dead, and the routine
-- is owned by a new one.
pub record Granted (w : World) (r s p j : ℕ) (sem : Semaphore.Semaphore) (w' : World) : Type 0 where
  pub body : Routine
  pub routine : w'.routines r ≡ body
  pub happened_type : body.happened_type ≡ EventType.sema_wait
  pub status : body.status ≡ RoutineStatus.yielding
  pub same_thread : body.thread ≡ (w.routines r).thread
  pub there : w'.semaphores s ≡ some (record sem { counter = decrement sem.counter })
  pub rest : (z : ℕ) → z ≢ s → w'.semaphores z ≡ w.semaphores z
  pub dead : w'.refs p ≡ none
  pub owner : w'.refs w.next_ref ≡ some (some r)
  pub slots : SparseVector RoutineSlot
  pub well_formed : (fs : List ℕ) × Rep slots fs
  pub freed :
      (l : ℕ)
      → has slots l ≡ (has (w.threads (w.routines r).thread).suspended_slots l && not (j == l))
  pub thread : w'.threads (w.routines r).thread ≡ record (w.threads (w.routines r).thread) {
    nb_suspended_routines = sub_size (w.threads (w.routines r).thread).nb_suspended_routines 1;
    suspended_slots = slots;
  }

-- The end of a round of one event.
abbrev ended : World → ℕ → ℕ → EventType → World
ended w r p type = record w {
  routines = update w.routines r (record (w.routines r) {
    status = RoutineStatus.yielding;
    happened_type = type;
    happened_rc = int 0;
    happened_index = 0;
  });
  refs = update (update w.refs p (some none)) p none;
}

finish_by_semaphore-single :
    (w : World) (r p : ℕ) (e : WaitedEvent) (o : Option ℕ) (type : EventType)
    → (w.routines r).events ≡ e ∷ []
    → (w.routines r).current_ptr ≡ some p
    → w.refs p ≡ some o
    → finish_by_semaphore r 0 type w ≡ some (true, ended w r p type)
unfolding finish_by_semaphore drop_events others
finish_by_semaphore-single w r p e o type events ptr owner =
    let no_others : drop_events (w.routines r).thread (others (w.routines r).events 0) w
        ≡ some (tt, w) =
      ap (λ (l : List WaitedEvent). drop_events (w.routines r).thread (others l 0) w) events in
    ground (arith, no_others, ptr, owner)

-- The thread after the slot of a candidate was freed.
abbrev pub freed_thread : Thread → SparseVector RoutineSlot → Thread
freed_thread th v = record th {
  nb_suspended_routines = sub_size th.nb_suspended_routines 1;
  suspended_slots = v;
}

free_candidate :
    (w : World) (t j : ℕ) (v : SparseVector RoutineSlot)
    → SparseVector.free (w.threads t).suspended_slots j ≡ some v
    → (drop_suspended t >> unregister_expired_slot t j) w
      ≡ some (tt, record w { threads = update w.threads t (freed_thread (w.threads t) v) })
unfolding unregister_expired_slot
free_candidate w t j v e =
    let a : Thread = record (w.threads t) {
      nb_suspended_routines = sub_size (w.threads t).nb_suspended_routines 1;
    } in
    let freed : SparseVector.free (update w.threads t a t).suspended_slots j ≡ some v =
      rw (update_self w.threads t a) e in
    bind_ok (lift (SparseVector.free (update w.threads t a t).suspended_slots j))
      (λ slots. set_thread t (record (update w.threads t a t) { suspended_slots = slots }))
      {w = record w { threads = update w.threads t a }}
      {w' = record w { threads = update w.threads t a }}
      (ap
        (λ (o : Option (SparseVector RoutineSlot)).
          lift o (record w { threads = update w.threads t a }))
        freed)
    ∙ ap (λ (u : World). some (tt, u)) (rethread w t a (λ th. record th { suspended_slots = v }))

candidate_happened-taken :
    (w : World) (r s p i j : ℕ) (sem : Semaphore.Semaphore) (v : SparseVector RoutineSlot)
    (o : Option ℕ)
    → (w.routines r).events ≡ sema_wait s i j ∷ []
    → (w.routines r).current_ptr ≡ some p
    → w.refs p ≡ some o
    → SparseVector.free (w.threads (w.routines r).thread).suspended_slots j ≡ some v
    → w.semaphores s ≡ some sem
    → ltb disabling_threshold sem.counter ≡ false
    → leb sem.counter (int 0) ≡ false
    → candidate_happened r 0 s j w
      ≡ some (
        true,
        ended
            (record w {
              threads =
                  update w.threads
                    (w.routines r).thread
                    (freed_thread (w.threads (w.routines r).thread) v);
              semaphores =
                  update w.semaphores s (some (record sem { counter = decrement sem.counter }));
            })
            r
            p
            EventType.sema_wait,
      )
unfolding candidate_happened Semaphore.take_ticket
candidate_happened-taken w r s p i j sem v o events ptr owner free e enabled above =
    let w1 : World = record w {
      threads =
          update w.threads (w.routines r).thread (freed_thread (w.threads (w.routines r).thread) v);
    } in
    let w2 : World = record w1 {
      semaphores = update w.semaphores s (some (record sem { counter = decrement sem.counter }));
    } in
    let f = free_candidate w (w.routines r).thread j v free in
    let g =
      finish_by_semaphore-single w2 r p (sema_wait s i j) o EventType.sema_wait events ptr owner in
    ground (arith, f, g, e, enabled, above)

pub try_ticket-Granted :
    (w : World) (r s p i j : ℕ) (sem : Semaphore.Semaphore) (fs : List ℕ)
    → (w.routines r).status ≡ RoutineStatus.sema_event_candidate
    → (w.routines r).events ≡ sema_wait s i j ∷ []
    → (w.routines r).current_ptr ≡ some p
    → w.refs p ≡ some (some r)
    → p ≢ w.next_ref
    → Rep (w.threads (w.routines r).thread).suspended_slots fs
    → has (w.threads (w.routines r).thread).suspended_slots j ≡ true
    → w.semaphores s ≡ some sem
    → ltb disabling_threshold sem.counter ≡ false
    → leb sem.counter (int 0) ≡ false
    → (w' : World) × (try_ticket r (slot (some p) 0) w ≡ some ((true, some w.next_ref), w'))
      × Granted w r s p j sem w'
unfolding try_ticket event_happened
try_ticket-Granted w r s p i j sem fs candidate events ptr owner apart rep used e enabled above =
    let t = (w.routines r).thread in
    let (v, fr) = free-Freed no_slot j rep used in
    let happened =
      candidate_happened-taken w r s p i j sem v (some r) events ptr owner fr.result e enabled
        above in
    let w1 : World =
      ended
        (record w {
          threads = update w.threads t (freed_thread (w.threads t) v);
          semaphores =
              update w.semaphores s (some (record sem { counter = decrement sem.counter }));
        })
        r p EventType.sema_wait in
    (
      record w1 { refs = update w1.refs w.next_ref (some (some r)); next_ref = w.next_ref + 1 },
      ground (arith, candidate, events, happened),
      record {
        body = w1.routines r;
        routine = refl;
        happened_type = ground arith;
        status = ground arith;
        same_thread = ground arith;
        there = ground arith;
        rest = λ z ne. ground arith;
        dead = ground (arith, apart);
        owner = ground arith;
        slots = v;
        well_formed = (j ∷ fs, fr.rep);
        freed = fr.others;
        thread = ground arith;
      },
    )
