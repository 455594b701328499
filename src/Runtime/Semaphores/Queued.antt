-- ===== src/Runtime/Semaphores/Queued.antt =====
-- A routine that is put in the queue of a semaphore which has no ticket: `routine::add_semaphore_wait` of
-- src/boson/src/internal/routine.cc.
use boson.Prelude.{
  ℕ, ◌+◌, ◌-◌, ◌^◌, ◌<◌, ◌≡◌, ◌≢◌, refl, ap, subst, ◌∙◌, leb, int, increment, false, List, [], ◌∷◌,
  ◌++◌, some, length, length-append, set, update, arith, add_size,
}
use boson.Memory.SparseVector.{SparseVector}
use boson.Queues.VectorizedQueue.Segment.{Entries}
use boson.Queues.VectorizedQueue.Invariant.{Holds}
use boson.Queues.VectorizedQueue.Write.{write-append}
use boson.Sync.Semaphore
use boson.Sync.Semaphore.{WaitingUnit}
use boson.Runtime.State.{sema_wait, RoutineSlot, Routine, slot, Thread, World, bind_ok, pure, ◌>>◌}
use boson.Runtime.Thread.{store_slot, add_suspended, register_semaphore_wait}
use boson.Runtime.Routine.{add_semaphore_wait, restore_and_pop}
use boson.Runtime.Routine.Round.{SlotsOk, update_self}
use boson.Runtime.Routine.Storing.{Stored, with_slots, store_slot-Stored}
use boson.Runtime.Routine.Adding.{rethread}

-- The routine, its thread and the semaphore after the routine `r` went behind `xs`, in the slot `j`.
pub record Queued (w : World) (r s : ℕ) (sem : Semaphore.Semaphore) (xs : Entries WaitingUnit)
    (w' : World) : Type 0 where
  pub i : ℕ
  pub j : ℕ
  pub sem' : Semaphore.Semaphore
  pub slots : SparseVector RoutineSlot
  pub routine : w'.routines r ≡ record (w.routines r) {
    events =
        set
          ((w.routines r).events ++ sema_wait s 0 0 ∷ [])
          (length (w.routines r).events)
          (sema_wait s i j);
  }
  pub others : (x : ℕ) → x ≢ r → w'.routines x ≡ w.routines x
  pub refs : w'.refs ≡ w.refs
  pub next_ref : w'.next_ref ≡ w.next_ref
  pub there : w'.semaphores s ≡ some sem'
  pub rest : (z : ℕ) → z ≢ s → w'.semaphores z ≡ w.semaphores z
  pub counter : sem'.counter ≡ increment sem.counter
  pub waiters : Holds sem'.waiters (xs ++ (i, ((w.routines r).thread, j)) ∷ [])
  pub thread : w'.threads (w.routines r).thread ≡ record (w.threads (w.routines r).thread) {
    suspended_slots = slots;
    nb_suspended_routines = (w.threads (w.routines r).thread).nb_suspended_routines + 1;
  }
  pub stored :
      Stored
        (w.threads (w.routines r).thread).suspended_slots
        (slot (w.routines r).current_ptr (length (w.routines r).events))
        j
        slots

register_semaphore_wait-Stored :
    (w : World) (t : ℕ) (x : RoutineSlot)
    → SlotsOk w t
    → (w.threads t).nb_suspended_routines + 1 < 2 ^ 64
    → (j : ℕ) × (u : SparseVector RoutineSlot) × (register_semaphore_wait t x w
        ≡ some (
          j,
          record w {
            threads = update w.threads t (record (w.threads t) {
              suspended_slots = u;
              nb_suspended_routines = (w.threads t).nb_suspended_routines + 1;
            });
          },
        ))
      × Stored (w.threads t).suspended_slots x j u
unfolding register_semaphore_wait
register_semaphore_wait-Stored w t x ok room =
    let (j, u, e, st) = store_slot-Stored w t x ok in
    (
      j,
      u,
      bind_ok (store_slot t x) (λ index. add_suspended t >> pure index) {w = w}
            {w' = with_slots w t u} e
          ∙ ap (λ (v : World). some (j, v))
              (rethread w t (record (w.threads t) { suspended_slots = u })
                (λ th. record th { nb_suspended_routines = add_size th.nb_suspended_routines 1 }))
          ∙ ap
              (λ (n : ℕ). some (
                j,
                record w {
                  threads =
                      update w.threads t
                        (record (w.threads t) { suspended_slots = u; nb_suspended_routines = n });
                },
              ))
              (omega arith),
      st,
    )

last_event : {A : Type 0} (xs : List A) (x : A) → length (xs ++ x ∷ []) - 1 ≡ length xs
last_event xs x = omega (arith, length-append xs (x ∷ []))

pub add_semaphore_wait-Queued :
    (w : World) (r s : ℕ) (sem : Semaphore.Semaphore) (xs : Entries WaitingUnit)
    → SlotsOk w (w.routines r).thread
    → (w.threads (w.routines r).thread).nb_suspended_routines + 1 < 2 ^ 64
    → w.semaphores s ≡ some sem
    → leb (int 0) sem.counter ≡ false
    → Holds sem.waiters xs
    → (w' : World) × (add_semaphore_wait r s w ≡ some (tt, w')) × Queued w r s sem xs w'
unfolding add_semaphore_wait restore_and_pop Semaphore.write Semaphore.restore_ticket
add_semaphore_wait-Queued w r s sem xs ok room e below q =
    let t = (w.routines r).thread in
    let events = (w.routines r).events ++ sema_wait s 0 0 ∷ [] in
    let last = length events - 1 in
    let at_end : last ≡ length (w.routines r).events =
      last_event (w.routines r).events (sema_wait s 0 0) in
    let body : Routine = record (w.routines r) { events = events } in
    let w1 : World = record w { routines = update w.routines r body } in
    let (j, u, f, st) = register_semaphore_wait-Stored w1 t (slot body.current_ptr last) ok room in
    let (i, q', g, fresh, held) = write-append (t, j) q in
    let th : Thread = record (w.threads t) {
      suspended_slots = u;
      nb_suspended_routines = (w.threads t).nb_suspended_routines + 1;
    } in
    let sem1 : Semaphore.Semaphore = record sem { waiters = q' } in
    let sem2 : Semaphore.Semaphore = record sem1 { counter = increment sem.counter } in
    let w' : World = record w {
      routines =
          update (update w.routines r body) r
            (record body { events = set events last (sema_wait s i j) });
      threads = update w.threads t th;
      semaphores = update (update w.semaphores s (some sem1)) s (some sem2);
    } in
    (
      w',
      ground (arith, e, f, g, below),
      record {
        i = i;
        j = j;
        sem' = sem2;
        slots = u;
        routine =
            update_self (update w.routines r body) r _
            ∙ ap (λ (k : ℕ). record (w.routines r) { events = set events k (sema_wait s i j) })
                at_end;
        others = λ x ne. ground arith;
        refs = refl;
        next_ref = refl;
        there = ground arith;
        rest = λ z ne. ground arith;
        counter = refl;
        waiters = held;
        thread = ground arith;
        stored =
            subst
              (λ (k : ℕ).
                Stored (w.threads t).suspended_slots (slot (w.routines r).current_ptr k) j u)
              at_end st;
      },
    )
