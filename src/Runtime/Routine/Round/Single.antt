-- ===== src/Runtime/Routine/Round/Single.antt =====
-- Dropping one event, of each kind.
use boson.Prelude.{
  ℕ, ◌^◌, ◌<◌, ◌≤◌, ◌≡◌, ◌≢◌, ◌⊎◌, refl, sym, ap, ◌∙◌, ◌==◌, ==_iff, Bool, true, not, ◌&&◌, [], ◌∷◌,
  Option, some, update, arith, Bool-cases, inl, inr,
}
use boson.Memory.SparseVector
use boson.Memory.SparseVector.FreeList.{Rep}
use boson.Memory.SparseVector.Allocation.{free-Freed}
use boson.Queues.VectorizedQueue
use boson.Queues.VectorizedQueue.{VectorizedQueue}
use boson.Queues.VectorizedQueue.Segment.{Entries, has_index}
use boson.Queues.VectorizedQueue.Spec.{remove}
use boson.Queues.VectorizedQueue.Invariant.{has-has_index}
use boson.Queues.VectorizedQueue.Refinement.{lazy_free-remove}
use boson.Sync.Semaphore
use boson.Sync.Semaphore.{WaitingUnit}
use boson.Runtime.State.{WaitedEvent, timer, io_read, io_write, sema_wait, Thread, World}
use boson.Runtime.Thread.{drop_timer, unregister_expired_slot, no_slot}
use boson.Runtime.Routine.{drop_event}
use boson.Runtime.Routine.Round.{
  counted, has_date, WellFormed, EventOk, slot_of, SlotsOk, drop_timed-has_date, DropsOne, changed,
  changed_self, Dropped-trans, in_changed, changed-Dropped, EventOk-mono, fewer,
}

module _ (w : World) (t : ℕ) (ok : SlotsOk w t)
    (k : (w.threads t).nb_suspended_routines < 2 ^ 64) where
  pub drop_io :
      (e : WaitedEvent) (fd : ℕ)
      → (e ≡ io_read fd) ⊎ (e ≡ io_write fd)
      → 1 ≤ (w.threads t).nb_suspended_routines
      → DropsOne w t e (changed w t (fewer w t) w.semaphores)
  unfolding drop_event
  drop_io e fd which h = record {
    result = elim which [ inl q ↦ rw q (ground arith) | inr q ↦ rw q (ground arith) ];
    dropped = elim which [
      | inl q ↦ rw q (changed-Dropped w t 1 (fewer w t) w.semaphores refl (omega arith))
      | inr q ↦ rw q (changed-Dropped w t 1 (fewer w t) w.semaphores refl (omega arith))
    ];
    slots = (ok.0, in_changed (λ y. Rep y.suspended_slots ok.0) w t (fewer w t) w.semaphores ok.1);
    keeps = λ e' apart. EventOk-mono w t (fewer w t) e' (λ d h'. h') (λ l q m. m);
  }

  drop_a_timer : (d : ℕ) → EventOk w t (timer d) → (w' : World) × DropsOne w t (timer d) w'
  unfolding drop_event drop_timer
  drop_a_timer d h =
      let (sets, e, same) = drop_timed-has_date d (w.threads t).timed_routines h in
      let x = record (w.threads t) { timed_routines = sets } in
      (
        changed w t x w.semaphores,
        record {
          result = rw e refl;
          dropped = changed-Dropped w t 0 x w.semaphores refl (omega arith);
          slots = (ok.0, in_changed (λ y. Rep y.suspended_slots ok.0) w t x w.semaphores ok.1);
          keeps = λ e' apart. EventOk-mono w t x e' (λ d h'. same d ∙ h') (λ l q m. m);
        },
      )

-- A slot stays in use when another one is freed.
still_used :
    (o : Option ℕ) (l l' : ℕ) (b : Bool)
    → o ≢ some l
    → o ≡ some l'
    → b ≡ true
    → (b && not (l == l')) ≡ true
still_used o l l' b ne e h = elim (Bool-cases (l == l')) [
  | inl same ↦ absurd (ne (e ∙ ap some (sym ((==_iff l l').0 same))))
  | inr other ↦ rw (h, other)
]

-- Taking an index out of a queue of waiters, where the others stay.
remove-has_index :
    {A : Type 0} (i j : ℕ) (xs : Entries A)
    → has_index j (remove i xs) ≡ true
    → has_index j xs ≡ true
remove-has_index i j [] h = h
remove-has_index i j ((k, a) ∷ xs) h = ground (arith, remove-has_index i j xs)

queue_drop :
    (q : VectorizedQueue WaitingUnit) (i : ℕ)
    → WellFormed q
    → (q' : VectorizedQueue WaitingUnit) × (VectorizedQueue.lazy_free q i
        ≡ some (VectorizedQueue.has q i, q'))
      × WellFormed q'
      × ((j : ℕ) → VectorizedQueue.has q' j ≡ true → VectorizedQueue.has q j ≡ true)
queue_drop q i (xs, h) =
    let (q', e, h') = lazy_free-remove i h in
    (
      q',
      rw (has-has_index h.1) e,
      (remove i xs, h'),
      λ j m. has-has_index h.1 j ∙ remove-has_index i j xs (sym (has-has_index h'.1 j) ∙ m),
    )

module _ (w : World) (t : ℕ) (ok : SlotsOk w t) (k : (w.threads t).nb_suspended_routines < 2 ^ 64)
    (h : 1 ≤ (w.threads t).nb_suspended_routines) (s i l : ℕ) where
  -- The world after the counter and the queue are changed.
  abbrev unqueued : Semaphore.Semaphore → VectorizedQueue WaitingUnit → World
  unqueued sem q' =
      changed w t (fewer w t) (update w.semaphores s (some (record sem { waiters = q' })))

  unqueued-EventOk :
      (sem : Semaphore.Semaphore) (q' : VectorizedQueue WaitingUnit)
      → w.semaphores s ≡ some sem
      → WellFormed q'
      → ((j : ℕ) → VectorizedQueue.has q' j ≡ true → VectorizedQueue.has sem.waiters j ≡ true)
      → (e : WaitedEvent) → EventOk w t e
      → EventOk (unqueued sem q') t e
  unqueued-EventOk sem q' e f sub (timer d) g =
      in_changed (λ y. has_date d y.timed_routines ≡ true) w t (fewer w t)
        (update w.semaphores s (some (record sem { waiters = q' }))) g
  unqueued-EventOk sem q' e f sub (io_read fd) g = tt
  unqueued-EventOk sem q' e f sub (io_write fd) g = tt
  unqueued-EventOk sem q' e f sub (sema_wait s' i' l') (sem', e', f', used) =
      elim (Bool-cases (s == s')) [
        | inl same ↦
            let q : s ≡ s' = (==_iff s s').0 same in
            let agree : sem' ≡ sem = ground arith in
            (
              record sem { waiters = q' },
              ground arith,
              f,
              λ m.
                  in_changed (λ y. SparseVector.has y.suspended_slots l' ≡ true) w t (fewer w t)
                    (update w.semaphores s (some (record sem { waiters = q' })))
                    (used (rw agree (sub i' m))),
            )
        | inr other ↦ (
          sem',
          ground arith,
          f',
          λ m.
              in_changed (λ y. SparseVector.has y.suspended_slots l' ≡ true) w t (fewer w t)
                (update w.semaphores s (some (record sem { waiters = q' }))) (used m),
        )
      ]

  drop_sema : EventOk w t (sema_wait s i l) → (w' : World) × DropsOne w t (sema_wait s i l) w'
  unfolding drop_event unregister_expired_slot Semaphore.free
  drop_sema (sem, e, f, used) =
      let (q', g, f', sub) = queue_drop sem.waiters i f in
      let w1 = unqueued sem q' in
      elim (Bool-cases (VectorizedQueue.has sem.waiters i)) [
        | inl found ↦
            let (v, fr) = free-Freed no_slot l ok.1 (used found) in
            let freed =
              in_changed (λ y. SparseVector.free y.suspended_slots l ≡ some v) w t (fewer w t)
                w1.semaphores fr.result in
            let x : Thread = record (w1.threads t) { suspended_slots = v } in
            (
              changed w1 t x w1.semaphores,
              record {
                result = ground (arith, e, g, found, freed);
                dropped =
                    Dropped-trans
                      (changed-Dropped w t 1 (fewer w t) w1.semaphores refl (omega arith))
                      (changed-Dropped w1 t 0 x w1.semaphores refl (omega arith));
                slots = (
                  l ∷ ok.0,
                  in_changed (λ y. Rep y.suspended_slots (l ∷ ok.0)) w1 t x w1.semaphores fr.rep,
                );
                keeps = λ e' apart g'.
                    EventOk-mono w1 t x e' (λ d h'. h')
                      (λ l' q m.
                        fr.others l'
                        ∙ still_used (slot_of e') l l' _ (apart l refl) q (
                            sym (
                              ap (λ (y : Thread). SparseVector.has y.suspended_slots l')
                                (changed_self w t (fewer w t) w1.semaphores))
                            ∙ m))
                      (unqueued-EventOk sem q' e f' sub e' g');
              },
            )
        | inr gone ↦ (
          w1,
          record {
            result = ground (arith, e, g, gone);
            dropped = changed-Dropped w t 1 (fewer w t) w1.semaphores refl (omega arith);
            slots = (
              ok.0,
              in_changed (λ y. Rep y.suspended_slots ok.0) w t (fewer w t) w1.semaphores ok.1,
            );
            keeps = λ e' apart. unqueued-EventOk sem q' e f' sub e';
          },
        )
      ]

-- One event that is well formed can be dropped.
pub drop_one :
    (w : World) (t : ℕ) (e : WaitedEvent)
    → SlotsOk w t
    → (w.threads t).nb_suspended_routines < 2 ^ 64
    → counted (e ∷ []) ≤ (w.threads t).nb_suspended_routines
    → EventOk w t e
    → (w' : World) × DropsOne w t e w'
drop_one w t (timer d) ok k h g = drop_a_timer w t ok k d g
drop_one w t (io_read fd) ok k h g =
    (changed w t (fewer w t) w.semaphores, drop_io w t ok k (io_read fd) fd (inl refl) h)
drop_one w t (io_write fd) ok k h g =
    (changed w t (fewer w t) w.semaphores, drop_io w t ok k (io_write fd) fd (inr refl) h)
drop_one w t (sema_wait s i l) ok k h g = drop_sema w t ok k h s i l g
