-- ===== src/Runtime/Semaphores/Expired.antt =====
-- A whole wait of `semaphore::wait` of src/boson/src/semaphore.cc that its timeout ends.
use boson.Prelude.{
  ℕ, ◌+◌, ◌^◌, ◌<◌, ◌≡◌, ◌≢◌, refl, ap, subst, ◌∙◌, ◌==◌, ==_iff, int, Bool, true, false, ◌||◌,
  List, [], ◌∷◌, ◌++◌, Option, some, none, update, arith,
}
use boson.Memory.SparseVector
use boson.Memory.SparseVector.{SparseVector, has}
use boson.Memory.SparseVector.Allocation.{free-Freed}
use boson.Queues.VectorizedQueue.Invariant.{Holds}
use boson.Sync.Semaphore
use boson.Sync.Semaphore.{SemaphoreReturnValue}
use boson.Runtime.State.{
  sema_wait, timer, EventType, RoutineSlot, TimedRoutinesSet, Routine, slot, Thread, World, M,
  ◌>>=◌, bind_ok, routine, thread, set_thread,
}
use boson.Runtime.Thread.{no_slot, store_slot, register_timer, add_timed}
use boson.Runtime.Routine.{event_happened}
use boson.Runtime.Routine.Adding.{rethread}
use boson.Runtime.Routine.Round.{SlotsOk, update_self, update_twice}
use boson.Runtime.Routine.Storing.{Stored, with_slots, store_slot-Stored}
use boson.Runtime.Schedule.{fire_timed_out_routines}
use boson.Runtime.Semaphores.Granted.{freed_thread}
use boson.Runtime.Semaphores.TimedOut.{fired, event_happened-timer, fire_timed_out_routines-Fired}

abbrev pub one_slot : ℕ → TimedRoutinesSet
one_slot k = record { nb_active = 1; slots = k ∷ [] }

pub register_timer-Stored :
    (w : World) (t d : ℕ) (x : RoutineSlot)
    → SlotsOk w t
    → (w.threads t).timed_routines ≡ []
    → (k : ℕ) × (u : SparseVector RoutineSlot) × (register_timer t d x w
        ≡ some (
          tt,
          record w {
            threads = update w.threads t (record (w.threads t) {
              suspended_slots = u;
              timed_routines = (d, one_slot k) ∷ [];
            });
          },
        ))
      × Stored (w.threads t).suspended_slots x k u
unfolding register_timer add_timed
register_timer-Stored w t d x ok none_timed =
    let (k, u, e, st) = store_slot-Stored w t x ok in
    (
      k,
      u,
      bind_ok (store_slot t x)
            (λ index. thread t >>= λ th.
              set_thread t (record th { timed_routines = add_timed d index th.timed_routines }))
            {w = w} {w' = with_slots w t u} e
          ∙ ap (λ (v : World). some (tt, v))
              (rethread w t (record (w.threads t) { suspended_slots = u })
                (λ th. record th { timed_routines = add_timed d k th.timed_routines }))
          ∙ ap
              (λ (l : List (ℕ × TimedRoutinesSet)). some (
                tt,
                record w {
                  threads = update w.threads t (record (w.threads t) {
                    suspended_slots = u;
                    timed_routines = add_timed d k l;
                  });
                },
              ))
              none_timed,
      st,
    )

-- The routine waits for the semaphore, in the slot `j`, and for the date `d`, in the slot `k`.
pub record TimedWaits (v : World) (r t s p i j k d n : ℕ) (used : ℕ → Bool)
    (ss : ℕ → Option Semaphore.Semaphore) : Type 0 where
  pub sem : Semaphore.Semaphore
  pub on : (v.routines r).thread ≡ t
  pub events : (v.routines r).events ≡ sema_wait s i j ∷ timer d ∷ []
  pub ptr : (v.routines r).current_ptr ≡ some p
  pub owner : v.refs p ≡ some (some r)
  pub there : v.semaphores s ≡ some sem
  pub rest : (z : ℕ) → z ≢ s → v.semaphores z ≡ ss z
  pub counter : sem.counter ≡ int 0
  pub waiters : Holds sem.waiters ((i, (t, j)) ∷ [])
  pub to_do : (v.threads t).engine_queue ≡ []
  pub suspended : (v.threads t).nb_suspended_routines ≡ n + 1
  pub timed : (v.threads t).timed_routines ≡ (d, one_slot k) ∷ []
  pub slots : SlotsOk v t
  pub in_use : (l : ℕ) → has (v.threads t).suspended_slots l ≡ (used l || j == l || k == l)
  pub free_before : (used j || used k || j == k) ≡ false
  pub slot_there : SparseVector.read (v.threads t).suspended_slots k ≡ some (slot (some p) 1)

-- The wait is over, and nothing is left of it.
pub record Expired (r t s p n : ℕ) (used : ℕ → Bool) (ss : ℕ → Option Semaphore.Semaphore)
    (v : World) : Type 0 where
  pub sem : Semaphore.Semaphore
  pub there : v.semaphores s ≡ some sem
  pub rest : (z : ℕ) → z ≢ s → v.semaphores z ≡ ss z
  pub counter : sem.counter ≡ int 0
  pub waiters : Holds sem.waiters []
  pub happened : (v.routines r).happened_type ≡ EventType.timer
  pub dead : v.refs p ≡ none
  pub suspended : (v.threads t).nb_suspended_routines ≡ n
  pub commands : (v.threads t).engine_queue ≡ []
  pub timed : (v.threads t).timed_routines ≡ []
  pub slots : (l : ℕ) → has (v.threads t).suspended_slots l ≡ used l

-- What happens while the routine waits, if its date is the next thing.
abbrev pub date_passes : ℕ → M (Unit {0})
date_passes r = do body ← routine r; fire_timed_out_routines body.thread

pub date_expires :
    (v : World) (r t s p i j k d n : ℕ) (used : ℕ → Bool) (ss : ℕ → Option Semaphore.Semaphore)
    → n + 1 < 2 ^ 64
    → TimedWaits v r t s p i j k d n used ss
    → (w : World) × (date_passes r v ≡ some (tt, w)) × Expired r t s p n used ss w
date_expires v r t s p i j k d n used ss room h =
    let (v1, fr1) = free-Freed no_slot j h.slots.1 (ground (arith, h.in_use j, ==_iff j j)) in
    let same : (v.threads (v.routines r).thread).suspended_slots ≡ (v.threads t).suspended_slots =
      ap (λ (u : ℕ). (v.threads u).suspended_slots) h.on in
    let (sem', run, counter, held) =
      event_happened-timer v r s p i j d (t, j) h.sem v1 h.events h.ptr h.owner h.there h.waiters
        (ap (λ (x : SparseVector RoutineSlot). SparseVector.free x j) same ∙ fr1.result) in
    let (v2, fr2) =
      free-Freed no_slot k fr1.rep
        (ground (arith, fr1.others k, h.in_use k, ==_iff k k, ==_iff j k, h.free_before)) in
    let f : World =
      fired
        (record v {
          threads = update v.threads t (freed_thread (v.threads t) v1);
          semaphores = update v.semaphores s (some sem');
        })
        r t p in
    let happened =
      subst
        (λ (u : ℕ).
          event_happened r 1 (int 0) v
          ≡ some (
            true,
            fired
                (record v {
                  threads = update v.threads u (freed_thread (v.threads u) v1);
                  semaphores = update v.semaphores s (some sem');
                })
                r u p,
          ))
        h.on run in
    let th : f.threads t ≡ record (freed_thread (v.threads t) v1) {
      scheduled_routines = (v.threads t).scheduled_routines ++ slot (some v.next_ref) 0 ∷ [];
    } =
      update_twice v.threads t (freed_thread (v.threads t) v1) (λ x. record x {
        scheduled_routines = x.scheduled_routines ++ slot (some v.next_ref) 0 ∷ [];
      }) in
    let (w, fire, k1) =
      fire_timed_out_routines-Fired v f r t p k d (one_slot k) v2 h.timed refl h.slot_there h.owner
        happened (ap (λ (x : Thread). SparseVector.free x.suspended_slots k) th ∙ fr2.result)
        (ap (λ (x : Thread). x.timed_routines) th ∙ h.timed) in
    let body : Routine = f.routines r in
    (
      w,
      ap (λ (u : ℕ). fire_timed_out_routines u v) h.on ∙ fire,
      record {
        sem = sem';
        there =
            ap (λ (x : ℕ → Option Semaphore.Semaphore). x s) k1.semaphores
            ∙ update_self v.semaphores s (some sem');
        rest = λ z ne.
            ap (λ (x : ℕ → Option Semaphore.Semaphore). x z) k1.semaphores
            ∙ ground (arith, h.rest z ne);
        counter = counter ∙ h.counter;
        waiters = held;
        happened =
            ap (λ (x : ℕ → Routine). (x r).happened_type) k1.routines
            ∙ ap (λ (b : Routine). b.happened_type) (update_self v.routines r _);
        dead = ap (λ (x : ℕ → Option (Option ℕ)). x p) k1.refs ∙ ground arith;
        suspended =
            ap (λ (x : Thread). x.nb_suspended_routines) k1.thread
            ∙ ap (λ (x : Thread). x.nb_suspended_routines) th
            ∙ omega (arith, h.suspended, room);
        commands =
            ap (λ (x : Thread). x.engine_queue) k1.thread
            ∙ ap (λ (x : Thread). x.engine_queue) th
            ∙ h.to_do;
        timed = ap (λ (x : Thread). x.timed_routines) k1.thread;
        slots = λ l.
            ap (λ (x : Thread). has x.suspended_slots l) k1.thread
            ∙ ground (
              arith,
              fr2.others l,
              fr1.others l,
              h.in_use l,
              h.free_before,
              ==_iff j l,
              ==_iff k l,
            );
      },
    )
