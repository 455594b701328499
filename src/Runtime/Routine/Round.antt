-- ===== src/Runtime/Routine/Round.antt =====
-- Dropping the events of a round that did not happen: it cannot fail on well-formed events, and it
-- touches only what those events registered.
pub mod Extending
pub mod Single
pub mod Whole
use boson.Prelude.{
  ℕ, zero, suc, ◌+◌, ◌-◌, ◌^◌, ◌<◌, ◌≤◌, ◌≡◌, ◌≢◌, ◌⊎◌, refl, sym, ap, ◌∙◌, ◌==◌, ==_iff, ltb, Bool,
  true, false, not, ◌&&◌, ◌||◌, List, [], ◌∷◌, Option, none, some, update, if◌then◌else◌, subst,
  arith, Bool-cases, inl, inr, sub_size,
}
use boson.Memory.SparseVector
use boson.Memory.SparseVector.FreeList.{Rep}
use boson.Memory.SparseVector.Allocation.{free-Freed}
use boson.Queues.VectorizedQueue
use boson.Queues.VectorizedQueue.{VectorizedQueue}
use boson.Queues.VectorizedQueue.Segment.{Entries, has_index}
use boson.Queues.VectorizedQueue.Spec.{remove}
use boson.Queues.VectorizedQueue.Invariant.{Holds, has-has_index}
use boson.Queues.VectorizedQueue.Refinement.{lazy_free-remove}
use boson.Sync.Semaphore
use boson.Sync.Semaphore.{WaitingUnit}
use boson.Runtime.State.{
  WaitedEvent, timer, io_read, io_write, sema_wait, RoutineSlot, TimedRoutinesSet, Thread, World,
  bind_ok,
}
use boson.Runtime.Thread.{drop_timed, drop_timer, unregister_expired_slot, no_slot}
use boson.Runtime.Routine.{drop_event, drop_events}

-- How many of the events `nb_suspended_routines_` counts: all but the timers.
abbrev pub counted : List WaitedEvent → ℕ
counted [] = 0
counted (timer d ∷ es) = counted es
counted (io_read fd ∷ es) = suc (counted es)
counted (io_write fd ∷ es) = suc (counted es)
counted (sema_wait s i l ∷ es) = suc (counted es)

abbrev pub has_date : ℕ → List (ℕ × TimedRoutinesSet) → Bool
has_date date [] = false
has_date date ((d, set) ∷ sets) = (date == d) || has_date date sets

abbrev pub WellFormed : VectorizedQueue WaitingUnit → Type 0
WellFormed q = (xs : Entries WaitingUnit) × Holds q xs

-- The set of a timer is there. A semaphore is there with a well-formed queue, and where the queue still
-- has the entry of the event, the slot of the event is in use.
abbrev pub EventOk : World → ℕ → WaitedEvent → Type 0
EventOk w t (timer d) = has_date d (w.threads t).timed_routines ≡ true
EventOk w t (io_read fd) = Unit {0}
EventOk w t (io_write fd) = Unit {0}
EventOk w t (sema_wait s i l) =
    (sem : Semaphore.Semaphore) × (w.semaphores s ≡ some sem)
    × WellFormed sem.waiters
    × (VectorizedQueue.has sem.waiters i ≡ true
        → SparseVector.has (w.threads t).suspended_slots l ≡ true)

-- No two waits on semaphores share a slot.
abbrev pub slot_of : WaitedEvent → Option ℕ
slot_of (timer d) = none
slot_of (io_read fd) = none
slot_of (io_write fd) = none
slot_of (sema_wait s i l) = some l

abbrev pub Apart : Option ℕ → List WaitedEvent → Type 0
Apart o [] = Unit {0}
Apart o (e ∷ es) = ((l : ℕ) → o ≡ some l → slot_of e ≢ some l) × Apart o es

abbrev pub RoundOk : World → ℕ → List WaitedEvent → Type 0
RoundOk w t [] = Unit {0}
RoundOk w t (e ∷ es) = EventOk w t e × Apart (slot_of e) es × RoundOk w t es

-- What stays as it was, and what the counter of suspended routines lost.
pub record Dropped (w : World) (t n : ℕ) (w' : World) : Type 0 where
  pub routines : w'.routines ≡ w.routines
  pub refs : w'.refs ≡ w.refs
  pub next_ref : w'.next_ref ≡ w.next_ref
  pub scheduled : (w'.threads t).scheduled_routines ≡ (w.threads t).scheduled_routines
  pub suspended : (w'.threads t).nb_suspended_routines + n ≡ (w.threads t).nb_suspended_routines
  pub others : (u : ℕ) → u ≢ t → w'.threads u ≡ w.threads u

-- The slots of the thread are a well-formed sparse vector.
abbrev pub SlotsOk : World → ℕ → Type 0
SlotsOk w t = (fs : List ℕ) × Rep (w.threads t).suspended_slots fs

pub update_self {ℓ} : {A : Type ℓ} (f : ℕ → A) (i : ℕ) (a : A) → update f i a i ≡ a
update_self f i a = ground arith

-- A place that is changed twice.
pub update_twice {ℓ} :
    {A : Type ℓ} (f : ℕ → A) (i : ℕ) (a : A) (g : A → A)
    → update (update f i a) i (g (update f i a i)) i ≡ g a
update_twice f i a g = update_self (update f i a) i _ ∙ ap g (update_self f i a)

update_ne {ℓ} : {A : Type ℓ} (f : ℕ → A) (i : ℕ) (a : A) (j : ℕ) → j ≢ i → update f i a j ≡ f j
update_ne f i a j h = ground arith

pub drop_timed-has_date :
    (d : ℕ) (sets : List (ℕ × TimedRoutinesSet))
    → has_date d sets ≡ true
    → (sets' : List (ℕ × TimedRoutinesSet)) × (drop_timed d sets ≡ some sets')
      × ((e : ℕ) → has_date e sets' ≡ has_date e sets)
unfolding drop_timed
drop_timed-has_date d [] h = cc
drop_timed-has_date d ((c, set) ∷ sets) h = elim (Bool-cases (d == c)) [
  | inl hit ↦ ((c, record set { nb_active = sub_size set.nb_active 1 }) ∷ sets, rw hit, λ e. refl)
  | inr miss ↦
      let (sets', e, same) = drop_timed-has_date d sets (ground arith) in
      ((c, set) ∷ sets', rw (miss, e), λ e. ground (arith, same e))
]

-- One event: the drop succeeds, and the events that it leaves stay well formed.
pub record DropsOne (w : World) (t : ℕ) (e : WaitedEvent) (w' : World) : Type 0 where
  pub result : drop_event t e w ≡ some (tt, w')
  pub dropped : Dropped w t (counted (e ∷ [])) w'
  pub slots : SlotsOk w' t
  pub keeps :
      (e' : WaitedEvent)
      → ((l : ℕ) → slot_of e ≡ some l → slot_of e' ≢ some l)
      → EventOk w t e'
      → EventOk w' t e'

-- The world in which the thread is `x` and the semaphores are `ss`.
abbrev pub changed : World → ℕ → Thread → (ℕ → Option Semaphore.Semaphore) → World
changed w t x ss = record w { threads = update w.threads t x; semaphores = ss }

pub changed_self :
    (w : World) (t : ℕ) (x : Thread) (ss : ℕ → Option Semaphore.Semaphore)
    → (changed w t x ss).threads t ≡ x
changed_self w t x ss = update_self w.threads t x

pub Dropped-trans :
    {w v u : World} {t m n : ℕ} → Dropped w t m v → Dropped v t n u → Dropped w t (n + m) u
Dropped-trans {t} a b = record {
  routines = b.routines ∙ a.routines;
  refs = b.refs ∙ a.refs;
  next_ref = b.next_ref ∙ a.next_ref;
  scheduled = b.scheduled ∙ a.scheduled;
  suspended = omega (arith, a.suspended, b.suspended);
  others = λ x h. b.others x h ∙ a.others x h;
}

-- What holds of `x` holds of the thread.
pub in_changed :
    (P : Thread → Type 0) (w : World) (t : ℕ) (x : Thread) (ss : ℕ → Option Semaphore.Semaphore)
    → P x
    → P ((changed w t x ss).threads t)
in_changed P w t x ss h = subst P (sym (changed_self w t x ss)) h

pub changed-Dropped :
    (w : World) (t n : ℕ) (x : Thread) (ss : ℕ → Option Semaphore.Semaphore)
    → x.scheduled_routines ≡ (w.threads t).scheduled_routines
    → x.nb_suspended_routines + n ≡ (w.threads t).nb_suspended_routines
    → Dropped w t n (changed w t x ss)
changed-Dropped w t n x ss e f = record {
  routines = refl;
  refs = refl;
  next_ref = refl;
  scheduled = in_changed (λ y. y.scheduled_routines ≡ (w.threads t).scheduled_routines) w t x ss e;
  suspended =
      in_changed (λ y. y.nb_suspended_routines + n ≡ (w.threads t).nb_suspended_routines) w t x ss
        f;
  others = λ u h. update_ne w.threads t x u h;
}

-- An event that the semaphores and sets of `w` serve is served where they are the same.
pub EventOk-mono :
    (w : World) (t : ℕ) (x : Thread) (e : WaitedEvent)
    → ((d : ℕ)
        → has_date d (w.threads t).timed_routines ≡ true
        → has_date d x.timed_routines ≡ true)
    → ((l : ℕ)
        → slot_of e ≡ some l
        → SparseVector.has (w.threads t).suspended_slots l ≡ true
        → SparseVector.has x.suspended_slots l ≡ true)
    → EventOk w t e
    → EventOk (changed w t x w.semaphores) t e
EventOk-mono w t x (timer d) same slots ok =
    in_changed (λ y. has_date d y.timed_routines ≡ true) w t x w.semaphores (same d ok)
EventOk-mono w t x (io_read fd) same slots ok = tt
EventOk-mono w t x (io_write fd) same slots ok = tt
EventOk-mono w t x (sema_wait s i l) same slots (sem, e, h, used) = (
  sem,
  e,
  h,
  λ m.
      in_changed (λ y. SparseVector.has y.suspended_slots l ≡ true) w t x w.semaphores
        (slots l refl (used m)),
)

abbrev pub fewer : World → ℕ → Thread
fewer w t = record (w.threads t) { nb_suspended_routines = (w.threads t).nb_suspended_routines - 1 }
