-- ===== src/Runtime/Schedule/Rest.antt =====
-- When a thread rests, and when it ends.
use boson.Prelude.{
  ℕ, ◌≡◌, ◌≢◌, refl, ◌==◌, ==_iff, Bool, true, false, ◌&&◌, List, [], ◌∷◌, some, length, update,
  arith, inl, inr, Bool-cases,
}
use boson.Net.Poller
use boson.Runtime.State.{ThreadStatus, Thread, World}
use boson.Runtime.Schedule.{finish_round, is_empty}

-- What the end of a round leaves of a thread `x` that becomes `y`.
pub record Rested (x y : Thread) (again idle : Bool) : Type 0 where
  -- It asks for no other turn only if nothing is scheduled and no command is on its way.
  pub rests : again ≡ false → (x.scheduled_routines ≡ []) × (x.nb_pending_commands ≡ 0)
  -- It tells the engine that it is idle only if it has no routine at all.
  pub idles :
      idle ≡ true
      → (x.scheduled_routines ≡ []) × (x.timed_routines ≡ []) × (x.nb_suspended_routines ≡ 0)
  -- It ends only if it was asked to, has no routine at all, and no command is on its way.
  pub ends :
      x.status ≢ ThreadStatus.finished
      → y.status ≡ ThreadStatus.finished
      → (x.status ≡ ThreadStatus.finishing)
        × (x.scheduled_routines ≡ [])
        × (x.timed_routines ≡ [])
        × (x.nb_suspended_routines ≡ 0)
        × (x.nb_pending_commands ≡ 0)

is_empty-nil {ℓ} : {A : Type ℓ} (l : List A) → is_empty l ≡ true → l ≡ []
is_empty-nil [] h = refl
is_empty-nil (x ∷ xs) h = cc

is_empty-length : {A : Type 0} (l : List A) → length l ≡ 0 → is_empty l ≡ true
is_empty-length [] h = refl
is_empty-length (x ∷ xs) h = absurd (ground arith)

-- The thread that is left as it is.
module _ (w : World) (t : ℕ) where
  abbrev th : Thread
  th = w.threads t

  abbrev Outcome : Type 0
  Outcome =
      (again idle : Bool) × (w' : World) × (finish_round t w ≡ some ((again, idle), w'))
      × Rested th (w'.threads t) again idle

  -- A thread without routines and commands: it ends if it was asked to, and tells that it is idle if not.
  idle_thread :
      is_empty th.scheduled_routines ≡ true
      → is_empty th.timed_routines ≡ true
      → (th.nb_suspended_routines == 0) ≡ true
      → (th.nb_pending_commands == 0) ≡ true
      → (s : ThreadStatus) → th.status ≡ s
      → Outcome
  unfolding finish_round
  idle_thread a b c d ThreadStatus.finishing e = (
    false,
    false,
    record w { threads = update w.threads t (record th { status = ThreadStatus.finished }) },
    rw (a, b, c, d, e) refl,
    record {
      rests = λ q. (is_empty-nil _ a, (==_iff _ 0).0 d);
      idles = λ q. absurd (ground arith);
      ends = λ q r. (e, is_empty-nil _ a, is_empty-nil _ b, (==_iff _ 0).0 c, (==_iff _ 0).0 d);
    },
  )
  idle_thread a b c d ThreadStatus.idle e = (
    false,
    true,
    w,
    rw (a, b, c, d, e) refl,
    record {
      rests = λ q. (is_empty-nil _ a, (==_iff _ 0).0 d);
      idles = λ q. (is_empty-nil _ a, is_empty-nil _ b, (==_iff _ 0).0 c);
      ends = λ q r. absurd (q r);
    },
  )
  idle_thread a b c d ThreadStatus.busy e = (
    false,
    true,
    w,
    rw (a, b, c, d, e) refl,
    record {
      rests = λ q. (is_empty-nil _ a, (==_iff _ 0).0 d);
      idles = λ q. (is_empty-nil _ a, is_empty-nil _ b, (==_iff _ 0).0 c);
      ends = λ q r. absurd (q r);
    },
  )
  idle_thread a b c d ThreadStatus.finished e = (
    false,
    true,
    w,
    rw (a, b, c, d, e) refl,
    record {
      rests = λ q. (is_empty-nil _ a, (==_iff _ 0).0 d);
      idles = λ q. (is_empty-nil _ a, is_empty-nil _ b, (==_iff _ 0).0 c);
      ends = λ q r. absurd (q r);
    },
  )

  -- A thread with nothing scheduled and some routine that waits.
  waiting_thread :
      is_empty th.scheduled_routines ≡ true
      → (is_empty th.scheduled_routines
          && is_empty th.timed_routines
          && (th.nb_suspended_routines == 0))
        ≡ false
      → Outcome
  unfolding finish_round
  waiting_thread a n = elim (Bool-cases (th.nb_pending_commands == 0)) [
    | inl d ↦ (
      false,
      false,
      w,
      rw (n, a, d) (ground arith),
      record {
        rests = λ q. (is_empty-nil _ a, (==_iff _ 0).0 d);
        idles = λ q. absurd (ground arith);
        ends = λ q r. absurd (q r);
      },
    )
    | inr d ↦ (
      true,
      false,
      record w {
        threads = update w.threads t (record th { event_loop = Poller.interrupt th.event_loop });
      },
      rw (n, a, d) refl,
      record {
        rests = λ q. absurd (ground arith);
        idles = λ q. absurd (ground arith);
        ends = λ q r. absurd (q (ground arith));
      },
    )
  ]

-- The end of a round never faults, and the thread asks for another turn, tells the engine that it is idle
-- and ends only where `Rested` allows it.
pub finish_round-Rested :
    (w : World) (t : ℕ)
    → (again idle : Bool) × (w' : World) × (finish_round t w ≡ some ((again, idle), w'))
      × Rested (w.threads t) (w'.threads t) again idle
unfolding finish_round
finish_round-Rested w t = elim (Bool-cases (is_empty (w.threads t).scheduled_routines)) [
  | inr a ↦ (true, false, w, rw a refl, busy)
  | inl a ↦
      elim (Bool-cases
        (is_empty (w.threads t).timed_routines && ((w.threads t).nb_suspended_routines == 0))) [
          | inr n ↦ waiting_thread w t a (rw (a, n) refl)
          | inl m ↦ elim (Bool-cases ((w.threads t).nb_pending_commands == 0)) [
            | inl d ↦ idle_thread w t a (ground arith) (ground arith) d _ refl
            | inr d ↦ (true, false, w, rw (a, m, d) refl, busy)
          ]
        ]
]
  where
    busy : Rested (w.threads t) (w.threads t) true false
    busy = record {
      rests = λ q. absurd (ground arith);
      idles = λ q. absurd (ground arith);
      ends = λ q r. absurd (q r);
    }
