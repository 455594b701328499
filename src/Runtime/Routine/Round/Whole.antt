-- ===== src/Runtime/Routine/Round/Whole.antt =====
-- Dropping the events of a round, one after the other.
use boson.Prelude.{
  ℕ, ◌+◌, ◌^◌, ◌<◌, ◌≤◌, ◌≡◌, ◌≢◌, refl, sym, ◌∙◌, List, [], ◌∷◌, some, subst, arith,
}
use boson.Runtime.State.{WaitedEvent, timer, io_read, io_write, sema_wait, World, bind_ok}
use boson.Runtime.Routine.{drop_event, drop_events}
use boson.Runtime.Routine.Round.{
  counted, EventOk, slot_of, Apart, RoundOk, Dropped, SlotsOk, Dropped-trans,
}
use boson.Runtime.Routine.Round.Single.{drop_one}

pub RoundOk-keeps :
    (w w' : World) (t : ℕ) (e : WaitedEvent) (es : List WaitedEvent)
    → ((e' : WaitedEvent)
        → ((l : ℕ) → slot_of e ≡ some l → slot_of e' ≢ some l)
        → EventOk w t e'
        → EventOk w' t e')
    → Apart (slot_of e) es
    → RoundOk w t es
    → RoundOk w' t es
RoundOk-keeps w w' t e [] keeps a r = tt
RoundOk-keeps w w' t e (e' ∷ es) keeps a r =
    (keeps e' a.0 r.0, r.1, RoundOk-keeps w w' t e es keeps a.1 r.2)

counted-cons :
    (e : WaitedEvent) (es : List WaitedEvent) → counted (e ∷ es) ≡ counted es + counted (e ∷ [])
counted-cons (timer d) es = omega arith
counted-cons (io_read fd) es = omega arith
counted-cons (io_write fd) es = omega arith
counted-cons (sema_wait s i l) es = omega arith

-- A round of well-formed events, of which the thread counts those that are no timers, is dropped
-- without a fault. The routines, the references and the schedule stay, and so do the other threads;
-- the counter loses exactly the events that it counted.
pub drop_events-Dropped :
    (es : List WaitedEvent) (w : World) (t : ℕ)
    → RoundOk w t es
    → SlotsOk w t
    → (w.threads t).nb_suspended_routines < 2 ^ 64
    → counted es ≤ (w.threads t).nb_suspended_routines
    → (w' : World) × (drop_events t es w ≡ some (tt, w')) × Dropped w t (counted es) w'
unfolding drop_events
drop_events-Dropped [] w t r ok k h = (
  w,
  refl,
  record {
    routines = refl;
    refs = refl;
    next_ref = refl;
    scheduled = refl;
    suspended = omega arith;
    others = λ u n. refl;
  },
)
drop_events-Dropped (e ∷ es) w t r ok k h =
    let (v, one) = drop_one w t e ok k (omega (arith, counted-cons e es)) r.0 in
    let s = one.dropped.suspended in
    let (u, f, d) =
      drop_events-Dropped es v t (RoundOk-keeps w v t e es one.keeps r.1 r.2) one.slots
        (omega arith) (omega (arith, counted-cons e es)) in
    (
      u,
      bind_ok (drop_event t e) (λ _. drop_events t es) one.result ∙ f,
      subst (λ n. Dropped w t n u) (sym (counted-cons e es)) (Dropped-trans one.dropped d),
    )
