-- ===== src/Runtime/Routine/Cancelling.antt =====
-- A round that is cancelled leaves nothing of what it registered.
use boson.Prelude.{ℕ, ◌+◌, ◌^◌, ◌<◌, ◌≡◌, ap, ◌∙◌, List, [], Option, none, some, update, arith}
use boson.Runtime.State.{WaitedEvent, World}
use boson.Runtime.Routine.{cancel_event_round, drop_events}
use boson.Runtime.Routine.Round.{counted}
use boson.Runtime.Routine.Round.Whole.{drop_events-Dropped}
use boson.Runtime.Routine.Opening.{Open}

-- The routine has no events, the reference `p` that they held is dead, and the thread counts and has scheduled
-- what it did in `w0`, in which the round started.
pub record Cancelled (w0 : World) (r p : ℕ) (w : World) : Type 0 where
  pub thread : (w.routines r).thread ≡ (w0.routines r).thread
  pub events : (w.routines r).events ≡ []
  pub dead : w.refs p ≡ none
  pub suspended :
      (w.threads (w0.routines r).thread).nb_suspended_routines
      ≡ (w0.threads (w0.routines r).thread).nb_suspended_routines
  pub scheduled :
      (w.threads (w0.routines r).thread).scheduled_routines
      ≡ (w0.threads (w0.routines r).thread).scheduled_routines

pub cancel_event_round-Cancelled :
    (w0 : World) (r p : ℕ) (es : List WaitedEvent) (w : World)
    → Open w0 r p es w
    → (w0.threads (w0.routines r).thread).nb_suspended_routines + counted es < 2 ^ 64
    → (w' : World) × (cancel_event_round r w ≡ some (tt, w'))
      × Cancelled w0 r p w'
      × ((w'.routines r).happened_type ≡ (w.routines r).happened_type)
unfolding cancel_event_round
cancel_event_round-Cancelled w0 r p es w o small =
    let t = (w0.routines r).thread in
    let (v, e, d) =
      drop_events-Dropped es w t o.round o.slots (omega (arith, o.suspended))
        (omega (arith, o.suspended)) in
    let owned : v.refs p ≡ some (some r) =
      ap (λ (f : ℕ → Option (Option ℕ)). f p) d.refs ∙ o.owned in
    let run : drop_events (w.routines r).thread (w.routines r).events w ≡ some (tt, v) =
      ap (λ u. drop_events u (w.routines r).events w) o.thread
      ∙ ap (λ l. drop_events t l w) o.events
      ∙ e in
    (
      record v {
        refs = update (update v.refs p (some none)) p none;
        routines = update v.routines r (record (w.routines r) { events = [] });
      },
      ground (arith, run, o.ref, owned),
      record {
        thread = ground (arith, o.thread);
        events = ground arith;
        dead = ground arith;
        suspended = omega (arith, d.suspended, o.suspended);
        scheduled = d.scheduled ∙ o.scheduled;
      },
      ground arith,
    )
