-- ===== src/Runtime/Routine/Wakeup.antt =====
-- What `event_happened` does for a timer or a file descriptor.
use boson.Prelude.{
  ℕ, suc, ◌+◌, ◌^◌, ◌<◌, ◌≤◌, ◌≡◌, refl, ap, ◌∙◌, true, List, [], ◌∷◌, ◌++◌, Option, none, some,
  update, subst, arith, inl, Int32, get_elem?,
}
use boson.Runtime.State.{
  WaitedEvent, timer, io_read, io_write, sema_wait, EventType, yielding, Routine, slot, Thread,
  World, bind_ok, ◌>>◌,
}
use boson.Runtime.Thread.{schedule_routine, drop_suspended}
use boson.Runtime.Routine.{others, finish_by_event, event_happened, drop_event, timed_out}
use boson.Runtime.Routine.Round.{RoundOk, SlotsOk, counted, changed, fewer, DropsOne, Apart}
use boson.Runtime.Routine.Round.Single.{drop_io}
use boson.Runtime.Routine.Round.Whole.{drop_events-Dropped, RoundOk-keeps}

-- The round of `r` that can end by the event `index`: its reference `p` owns the routine, numbers of
-- references are fresh, and the other events are well formed and counted.
pub record Waiting (w : World) (r index p : ℕ) : Type 0 where
  pub ref : (w.routines r).current_ptr ≡ some p
  pub owned : w.refs p ≡ some (some r)
  pub fresh : p < w.next_ref
  pub round : RoundOk w (w.routines r).thread (others (w.routines r).events index)
  pub slots : SlotsOk w (w.routines r).thread
  pub small : (w.threads (w.routines r).thread).nb_suspended_routines < 2 ^ 64
  pub counts :
      counted (others (w.routines r).events index)
      ≤ (w.threads (w.routines r).thread).nb_suspended_routines

-- The routine is scheduled once, under a new reference that alone owns it; the reference that the other
-- events hold is dead; the routine knows what woke it.
pub record Woken (w : World) (r index p : ℕ) (type : EventType) (rc : Int32) (n : ℕ) (w' : World)
    : Type 0 where
  pub status : (w'.routines r).status ≡ yielding
  pub happened_type : (w'.routines r).happened_type ≡ type
  pub happened_rc : (w'.routines r).happened_rc ≡ rc
  pub happened_index : (w'.routines r).happened_index ≡ index
  pub dead : w'.refs p ≡ none
  pub owner : w'.refs w.next_ref ≡ some (some r)
  pub scheduled :
      (w'.threads (w.routines r).thread).scheduled_routines
      ≡ (w.threads (w.routines r).thread).scheduled_routines ++ slot (some w.next_ref) 0 ∷ []
  pub suspended :
      (w'.threads (w.routines r).thread).nb_suspended_routines + n
      ≡ (w.threads (w.routines r).thread).nb_suspended_routines

finish_by_event-Woken :
    (w : World) (r index p : ℕ) (type : EventType) (rc : Int32)
    → Waiting w r index p
    → (w' : World) × (finish_by_event r index type rc w ≡ some (true, w'))
      × Woken w r index p type rc (counted (others (w.routines r).events index)) w'
unfolding finish_by_event schedule_routine
finish_by_event-Woken w r index p type rc h =
    let t = (w.routines r).thread in
    let (v, e, d) =
      drop_events-Dropped (others (w.routines r).events index) w t h.round h.slots h.small
        h.counts in
    let owned : v.refs p ≡ some (some r) =
      ap (λ (f : ℕ → Option (Option ℕ)). f p) d.refs ∙ h.owned in
    let fresh : p < v.next_ref = omega (arith, d.next_ref, h.fresh) in
    let body : Routine = record (w.routines r) {
      status = yielding;
      happened_type = type;
      happened_rc = rc;
      happened_index = index;
    } in
    let refs : ℕ → Option (Option ℕ) =
      update (update (update v.refs p (some none)) v.next_ref (some (some r))) p none in
    let x : Thread = record (v.threads t) {
      scheduled_routines = (v.threads t).scheduled_routines ++ slot (some v.next_ref) 0 ∷ [];
    } in
    (
      record v {
        routines = update v.routines r body;
        refs = refs;
        next_ref = v.next_ref + 1;
        threads = update v.threads t x;
      },
      ground (arith, e, h.ref, owned, fresh),
      record {
        status = ground arith;
        happened_type = ground arith;
        happened_rc = ground arith;
        happened_index = ground arith;
        dead = ground arith;
        owner = ground (arith, d.next_ref, h.fresh);
        scheduled = ground (arith, d.scheduled, d.next_ref);
        suspended = ground (arith, d.suspended);
      },
    )

-- The events that need no ticket, with what they leave in the routine.
abbrev pub outcome : WaitedEvent → Int32 → Option (EventType × Int32)
outcome (timer date) rc = some (EventType.timer, timed_out)
outcome (io_read fd) rc = some (EventType.io_read, rc)
outcome (io_write fd) rc = some (EventType.io_write, rc)
outcome (sema_wait s i l) rc = none

Apart-none : (es : List WaitedEvent) → Apart none es
Apart-none [] = tt
Apart-none (e ∷ es) = ((λ l q. absurd (ground arith)), Apart-none es)

-- The counter of the thread is lowered first, and the round ends in the world after it.
module _ (w : World) (r index p fd : ℕ) (type : EventType) (rc : Int32) (h : Waiting w r index p)
    (k : suc (counted (others (w.routines r).events index))
      ≤ (w.threads (w.routines r).thread).nb_suspended_routines) where
  abbrev lowered : World
  lowered = changed w (w.routines r).thread (fewer w (w.routines r).thread) w.semaphores

  lowered-DropsOne : DropsOne w (w.routines r).thread (io_read fd) lowered
  lowered-DropsOne =
      drop_io w (w.routines r).thread h.slots h.small (io_read fd) fd (inl refl) (omega arith)

  lowered-Waiting : Waiting lowered r index p
  lowered-Waiting =
      let d = lowered-DropsOne.dropped.suspended in
      record {
        ref = h.ref;
        owned = h.owned;
        fresh = h.fresh;
        round =
            RoundOk-keeps w lowered (w.routines r).thread (io_read fd)
              (others (w.routines r).events index) lowered-DropsOne.keeps (Apart-none _) h.round;
        slots = lowered-DropsOne.slots;
        small = omega (arith, h.small);
        counts = omega arith;
      }

  io-Woken :
      (w' : World) × ((drop_suspended (w.routines r).thread >> finish_by_event r index type rc) w
        ≡ some (true, w'))
      × Woken w r index p type rc (suc (counted (others (w.routines r).events index))) w'
  unfolding drop_event
  io-Woken =
      let (w', e, v) = finish_by_event-Woken lowered r index p type rc lowered-Waiting in
      let d = lowered-DropsOne.dropped in
      (
        w',
        bind_ok (drop_event (w.routines r).thread (io_read fd))
              (λ _. finish_by_event r index type rc) {w = w} {w' = lowered} lowered-DropsOne.result
            ∙ e,
        record {
          status = v.status;
          happened_type = v.happened_type;
          happened_rc = v.happened_rc;
          happened_index = v.happened_index;
          dead = v.dead;
          owner = v.owner;
          scheduled = v.scheduled ∙ ap (λ l. l ++ slot (some w.next_ref) 0 ∷ []) d.scheduled;
          suspended = omega (arith, v.suspended, d.suspended);
        },
      )

-- A timer that fires and a file descriptor that is ready or fails end the round of a waiting routine:
-- the call does not fault and returns true; the routine is scheduled once, yielding, under a new
-- reference; the reference of the other events is dead, so that none of them can wake it again; it
-- knows the type, code and index of what happened; and the counter of suspended routines loses the
-- events that it counted. The counter has room for one more event than the others.
pub event_happened-Woken :
    (w : World) (r index p : ℕ) (rc code : Int32) (event : WaitedEvent) (type : EventType)
    → get_elem? (w.routines r).events index ≡ some event
    → outcome event rc ≡ some (type, code)
    → Waiting w r index p
    → counted (event ∷ []) + counted (others (w.routines r).events index)
      ≤ (w.threads (w.routines r).thread).nb_suspended_routines
    → (w' : World) × (event_happened r index rc w ≡ some (true, w'))
      × Woken w r index p type code
          (counted (event ∷ []) + counted (others (w.routines r).events index))
          w'
unfolding event_happened
event_happened-Woken w r index p rc code (timer date) type e o h k =
    let (w', f, v) = finish_by_event-Woken w r index p type code h in
    (w', ground (arith, e, o, f), subst (λ n. Woken w r index p type code n w') (omega arith) v)
event_happened-Woken w r index p rc code (io_read fd) type e o h k =
    let (w', f, v) = io-Woken w r index p fd type code h (omega (arith, k)) in
    (w', ground (arith, e, o, f), subst (λ n. Woken w r index p type code n w') (omega arith) v)
event_happened-Woken w r index p rc code (io_write fd) type e o h k =
    let (w', f, v) = io-Woken w r index p fd type code h (omega (arith, k)) in
    (w', ground (arith, e, o, f), subst (λ n. Woken w r index p type code n w') (omega arith) v)
event_happened-Woken w r index p rc code (sema_wait s i l) type e o h k = cc
