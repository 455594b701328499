-- ===== src/Runtime/Routine/Opening.antt =====
-- A round from its start on: what holds while timers and waits for descriptors are added to it.
use boson.Prelude.{
  ℕ, ◌+◌, ◌^◌, ◌<◌, ◌≤◌, ◌≡◌, refl, sym, ap, subst, ◌∙◌, List, [], ◌∷◌, ◌++◌, Option, none, some,
  update, get_elem?, arith,
}
use boson.Runtime.State.{WaitedEvent, timer, io_read, io_write, wait_events, Routine, World}
use boson.Runtime.Routine.{
  start_event_round, add_timer, add_read, add_write, commit_event_round, others,
}
use boson.Runtime.Routine.Round.{counted, EventOk, SlotsOk, slot_of, RoundOk}
use boson.Runtime.Routine.Round.Extending.{
  RoundOk-mono, EventOk-routines, RoundOk-append, counted-append, RoundOk-others, counted-others,
}
use boson.Runtime.Routine.Adding.{Added, add_timer-Added, add_read-Added, add_write-Added}
use boson.Runtime.Routine.Wakeup.{Waiting}

-- The round of `r` with the events `es` under the reference `p`, which was started in the world `w0`.
pub record Open (w0 : World) (r p : ℕ) (es : List WaitedEvent) (w : World) : Type 0 where
  pub thread : (w.routines r).thread ≡ (w0.routines r).thread
  pub events : (w.routines r).events ≡ es
  pub ref : (w.routines r).current_ptr ≡ some p
  pub owned : w.refs p ≡ some (some r)
  pub fresh : p < w.next_ref
  pub round : RoundOk w (w0.routines r).thread es
  pub slots : SlotsOk w (w0.routines r).thread
  pub suspended :
      (w.threads (w0.routines r).thread).nb_suspended_routines
      ≡ (w0.threads (w0.routines r).thread).nb_suspended_routines + counted es
  pub scheduled :
      (w.threads (w0.routines r).thread).scheduled_routines
      ≡ (w0.threads (w0.routines r).thread).scheduled_routines
  pub fds :
      (w.threads (w0.routines r).thread).event_loop.waiters.size
      ≡ (w0.threads (w0.routines r).thread).event_loop.waiters.size

module _ (w0 : World) (r p : ℕ) where
  Added-Open :
      (es : List WaitedEvent) (e : WaitedEvent) (w w' : World)
      → slot_of e ≡ none
      → Open w0 r p es w
      → Added w r e w'
      → Open w0 r p (es ++ e ∷ []) w'
  Added-Open es e w w' n o a =
      let here : w'.routines r
          ≡ record (w.routines r) { events = (w.routines r).events ++ e ∷ [] } =
        ap (λ (f : ℕ → Routine). f r) a.routines ∙ ground arith in
      let keeps : (e' : WaitedEvent)
          → EventOk w (w0.routines r).thread e'
          → EventOk w' (w0.routines r).thread e' =
        subst (λ u. (e' : WaitedEvent) → EventOk w u e' → EventOk w' u e') o.thread a.keeps in
      let new : EventOk w' (w0.routines r).thread e = subst (λ u. EventOk w' u e) o.thread a.here in
      let gained : (w'.threads (w0.routines r).thread).nb_suspended_routines
          ≡ (w.threads (w0.routines r).thread).nb_suspended_routines + counted (e ∷ []) =
        subst
          (λ u.
            (w'.threads u).nb_suspended_routines
            ≡ (w.threads u).nb_suspended_routines + counted (e ∷ []))
          o.thread a.suspended in
      record {
        thread = ground (arith, here, o.thread);
        events = ground (arith, here, o.events);
        ref = ground (arith, here, o.ref);
        owned = ap (λ (f : ℕ → Option (Option ℕ)). f p) a.refs ∙ o.owned;
        fresh = omega (arith, a.next_ref, o.fresh);
        round =
            RoundOk-append w' (w0.routines r).thread es e n
              (RoundOk-mono w w' (w0.routines r).thread es keeps o.round) new;
        slots = subst (SlotsOk w') o.thread a.slots;
        suspended = omega (arith, gained, o.suspended, counted-append es e);
        scheduled =
            subst (λ u. (w'.threads u).scheduled_routines ≡ (w.threads u).scheduled_routines)
              o.thread a.scheduled
            ∙ o.scheduled;
        fds =
            subst
              (λ u. (w'.threads u).event_loop.waiters.size ≡ (w.threads u).event_loop.waiters.size)
              o.thread a.fds
            ∙ o.fds;
      }

  pub timer-Open :
      (es : List WaitedEvent) (w : World) (date : ℕ)
      → Open w0 r p es w
      → (w' : World) × (add_timer r date w ≡ some (tt, w')) × Open w0 r p (es ++ timer date ∷ []) w'
  timer-Open es w date o =
      let (w', e, a) = add_timer-Added w r (subst (SlotsOk w) (sym o.thread) o.slots) date in
      (w', e, Added-Open es (timer date) w w' refl o a)

  -- The descriptor is in range, and the counter of the thread is not at its end.
  module _ (es : List WaitedEvent) (w : World) (fd : ℕ) (o : Open w0 r p es w)
      (range : fd < (w0.threads (w0.routines r).thread).event_loop.waiters.size)
      (room : (w0.threads (w0.routines r).thread).nb_suspended_routines + counted es + 1
        < 2 ^ 64) where
    in_range : fd < (w.threads (w.routines r).thread).event_loop.waiters.size
    in_range =
        subst (λ u. fd < (w.threads u).event_loop.waiters.size) (sym o.thread)
          (omega (arith, o.fds))

    has_room : (w.threads (w.routines r).thread).nb_suspended_routines + 1 < 2 ^ 64
    has_room =
        subst (λ u. (w.threads u).nb_suspended_routines + 1 < 2 ^ 64) (sym o.thread)
          (omega (arith, o.suspended))

    pub read-Open :
        (w' : World) × (add_read r fd w ≡ some (tt, w')) × Open w0 r p (es ++ io_read fd ∷ []) w'
    read-Open =
        let (w', e, a) =
          add_read-Added w r (subst (SlotsOk w) (sym o.thread) o.slots) fd in_range has_room in
        (w', e, Added-Open es (io_read fd) w w' refl o a)

    pub write-Open :
        (w' : World) × (add_write r fd w ≡ some (tt, w')) × Open w0 r p (es ++ io_write fd ∷ []) w'
    write-Open =
        let (w', e, a) =
          add_write-Added w r (subst (SlotsOk w) (sym o.thread) o.slots) fd in_range has_room in
        (w', e, Added-Open es (io_write fd) w w' refl o a)

-- A round starts under a new reference.
pub start-Open :
    (w : World) (r : ℕ)
    → SlotsOk w (w.routines r).thread
    → (w' : World) × (start_event_round r w ≡ some (tt, w')) × Open w r w.next_ref [] w'
unfolding start_event_round
start-Open w r ok = (
  record w {
    refs = update w.refs w.next_ref (some (some r));
    next_ref = w.next_ref + 1;
    routines =
        update w.routines r (record (w.routines r) { events = []; current_ptr = some w.next_ref });
  },
  refl,
  record {
    thread = ground arith;
    events = ground arith;
    ref = ground arith;
    owned = ground arith;
    fresh = omega arith;
    round = tt;
    slots = ok;
    suspended = omega arith;
    scheduled = refl;
    fds = refl;
  },
)

-- The round keeps when the routine gives the control to its thread.
pub commit-Open :
    (w0 : World) (r p : ℕ) (es : List WaitedEvent) (w : World)
    → Open w0 r p es w
    → (w' : World) × (commit_event_round r w ≡ some (tt, w'))
      × Open w0 r p es w'
      × ((w'.routines r).status ≡ wait_events)
      × (w'.threads ≡ w.threads)
unfolding commit_event_round
commit-Open w0 r p es w o =
    let w' : World = record w {
      routines = update w.routines r (record (w.routines r) { status = wait_events });
    } in
    (
      w',
      refl,
      record {
        thread = ground (arith, o.thread);
        events = ground (arith, o.events);
        ref = ground (arith, o.ref);
        owned = o.owned;
        fresh = o.fresh;
        round =
            RoundOk-mono w w' (w0.routines r).thread es
              (EventOk-routines w
                (update w.routines r (record (w.routines r) { status = wait_events }))
                (w0.routines r).thread)
              o.round;
        slots = o.slots;
        suspended = o.suspended;
        scheduled = o.scheduled;
        fds = o.fds;
      },
      ground arith,
      refl,
    )

-- Any event of the round can end it.
pub Open-Waiting :
    (w0 : World) (r p : ℕ) (es : List WaitedEvent) (w : World) (index : ℕ) (e : WaitedEvent)
    → Open w0 r p es w
    → get_elem? es index ≡ some e
    → (w0.threads (w0.routines r).thread).nb_suspended_routines + counted es < 2 ^ 64
    → Waiting w r index p
      × (counted (e ∷ []) + counted (others (w.routines r).events index)
          ≤ (w.threads (w.routines r).thread).nb_suspended_routines)
Open-Waiting w0 r p es w index e o h k =
    let sum : counted (e ∷ []) + counted (others (w.routines r).events index) ≡ counted es =
      ap (λ l. counted (e ∷ []) + counted (others l index)) o.events
      ∙ counted-others es index e h in
    let nb : (w.threads (w.routines r).thread).nb_suspended_routines
        ≡ (w0.threads (w0.routines r).thread).nb_suspended_routines + counted es =
      ap (λ u. (w.threads u).nb_suspended_routines) o.thread ∙ o.suspended in
    (
      record {
        ref = o.ref;
        owned = o.owned;
        fresh = o.fresh;
        round =
            subst (λ l. RoundOk w (w.routines r).thread (others l index)) (sym o.events)
              (subst (λ u. RoundOk w u (others es index)) (sym o.thread)
                (RoundOk-others w (w0.routines r).thread es index o.round));
        slots = subst (SlotsOk w) (sym o.thread) o.slots;
        small = omega arith;
        counts = omega arith;
      },
      omega arith,
    )
