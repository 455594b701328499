-- ===== src/Runtime/Waits/Prepared.antt =====
-- What a routine that waits for a descriptor has registered: either of its events wakes it, once.
use boson.Prelude.{
  ℕ, ◌+◌, ◌^◌, ◌<◌, ◌≡◌, refl, ap, subst, ◌∙◌, Bool, true, false, List, [], ◌∷◌, ◌++◌, Option, none,
  some, get_elem?, arith, Int32,
}
use boson.Runtime.State.{
  WaitedEvent, timer, io_read, io_write, EventType, wait_events, World, bind_ok, ◌>>◌, slot,
}
use boson.Runtime.Clock.{add_timer_date}
use boson.Runtime.Routine.{start_event_round, commit_event_round, event_happened, timed_out, others}
use boson.Runtime.Routine.Round.{counted, SlotsOk}
use boson.Runtime.Routine.Opening.{
  Open, timer-Open, read-Open, write-Open, start-Open, commit-Open, Open-Waiting,
}
use boson.Runtime.Routine.Round.Extending.{counted-others}
use boson.Runtime.Routine.Wakeup.{outcome, event_happened-Woken}
use boson.Runtime.Waits.{add_event, add_timeout, prepare_wait}

-- The events that `prepare_wait` registers.
abbrev pub io_event : Bool → ℕ → WaitedEvent
io_event true fd = io_read fd
io_event false fd = io_write fd

abbrev pub io_type : Bool → EventType
io_type true = EventType.io_read
io_type false = EventType.io_write

abbrev pub timer_events : Option ℕ → ℕ → List WaitedEvent
timer_events none now = []
timer_events (some timeout_ms) now = timer (add_timer_date now timeout_ms) ∷ []

-- From `w`, the event `index` wakes the routine for `type` and `code`; the reference `p` is dead then, and
-- the counter and the other routines of the turn stand as in `w0`.
abbrev pub WokenFrom :
    (w0 w : World) (r index p : ℕ) (rc : Int32) (type : EventType) (code : Int32) → Type 0
WokenFrom w0 w r index p rc type code =
    (w' : World) × (event_happened r index rc w ≡ some (true, w'))
    × ((w'.routines r).happened_type ≡ type)
    × ((w'.routines r).happened_rc ≡ code)
    × ((w'.routines r).happened_index ≡ index)
    × (w'.refs p ≡ none)
    × (w'.refs w.next_ref ≡ some (some r))
    × ((w'.threads (w0.routines r).thread).scheduled_routines
        ≡ (w0.threads (w0.routines r).thread).scheduled_routines ++ slot (some w.next_ref) 0 ∷ [])
    × ((w'.threads (w0.routines r).thread).nb_suspended_routines
        ≡ (w0.threads (w0.routines r).thread).nb_suspended_routines)

pub Open-WokenFrom :
    (w0 w : World) (r p : ℕ) (es : List WaitedEvent) (index : ℕ) (e : WaitedEvent) (rc code : Int32)
    (type : EventType)
    → Open w0 r p es w
    → get_elem? es index ≡ some e
    → outcome e rc ≡ some (type, code)
    → (w0.threads (w0.routines r).thread).nb_suspended_routines + counted es < 2 ^ 64
    → WokenFrom w0 w r index p rc type code
Open-WokenFrom w0 w r p es index e rc code type o at out small =
    let (h, k) = Open-Waiting w0 r p es w index e o at small in
    let (w', run, v) =
      event_happened-Woken w r index p rc code e type (ap (λ l. get_elem? l index) o.events ∙ at)
        out h k in
    let sum : counted (e ∷ []) + counted (others (w.routines r).events index) ≡ counted es =
      ap (λ l. counted (e ∷ []) + counted (others l index)) o.events
      ∙ counted-others es index e at in
    let scheduled : (w'.threads (w0.routines r).thread).scheduled_routines
        ≡ (w.threads (w0.routines r).thread).scheduled_routines ++ slot (some w.next_ref) 0 ∷ [] =
      subst
        (λ t.
          (w'.threads t).scheduled_routines
          ≡ (w.threads t).scheduled_routines ++ slot (some w.next_ref) 0 ∷ [])
        o.thread v.scheduled in
    let lost : (w'.threads (w0.routines r).thread).nb_suspended_routines
          + (counted (e ∷ []) + counted (others (w.routines r).events index))
        ≡ (w.threads (w0.routines r).thread).nb_suspended_routines =
      subst
        (λ t.
          (w'.threads t).nb_suspended_routines
            + (counted (e ∷ []) + counted (others (w.routines r).events index))
          ≡ (w.threads t).nb_suspended_routines)
        o.thread v.suspended in
    (
      w',
      run,
      v.happened_type,
      v.happened_rc,
      v.happened_index,
      v.dead,
      v.owner,
      scheduled ∙ ap (λ l. l ++ slot (some w.next_ref) 0 ∷ []) o.scheduled,
      omega (arith, sum, lost, o.suspended),
    )

module _ (read : Bool) (timeout : Option ℕ) (now r fd : ℕ) (w0 : World) where
  abbrev pub prepared : List WaitedEvent
  prepared = io_event read fd ∷ timer_events timeout now

  event-Open :
      (p : ℕ) (w : World)
      → Open w0 r p [] w
      → fd < (w0.threads (w0.routines r).thread).event_loop.waiters.size
      → (w0.threads (w0.routines r).thread).nb_suspended_routines + 1 < 2 ^ 64
      → (w' : World) × (add_event read r fd w ≡ some (tt, w'))
        × Open w0 r p (io_event read fd ∷ []) w'
  event-Open p w o range room =
      elim read
        as (λ k.
          (w' : World) × (add_event k r fd w ≡ some (tt, w'))
          × Open w0 r p (io_event k fd ∷ []) w') [
            | true ↦ read-Open w0 r p [] w fd o range (omega (arith, room))
            | false ↦ write-Open w0 r p [] w fd o range (omega (arith, room))
          ]

  timeout-Open :
      (p : ℕ) (w : World)
      → Open w0 r p (io_event read fd ∷ []) w
      → (w' : World) × (add_timeout timeout now r w ≡ some (tt, w')) × Open w0 r p prepared w'
  timeout-Open p w o =
      elim timeout
        as (λ k.
          (w' : World) × (add_timeout k now r w ≡ some (tt, w'))
          × Open w0 r p (io_event read fd ∷ timer_events k now) w') [
            | none ↦ (w, refl, o)
            | some timeout_ms ↦
                timer-Open w0 r p (io_event read fd ∷ []) w (add_timer_date now timeout_ms) o
          ]

  prepare_wait-Open :
      SlotsOk w0 (w0.routines r).thread
      → fd < (w0.threads (w0.routines r).thread).event_loop.waiters.size
      → (w0.threads (w0.routines r).thread).nb_suspended_routines + 1 < 2 ^ 64
      → (w : World) × (prepare_wait read timeout now r fd w0 ≡ some (tt, w))
        × ((w.routines r).status ≡ wait_events)
        × Open w0 r w0.next_ref prepared w
  unfolding prepare_wait
  prepare_wait-Open slots range room =
      let p = w0.next_ref in
      let (w1, e1, o1) = start-Open w0 r slots in
      let (w2, e2, o2) = event-Open p w1 o1 range room in
      let (w3, e3, o3) = timeout-Open p w2 o2 in
      let (w4, e4, o4, waits, same) = commit-Open w0 r p prepared w3 o3 in
      (
        w4,
        bind_ok (start_event_round r)
              (λ _. add_event read r fd >> (add_timeout timeout now r >> commit_event_round r))
              {w = w0} {w' = w1} e1
            ∙ bind_ok (add_event read r fd) (λ _. add_timeout timeout now r >> commit_event_round r)
                {w = w1} {w' = w2} e2
            ∙ bind_ok (add_timeout timeout now r) (λ _. commit_event_round r) {w = w2} {w' = w3} e3
            ∙ e4,
        waits,
        o4,
      )

counted_prepared :
    (read : Bool) (fd : ℕ) (timeout : Option ℕ) (now : ℕ)
    → counted (io_event read fd ∷ timer_events timeout now) ≡ 1
counted_prepared true fd none now = refl
counted_prepared true fd (some d) now = refl
counted_prepared false fd none now = refl
counted_prepared false fd (some d) now = refl

io_outcome :
    (read : Bool) (fd : ℕ) (rc : Int32) → outcome (io_event read fd) rc ≡ some (io_type read, rc)
io_outcome true fd rc = refl
io_outcome false fd rc = refl

-- On a thread whose slots are a well-formed sparse vector, whose counter of suspended routines is not at
-- its end, and whose poller has the descriptor in range, the wait for a descriptor does not fault, and the
-- routine waits. Then `event_happened` for the event of the descriptor, with any code that it is called with,
-- wakes the routine with the type of the wait and that code; and for the event of the timeout, if there is one,
-- with the type of a timer and the code for a timeout. Either schedules it once, under a new reference,
-- kills the reference of the other, and takes back what the wait counted.
pub prepare_wait_wakes :
    (read : Bool) (timeout : Option ℕ) (now r fd : ℕ) (w0 : World)
    → SlotsOk w0 (w0.routines r).thread
    → fd < (w0.threads (w0.routines r).thread).event_loop.waiters.size
    → (w0.threads (w0.routines r).thread).nb_suspended_routines + 1 < 2 ^ 64
    → (w : World) × (prepare_wait read timeout now r fd w0 ≡ some (tt, w))
      × ((w.routines r).status ≡ wait_events)
      × ((rc : Int32) → WokenFrom w0 w r 0 w0.next_ref rc (io_type read) rc)
      × ((timeout_ms : ℕ) (rc : Int32)
          → timeout ≡ some timeout_ms
          → WokenFrom w0 w r 1 w0.next_ref rc EventType.timer timed_out)
prepare_wait_wakes read timeout now r fd w0 slots range room =
    let (w, e, waits, o) = prepare_wait-Open read timeout now r fd w0 slots range room in
    let small : (w0.threads (w0.routines r).thread).nb_suspended_routines
          + counted (io_event read fd ∷ timer_events timeout now)
        < 2 ^ 64 =
      omega (arith, room, counted_prepared read fd timeout now) in
    (
      w,
      e,
      waits,
      λ rc.
          Open-WokenFrom w0 w r w0.next_ref (io_event read fd ∷ timer_events timeout now) 0
            (io_event read fd) rc rc (io_type read) o refl (io_outcome read fd rc) small,
      λ timeout_ms rc is.
          Open-WokenFrom w0 w r w0.next_ref (io_event read fd ∷ timer_events timeout now) 1
            (timer (add_timer_date now timeout_ms)) rc timed_out EventType.timer o
            (ap (λ l. get_elem? (timer_events l now) 0) is) refl small,
    )
