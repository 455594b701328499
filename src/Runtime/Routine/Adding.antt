-- ===== src/Runtime/Routine/Adding.antt =====
-- Adding a timer or a wait for a file descriptor to a round.
use mathlib.Core.Path.{fun_ext}
use boson.Prelude.{
  ℕ, ◌+◌, ◌-◌, ◌^◌, ◌<◌, ◌≡◌, ◌⊎◌, refl, ap, ◌∙◌, ◌==◌, ==_iff, true, ◌||◌, List, [], ◌∷◌, ◌++◌,
  Option, some, length, update, arith, inl, inr, add_size,
}
use boson.Memory.SparseVector.{SparseVector}
use boson.Memory.SparseVector.FreeList.{Rep}
use boson.Net.Poller
use boson.Net.Poller.Laws.{register_read-size, register_write-size}
use boson.Runtime.State.{
  WaitedEvent, timer, io_read, io_write, RoutineSlot, slot, TimedRoutinesSet, Thread, World, M,
  thread, set_thread, lift, ◌>>=◌, ◌>>◌, bind_ok,
}
use boson.Runtime.Thread.{
  store_slot, add_timed, register_timer, register_read, register_write, add_suspended,
}
use boson.Runtime.Routine.{add_timer, add_read, add_write}
use boson.Runtime.Routine.Round.{
  counted, has_date, EventOk, SlotsOk, in_changed, update_self, EventOk-mono,
}
use boson.Runtime.Routine.Storing.{Stored, with_slots, store_slot-Stored}

-- What adding an event `e` to the round of `r` changes, and what it keeps.
pub record Added (w : World) (r : ℕ) (e : WaitedEvent) (w' : World) : Type 0 where
  pub routines :
      w'.routines
      ≡ update w.routines r (record (w.routines r) { events = (w.routines r).events ++ e ∷ [] })
  pub refs : w'.refs ≡ w.refs
  pub next_ref : w'.next_ref ≡ w.next_ref
  pub scheduled :
      (w'.threads (w.routines r).thread).scheduled_routines
      ≡ (w.threads (w.routines r).thread).scheduled_routines
  pub suspended :
      (w'.threads (w.routines r).thread).nb_suspended_routines
      ≡ (w.threads (w.routines r).thread).nb_suspended_routines + counted (e ∷ [])
  pub slots : SlotsOk w' (w.routines r).thread
  pub fds :
      (w'.threads (w.routines r).thread).event_loop.waiters.size
      ≡ (w.threads (w.routines r).thread).event_loop.waiters.size
  pub keeps :
      (e' : WaitedEvent) → EventOk w (w.routines r).thread e' → EventOk w' (w.routines r).thread e'
  pub here : EventOk w' (w.routines r).thread e

add_timed-has_date :
    (date index d : ℕ) (sets : List (ℕ × TimedRoutinesSet))
    → has_date d (add_timed date index sets) ≡ (has_date d sets || d == date)
unfolding add_timed
add_timed-has_date date index d [] = ground arith
add_timed-has_date date index d ((c, set) ∷ sets) =
    ground (arith, add_timed-has_date date index d sets, ==_iff date c, ==_iff d c, ==_iff d date)

-- A thread that is written twice has what was written last.
pub rethread :
    (w : World) (t : ℕ) (a : Thread) (f : Thread → Thread)
    → record w { threads = update (update w.threads t a) t (f (update w.threads t a t)) }
      ≡ record w { threads = update w.threads t (f a) }
rethread w t a f =
    rw (update_self w.threads t a)
      (ap (λ (g : ℕ → Thread). record w { threads = g }) (fun_ext λ i. ground arith))

module _ (w : World) (r : ℕ) where
  abbrev t : ℕ
  t = (w.routines r).thread

  -- The slot of an event that is added.
  abbrev new_slot : WaitedEvent → RoutineSlot
  new_slot e = slot (w.routines r).current_ptr (length ((w.routines r).events ++ e ∷ []) - 1)

  -- The world after an event was added and the thread became `y`.
  abbrev after : WaitedEvent → Thread → World
  after e y = record w {
    routines =
        update w.routines r (record (w.routines r) { events = (w.routines r).events ++ e ∷ [] });
    threads = update w.threads t y;
  }

  after-Added :
      (e : WaitedEvent) (y : Thread) (index : ℕ)
      → Stored (w.threads t).suspended_slots (new_slot e) index y.suspended_slots
      → y.scheduled_routines ≡ (w.threads t).scheduled_routines
      → y.nb_suspended_routines ≡ (w.threads t).nb_suspended_routines + counted (e ∷ [])
      → y.event_loop.waiters.size ≡ (w.threads t).event_loop.waiters.size
      → ((d : ℕ)
          → has_date d (w.threads t).timed_routines ≡ true
          → has_date d y.timed_routines ≡ true)
      → EventOk (after e y) t e
      → Added w r e (after e y)
  after-Added e y index st a b c d h = record {
    routines = refl;
    refs = refl;
    next_ref = refl;
    scheduled =
        in_changed (λ z. z.scheduled_routines ≡ (w.threads t).scheduled_routines) w t y w.semaphores
          a;
    suspended =
        in_changed
          (λ z. z.nb_suspended_routines ≡ (w.threads t).nb_suspended_routines + counted (e ∷ [])) w
          t y w.semaphores b;
    slots =
        (st.rep.0, in_changed (λ z. Rep z.suspended_slots st.rep.0) w t y w.semaphores st.rep.1);
    fds =
        in_changed (λ z. z.event_loop.waiters.size ≡ (w.threads t).event_loop.waiters.size) w t y
          w.semaphores c;
    keeps = λ e'. EventOk-mono w t y e' d (λ l q m. st.used l ∙ ground (arith, m));
    here = h;
  }

  -- The world after the event is in the list.
  abbrev listed : WaitedEvent → World
  listed e = record w {
    routines =
        update w.routines r (record (w.routines r) { events = (w.routines r).events ++ e ∷ [] });
  }

  module _ (ok : SlotsOk w t) where
    -- The event of a timer is in the set of its date, and no counter counts it.
    pub add_timer-Added :
        (date : ℕ) → (w' : World) × (add_timer r date w ≡ some (tt, w')) × Added w r (timer date) w'
    unfolding add_timer register_timer
    add_timer-Added date =
        let (i, u, e, st) = store_slot-Stored (listed (timer date)) t (new_slot (timer date)) ok in
        let y : Thread = record (w.threads t) {
          suspended_slots = u;
          timed_routines = add_timed date i (w.threads t).timed_routines;
        } in
        let stored : World = with_slots (listed (timer date)) t u in
        let rest : ℕ → M (Unit {0}) = λ index. thread t >>= λ th.
        set_thread t (record th { timed_routines = add_timed date index th.timed_routines }) in
        let run : add_timer r date w ≡ some (tt, after (timer date) y) =
          bind_ok (store_slot t (new_slot (timer date))) rest {w = listed (timer date)}
            {w' = stored} e
          ∙ ap (λ (v : World). some (tt, v))
              (rethread (listed (timer date)) t (record (w.threads t) { suspended_slots = u })
                (λ th. record th { timed_routines = add_timed date i th.timed_routines })) in
        (
          after (timer date) y,
          run,
          after-Added (timer date) y i st refl (omega arith) refl
              (λ d h. add_timed-has_date date i d _ ∙ ground arith)
              (in_changed (λ z. has_date date z.timed_routines ≡ true) w t y w.semaphores
                (add_timed-has_date date i date _ ∙ ground (arith, ==_iff date date))),
        )

    -- The waits for a descriptor in range.
    module _ (fd : ℕ) (range : fd < (w.threads t).event_loop.waiters.size)
        (room : (w.threads t).nb_suspended_routines + 1 < 2 ^ 64) where
      register : (ℕ → Poller.Poller → Option Poller.Poller) → ℕ → M (Unit {0})
      register f index = thread t >>= λ th. lift (f index th.event_loop) >>= λ loop.
          set_thread t (record th { event_loop = loop }) >> add_suspended t

      io_after :
          (e : WaitedEvent) (f : ℕ → Poller.Poller → Option Poller.Poller) (i : ℕ)
          (u : SparseVector RoutineSlot) (q : Poller.Poller)
          → f i (w.threads t).event_loop ≡ some q
          → register f i (with_slots (listed e) t u)
            ≡ some (
              tt,
              after e (record (w.threads t) {
                suspended_slots = u;
                event_loop = q;
                nb_suspended_routines = (w.threads t).nb_suspended_routines + 1;
              }),
            )
      unfolding register
      io_after e f i u q h =
          let a : Thread = record (w.threads t) { suspended_slots = u } in
          let w0 : World = with_slots (listed e) t u in
          let b : Thread → Thread = λ th. record th { event_loop = q } in
          let c : Thread → Thread =
            λ th. record th { nb_suspended_routines = add_size th.nb_suspended_routines 1 } in
          let looked : lift (f i (w0.threads t).event_loop) w0 ≡ some (q, w0) =
            rw (update_self w.threads t a, h) refl in
          let counted_one : add_size (w.threads t).nb_suspended_routines 1
              ≡ (w.threads t).nb_suspended_routines + 1 =
            omega arith in
          bind_ok (lift (f i (w0.threads t).event_loop))
            (λ loop. set_thread t (record (w0.threads t) { event_loop = loop }) >> add_suspended t)
            {w = w0} {w' = w0} looked
          ∙ ap (λ (v : World). some (tt, v)) (rethread w0 t (b (w0.threads t)) c)
          ∙ ap (λ (v : World). some (tt, v)) (rethread (listed e) t a (λ th. c (b th)))
          ∙ ap
              (λ n. some (
                tt,
                after e (record (w.threads t) {
                  suspended_slots = u;
                  event_loop = q;
                  nb_suspended_routines = n;
                }),
              ))
              counted_one

      io-Added :
          (e : WaitedEvent) (i : ℕ) (u : SparseVector RoutineSlot) (q : Poller.Poller)
          → (e ≡ io_read fd) ⊎ (e ≡ io_write fd)
          → Stored (w.threads t).suspended_slots (new_slot e) i u
          → q.waiters.size ≡ (w.threads t).event_loop.waiters.size
          → Added w r e (
              after e (record (w.threads t) {
                suspended_slots = u;
                event_loop = q;
                nb_suspended_routines = (w.threads t).nb_suspended_routines + 1;
              }))
      io-Added e i u q which st size =
          let y : Thread = record (w.threads t) {
            suspended_slots = u;
            event_loop = q;
            nb_suspended_routines = (w.threads t).nb_suspended_routines + 1;
          } in
          after-Added e y i st refl (elim which [ inl h ↦ rw h refl | inr h ↦ rw h refl ]) size
            (λ d h. h) (elim which [ inl h ↦ rw h tt | inr h ↦ rw h tt ])

      pub add_read-Added :
          (w' : World) × (add_read r fd w ≡ some (tt, w')) × Added w r (io_read fd) w'
      unfolding add_read register_read register
      add_read-Added =
          let e : WaitedEvent = io_read fd in
          let (i, u, s, st) = store_slot-Stored (listed e) t (new_slot e) ok in
          let (q, h, size) = register_read-size (w.threads t).event_loop fd i range in
          let f : ℕ → Poller.Poller → Option Poller.Poller =
            λ index loop. Poller.register_read loop fd index in
          (
            after e (record (w.threads t) {
              suspended_slots = u;
              event_loop = q;
              nb_suspended_routines = (w.threads t).nb_suspended_routines + 1;
            }),
            bind_ok (store_slot t (new_slot e)) (register f) {w = listed e}
                  {w' = with_slots (listed e) t u} s
                ∙ io_after e f i u q h,
            io-Added e i u q (inl refl) st size,
          )

      pub add_write-Added :
          (w' : World) × (add_write r fd w ≡ some (tt, w')) × Added w r (io_write fd) w'
      unfolding add_write register_write register
      add_write-Added =
          let e : WaitedEvent = io_write fd in
          let (i, u, s, st) = store_slot-Stored (listed e) t (new_slot e) ok in
          let (q, h, size) = register_write-size (w.threads t).event_loop fd i range in
          let f : ℕ → Poller.Poller → Option Poller.Poller =
            λ index loop. Poller.register_write loop fd index in
          (
            after e (record (w.threads t) {
              suspended_slots = u;
              event_loop = q;
              nb_suspended_routines = (w.threads t).nb_suspended_routines + 1;
            }),
            bind_ok (store_slot t (new_slot e)) (register f) {w = listed e}
                  {w' = with_slots (listed e) t u} s
                ∙ io_after e f i u q h,
            io-Added e i u q (inr refl) st size,
          )
