-- ===== src/Calls/Select/Reports.antt =====
-- What the callback of a channel read is told.
use boson.Prelude.{ℕ, ◌+◌, ◌<◌, ◌≡◌, refl, int, decrement, Bool, [], ◌∷◌, some, none, update, arith}
use boson.Sync.Semaphore
use boson.Runtime.State.{Routine, World}
use boson.Runtime.Routine.{start_event_round, cancel_event_round, drop_events}
use boson.Calls.State.{Kernel, Channel, N, ◌>>=◌}
use boson.Calls.Channels.{consume_read}
use boson.Calls.Select.{
  event_channel_read, is_sema_wait, subscribe, subscribe_semaphore, subscribe_all, finish_round,
  execute, select_any,
}
use boson.Calls.Select.Rounds.{at}

-- If a channel has a value to read at once, `select_any` on it takes a ticket of its readers and the value,
-- but whether it tells the callback that this succeeded is told by what ended the last round of the
-- routine, whatever that was.
pub select_any_stale :
    {K R : Type 0} (kernel : Kernel K) (suspend : ℕ → N K (Unit {0})) (r : ℕ) (w0 : World)
    (chans : ℕ → Channel) (k : K) (e c : ℕ) (func : Bool → ℕ → N K R) (sem : Semaphore.Semaphore)
    → w0.semaphores (chans c).readers_slots ≡ some sem
    → int 0 < sem.counter
    → (w : World) × (select_any kernel r suspend (event_channel_read c func ∷ []) (at w0 k e chans)
        ≡ (consume_read c >>= λ value. func (is_sema_wait (w0.routines r).happened_type) value)
            (at w k e chans))
      × (w.semaphores (chans c).readers_slots
          ≡ some (record sem { counter = decrement sem.counter }))
      × (w.threads ≡ w0.threads)
unfolding select_any finish_round execute subscribe_all subscribe subscribe_semaphore
    start_event_round cancel_event_round drop_events
select_any_stale kernel suspend r w0 chans k e c func sem there positive =
    let s = (chans c).readers_slots in
    let started : Routine = record (w0.routines r) {
      events = [];
      current_ptr = some w0.next_ref;
    } in
    (
      record w0 {
        refs =
            update (update (update w0.refs w0.next_ref (some (some r))) w0.next_ref (some none))
              w0.next_ref none;
        next_ref = w0.next_ref + 1;
        routines = update (update w0.routines r started) r (record started { events = [] });
        semaphores = update w0.semaphores s (some (record sem { counter = decrement sem.counter }));
      },
      ground (arith, there, positive),
      ground arith,
      refl,
    )
