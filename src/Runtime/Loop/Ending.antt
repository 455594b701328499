-- ===== src/Runtime/Loop/Ending.antt =====
-- The end of the loop of a thread.
use boson.Prelude.{ℕ, [], update}
use boson.Runtime.State.{ThreadStatus, Thread, World}

-- The runtime after the request to end, and after the turn of the loop that finds nothing left.
abbrev popped : Thread → Thread
popped th = record th { engine_queue = []; nb_pending_commands = 0 }

abbrev asked : ℕ → World → World
asked t w = record w {
  threads =
      update (update w.threads t (popped (w.threads t))) t
        (record (popped (w.threads t)) { status = ThreadStatus.finishing });
}

abbrev rested : ℕ → World → World
rested t w =
    let same : Thread = record (w.threads t) { scheduled_routines = []; timed_routines = [] } in
    record w {
      threads =
          update (update (update w.threads t same) t same) t
            (record same { status = ThreadStatus.finished });
    }
