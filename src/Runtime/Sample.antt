-- ===== src/Runtime/Sample.antt =====
-- A routine that waits for a file descriptor, a date and a semaphore at once, on a thread that counts two of
-- the three.
use boson.Prelude.{refl, true, false, int, List, [], ◌∷◌, none, some, arith}
use boson.Queues.VectorizedQueue.{VectorizedQueue, cell}
use boson.Queues.VectorizedQueue.Invariant.{Holds}
use boson.Sync.Semaphore.{WaitingUnit}
use boson.Runtime.State.{
  WaitedEvent, timer, io_read, sema_wait, EventType, wait_events, Routine, slot, Thread,
  ThreadStatus, World,
}
use boson.Runtime.Routine.Round.{WellFormed, SlotsOk}

abbrev pub queue : VectorizedQueue WaitingUnit
queue = record {
  cells = record { size = 1; at = λ i. cell (some (0, 2)) none none };
  first_free_cell = none;
  head = some 0;
  tail = some 0;
}

pub queue-Holds : Holds queue ((0, (0, 2)) ∷ [])
queue-Holds = (
  [],
  record {
    chain = (refl, refl, refl, (refl, refl));
    distinct = (refl, tt);
    free_chain = refl;
    free_distinct = tt;
    covered = ground arith;
    apart = ground arith;
  },
)

pub queue-WellFormed : WellFormed queue
queue-WellFormed = ((0, (0, 2)) ∷ [], queue-Holds)

abbrev pub round : List WaitedEvent
round = io_read 5 ∷ timer 100 ∷ sema_wait 0 0 2 ∷ []

abbrev pub waiter : Routine
waiter = record {
  status = wait_events;
  previous_status = wait_events;
  thread = 0;
  events = round;
  current_ptr = some 0;
  happened_type = EventType.nothing;
  happened_rc = int 0;
  happened_index = 0;
}

abbrev pub host : Thread
host = record {
  scheduled_routines = [];
  status = ThreadStatus.busy;
  running_routine = none;
  engine_queue = [];
  nb_pending_commands = 0;
  timed_routines = (100, record { nb_active = 1; slots = 1 ∷ [] }) ∷ [];
  nb_suspended_routines = 2;
  suspended_slots = record {
    data_cells = record { size = 3; at = λ i. slot (some 0) i };
    free_cells = record { size = 3; at = λ i. none };
    first_free_cell = none;
    last_free_cell = none;
  };
  event_loop = record {
    waiters = record {
      size = 8;
      at = λ i. record {
        registered = true;
        read_enabled = true;
        write_enabled = false;
        read_data = 0;
        write_data = 0;
      };
    };
    force_next_loop_immediate_exit = false;
    looping = false;
    platform = [];
  };
}

abbrev pub world : World
world = record {
  routines = λ r. waiter;
  refs = λ p. some (some 0);
  next_ref = 1;
  threads = λ t. host;
  semaphores = λ s. some (record { waiters = queue; counter = int 0 });
}

pub host-SlotsOk : SlotsOk world 0
host-SlotsOk = (
  [],
  record {
    sizes = refl;
    chain = refl;
    distinct = tt;
    final = refl;
    in_range = λ i m. cc;
    unlinked = λ i m h. refl;
  },
)
