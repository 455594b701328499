-- ===== src/Calls/Sample.antt =====
-- A kernel that answers from a list, and a thread that resumes the routine at once.
use boson.Prelude.{ℕ, ◌+◌, Int32, List, [], ◌∷◌, some, update}
use boson.Runtime.Sample.{world}
use boson.Calls.State.{Answer, returned, Kernel, Channel, Os, N}

abbrev pub next_answer : List Answer → Answer × List Answer
next_answer [] = (returned 0, [])
next_answer (a ∷ answers) = (a, answers)

abbrev pub script : Kernel (List Answer)
script = record {
  call = λ id args answers. next_answer answers;
  socket_error = λ fd answers. next_answer answers;
  get_fd = λ fd answers. 0;
  set_fl = λ fd flags answers. answers;
  now = λ answers. 0;
}

-- Whatever the routine waits for happens with the code `rc`.
abbrev pub wakes_with : Int32 → ℕ → N (List Answer) (Unit {0})
wakes_with rc r o = some (
  tt,
  record o {
    world = record o.world {
      routines = update o.world.routines r (record (o.world.routines r) { happened_rc = rc });
    };
  },
)

-- Values 3 and 4, of which 4 is left; its semaphores are 7 and 8.
abbrev pub chan : Channel
chan = record {
  buffer = record { size = 2; at = λ i. i + 3 };
  head = 2;
  tail = 1;
  readers_slots = 7;
  writer_slots = 8;
}

abbrev pub start : List Answer → Os (List Answer)
start answers = record { world = world; errno = 0; kernel = answers; channels = λ c. chan }
