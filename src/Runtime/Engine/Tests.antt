-- ===== src/Runtime/Engine/Tests.antt =====
-- An engine of two threads.
use boson.Prelude.{ℕ, ◌<◌, ◌≡◌, ◌++◌, refl, true, false, List, [], ◌∷◌, some, arith}
use boson.Runtime.State.{add_routine}
use boson.Runtime.Engine.{
  Engine, Command, new_routine, notify_idle, execute_commands, send_end_requests, wait_turn,
}
use boson.Runtime.Engine.Commands.{Running, dispatched, execute_commands-dispatched}
use boson.Runtime.Engine.Starting.{init}
use boson.Runtime.Engine.Turns
use boson.Runtime.Engine.Turns.{execute_commands-in_turn}
use boson.Runtime.Engine.Ending.{requests, send_end_requests_once, wait_turn_premature}

abbrev queued : List Command → ℕ → Engine
queued cs n = record {
  nb_active_threads = 2;
  threads = record {
    size = 2;
    at = λ i. record { nb_routines = 0; thread_id = i; sent_end_request = false };
  };
  max_nb_cores = 2;
  current_thread_id = 2;
  current_routine_id = 14;
  next_scheduled_thread = 1;
  command_queue = cs;
  command_pushers = n;
  event_loop = record {
    waiters = record {
      size = 0;
      at = λ i. record {
        registered = false;
        read_enabled = false;
        write_enabled = false;
        read_data = 0;
        write_data = 0;
      };
    };
    force_next_loop_immediate_exit = false;
    looping = false;
    platform = [];
  };
  sent = [];
}

-- Three routines for any thread and one for the thread 0.
abbrev starts : List Command
starts = new_routine 2 10 ∷ new_routine 2 11 ∷ new_routine 0 12 ∷ new_routine 2 13 ∷ []

dispatched-starts :
    dispatched 1 2 starts
    ≡ (1, add_routine 10) ∷ (0, add_routine 11) ∷ (0, add_routine 12) ∷ (1, add_routine 13) ∷ []
unfolding dispatched
dispatched-starts = refl

execute_commands-dispatched_example :
    (e' : Engine) × (execute_commands 5 (queued starts 12) ≡ some e')
    × Running e' 2
    × (e'.command_queue ≡ [])
    × (e'.command_pushers ≡ 0)
    × (e'.sent ≡ [] ++ dispatched 1 2 starts)
execute_commands-dispatched_example =
    execute_commands-dispatched starts (queued starts 12) 2 5
      (record { cores = refl; views = refl; turn = omega arith; small = omega arith })
      (omega arith, (omega arith, (omega arith, (omega arith, tt)))) refl refl (omega arith)
      (omega arith)

send_end_requests_once_trial :
    ((i : ℕ) → i < 2 → ((send_end_requests 2 (queued [] 0)).threads.at i).sent_end_request ≡ true)
    × ((send_end_requests 2 (queued [] 0)).sent ≡ [] ++ requests (queued [] 0).threads.at 2)
    × (send_end_requests 2 (send_end_requests 2 (queued [] 0)) ≡ send_end_requests 2 (queued [] 0))
send_end_requests_once_trial = send_end_requests_once 2 (queued [] 0)

wait_turn_premature_example :
    (e' : Engine) × (wait_turn 3 (queued (new_routine 1 10 ∷ notify_idle 1 0 ∷ []) 6) ≡ some e')
    × ((i : ℕ) → i < 2 → (e'.threads.at i).sent_end_request ≡ true)
    × (e'.sent ≡ ((1, add_routine 10) ∷ []) ++ requests (queued [] 0).threads.at 2)
wait_turn_premature_example =
    wait_turn_premature (queued (new_routine 1 10 ∷ notify_idle 1 0 ∷ []) 6) 2 1 10
      (record { cores = refl; views = refl; turn = omega arith; small = omega arith }) (omega arith)
      (λ i h. refl) refl refl

-- Three routines on two threads, the second of them started by a routine.
execute_commands-in_turn_example :
    (e : Engine) × (execute_commands 4 (Turns.starts (false ∷ true ∷ false ∷ []) (init 8 2))
      ≡ some e)
    × (e.sent ≡ (0, add_routine 0) ∷ (1, add_routine 1) ∷ (0, add_routine 2) ∷ [])
    × (e.command_queue ≡ [])
    × (e.command_pushers ≡ 0)
execute_commands-in_turn_example =
    execute_commands-in_turn 8 2 (false ∷ true ∷ false ∷ []) (omega arith) (omega arith)
      (omega arith)
