-- ===== src/Runtime/Engine/Starting.antt =====
-- The constructors of `boson::engine` and how routines are started: `start` of src/boson/boson/engine.h, the
-- `engine_proxy` of src/boson/src/internal/thread.cc, and `start_routine` of src/boson/boson/internal/thread.h.
-- The code of a routine is not modelled; a routine is its number.
use boson.Prelude.{
  ℕ, zero, suc, ◌^◌, ◌%◌, ◌/◌, add_size, Int32, Bool, false, [], ◌∷◌, ◌++◌, Option, some, push_back,
  get, ◌>>=◌,
}
use boson.Net.Poller
use boson.Runtime.State.{fd_ready}
use boson.Runtime.Engine.{Engine, Command, new_routine, push_command}

unfoldable pub register_thread_id : Engine → ℕ × Engine
register_thread_id e =
    (e.current_thread_id, record e { current_thread_id = add_size e.current_thread_id 1 })

-- `threads_.emplace_back`, with the constructor of the thread, which takes a number.
unfoldable pub add_thread : Engine → Engine
unfolding register_thread_id
add_thread e =
    let (id, e') = register_thread_id e in
    record e' {
      threads =
          push_back e'.threads
            (record { nb_routines = 0; thread_id = id; sent_end_request = false });
    }

unfoldable pub add_threads : ℕ → Engine → Engine
unfolding add_thread
add_threads zero e = e
add_threads (suc n) e = add_thread (add_threads n e)

-- The constructor, for a platform with `max_fds` descriptors; the loops of the threads run beside it.
unfoldable pub init : (max_fds max_nb_cores : ℕ) → Engine
unfolding add_threads Poller.init
init max_fds max_nb_cores = add_threads max_nb_cores (record {
  nb_active_threads = max_nb_cores;
  threads = record {
    size = 0;
    at = λ i. record { nb_routines = 0; thread_id = 0; sent_end_request = false };
  };
  max_nb_cores = max_nb_cores;
  current_thread_id = 0;
  current_routine_id = 0;
  next_scheduled_thread = 0;
  command_queue = [];
  command_pushers = 0;
  event_loop = Poller.init max_fds;
  sent = [];
})

-- `current_routine_id_++`, and `engine_proxy::get_new_routine_id`.
unfoldable pub get_new_routine_id : Engine → ℕ × Engine
get_new_routine_id e =
    (e.current_routine_id, record e { current_routine_id = add_size e.current_routine_id 1 })

-- `engine::start`, with and without a thread.
unfoldable pub start_explicit : ℕ → Engine → Engine
unfolding get_new_routine_id push_command
start_explicit id e =
    let (routine, e') = get_new_routine_id e in push_command e' (new_routine id routine)

unfoldable pub start : Engine → Engine
unfolding start_explicit
start e = start_explicit e.max_nb_cores e

-- The constructor with the function of a first routine.
unfoldable pub init_with : (max_fds max_nb_cores : ℕ) → Engine
unfolding init start_explicit
init_with max_fds max_nb_cores = start_explicit max_nb_cores (init max_fds max_nb_cores)

-- What the proxy of a thread sends to the engine.
unfoldable pub notify_end : Engine → Engine
unfolding push_command
notify_end e = push_command e Command.notify_end_of_thread

unfoldable pub notify_idle : (from nb_suspended_routines : ℕ) → Engine → Engine
unfolding push_command
notify_idle from nb_suspended_routines e =
    push_command e (Command.notify_idle from nb_suspended_routines)

unfoldable pub start_in : (target_thread routine : ℕ) → Engine → Engine
unfolding push_command
start_in target_thread routine e = push_command e (new_routine target_thread routine)

unfoldable pub start_anywhere : ℕ → Engine → Engine
unfolding start_in
start_anywhere routine e = start_in e.max_nb_cores routine e

-- `thread::start_routine` and `thread::start_routine_explicit`.
unfoldable pub start_routine : Engine → Engine
unfolding get_new_routine_id start_anywhere
start_routine e = let (routine, e') = get_new_routine_id e in start_anywhere routine e'

unfoldable pub start_routine_explicit : ℕ → Engine → Engine
unfolding get_new_routine_id start_in
start_routine_explicit id e = let (routine, e') = get_new_routine_id e in start_in id routine e'

-- `engine::read` and `engine::write`: the thread and the index of the event are packed into the data `bits`.
unfoldable pub thread_of : ℕ → ℕ
thread_of bits = bits / 2 ^ 32 % 2 ^ 32

unfoldable pub event_of : ℕ → ℕ
event_of bits = bits % 2 ^ 32

unfoldable pub send_fd_event : Engine → (fd bits : ℕ) → Int32 → Bool → Option Engine
unfolding thread_of event_of
send_fd_event e fd bits status reads = do
  view ← get e.threads (thread_of bits)
  some (record e {
    sent = e.sent ++ (thread_of bits, fd_ready (event_of bits) fd status reads) ∷ [];
  })
