-- ===== src/Runtime/Engine.antt =====
-- `boson::engine` of src/boson/boson/engine.h and src/boson/src/engine.cc: the commands of the threads
-- and of the program, and the count of routines that ends it. The commands that it pushes to threads are
-- kept as a list, oldest first. `none` is an access out of range.
pub mod Commands
pub mod Ending
pub mod Starting
pub mod Turns
mod Tests
use boson.Prelude.{
  ℕ, zero, suc, ◌+◌, ◌%◌, ◌==◌, add_size, sub_size, Bool, true, false, not, List, [], ◌∷◌, ◌++◌,
  Option, none, some, Vector, get, put, update, if◌then◌else◌, ◌>>=◌,
}
use boson.Net.Poller
use boson.Runtime.State.{ThreadCommand, add_routine, finish}

pub record ThreadView : Type 0 where
  pub nb_routines : ℕ
  -- The number that the thread registered with.
  pub thread_id : ℕ
  pub sent_end_request : Bool

pub data Command : Type 0 where
  new_routine : (target_thread routine : ℕ) → Command
  notify_idle : (from nb : ℕ) → Command
  notify_end_of_thread : Command

pub record Engine : Type 0 where
  pub nb_active_threads : ℕ
  pub threads : Vector ThreadView
  pub max_nb_cores : ℕ
  pub current_thread_id : ℕ
  pub current_routine_id : ℕ
  pub next_scheduled_thread : ℕ
  pub command_queue : List Command
  pub command_pushers : ℕ
  pub event_loop : Poller.Poller
  pub sent : List (ℕ × ThreadCommand)

-- `command_pushers_.fetch_add(std::memory_order_release)`: the number of that order, 3, is added.
abbrev pub memory_order_release : ℕ
memory_order_release = 3

unfoldable pub push_command : Engine → Command → Engine
push_command e c = record e {
  command_pushers = add_size e.command_pushers memory_order_release;
  command_queue = e.command_queue ++ c ∷ [];
  event_loop = Poller.interrupt e.event_loop;
}

abbrev change_view : Engine → ℕ → (ThreadView → ThreadView) → Option Engine
change_view e t f = do
  view ← get e.threads t
  threads ← put e.threads t (f view)
  some (record e { threads = threads })

-- The thread of a new routine: the one asked for, or the next in turn.
unfoldable pub choose_thread : Engine → ℕ → ℕ × Engine
choose_thread e target =
    if target == e.max_nb_cores
    then (
      e.next_scheduled_thread,
      record e { next_scheduled_thread = add_size e.next_scheduled_thread 1 % e.max_nb_cores },
    )
    else (target, e)

unfoldable pub handle : Engine → Command → Option Engine
unfolding choose_thread
handle e (new_routine target_thread routine) = do
  let chosen = choose_thread e target_thread
  counted ←
      change_view chosen.1 chosen.0
        (λ view. record view { nb_routines = add_size view.nb_routines 1 })
  some (record counted { sent = counted.sent ++ (chosen.0, add_routine routine) ∷ [] })
handle e (notify_idle from nb) = change_view e from (λ view. record view { nb_routines = nb })
handle e notify_end_of_thread =
    some (record e { nb_active_threads = sub_size e.nb_active_threads 1 })

-- The loop: it reads until the queue is empty and no pusher is left. Without fuel it is a fault.
unfoldable pub execute_commands : ℕ → Engine → Option Engine
unfolding handle
execute_commands zero e = none
execute_commands (suc n) e = elim e.command_queue [
  | [] ↦ if e.command_pushers == 0 then some e else execute_commands n e
  | c ∷ cs ↦ do
    e' ← handle (record e { command_queue = cs }) c
    execute_commands n
        (record e' { command_pushers = sub_size e'.command_pushers memory_order_release })
]

unfoldable pub remaining : (ℕ → ThreadView) → ℕ → ℕ
remaining at zero = 0
remaining at (suc n) = add_size (remaining at n) (at n).nb_routines

-- The request to end, for the threads below `n` that did not get it.
unfoldable pub send_end_requests : ℕ → Engine → Engine
send_end_requests zero e = e
send_end_requests (suc n) e =
    let e' = send_end_requests n e in
    if (e'.threads.at n).sent_end_request then e' else record e' {
      threads = record e'.threads {
        at = update e'.threads.at n (record (e'.threads.at n) { sent_end_request = true });
      };
      sent = e'.sent ++ (n, finish) ∷ [];
    }

-- One turn of the loop of `wait_all_routines`, up to its wait.
unfoldable pub wait_turn : ℕ → Engine → Option Engine
unfolding execute_commands remaining send_end_requests
wait_turn fuel e = do
  e' ← execute_commands fuel e
  some (
      if remaining e'.threads.at e'.threads.size == 0
      then send_end_requests e'.threads.size e'
      else e')
