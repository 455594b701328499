-- ===== src/Runtime/Engine/Turns.antt =====
-- The routines of a new engine take turns on its threads.
use native.Mathlib.Nat.{mod-add-mod, mod-eq_of_lt}
use boson.Prelude.{
  ℕ, zero, suc, ◌+◌, ◌*◌, ◌%◌, ◌^◌, ◌<◌, ◌≡◌, refl, sym, ap, ◌∙◌, ==_iff, add_size, Bool, true,
  false, List, [], ◌∷◌, ◌++◌, length, some, arith,
}
use boson.Runtime.State.{ThreadCommand, add_routine}
use boson.Runtime.Engine.{Engine, Command, new_routine, push_command, execute_commands}
use boson.Runtime.Engine.Commands.{InRange, dispatched, execute_commands-dispatched}
use boson.Runtime.Engine.Starting.{
  init, add_thread, add_threads, register_thread_id, start, start_explicit, start_routine,
  start_anywhere, start_in, get_new_routine_id,
}

-- Starts by the program (`false`) and by routines (`true`), the last one first.
abbrev pub starts : List Bool → Engine → Engine
starts [] e = e
starts (false ∷ bs) e = start (starts bs e)
starts (true ∷ bs) e = start_routine (starts bs e)

-- The routines `k`, `k + 1` and so on, each to the thread of its number modulo `max`.
abbrev pub in_turn : (max k count : ℕ) → List (ℕ × ThreadCommand)
in_turn max k zero = []
in_turn max k (suc count) = (k % max, add_routine k) ∷ in_turn max (suc k) count

calls : (max k count : ℕ) → List Command
calls max k zero = []
calls max k (suc count) = new_routine max k ∷ calls max (suc k) count

calls-last :
    (max k count : ℕ)
    → calls max k count ++ new_routine max (k + count) ∷ [] ≡ calls max k (suc count)
unfolding calls
calls-last max k zero = ap (λ (n : ℕ). new_routine max n ∷ []) (omega arith)
calls-last max k (suc count) =
    ap (λ (cs : List Command). new_routine max k ∷ cs)
      (ap (λ (n : ℕ). calls max (suc k) count ++ new_routine max n ∷ []) (omega arith)
        ∙ calls-last max (suc k) count)

length-calls : (max k count : ℕ) → length (calls max k count) ≡ count
unfolding calls
length-calls max k zero = refl
length-calls max k (suc count) = omega (arith, length-calls max (suc k) count)

calls-InRange : (max k count : ℕ) → InRange max (calls max k count)
unfolding calls
calls-InRange max k zero = tt
calls-InRange max k (suc count) = (omega arith, calls-InRange max (suc k) count)

dispatched-calls :
    (max k count : ℕ) → dispatched (k % max) max (calls max k count) ≡ in_turn max k count
unfolding calls dispatched
dispatched-calls max k zero = refl
dispatched-calls max k (suc count) = ground (
  arith,
  ==_iff max max,
  ap (λ (n : ℕ). dispatched n max (calls max (suc k) count))
        (mod-add-mod k max 1 ∙ ap (λ (n : ℕ). n % max) (omega arith))
      ∙ dispatched-calls max (suc k) count,
)

-- The engine with its threads, before the first command.
record Ready (max n : ℕ) (e : Engine) : Type 0 where
  views : e.threads.size ≡ n
  ids : e.current_thread_id ≡ n
  cores : e.max_nb_cores ≡ max
  turn : e.next_scheduled_thread ≡ 0
  queue : e.command_queue ≡ []
  pushers : e.command_pushers ≡ 0
  routines : e.current_routine_id ≡ 0
  sent : e.sent ≡ []

ready : (max n : ℕ) (e : Engine) → n < 2 ^ 64 → Ready max 0 e → Ready max n (add_threads n e)
unfolding add_threads add_thread register_thread_id
ready max zero e small h = h
ready max (suc n) e small h =
    let k = ready max n e (omega arith) h in
    record {
      views = ap (λ m. m + 1) k.views ∙ omega arith;
      ids = omega (arith, k.ids);
      cores = k.cores;
      turn = k.turn;
      queue = k.queue;
      pushers = k.pushers;
      routines = k.routines;
      sent = k.sent;
    }

-- The engine after `n` starts.
record Started (max n : ℕ) (e : Engine) : Type 0 where
  views : e.threads.size ≡ max
  cores : e.max_nb_cores ≡ max
  turn : e.next_scheduled_thread ≡ 0
  queue : e.command_queue ≡ calls max 0 n
  pushers : e.command_pushers ≡ 3 * n
  routines : e.current_routine_id ≡ n
  sent : e.sent ≡ []

push_command-Started :
    (max n : ℕ) (e e' : Engine)
    → 3 * suc n < 2 ^ 64
    → Started max n e
    → e'
      ≡ push_command
          (record e { current_routine_id = add_size e.current_routine_id 1 })
          (new_routine e.max_nb_cores e.current_routine_id)
    → Started max (suc n) e'
unfolding push_command
push_command-Started max n e e' small h is = record {
  views = ap (λ (d : Engine). d.threads.size) is ∙ h.views;
  cores = ap (λ (d : Engine). d.max_nb_cores) is ∙ h.cores;
  turn = ap (λ (d : Engine). d.next_scheduled_thread) is ∙ h.turn;
  queue =
      ap (λ (d : Engine). d.command_queue) is
      ∙ ap (λ (cs : List Command). cs ++ new_routine e.max_nb_cores e.current_routine_id ∷ [])
          h.queue
      ∙ ap (λ (m : ℕ). calls max 0 n ++ new_routine m e.current_routine_id ∷ []) h.cores
      ∙ ap (λ (m : ℕ). calls max 0 n ++ new_routine max m ∷ []) (h.routines ∙ omega arith)
      ∙ calls-last max 0 n;
  pushers = ap (λ (d : Engine). d.command_pushers) is ∙ omega (arith, h.pushers, small);
  routines = ap (λ (d : Engine). d.current_routine_id) is ∙ omega (arith, h.routines, small);
  sent = ap (λ (d : Engine). d.sent) is ∙ h.sent;
}

starts-Started :
    (max : ℕ) (bs : List Bool) (e : Engine)
    → 3 * length bs < 2 ^ 64
    → Started max 0 e
    → Started max (length bs) (starts bs e)
unfolding start start_explicit start_routine start_anywhere start_in get_new_routine_id
starts-Started max [] e small h = h
starts-Started max (false ∷ bs) e small h =
    push_command-Started max (length bs) (starts bs e) (start (starts bs e)) small
      (starts-Started max bs e (omega (arith, small)) h) refl
starts-Started max (true ∷ bs) e small h =
    push_command-Started max (length bs) (starts bs e) (start_routine (starts bs e)) small
      (starts-Started max bs e (omega (arith, small)) h) refl

init-Started : (max_fds max : ℕ) → max < 2 ^ 64 → Started max 0 (init max_fds max)
unfolding init calls
init-Started max_fds max small =
    let k = ready max max _ small (record {
      views = refl;
      ids = refl;
      cores = refl;
      turn = refl;
      queue = refl;
      pushers = refl;
      routines = refl;
      sent = refl;
    }) in
    record {
      views = k.views;
      cores = k.cores;
      turn = k.turn;
      queue = k.queue;
      pushers = k.pushers;
      routines = k.routines;
      sent = k.sent;
    }

-- On a new engine of at least one thread, the routines that the program and other routines start without
-- asking for a thread are numbered in the order of the starts, and one turn of the loop per start and one more
-- send each of them to one thread, the one of its number modulo the number of threads; nothing else is sent,
-- and no command and no pusher is left.
pub execute_commands-in_turn :
    (max_fds max : ℕ) (bs : List Bool)
    → 0 < max
    → max < 2 ^ 64
    → 3 * length bs < 2 ^ 64
    → (e : Engine) × (execute_commands (suc (length bs)) (starts bs (init max_fds max)) ≡ some e)
      × (e.sent ≡ in_turn max 0 (length bs))
      × (e.command_queue ≡ [])
      × (e.command_pushers ≡ 0)
execute_commands-in_turn max_fds max bs positive small few =
    let n = length bs in
    let s = starts-Started max bs (init max_fds max) few (init-Started max_fds max small) in
    let (e, run, running, queue, pushers, told) =
      execute_commands-dispatched (calls max 0 n) (starts bs (init max_fds max)) max (suc n)
        (record {
          cores = s.cores;
          views = s.views;
          turn = omega (arith, s.turn, positive);
          small = small;
        })
        (calls-InRange max 0 n) s.queue (omega (arith, s.pushers, length-calls max 0 n))
        (omega (arith, length-calls max 0 n, few)) (omega (arith, length-calls max 0 n)) in
    (
      e,
      run,
      told
          ∙ ap
              (λ (l : List (ℕ × ThreadCommand)).
                l
                ++ dispatched (starts bs (init max_fds max)).next_scheduled_thread max
                    (calls max 0 n))
              s.sent
          ∙ ap (λ (k : ℕ). dispatched k max (calls max 0 n)) (s.turn ∙ sym (mod-eq_of_lt positive))
          ∙ dispatched-calls max 0 n,
      queue,
      pushers,
    )
