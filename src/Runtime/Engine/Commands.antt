-- ===== src/Runtime/Engine/Commands.antt =====
-- The loop over the commands of the engine, and the threads that new routines get.
use boson.Prelude.{
  ℕ, zero, suc, ◌+◌, ◌*◌, ◌%◌, ◌^◌, ◌<◌, ◌≤◌, ◌≡◌, refl, sym, ◌∙◌, ap, ◌==◌, ==_iff, add_size,
  sub_size, List, [], ◌∷◌, ◌++◌, append_assoc, append-nil, some, arith, length, Bool-cases, inl,
  inr, if◌then◌else◌, update,
}
use native.Mathlib.Nat.{mod-lt}
use boson.Runtime.State.{ThreadCommand, add_routine}
use boson.Runtime.Engine.{
  Engine, Command, new_routine, notify_idle, notify_end_of_thread, handle, choose_thread,
  execute_commands,
}

-- What the threads of the engine are told for a list of commands: each new routine goes to the thread
-- that was asked for, and the others take turns from `next` on.
unfoldable pub dispatched : ℕ → ℕ → List Command → List (ℕ × ThreadCommand)
dispatched next max [] = []
dispatched next max (new_routine target r ∷ cs) =
    if target == max
    then (next, add_routine r) ∷ dispatched ((next + 1) % max) max cs
    else (target, add_routine r) ∷ dispatched next max cs
dispatched next max (notify_idle from nb ∷ cs) = dispatched next max cs
dispatched next max (notify_end_of_thread ∷ cs) = dispatched next max cs

-- Commands that name threads of the engine, or none.
abbrev pub InRange : ℕ → List Command → Type 0
InRange max [] = Unit {0}
InRange max (new_routine target r ∷ cs) = (target ≤ max) × InRange max cs
InRange max (notify_idle from nb ∷ cs) = (from < max) × InRange max cs
InRange max (notify_end_of_thread ∷ cs) = InRange max cs

pub record Running (e : Engine) (max : ℕ) : Type 0 where
  pub cores : e.max_nb_cores ≡ max
  pub views : e.threads.size ≡ max
  pub turn : e.next_scheduled_thread < max
  pub small : max < 2 ^ 64

-- What a command does to the engine: what it sends, and what stays.
record Handled (e : Engine) (c : Command) (cs : List Command) (max : ℕ) (e' : Engine) : Type 0 where
  result : handle e c ≡ some e'
  running : Running e' max
  queue : e'.command_queue ≡ e.command_queue
  pushers : e'.command_pushers ≡ e.command_pushers
  told :
      e'.sent ++ dispatched e'.next_scheduled_thread max cs
      ≡ e.sent ++ dispatched e.next_scheduled_thread max (c ∷ cs)

module _ (e : Engine) (max : ℕ) (h : Running e max) (cs : List Command) where
  sends : ℕ → ℕ → Engine → Engine
  sends t r d = record d {
    threads = record {
      size = d.threads.size;
      at =
          update d.threads.at t
            (record (d.threads.at t) { nb_routines = add_size (d.threads.at t).nb_routines 1 });
    };
    sent = d.sent ++ (t, add_routine r) ∷ [];
  }

  -- One more command sent, in front of what the rest sends.
  told_one :
      {x : ℕ × ThreadCommand} {ys zs : List (ℕ × ThreadCommand)} (us : List (ℕ × ThreadCommand))
      → ys ≡ us
      → zs ≡ x ∷ us
      → (e.sent ++ x ∷ []) ++ ys ≡ e.sent ++ zs
  told_one {x} us f g = append_assoc e.sent (x ∷ []) _ ∙ ap (◌++◌ e.sent) (rw (f, g) refl)

  handle-Handled : (c : Command) → InRange max (c ∷ []) → (e' : Engine) × Handled e c cs max e'
  unfolding handle choose_thread dispatched sends
  handle-Handled (new_routine target r) ok = elim (Bool-cases (target == max)) [
    | inl any ↦
        let t = e.next_scheduled_thread in
        let d : Engine = record e { next_scheduled_thread = add_size t 1 % e.max_nb_cores } in
        let wraps : (t + 1) % max < max = mod-lt (t + 1) {m = max} (omega (arith, h.turn)) in
        let same : add_size t 1 % e.max_nb_cores ≡ (t + 1) % max =
          ground (arith, h.cores, h.turn, h.small) in
        (
          sends t r d,
          record {
            result = ground (arith, h.cores, h.views, h.turn);
            running = record {
              cores = h.cores;
              views = h.views;
              turn = ground (arith, h.cores, h.turn, h.small, wraps);
              small = h.small;
            };
            queue = refl;
            pushers = refl;
            told =
                told_one (dispatched ((t + 1) % max) max cs) (ground (arith, same)) (rw any refl);
          },
        )
    | inr own ↦ (
      sends target r e,
      record {
        result = ground (arith, h.cores, h.views, ok.0, ==_iff target max);
        running = record { cores = h.cores; views = h.views; turn = h.turn; small = h.small };
        queue = refl;
        pushers = refl;
        told = told_one (dispatched e.next_scheduled_thread max cs) refl (rw own refl);
      },
    )
  ]
  handle-Handled (notify_idle from nb) ok = (
    record e {
      threads = record {
        size = e.threads.size;
        at = update e.threads.at from (record (e.threads.at from) { nb_routines = nb });
      };
    },
    record {
      result = ground (arith, h.views, ok.0);
      running = record { cores = h.cores; views = h.views; turn = h.turn; small = h.small };
      queue = refl;
      pushers = refl;
      told = refl;
    },
  )
  handle-Handled notify_end_of_thread ok = (
    record e { nb_active_threads = sub_size e.nb_active_threads 1 },
    record {
      result = refl;
      running = record { cores = h.cores; views = h.views; turn = h.turn; small = h.small };
      queue = refl;
      pushers = refl;
      told = refl;
    },
  )

-- With a count of pushers for each command in the queue and commands for threads of the engine only, the
-- loop ends within one turn per command and one more: every command is handled in order, the queue
-- and the count of pushers are empty, and the threads are told exactly what `dispatched` lists.
pub execute_commands-dispatched :
    (cs : List Command) (e : Engine) (max fuel : ℕ)
    → Running e max
    → InRange max cs
    → e.command_queue ≡ cs
    → e.command_pushers ≡ 3 * length cs
    → 3 * length cs < 2 ^ 64
    → length cs < fuel
    → (e' : Engine) × (execute_commands fuel e ≡ some e')
      × Running e' max
      × (e'.command_queue ≡ [])
      × (e'.command_pushers ≡ 0)
      × (e'.sent ≡ e.sent ++ dispatched e.next_scheduled_thread max cs)
unfolding execute_commands dispatched
execute_commands-dispatched cs e max zero h ok q p k f = absurd (omega arith)
execute_commands-dispatched [] e max (suc n) h ok q p k f =
    (e, rw (q, p) refl, h, q, p, sym (append-nil e.sent))
execute_commands-dispatched (c ∷ cs) e max (suc n) h ok q p k f =
    let taken : Engine = record e { command_queue = cs } in
    let (v, d) =
      handle-Handled taken max
        (record { cores = h.cores; views = h.views; turn = h.turn; small = h.small }) cs c
        (only c cs ok) in
    let next : Engine = record v { command_pushers = sub_size v.command_pushers 3 } in
    let r = d.running in
    let (w, g, run, queue, pushers, told) =
      execute_commands-dispatched cs next max n
        (record { cores = r.cores; views = r.views; turn = r.turn; small = r.small }) (rest c cs ok)
        d.queue (omega (arith, d.pushers, p)) (omega arith) (omega arith) in
    (w, rw (q, d.result) g, run, queue, pushers, told ∙ d.told)
  where
    only : (c : Command) (cs : List Command) → InRange max (c ∷ cs) → InRange max (c ∷ [])
    only (new_routine t r) cs ok = (ok.0, tt)
    only (notify_idle t n) cs ok = (ok.0, tt)
    only notify_end_of_thread cs ok = tt

    rest : (c : Command) (cs : List Command) → InRange max (c ∷ cs) → InRange max cs
    rest (new_routine t r) cs ok = ok.1
    rest (notify_idle t n) cs ok = ok.1
    rest notify_end_of_thread cs ok = ok
