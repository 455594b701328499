-- ===== src/Runtime/Loop/Tests.antt =====
-- The loop of a thread that was asked to end, and a date that is 1.4 ms and one that is 0.4 ms ahead.
use boson.Prelude.{ℕ, ◌+◌, ◌*◌, ◌-◌, ◌^◌, ◌<◌, ◌≤◌, ◌≡◌, refl, int, true, false, [], ◌∷◌, arith}
use boson.Runtime.State.{ThreadStatus, finish, World, M, pure}
use boson.Runtime.Clock.{ms}
use boson.Runtime.Sample.{world, host}
use boson.Runtime.Loop.{ms_until, next_timeout}
use boson.Runtime.Loop.Timeouts.{next_timeout_bounds}

next_timeout_bounds_example :
    (10 * ms < 8600000 + ms
      → next_timeout 8600000 (int 0 - 1) ((10, record { nb_active = 1; slots = [] }) ∷ [])
        ≡ (int 0, true))
    × (8600000 + ms ≤ 10 * ms
        → 10 * ms < 8600000 + 2 ^ 31 * ms
        → (wait : ℕ) × (next_timeout 8600000
              (int 0 - 1)
              ((10, record { nb_active = 1; slots = [] }) ∷ [])
            ≡ (int wait, false))
          × (0 < wait)
          × (8600000 + wait * ms ≤ 10 * ms)
          × (10 * ms < 8600000 + wait * ms + ms))
    × (8600000 + 2 ^ 31 * ms ≤ 10 * ms
        → 10 * ms < 8600000 + 2 ^ 32 * ms
        → next_timeout 8600000 (int 0 - 1) ((10, record { nb_active = 1; slots = [] }) ∷ [])
          ≡ (int 0, true))
next_timeout_bounds_example =
    next_timeout_bounds 8600000 10 (int 0 - 1) (record { nb_active = 1; slots = [] }) []
      (λ e. absurd (omega (arith, e))) (omega arith)

-- 2^31 milliseconds before its date, a timer fires.
fires_weeks_early :
    next_timeout 0 (int 0 - 1) ((0x80000000, record { nb_active = 1; slots = [] }) ∷ [])
    ≡ (int 0, true)
unfolding next_timeout ms_until
fires_weeks_early = refl

-- 0.4 ms before its date, a timer fires.
fires_early :
    next_timeout 9600000 (int 0 - 1) ((10, record { nb_active = 1; slots = [] }) ∷ [])
    ≡ (int 0, true)
unfolding next_timeout ms_until
fires_early = refl

abbrev ending : World
ending = record world {
  threads = λ t. record host {
    engine_queue = finish ∷ [];
    nb_pending_commands = 1;
    scheduled_routines = [];
    timed_routines = [];
    nb_suspended_routines = 0;
    status = ThreadStatus.idle;
  };
}

abbrev does_nothing : ℕ → ℕ → M (Unit {0})
does_nothing r t = pure tt
