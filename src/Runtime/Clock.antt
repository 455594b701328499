-- ===== src/Runtime/Clock.antt =====
-- Dates in milliseconds from a clock in nanoseconds: `time_point_cast` rounds towards the past, and
-- `experimental::chrono::ceil` of src/boson/boson/std/experimental/chrono.h towards the future. Dates
-- before the epoch of the clock are not modelled.
pub mod Rounding
mod Tests
use boson.Prelude.{ℕ, ◌+◌, ◌*◌, ◌/◌, ltb, if◌then◌else◌}

abbrev pub ms : ℕ
ms = 1000000

abbrev pub us : ℕ
us = 1000

-- `duration_cast` to a coarser unit of `unit` ticks.
abbrev pub duration_cast : (unit d : ℕ) → ℕ
duration_cast unit d = d / unit

unfoldable pub ceil : (unit d : ℕ) → ℕ
ceil unit d = let t = duration_cast unit d in if ltb (t * unit) d then t + 1 else t

-- The date of the timeout of `semaphore::wait`.
unfoldable pub semaphore_date : (now timeout_ms : ℕ) → ℕ
semaphore_date now timeout_ms = duration_cast ms (now + timeout_ms * ms)

-- The date of `event_timer` in `select_any`.
unfoldable pub event_timer_date : (now timeout_ms : ℕ) → ℕ
event_timer_date now timeout_ms = duration_cast ms (now + timeout_ms * ms)

-- The date of the timeout of a system call, `add_timer<true>`.
unfoldable pub add_timer_date : (now timeout_ms : ℕ) → ℕ
unfolding ceil
add_timer_date now timeout_ms = ceil ms (now + timeout_ms * ms)

-- The date that `usleep` waits for.
unfoldable pub usleep_date : (now duration_us : ℕ) → ℕ
unfolding ceil
usleep_date now duration_us = ceil ms (now + duration_us * us)

-- The microseconds that `nanosleep(timespec)` sleeps, and those that `nanosleep(nanoseconds)` does.
unfoldable pub timespec_us : (tv_sec tv_nsec : ℕ) → ℕ
unfolding ceil
timespec_us tv_sec tv_nsec = ceil us (tv_sec * 1000000000 + tv_nsec)

unfoldable pub nanoseconds_us : ℕ → ℕ
nanoseconds_us d = duration_cast us d

-- The microseconds of `sleep`, and the milliseconds until a date that `thread::loop` gives to its wait.
unfoldable pub seconds_us : ℕ → ℕ
seconds_us s = s * 1000 * 1000
