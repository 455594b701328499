-- ===== src/Runtime/Loop/Timeouts.antt =====
-- How exactly the loop of a thread keeps a date.
use boson.Prelude.{
  ℕ, ◌+◌, ◌-◌, ◌*◌, ◌/◌, ◌^◌, ◌<◌, ◌≤◌, ◌≡◌, ◌≢◌, Int32, int, true, false, List, ◌∷◌, arith,
}
use boson.Runtime.State.{TimedRoutinesSet}
use boson.Runtime.Clock.{ms}
use boson.Runtime.Loop.{ms_until, next_timeout}

-- Unless another turn was asked for at once, and for a first date that is not over for more than 2^31
-- milliseconds: the loop fires it if it is over or less than a millisecond ahead, so up to a millisecond
-- early. If it is further ahead, and less than 2^31 milliseconds, the loop waits for some milliseconds, and
-- their end is not after the date and less than a millisecond before it. If it is 2^31 milliseconds ahead or
-- more, and less than 2^32, the loop fires it at once.
pub next_timeout_bounds :
    (now date : ℕ) (timeout_ms : Int32) (set : TimedRoutinesSet)
    (sets : List (ℕ × TimedRoutinesSet))
    → timeout_ms ≢ int 0
    → now ≤ date * ms + 2 ^ 31 * ms
    → (date * ms < now + ms → next_timeout now timeout_ms ((date, set) ∷ sets) ≡ (int 0, true))
      × (now + ms ≤ date * ms
          → date * ms < now + 2 ^ 31 * ms
          → (wait : ℕ) × (next_timeout now timeout_ms ((date, set) ∷ sets) ≡ (int wait, false))
            × (0 < wait)
            × (now + wait * ms ≤ date * ms)
            × (date * ms < now + wait * ms + ms))
      × (now + 2 ^ 31 * ms ≤ date * ms
          → date * ms < now + 2 ^ 32 * ms
          → next_timeout now timeout_ms ((date, set) ∷ sets) ≡ (int 0, true))
unfolding next_timeout ms_until
next_timeout_bounds now date timeout_ms set sets other late = (
  λ near. ground (arith, other, near, late),
  λ far below. (
    (date * ms - now) / ms,
    ground (arith, other, far, below),
    ground (arith, far),
    ground (arith, far),
    ground (arith, far),
  ),
  λ far below. ground (arith, other, far, below),
)
