-- ===== src/Sync/Semaphore/Tests.antt =====
-- A run of the semaphore protocol, and its theorems at the state that it reaches.
use boson.Prelude.{◌+◌, ◌-◌, ◌≤◌, ◌≡◌, ◌⊎◌, refl, int, arith, false}
use boson.Sync.Semaphore.{take_ticket, restore_ticket}
use boson.Sync.Semaphore.Protocol.{State, fresh, Reach, here, next, take, miss, enqueue, restore}
use boson.Sync.Semaphore.Wakeups.{acquired-le-posted, no_lost_wakeup}

-- One routine holds the only ticket and a second one waits.
abbrev waiting : State
waiting = record {
  counter = int 0;
  queued = 1;
  missing = 0;
  pushed = 0;
  popping = 0;
  candidates = 0;
  draining = false;
  acquired = 1;
  posted = 0;
  was_disabled = false;
}

waiting-Reach : Reach (fresh 1) waiting
unfolding fresh take_ticket restore_ticket
waiting-Reach =
    next
      (next (next (next here (take (int 0) refl)) (miss (int 0 - 1) refl (omega arith)))
        (enqueue 0 refl (omega arith)))
      (restore 0 false (int 0) refl refl)

acquired-le-posted_example : waiting.acquired ≤ 1 + waiting.posted
acquired-le-posted_example = acquired-le-posted 1 {s = waiting} (omega arith) waiting-Reach refl

no_lost_wakeup_example : (waiting.counter ≤ int 0) ⊎ (waiting.queued ≡ 0)
no_lost_wakeup_example = no_lost_wakeup 1 (omega arith) waiting-Reach refl refl refl refl
