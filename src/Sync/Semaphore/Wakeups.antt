-- ===== src/Sync/Semaphore/Wakeups.antt =====
-- What holds in every state of the semaphore protocol: tickets are conserved and no wake-up is lost.
use Prim.Native.Nat.{min}
use boson.Prelude.{ℕ, ◌+◌, ◌-◌, ◌^◌, ◌≤◌, ◌≡◌, ◌⊎◌, int, false, arith}
use boson.Sync.Semaphore.{take_ticket, restore_ticket, post_ticket, is_ok, disabled_standpoint}
use boson.Sync.Semaphore.Protocol.{
  State, fresh, under_way, Step, take, miss, refuse, enqueue, restore, post, pop, pop_nothing,
  retry_take, retry_miss, retry_refuse, pass_on, cancel, disable, drain, drained, Reach, here, next,
}

pub record Inv (capacity : ℕ) (s : State) : Type 0 where
  pub few : under_way s ≤ 2 ^ 28
  pub above : int 0 ≤ s.counter + s.missing + s.pushed
  pub below : s.counter + s.missing + s.pushed ≤ disabled_standpoint + 2 ^ 28
  pub conserved :
      s.was_disabled ≡ false
      → s.counter + s.missing + s.pushed + s.acquired ≡ int capacity + s.posted
  -- The tickets that no candidate will take, as far as there are waiters for them, are covered.
  pub covered :
      s.draining ≡ false
      → min (s.counter + s.pushed - (int 0 + s.candidates)) s.queued ≤ s.popping + s.pushed

fresh-Inv : (capacity : ℕ) → capacity ≤ 0x40000000 → Inv capacity (fresh capacity)
unfolding fresh
fresh-Inv capacity h = ground arith

pub Step-Inv : {capacity : ℕ} {s t : State} → Step s t → Inv capacity s → Inv capacity t
unfolding take_ticket restore_ticket post_ticket is_ok
Step-Inv (take c e) v = ground arith
Step-Inv (miss c e h) v = ground arith
Step-Inv (refuse c e) v = ground arith
Step-Inv (enqueue m e h) v = ground arith
Step-Inv (restore m b c e f) v = ground arith
Step-Inv (post r b c e) v = ground arith
Step-Inv (pop p q e f) v = ground arith
Step-Inv (pop_nothing p e f) v = ground arith
Step-Inv (retry_take k c e f) v = ground arith
Step-Inv (retry_miss k c e f) v = ground arith
Step-Inv (retry_refuse k c e f) v = ground arith
Step-Inv (pass_on k e) v = ground arith
Step-Inv (cancel q e) v = ground arith
Step-Inv disable v = ground arith
Step-Inv (drain q e f) v = ground arith
Step-Inv (drained e f) v = ground arith

Reach-Inv : {capacity : ℕ} {s t : State} → Inv capacity s → Reach s t → Inv capacity t
Reach-Inv v here = v
Reach-Inv v (next r st) = Step-Inv st (Reach-Inv v r)

-- Of a semaphore of a capacity up to the disabling threshold, in every reachable state before
-- `disable`, at most as many tickets were taken as the capacity and the posts gave.
pub acquired-le-posted :
    (capacity : ℕ) {s : State}
    → capacity ≤ 0x40000000
    → Reach (fresh capacity) s
    → s.was_disabled ≡ false
    → s.acquired ≤ capacity + s.posted
acquired-le-posted capacity h r d =
    let v = Reach-Inv (fresh-Inv capacity h) r in omega (arith, v.conserved d, v.above)

-- From a new semaphore of a capacity up to the disabling threshold, in every reachable state in which no
-- call of `pop_a_waiter`, no wake-up, no wait between its queue access and its restored ticket and no
-- `disable` is under way, there is no free ticket or there is no waiter. A wake-up stays under way until
-- its routine tries for a ticket or passes it on.
pub no_lost_wakeup :
    (capacity : ℕ) {s : State}
    → capacity ≤ 0x40000000
    → Reach (fresh capacity) s
    → s.popping ≡ 0
    → s.candidates ≡ 0
    → s.pushed ≡ 0
    → s.draining ≡ false
    → (s.counter ≤ int 0) ⊎ (s.queued ≡ 0)
no_lost_wakeup capacity h r p c d e =
    let v = Reach-Inv (fresh-Inv capacity h) r in omega (arith, v.covered e)
