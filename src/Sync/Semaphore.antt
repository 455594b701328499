-- ===== src/Sync/Semaphore.antt =====
-- `boson::semaphore` of src/boson/boson/semaphore.h and src/boson/src/semaphore.cc: a counter and a
-- queue of waiting routines. Each function is one atomic operation of the source with the test on its
-- result; what a routine does between two of them is in Sync/Semaphore/Protocol.antt.
pub mod Protocol
pub mod Wakeups
mod Tests
use boson.Prelude.{
  ℕ, ◌+◌, ◌^◌, Int32, int, increment, decrement, ltb, leb, Bool, true, false, Option, none, some,
  if◌then◌else◌, ◌>>=◌,
}
use boson.Queues.VectorizedQueue
use boson.Queues.VectorizedQueue.{VectorizedQueue}

pub data SemaphoreReturnValue : Type 0 where
  ok timedout disabled : SemaphoreReturnValue

-- `semaphore_result::operator bool`.
unfoldable pub is_ok : SemaphoreReturnValue → Bool
is_ok ok = true
is_ok timedout = false
is_ok disabled = false

abbrev pub disabling_threshold : Int32
disabling_threshold = int 0x40000000

abbrev pub disabled_standpoint : Int32
disabled_standpoint = int 0x60000000

-- A waiting routine: its thread, and its slot there.
abbrev pub WaitingUnit : Type 0
WaitingUnit = ℕ × ℕ

pub record Semaphore : Type 0 where
  pub waiters : VectorizedQueue WaitingUnit
  pub counter : Int32

unfoldable pub init : Int32 → Semaphore
unfolding VectorizedQueue.empty_queue
init capacity = record { waiters = VectorizedQueue.empty_queue; counter = capacity }

-- What `wait` and a candidate learn from `counter_.fetch_sub(1)`.
pub data Ticket : Type 0 where
  taken refused missed : Ticket

-- With the `fetch_add(1)` that takes back the decrement of a disabled semaphore.
unfoldable pub take_ticket : Int32 → Ticket × Int32
take_ticket c =
    if ltb disabling_threshold c
    then (refused, increment (decrement c))
    else if leb c (int 0)
    then (missed, decrement c)
    else (taken, decrement c)

-- The `fetch_add(1)` after a waiter is in the queue, and whether it must pop one.
unfoldable pub restore_ticket : Int32 → Bool × Int32
restore_ticket c = (leb (int 0) c, increment c)

-- `post`: its result, and whether it must pop a waiter.
unfoldable pub post_ticket : Int32 → SemaphoreReturnValue × Bool × Int32
post_ticket c =
    if ltb disabling_threshold c
    then (disabled, false, decrement (increment c))
    else (ok, leb (int 0) c, increment c)

-- `semaphore::write`, `read` and `free`, each under the lock of the queue.
unfoldable pub write : Semaphore → WaitingUnit → Option (ℕ × Semaphore)
write s unit = do
  (index, q) ← VectorizedQueue.write s.waiters unit
  some (index, record s { waiters = q })

unfoldable pub read : Semaphore → Option (Option WaitingUnit × Semaphore)
read s = do (unit, q) ← VectorizedQueue.read s.waiters; some (unit, record s { waiters = q })

unfoldable pub free : Semaphore → ℕ → Option (Bool × Semaphore)
free s index = do
  (found, q) ← VectorizedQueue.lazy_free s.waiters index
  some (found, record s { waiters = q })
