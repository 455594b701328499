-- ===== src/Sync/Mutex.antt =====
-- `boson::mutex` of src/boson/boson/mutex.h: a semaphore of capacity 1. As in Sync/Channel.antt, only
-- the counter is kept, and a wait that nobody else's call satisfies ends by its timeout or never.
mod Tests
use boson.Prelude.{
  leb, Option, none, some, if◌then◌else◌, ◌>>=◌, Int32, int, ◌+◌, ◌<◌, ◌≤◌, ◌≡◌, ◌^◌, increment,
  arith,
}
use boson.Sync.Semaphore.{take_ticket, restore_ticket, post_ticket, taken, disabling_threshold}
use boson.Sync.Channel.{wait}

unfoldable pub new_mutex : Int32
new_mutex = int 1

-- `lock`: the result of the wait is dropped. The counter is none if the lock waits for ever, which it
-- does on a mutex without a free ticket if it has no timeout.
unfoldable pub lock : Int32 → Int32 → Option Int32
unfolding wait
lock timeout c = do let (result, slots) = wait timeout c; ticket ← result; some slots

unfoldable pub unlock : Int32 → Int32
unlock c = (post_ticket c).2

-- A routine that finds the mutex free takes the one ticket, and its unlock gives it back.
pub lock-unlock :
    (timeout : Int32) → (lock timeout new_mutex ≡ some (int 0)) × (unlock (int 0) ≡ new_mutex)
unfolding unlock lock new_mutex take_ticket restore_ticket post_ticket
lock-unlock timeout = (ground arith, ground arith)

-- A lock of a mutex that another routine holds never returns without a timeout; with one it returns
-- and leaves the counter as it was.
pub lock-held :
    (timeout : Int32) → lock timeout (int 0) ≡ (if leb (int 0) timeout then some (int 0) else none)
unfolding lock take_ticket restore_ticket
lock-held timeout = ground arith
