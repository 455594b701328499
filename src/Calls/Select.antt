-- ===== src/Calls/Select.antt =====
-- `select_any` and its selectors, src/boson/boson/select.h. `r` is the running routine; a callback is any
-- code of the runtime; what happens from the switch to the thread's context until the routine is resumed is
-- the parameter `suspend`.
pub mod Rounds
pub mod Outcomes
pub mod Reports
mod Tests
use boson.Prelude.{
  ℕ, zero, suc, ◌+◌, ◌-◌, ◌==◌, ltb, leb, Int32, int, decrement, Bool, true, false, ◌&&◌, List, [],
  ◌∷◌, Option, none, some, get_elem?, if◌then◌else◌,
}
use boson.Sync.Semaphore
use boson.Runtime.State.{EventType, Routine}
use boson.Runtime.State
use boson.Runtime.Routine.{
  start_event_round, add_timer, add_semaphore_wait, commit_event_round, cancel_event_round,
}
use boson.Runtime.Waits.{add_event}
use boson.Calls.State.{
  SyscallId, sys_connect, is_read, einprogress, Kernel, Channel, Os, N, pure, fault, ◌>>=◌, ◌>>◌,
  runtime, errno, set_errno, answered, syscall, channel, lift,
}
use boson.Calls.Channels.{consume_read, consume_write}
use boson.Calls.Syscalls.{minus_one, would_block}

-- The storages with their callbacks; `return_code` is the result of the call at the subscription. The callback of a
-- channel read takes the value too, which the source writes to the caller's variable.
pub data Selector (K R : Type 0) : Type 0 where
  event_timer : (date : ℕ) → (func : N K R) → Selector K R
  event_syscall :
      (id : SyscallId)
      → (fd : ℕ) → (args : List ℕ) → (return_code : Int32) → (func : Int32 → N K R) → Selector K R
  event_connect :
      (sockfd : ℕ) → (args : List ℕ) → (return_code : Int32) → (func : Int32 → N K R) → Selector K R
  event_lock : (sema : ℕ) → (func : N K R) → Selector K R
  event_channel_read : (channel : ℕ) → (func : Bool → ℕ → N K R) → Selector K R
  event_channel_write : (channel value : ℕ) → (func : Bool → N K R) → Selector K R

abbrev pub is_sema_wait : EventType → Bool
is_sema_wait EventType.sema_wait = true
is_sema_wait _ = false

abbrev pub is_io_write : EventType → Bool
is_io_write EventType.io_write = true
is_io_write _ = false

module _ {K : Type 0} where
  -- `event_semaphore_wait_base_storage::subscribe`.
  unfoldable pub subscribe_semaphore : (r s : ℕ) → N K Bool
  subscribe_semaphore r s = do
    sem ← runtime (State.semaphore s)
    runtime (State.set_semaphore s (record sem { counter = decrement sem.counter }))
    (if leb sem.counter (int 0)
        then (runtime (add_semaphore_wait r s) >> pure false)
        else pure true)

  -- The return code of a connection after a round; a failure of `getsockopt` throws.
  unfoldable pub connected : Kernel K → ℕ → EventType → N K Int32
  connected kernel sockfd type o =
      if is_io_write type
      then (answered (kernel.socket_error sockfd o.kernel) >>= λ return_code.
            if ltb return_code (int 0)
            then fault
            else if return_code == int 0
            then (set_errno 0 >> pure return_code)
            else (set_errno (return_code - int 0) >> pure minus_one))
          o
      else some (minus_one, o)

  unfoldable pub finish_round :
      (r : ℕ) → (suspend : ℕ → N K (Unit {0})) → (cancel : Bool) → (index : ℕ) → N K ℕ
  finish_round r suspend true index = do runtime (cancel_event_round r); pure index
  finish_round r suspend false index = do
    runtime (commit_event_round r)
    suspend r
    body ← runtime (State.routine r)
    pure body.happened_index

module _ {K R : Type 0} (kernel : Kernel K) (r : ℕ) where
  -- `subscribe`: true where nothing is to wait for. A selector that calls keeps the result.
  unfoldable pub subscribe : Selector K R → N K (Bool × Selector K R)
  unfolding subscribe_semaphore would_block
  subscribe (event_timer date func) = do
    runtime (add_timer r date)
    pure (false, event_timer date func)
  subscribe (event_syscall id fd args last func) = do
    return_code ← syscall kernel id (fd ∷ args)
    e ← errno
    (if would_block return_code e
        then (runtime (add_event (is_read id) r fd)
            >> pure (false, event_syscall id fd args return_code func))
        else pure (true, event_syscall id fd args return_code func))
  subscribe (event_connect sockfd args last func) = do
    return_code ← syscall kernel sys_connect (sockfd ∷ args)
    e ← errno
    (if ltb return_code (int 0) && (einprogress == e)
        then (runtime (add_event (is_read sys_connect) r sockfd)
            >> pure (false, event_connect sockfd args return_code func))
        else pure (true, event_connect sockfd args return_code func))
  subscribe (event_lock sema func) = do
    ready ← subscribe_semaphore r sema
    pure (ready, event_lock sema func)
  subscribe (event_channel_read c func) = do
    ch ← channel c
    ready ← subscribe_semaphore r ch.readers_slots
    pure (ready, event_channel_read c func)
  subscribe (event_channel_write c value func) = do
    ch ← channel c
    ready ← subscribe_semaphore r ch.writer_slots
    pure (ready, event_channel_write c value func)

  unfoldable pub execute : Selector K R → EventType → (event_round_cancelled : Bool) → N K R
  unfolding connected consume_read consume_write
  execute (event_timer date func) type cancelled = func
  execute (event_syscall id fd args return_code func) type true = func return_code
  execute (event_syscall id fd args last func) type false = do
    return_code ← syscall kernel id (fd ∷ args)
    func return_code
  execute (event_connect sockfd args return_code func) type true = func return_code
  execute (event_connect sockfd args last func) type false = do
    return_code ← connected kernel sockfd type
    func return_code
  execute (event_lock sema func) type cancelled = func
  execute (event_channel_read c func) type cancelled = do
    value ← consume_read c
    func (is_sema_wait type) value
  execute (event_channel_write c value func) type cancelled = do
    consume_write c value
    func (is_sema_wait type)

  -- The loop over the subscribers from `index` on: whether one was ready, the index where the loop ends, and
  -- the selectors.
  unfoldable pub subscribe_all : ℕ → List (Selector K R) → N K (Bool × ℕ × List (Selector K R))
  unfolding subscribe
  subscribe_all index [] = pure (false, index, [])
  subscribe_all index (s ∷ rest) = do
    subscribed ← subscribe s
    (if subscribed.0 then pure (true, index, subscribed.1 ∷ rest) else (do
      others ← subscribe_all (suc index) rest
      pure (others.0, others.1, subscribed.1 ∷ others.2)))

  unfoldable pub select_any : (suspend : ℕ → N K (Unit {0})) → List (Selector K R) → N K R
  unfolding subscribe_all finish_round execute
  select_any suspend selectors = do
    runtime (start_event_round r)
    round ← subscribe_all 0 selectors
    index ← finish_round r suspend round.0 round.1
    selector ← lift (get_elem? round.2 index)
    body ← runtime (State.routine r)
    execute selector body.happened_type round.0
