-- ===== src/Sync/Channel.antt =====
-- `boson::channel` of src/boson/boson/channel.h: a ring of `Size` values between two semaphores, one
-- with a ticket for each value to read and one with a ticket for each place to write. A wait that
-- nobody else's call satisfies ends by its timeout, or never if it has none; the queues of waiters are
-- not kept, only the counters. Calls/Channels.antt has the waits that another routine ends.
pub mod Contract
pub mod Window
pub mod Sequential
pub mod Writers
mod Tests
use boson.Prelude.{
  ℕ, ◌+◌, ◌-◌, ◌%◌, ◌^◌, ◌==◌, leb, Int32, int, add_size, sub_size, Bool, true, false, not, Option,
  none, some, Vector, get, put, filled, if◌then◌else◌, ◌>>=◌,
}
use boson.Sync.Semaphore.{
  SemaphoreReturnValue, is_ok, taken, refused, missed, take_ticket, restore_ticket, post_ticket,
  disabled_standpoint,
}

pub data ChannelResultValue : Type 0 where
  ok timedout closed : ChannelResultValue

-- `semaphore::wait` when nobody else posts: a missed ticket is restored, and the routine gives up when its
-- timeout is over. Without one it waits for ever, and the result is none.
unfoldable pub wait : Int32 → Int32 → Option SemaphoreReturnValue × Int32
unfolding take_ticket restore_ticket
wait timeout c =
    let (t, d) = take_ticket c in
    elim t [
      | taken ↦ (some SemaphoreReturnValue.ok, d)
      | refused ↦ (some SemaphoreReturnValue.disabled, d)
      | missed ↦ (
        if leb (int 0) timeout then some SemaphoreReturnValue.timedout else none,
        (restore_ticket d).1,
      )
    ]

pub record Channel (A : Type 0) : Type 0 where
  pub buffer : Vector A
  pub head : ℕ
  pub tail : ℕ
  pub readers_slots : Int32
  pub writer_slots : Int32

-- The result for a ticket that was refused.
unfoldable pub refusal : SemaphoreReturnValue → ChannelResultValue
refusal SemaphoreReturnValue.ok = closed
refusal SemaphoreReturnValue.timedout = timedout
refusal SemaphoreReturnValue.disabled = closed

module _ {A : Type 0} where
  -- The constructor: `Size` default values.
  unfoldable pub init : ℕ → A → Channel A
  init size default = record {
    buffer = filled size default;
    head = 0;
    tail = 0;
    readers_slots = int 0;
    writer_slots = int size;
  }

  unfoldable pub is_drained : Channel A → Bool
  is_drained c = sub_size c.head c.tail == 0

  unfoldable pub close : Channel A → Channel A
  unfolding is_drained
  close c = record c {
    writer_slots = disabled_standpoint;
    readers_slots = if is_drained c then disabled_standpoint else c.readers_slots;
  }

  -- The three steps of `consume_write`: the index, the value, the ticket for a reader.
  unfoldable pub reserve_write : Channel A → ℕ × Channel A
  reserve_write c = (c.head, record c { head = add_size c.head 1 })

  unfoldable pub store_write : Channel A → ℕ → A → Option (Channel A)
  store_write c head value = do
    buffer ← put c.buffer (head % c.buffer.size) value
    some (record c { buffer = buffer })

  unfoldable pub post_write : Channel A → Channel A
  post_write c = record c { readers_slots = (post_ticket c.readers_slots).2 }

  unfoldable pub consume_write : Channel A → A → Option (Channel A)
  unfolding reserve_write store_write post_write
  consume_write c value = do
    let reserved = reserve_write c
    stored ← store_write reserved.1 reserved.0 value
    some (post_write stored)

  -- The index and the value of `consume_read`, and then the ticket for a writer.
  unfoldable pub take_read : Channel A → Option (A × Channel A)
  take_read c = do
    value ← get c.buffer (c.tail % c.buffer.size)
    some (value, record c { tail = add_size c.tail 1 })

  unfoldable pub post_read : Channel A → Channel A
  unfolding is_drained
  post_read c =
      let (rc, wake, slots) = post_ticket c.writer_slots in
      record c {
        writer_slots = slots;
        readers_slots =
            if not (is_ok rc)
            then (if is_drained c then disabled_standpoint else c.readers_slots)
            else c.readers_slots;
      }

  unfoldable pub consume_read : Channel A → Option (A × Channel A)
  unfolding take_read post_read
  consume_read c = do (value, d) ← take_read c; some (value, post_read d)

  -- The result is none where the call does not return.
  unfoldable pub write : Channel A → A → Int32 → Option (Option ChannelResultValue × Channel A)
  unfolding wait refusal consume_write
  write c value timeout =
      let (result, slots) = wait timeout c.writer_slots in
      let waited = record c { writer_slots = slots } in
      elim result [
        | none ↦ some (none, waited)
        | some ticket ↦
            if not (is_ok ticket)
            then some (some (refusal ticket), waited)
            else do d ← consume_write waited value; some (some ok, d)
      ]

  -- The value is none where the variable of the caller is not assigned.
  unfoldable pub read :
      Channel A → Int32 → Option (Option ChannelResultValue × Option A × Channel A)
  unfolding wait refusal consume_read
  read c timeout =
      let (result, slots) = wait timeout c.readers_slots in
      let waited = record c { readers_slots = slots } in
      elim result [
        | none ↦ some (none, none, waited)
        | some ticket ↦
            if not (is_ok ticket)
            then some (some (refusal ticket), none, waited)
            else do (value, d) ← consume_read waited; some (some ok, some value, d)
      ]
