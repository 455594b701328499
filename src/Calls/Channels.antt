-- ===== src/Calls/Channels.antt =====
-- `channel_impl` of src/boson/boson/channel.h in the runtime, where a post can wake a waiter and a wait can
-- give the control away.
pub mod Tickets
pub mod Handed
mod Tests
use boson.Prelude.{
  ℕ, Int32, Option, none, some, not, ◌%◌, ◌==◌, get, put, add_size, sub_size, if◌then◌else◌,
}
use boson.Sync.Semaphore.{SemaphoreReturnValue, is_ok}
use boson.Sync.Channel.{ChannelResultValue, refusal}
use boson.Runtime.Semaphores.{post, disable, begin_wait, end_wait}
use boson.Calls.State.{N, pure, ◌>>=◌, ◌>>◌, runtime, channel, set_channel, lift}

module _ {K : Type 0} where
  unfoldable pub consume_write : ℕ → ℕ → N K (Unit {0})
  unfolding post
  consume_write c value = do
    ch ← channel c
    set_channel c (record ch { head = add_size ch.head 1 })
    buffer ← lift (put ch.buffer (ch.head % ch.buffer.size) value)
    set_channel c (record ch { head = add_size ch.head 1; buffer = buffer })
    rc ← runtime (post ch.readers_slots)
    pure tt

  -- `if (head_ - tail_ == 0) readers_slots_.disable()`
  unfoldable pub disable_if_drained : ℕ → N K (Unit {0})
  unfolding disable
  disable_if_drained c = do
    ch ← channel c
    (if sub_size ch.head ch.tail == 0 then runtime (disable ch.readers_slots) else pure tt)

  unfoldable pub consume_read : ℕ → N K ℕ
  unfolding post disable_if_drained
  consume_read c = do
    ch ← channel c
    set_channel c (record ch { tail = add_size ch.tail 1 })
    value ← lift (get ch.buffer (ch.tail % ch.buffer.size))
    rc ← runtime (post ch.writer_slots)
    (if is_ok rc then pure tt else disable_if_drained c)
    pure value

  unfoldable pub close : ℕ → N K (Unit {0})
  unfolding disable disable_if_drained
  close c = do ch ← channel c; runtime (disable ch.writer_slots); disable_if_drained c

-- What happens while a routine waits is the parameter `suspend`.
module _ {K : Type 0} (suspend : ℕ → N K (Unit {0})) where
  -- `semaphore::wait`.
  unfoldable pub wait : (now r s : ℕ) → Int32 → N K SemaphoreReturnValue
  unfolding begin_wait end_wait
  wait now r s timeout = do
    ticket ← runtime (begin_wait now r s timeout)
    elim ticket [ some value ↦ pure value | none ↦ suspend r >> runtime (end_wait r) ]

  unfoldable pub write : (now r c value : ℕ) → Int32 → N K ChannelResultValue
  unfolding wait refusal consume_write
  write now r c value timeout = do
    ch ← channel c
    ticket ← wait now r ch.writer_slots timeout
    if not (is_ok ticket)
        then pure (refusal ticket)
        else (do consume_write c value; pure ChannelResultValue.ok)

  -- The value is none where the variable of the caller is not assigned.
  unfoldable pub read : (now r c : ℕ) → Int32 → N K (ChannelResultValue × Option ℕ)
  unfolding wait refusal consume_read
  read now r c timeout = do
    ch ← channel c
    ticket ← wait now r ch.readers_slots timeout
    if not (is_ok ticket)
        then pure (refusal ticket, none)
        else (do value ← consume_read c; pure (ChannelResultValue.ok, some value))
