-- ===== src/Sync/EmptyChannel.antt =====
-- The specialisation of `channel_impl` for `std::nullptr_t` in src/boson/boson/channel.h: no buffer,
-- only the two semaphores. Counters and waits are as in Sync/Channel.antt.
mod Tests
use boson.Prelude.{
  Option, none, some, leb, ℕ, ◌+◌, ◌-◌, ◌<◌, ◌≤◌, ◌≡◌, ◌^◌, Int32, int, Bool, true, false, not,
  if◌then◌else◌, arith,
}
use boson.Sync.Semaphore.{is_ok, take_ticket, restore_ticket, post_ticket, disabled_standpoint}
use boson.Sync.Channel.{ChannelResultValue, ok, timedout, wait, refusal}

pub record EmptyChannel : Type 0 where
  pub readers_slots : Int32
  pub writer_slots : Int32

unfoldable pub init : ℕ → EmptyChannel
init size = record { readers_slots = int 0; writer_slots = int size }

unfoldable pub close : EmptyChannel → EmptyChannel
close c = record { readers_slots = disabled_standpoint; writer_slots = disabled_standpoint }

unfoldable pub consume_write : EmptyChannel → EmptyChannel
consume_write c = record c { readers_slots = (post_ticket c.readers_slots).2 }

unfoldable pub consume_read : EmptyChannel → EmptyChannel
consume_read c = record c { writer_slots = (post_ticket c.writer_slots).2 }

-- The result is none where the call does not return.
unfoldable pub write : EmptyChannel → Int32 → Option ChannelResultValue × EmptyChannel
unfolding wait refusal consume_write
write c timeout =
    let (result, slots) = wait timeout c.writer_slots in
    let waited = record c { writer_slots = slots } in
    elim result [
      | none ↦ (none, waited)
      | some ticket ↦
          if not (is_ok ticket)
          then (some (refusal ticket), waited)
          else (some ok, consume_write waited)
    ]

unfoldable pub read : EmptyChannel → Int32 → Option ChannelResultValue × EmptyChannel
unfolding wait refusal consume_read
read c timeout =
    let (result, slots) = wait timeout c.readers_slots in
    let waited = record c { readers_slots = slots } in
    elim result [
      | none ↦ (none, waited)
      | some ticket ↦
          if not (is_ok ticket)
          then (some (refusal ticket), waited)
          else (some ok, consume_read waited)
    ]

-- `n` items were written and not read, of at most `size`.
abbrev pub holding : ℕ → ℕ → EmptyChannel
holding size n = record { readers_slots = int n; writer_slots = int (size - n) }

-- A channel of nothing counts: up to the size a write adds an item and a full channel refuses it; a
-- read takes an item and an empty channel refuses it. Each call has a timeout.
pub holding_counts :
    (size n : ℕ) (timeout : Int32)
    → size ≤ 0x40000000
    → n < size
    → int 0 ≤ timeout
    → (write (holding size n) timeout ≡ (some ok, holding size (n + 1)))
      × (write (holding size size) timeout ≡ (some timedout, holding size size))
      × (read (holding size (n + 1)) timeout ≡ (some ok, holding size n))
      × (read (holding size 0) timeout ≡ (some timedout, holding size 0))
unfolding write read take_ticket restore_ticket post_ticket is_ok
holding_counts size n timeout h k l = (ground arith, ground arith, ground arith, ground arith)
