-- ===== src/Sync/Channel/Writers.antt =====
-- Two writers of one channel on two threads. `consume_write` takes its index first and stores its
-- value later, so the ticket that one writer gives can let a reader reach the place of the other.
use boson.Prelude.{◌+◌, ◌%◌, ◌^◌, ◌<◌, ◌≡◌, int, Option, some, ◌>>=◌, arith}
use native.Mathlib.Nat.{mod-lt}
use boson.Sync.Semaphore.{take_ticket, post_ticket, is_ok}
use boson.Sync.Channel.{
  Channel, ChannelResultValue, ok, reserve_write, store_write, post_write, read,
}
use boson.Sync.Channel.Window.{places_ne}

module _ {A : Type 0} where
  -- The first writer takes its index; the second writes its value and posts; a reader that waits for a
  -- ticket and gives up at once reads.
  unfoldable pub overtaken : Channel A → A → Option (Option ChannelResultValue × Option A)
  overtaken c second = do
    let slow = reserve_write c
    let fast = reserve_write slow.1
    stored ← store_write fast.1 fast.0 second
    (result, value, drained) ← read (post_write stored) (int 0)
    some (result, value)

  -- On an empty channel of at least two places the ticket of the second writer lets the reader through,
  -- and it gets what the place of the first writer held before, and neither of the two values.
  pub overtaken-stale :
      (c : Channel A) (second : A)
      → 1 < c.buffer.size
      → c.tail ≡ c.head
      → c.readers_slots ≡ int 0
      → c.head + 2 < 2 ^ 64
      → overtaken c second ≡ some (some ok, some (c.buffer.at (c.head % c.buffer.size)))
  unfolding overtaken reserve_write store_write post_write read take_ticket post_ticket is_ok
  overtaken-stale c second h e r k = ground (
    arith,
    mod-lt c.head {m = c.buffer.size},
    mod-lt (c.head + 1) {m = c.buffer.size},
    places_ne c.head (c.head + 1) c.buffer.size,
  )
