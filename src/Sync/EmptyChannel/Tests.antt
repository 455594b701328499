-- ===== src/Sync/EmptyChannel/Tests.antt =====
-- The channel of nothing at concrete sizes.
use boson.Prelude.{◌≡◌, int, ◌-◌, refl, some, arith}
use boson.Sync.Semaphore.{is_ok, take_ticket, post_ticket}
use boson.Sync.Channel.{ok, timedout, closed}
use boson.Sync.EmptyChannel.{read, write, close, holding, holding_counts}

holding_counts_trial :
    (write (holding 3 1) (int 5) ≡ (some ok, holding 3 2))
    × (write (holding 3 3) (int 5) ≡ (some timedout, holding 3 3))
    × (read (holding 3 2) (int 5) ≡ (some ok, holding 3 1))
    × (read (holding 3 0) (int 5) ≡ (some timedout, holding 3 0))
holding_counts_trial = holding_counts 3 1 (int 5) (omega arith) (omega arith) (omega arith)

-- `close` refuses the readers at once, whatever was written.
read_closed : read (close (holding 3 2)) (int 0 - 1) ≡ (some closed, close (holding 3 2))
unfolding read close take_ticket post_ticket is_ok
read_closed = refl
