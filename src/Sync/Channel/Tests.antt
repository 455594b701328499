-- ===== src/Sync/Channel/Tests.antt =====
-- Runs of a channel, and its theorems at concrete channels.
use boson.Prelude.{ℕ, ◌-◌, ◌≡◌, refl, int, false, List, [], ◌∷◌, none, some, arith}
use boson.Sync.Channel.{Channel, ok, timedout, closed, init, read, write, close}
use boson.Sync.Semaphore.{is_ok, post_ticket}
use boson.Sync.Channel.Contract.{Call, writes, reads, closes, run, and_then, step, spec_run}
use boson.Sync.Channel.Sequential.{Holds, init-Holds, channel_refines}
use boson.Sync.Channel.Writers.{overtaken, overtaken-stale}

abbrev script : List (Call ℕ)
script =
    writes 1 (int 0 - 1)
    ∷ writes 2 (int 5)
    ∷ writes 3 (int 0)
    ∷ reads (int 0 - 1)
    ∷ reads (int 0)
    ∷ reads (int 7)
    ∷ writes 4 (int 0)
    ∷ closes
    ∷ writes 5 (int 0 - 1)
    ∷ reads (int 0 - 1)
    ∷ reads (int 0 - 1)
    ∷ []

abbrev fresh : Channel ℕ
fresh = record {
  buffer = record { size = 2; at = λ _. 0 };
  head = 0;
  tail = 0;
  readers_slots = int 0;
  writer_slots = int 2;
}

script_replies :
    run fresh script
    ≡ some (
        some (ok, none)
        ∷ some (ok, none)
        ∷ some (timedout, none)
        ∷ some (ok, some 1)
        ∷ some (ok, some 2)
        ∷ some (timedout, none)
        ∷ some (ok, none)
        ∷ some (ok, none)
        ∷ some (closed, none)
        ∷ some (ok, some 4)
        ∷ some (closed, none)
        ∷ [])
unfolding run and_then step read write close is_ok post_ticket
script_replies = refl

-- A read of an empty channel without a timeout does not return, and no later call is made.
endless_replies :
    run fresh (writes 1 (int 0) ∷ reads (int 0) ∷ reads (int 0 - 1) ∷ writes 2 (int 0) ∷ [])
    ≡ some (some (ok, none) ∷ some (ok, some 1) ∷ none ∷ [])
unfolding run and_then step read write close is_ok post_ticket
endless_replies = refl

fresh-Holds : Holds 2 fresh (record { items = []; is_closed = false })
unfolding init
fresh-Holds = init-Holds 2 0 (omega arith) (omega arith)

channel_refines_example :
    run fresh script ≡ some (spec_run 2 (record { items = []; is_closed = false }) script)
channel_refines_example = channel_refines 2 script fresh _ fresh-Holds (omega arith)

overtaken-stale_example : overtaken fresh 9 ≡ some (some ok, some 0)
overtaken-stale_example = overtaken-stale fresh 9 (omega arith) refl refl (omega arith)
