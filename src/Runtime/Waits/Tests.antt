-- ===== src/Runtime/Waits/Tests.antt =====
-- A routine that waits for descriptor 5 for 20 ms.
use boson.Prelude.{ℕ, ◌≡◌, Int32, true, some, arith}
use boson.Runtime.State.{EventType, wait_events, World}
use boson.Runtime.Routine.{timed_out}
use boson.Runtime.Sample.{world, host-SlotsOk}
use boson.Runtime.Waits.{prepare_wait}
use boson.Runtime.Waits.Prepared.{WokenFrom, prepare_wait_wakes}

prepare_wait_wakes_example :
    (w : World) × (prepare_wait true (some 20) 7000000 0 5 world ≡ some (tt, w))
    × ((w.routines 0).status ≡ wait_events)
    × ((rc : Int32) → WokenFrom world w 0 0 1 rc EventType.io_read rc)
    × ((timeout_ms : ℕ) (rc : Int32)
        → some 20 ≡ some timeout_ms
        → WokenFrom world w 0 1 1 rc EventType.timer timed_out)
prepare_wait_wakes_example =
    prepare_wait_wakes true (some 20) 7000000 0 5 world host-SlotsOk (omega arith) (omega arith)
