-- ===== src/Calls/Select/Tests.antt =====
-- A routine that selects among a timer, a read that would block, and a write of 3 bytes, and from a channel.
use boson.Prelude.{
  ℕ, ◌≡◌, ◌≢◌, refl, Int32, int, true, false, List, [], ◌∷◌, some, arith, get_elem?, decrement,
}
use boson.Runtime.State.{WaitedEvent, timer, io_read, EventType, wait_events, World}
use boson.Runtime.Sample.{world, queue, host-SlotsOk}
use boson.Runtime.Routine.Cancelling.{Cancelled}
use boson.Runtime.Routine.Wakeup.{outcome}
use boson.Runtime.Waits.Prepared.{WokenFrom}
use boson.Calls.State.{sys_read, sys_write, Answer, returned, failed, eagain, Os, pure, ◌>>=◌}
use boson.Calls.Sample.{script, wakes_with, chan}
use boson.Calls.Syscalls.{minus_one}
use boson.Calls.Channels.{consume_read}
use boson.Calls.Select.{
  Selector, event_timer, event_syscall, event_channel_read, select_any, execute,
}
use boson.Calls.Select.Rounds.{
  all_wait, one_ready, one_waits, timer_blocks, syscall_blocks, syscall_ready, at,
}
use boson.Calls.Select.Outcomes.{select_any_ready, select_any_waits}
use boson.Calls.Select.Reports.{select_any_stale}

abbrev by_date : Selector (List Answer) Int32
by_date = event_timer 100 (pure (int 9))

abbrev reading : Int32 → Selector (List Answer) Int32
reading last = event_syscall sys_read 5 (64 ∷ 10 ∷ []) last pure

abbrev writing : Int32 → Selector (List Answer) Int32
writing last = event_syscall sys_write 6 (64 ∷ 3 ∷ []) last pure

not_blocked : returned 3 ≢ failed eagain
not_blocked = cc

select_any_ready_example :
    (w : World) × (select_any script 0
        (wakes_with (int 1))
        (by_date ∷ reading (int 0) ∷ writing (int 0) ∷ [])
        (at world (failed eagain ∷ returned 3 ∷ []) 0 (λ c. chan))
      ≡ some (int 3, at w [] eagain (λ c. chan)))
    × Cancelled world 0 1 w
select_any_ready_example =
    select_any_ready script (wakes_with (int 1)) 0 world (λ c. chan)
      (failed eagain ∷ returned 3 ∷ []) [] 0 eagain 2
      (by_date ∷ reading (int 0) ∷ writing (int 0) ∷ [])
      (by_date ∷ reading minus_one ∷ writing (int 3) ∷ []) (timer 100 ∷ io_read 5 ∷ []) sys_write 6
      (64 ∷ 3 ∷ []) (int 3) pure
      (one_waits (failed eagain ∷ returned 3 ∷ []) 0 by_date by_date (timer 100)
        (failed eagain ∷ returned 3 ∷ []) 0 _ _ true 1 (io_read 5 ∷ []) [] eagain
        (timer_blocks 100 (pure (int 9)))
        (one_waits (failed eagain ∷ returned 3 ∷ []) 0 (reading (int 0)) (reading minus_one)
          (io_read 5) (returned 3 ∷ []) eagain _ _ true 0 [] [] eagain
          (syscall_blocks sys_read 5 (64 ∷ 10 ∷ []) (int 0) pure (returned 3 ∷ []) refl)
          (one_ready (returned 3 ∷ []) eagain (writing (int 0)) (writing (int 3)) [] [] eagain (
            syscall_ready sys_write 6 (64 ∷ 3 ∷ []) (int 0) pure (returned 3) [] refl
              not_blocked))))
      refl host-SlotsOk (omega arith, tt) (omega arith)

select_any_waits_example :
    (w : World) × ((w.routines 0).status ≡ wait_events)
    × ((index : ℕ) (event : WaitedEvent) (rc code : Int32) (type : EventType)
        → get_elem? (timer 100 ∷ io_read 5 ∷ []) index ≡ some event
        → outcome event rc ≡ some (type, code)
        → WokenFrom world w 0 index 1 rc type code)
    × ((index : ℕ) (selector : Selector (List Answer) Int32) (o : Os (List Answer))
        → wakes_with (int 1) 0 (at w [] eagain (λ c. chan)) ≡ some (tt, o)
        → (o.world.routines 0).happened_index ≡ index
        → get_elem? (by_date ∷ reading minus_one ∷ []) index ≡ some selector
        → select_any script 0
            (wakes_with (int 1))
            (by_date ∷ reading (int 0) ∷ [])
            (at world (failed eagain ∷ []) 0 (λ c. chan))
          ≡ execute script 0 selector (o.world.routines 0).happened_type false o)
select_any_waits_example =
    select_any_waits script (wakes_with (int 1)) 0 world (λ c. chan) (failed eagain ∷ []) [] 0
      eagain 2 (by_date ∷ reading (int 0) ∷ []) (by_date ∷ reading minus_one ∷ [])
      (timer 100 ∷ io_read 5 ∷ [])
      (one_waits (failed eagain ∷ []) 0 by_date by_date (timer 100) (failed eagain ∷ []) 0 _ _ false
        1 (io_read 5 ∷ []) [] eagain (timer_blocks 100 (pure (int 9)))
        (one_waits (failed eagain ∷ []) 0 (reading (int 0)) (reading minus_one) (io_read 5) []
          eagain _ _ false 0 [] [] eagain
          (syscall_blocks sys_read 5 (64 ∷ 10 ∷ []) (int 0) pure [] refl) (all_wait [] eagain)))
      host-SlotsOk (omega arith, tt) (omega arith)

abbrev open_world : World
open_world = record world { semaphores = λ s. some (record { waiters = queue; counter = int 1 }) }

select_any_stale_example :
    (w : World) × (select_any script 0
        (wakes_with (int 1))
        (event_channel_read 0 (λ success value. pure success) ∷ [])
        (at open_world [] 0 (λ c. chan))
      ≡ (consume_read 0 >>= λ value. pure false) (at w [] 0 (λ c. chan)))
    × (w.semaphores 7 ≡ some (record { waiters = queue; counter = decrement (int 1) }))
    × (w.threads ≡ open_world.threads)
select_any_stale_example =
    select_any_stale script (wakes_with (int 1)) 0 open_world (λ c. chan) [] 0 0
      (λ success value. pure success) (record { waiters = queue; counter = int 1 }) refl
      (omega arith)
