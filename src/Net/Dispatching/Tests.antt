-- ===== src/Net/Dispatching/Tests.antt =====
-- A netpoller of 8 descriptors with a reader and no writer at each, of which two are told.
use boson.Prelude.{◌≡◌, int, true, false, List, [], ◌∷◌, some, arith}
use boson.Net.Poller.{Poller}
use boson.Net.EventLoop.Order.{reads, writes, closes, run}
use boson.Net.Dispatching.{poller_handler}
use boson.Net.Dispatching.Counting.{NetCall, recording, read_status, write_status, Woken}
use boson.Net.Dispatching.Once.{run-Woken}

abbrev watched : Poller
watched = record {
  waiters = record {
    size = 8;
    at = λ i. record {
      registered = true;
      read_enabled = true;
      write_enabled = false;
      read_data = i;
      write_data = 0;
    };
  };
  force_next_loop_immediate_exit = false;
  looping = true;
  platform = [];
}

run-Woken_example :
    (p' : Poller) × (log' : List NetCall) × (run
        (poller_handler recording)
        (reads 5 (int 0) ∷ writes 6 (int 0) ∷ closes 5 ∷ [])
        (watched, [])
      ≡ some (p', log'))
    × Woken watched []
        (λ fd. read_status fd (reads 5 (int 0) ∷ writes 6 (int 0) ∷ closes 5 ∷ []))
        (λ fd. write_status fd (reads 5 (int 0) ∷ writes 6 (int 0) ∷ closes 5 ∷ []))
        p'
        log'
run-Woken_example =
    run-Woken (reads 5 (int 0) ∷ writes 6 (int 0) ∷ closes 5 ∷ []) watched []
      (omega arith, (omega arith, (omega arith, tt)))
