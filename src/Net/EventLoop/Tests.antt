-- ===== src/Net/EventLoop/Tests.antt =====
-- A loop that is interrupted once, and then told of two events, one of them its own.
use boson.Prelude.{◌-◌, ◌≡◌, refl, int, true, false, List, [], ◌∷◌, ◌++◌, none, some, arith}
use boson.Net.EventLoop.{
  EpollEvent, Waited, ready, failed, LoopKernel, Handler, max_iter_reached, EventLoop, eintr,
  status_of, wait,
}
use boson.Net.EventLoop.Order.{HandlerCall, reads, writes, closes, not_yet, once_more, wait_told}

abbrev next : List Waited → Waited × List Waited
next [] = (failed eintr, [])
next (w ∷ ws) = (w, ws)

abbrev script : LoopKernel (List Waited)
script = record {
  epoll_wait = λ timeout ws. next ws;
  epoll_add = λ fd ws. (none, ws);
  epoll_delete = λ fd ws. (none, ws);
  write_event = λ fd ws. (none, ws);
  read_event = λ fd ws. ws;
}

abbrev records : Handler (List HandlerCall)
records = record {
  read = λ fd status cs. some (cs ++ reads fd status ∷ []);
  write = λ fd status cs. some (cs ++ writes fd status ∷ []);
  closed = λ fd cs. some (cs ++ closes fd ∷ []);
}

abbrev own : EpollEvent
own = record { fd = 3; readable = true; writable = false; error = false; hang_up = false }

abbrev shut : EpollEvent
shut = record { fd = 5; readable = true; writable = true; error = false; hang_up = true }

abbrev answers : List Waited
answers = failed eintr ∷ ready (own ∷ shut ∷ []) ∷ []

abbrev started : EventLoop (List Waited) (List HandlerCall)
started = record {
  loop_breaker_event = 3;
  pending_commands = 9 ∷ 7 ∷ [];
  kernel = answers;
  handled = [];
}

wait_told_example :
    wait script records 2 (int 0) started
    ≡ some (
      max_iter_reached,
      record started {
        pending_commands = [];
        kernel = [];
        handled = closes 9 ∷ closes 7 ∷ reads 5 (int 0 - eintr) ∷ writes 5 (int 0 - eintr) ∷ [];
      },
    )
unfolding status_of
wait_told_example =
    wait_told records script 1 2 (int 0) started (ready (own ∷ shut ∷ []) ∷ []) [] own (shut ∷ [])
      (closes 9 ∷ closes 7 ∷ reads 5 (int 0 - eintr) ∷ writes 5 (int 0 - eintr) ∷ [])
      (once_more 0 answers (ready (own ∷ shut ∷ []) ∷ []) (ready (own ∷ shut ∷ []) ∷ []) refl
        (not_yet (ready (own ∷ shut ∷ []) ∷ [])))
      refl (omega arith) ((λ e. refl), ((λ e. refl), tt)) refl
