-- ===== src/Net/EventLoop/Order.antt =====
-- What a wait of the event loop tells its handler, and in which order.
use boson.Prelude.{
  ℕ, zero, suc, ◌<◌, ◌≡◌, refl, ap, ◌∙◌, ◌==◌, ==_iff, Int32, Bool-cases, true, List, [], ◌∷◌, ◌++◌,
  Option, none, some, if◌then◌else◌, ◌>>=◌, append-nil, arith, inl, inr,
}
use boson.Net.EventLoop.{
  EpollEvent, ready, failed, LoopKernel, Handler, max_iter_reached, EventLoop, eintr, status_of,
  dispatch, dispatch_all, close_all, unqueue, after_wait, wait,
}

-- The calls of the handler.
pub data HandlerCall : Type 0 where
  reads writes : ℕ → Int32 → HandlerCall
  closes : ℕ → HandlerCall

-- The calls for an event of a descriptor other than the loop's own: the read before the write.
abbrev pub event_calls : ℕ → EpollEvent → List HandlerCall
event_calls breaker e =
    if e.fd == breaker
    then []
    else (if e.readable then reads e.fd (status_of e) ∷ [] else [])
      ++ (if e.writable then writes e.fd (status_of e) ∷ [] else [])

abbrev pub all_calls : ℕ → List EpollEvent → List HandlerCall
all_calls breaker [] = []
all_calls breaker (e ∷ es) = event_calls breaker e ++ all_calls breaker es

abbrev pub close_calls : List ℕ → List HandlerCall
close_calls [] = []
close_calls (fd ∷ fds) = closes fd ∷ close_calls fds

-- The events of the loop's own descriptor are readable.
abbrev pub BreakerReads : ℕ → List EpollEvent → Type 0
BreakerReads breaker [] = Unit {0}
BreakerReads breaker (e ∷ es) = (e.fd ≡ breaker → e.readable ≡ true) × BreakerReads breaker es

module _ {H : Type 0} (handler : Handler H) where
  abbrev pub call : HandlerCall → H → Option H
  call (reads fd status) = handler.read fd status
  call (writes fd status) = handler.write fd status
  call (closes fd) = handler.closed fd

  abbrev pub run : List HandlerCall → H → Option H
  run [] h = some h
  run (c ∷ cs) h = do h' ← call c h; run cs h'

  -- A run that succeeds does so for a part of the calls, and then for the others.
  run-split :
      (cs ds : List HandlerCall) (h h' : H)
      → run (cs ++ ds) h ≡ some h'
      → (v : H) × (run cs h ≡ some v) × (run ds v ≡ some h')
  run-split [] ds h h' e = (h, refl, e)
  run-split (c ∷ cs) ds h h' e =
      elim (call c h)
          as (λ o. call c h ≡ o → (v : H) × (run (c ∷ cs) h ≡ some v) × (run ds v ≡ some h')) [
            | none ↦ λ f. absurd (ground (arith, e, f))
            | some u ↦ λ f.
                let (v, first, rest) = run-split cs ds u h' (ground (arith, e, f)) in
                (v, ground (arith, f, first), rest)
          ]
        refl

  module _ {K : Type 0} (kernel : LoopKernel K) where
    -- The kernel's state after the loop's own descriptor was read for its events.
    abbrev pub after_events : ℕ → List EpollEvent → K → K
    after_events breaker [] k = k
    after_events breaker (e ∷ es) k =
        after_events breaker es (if e.fd == breaker then kernel.read_event breaker k else k)

    dispatch_lem :
        (e : EpollEvent) (l : EventLoop K H) (h : H)
        → (e.fd ≡ l.loop_breaker_event → e.readable ≡ true)
        → run (event_calls l.loop_breaker_event e) l.handled ≡ some h
        → dispatch kernel handler e l
          ≡ some (record l {
            handled = h;
            kernel =
                if e.fd == l.loop_breaker_event
                then kernel.read_event l.loop_breaker_event l.kernel
                else l.kernel;
          })
    unfolding dispatch
    dispatch_lem e l h own calls = elim (Bool-cases (e.fd == l.loop_breaker_event)) [
      | inl hit ↦
          let readable = own ((==_iff e.fd l.loop_breaker_event).0 hit) in
          ground (arith, hit, readable, calls)
      | inr miss ↦ ground (arith, miss, calls)
    ]

    dispatch_all_lem :
        (es : List EpollEvent) (l : EventLoop K H) (h : H)
        → BreakerReads l.loop_breaker_event es
        → run (all_calls l.loop_breaker_event es) l.handled ≡ some h
        → dispatch_all kernel handler es l
          ≡ some (record l { handled = h; kernel = after_events l.loop_breaker_event es l.kernel })
    unfolding dispatch_all
    dispatch_all_lem [] l h own calls = ground (arith, calls)
    dispatch_all_lem (e ∷ es) l h own calls =
        let (v, first, rest) =
          run-split (event_calls l.loop_breaker_event e) (all_calls l.loop_breaker_event es)
            l.handled h calls in
        let l' : EventLoop K H = record l {
          handled = v;
          kernel =
              if e.fd == l.loop_breaker_event
              then kernel.read_event l.loop_breaker_event l.kernel
              else l.kernel;
        } in
        ground (arith, dispatch_lem e l v own.0 first, dispatch_all_lem es l' h own.1 rest)

    close_all_lem :
        (fds : List ℕ) (l : EventLoop K H) (h : H)
        → run (close_calls fds) l.handled ≡ some h
        → close_all kernel handler fds l ≡ some (record l { handled = h })
    unfolding close_all
    close_all_lem [] l h calls = ground (arith, calls)
    close_all_lem (fd ∷ fds) l h calls =
        let (v, first, rest) = run-split (closes fd ∷ []) (close_calls fds) l.handled h calls in
        let rest' = close_all_lem fds (record l { handled = v }) h rest in
        ground (arith, first, rest')

    -- The wait was interrupted by signals so many times.
    pub data Interrupted (timeout_ms : Int32) : ℕ → K → K → Type 0 where
      not_yet : (k : K) → Interrupted timeout_ms 0 k k
      once_more :
          (n : ℕ) (k k' k'' : K)
          → kernel.epoll_wait timeout_ms k ≡ (failed eintr, k')
          → Interrupted timeout_ms n k' k''
          → Interrupted timeout_ms (suc n) k k''

    -- Descriptors that were closed are told after the events, or, if the wait is interrupted first, before them.
    abbrev pub told : ℕ → ℕ → List EpollEvent → List ℕ → List HandlerCall
    told zero breaker es fds = all_calls breaker es ++ close_calls fds
    told (suc n) breaker es fds = close_calls fds ++ all_calls breaker es

    told_rest : (n breaker : ℕ) (es : List EpollEvent) → told n breaker es [] ≡ all_calls breaker es
    told_rest zero breaker es = append-nil (all_calls breaker es)
    told_rest (suc n) breaker es = refl

    -- A wait that is interrupted `n` times, and then has events, ends for any fuel above `n`. The handler was
    -- told the events in their order, the read of a descriptor before its write, and the closed descriptors
    -- from the oldest on, after the events, or before them if there was an interruption; the queue is empty, and
    -- the loop's own descriptor was read for each of its events. The handler accepts these calls, and an event
    -- of the loop's own descriptor is readable.
    pub wait_told :
        (n fuel : ℕ) (timeout_ms : Int32) (l : EventLoop K H) (k k' : K) (e : EpollEvent)
        (es : List EpollEvent) (h : H)
        → Interrupted timeout_ms n l.kernel k
        → kernel.epoll_wait timeout_ms k ≡ (ready (e ∷ es), k')
        → n < fuel
        → BreakerReads l.loop_breaker_event (e ∷ es)
        → run (told n l.loop_breaker_event (e ∷ es) l.pending_commands) l.handled ≡ some h
        → wait kernel handler fuel timeout_ms l
          ≡ some (
            max_iter_reached,
            record l {
              pending_commands = [];
              kernel = after_events l.loop_breaker_event (e ∷ es) k';
              handled = h;
            },
          )
    unfolding wait after_wait unqueue
    wait_told n zero timeout_ms l k k' e es h turns answer enough own calls = absurd (omega arith)
    wait_told n (suc fuel) timeout_ms l k k' e es h (not_yet k1) answer enough own calls =
        let (v, first, rest) =
          run-split (all_calls l.loop_breaker_event (e ∷ es)) (close_calls l.pending_commands)
            l.handled h calls in
        let l' : EventLoop K H = record l {
          kernel = after_events l.loop_breaker_event (e ∷ es) k';
          handled = v;
        } in
        let events = dispatch_all_lem (e ∷ es) (record l { kernel = k' }) v own first in
        let closes' =
          close_all_lem l.pending_commands (record l' { pending_commands = [] }) h rest in
        ground (arith, answer, events, closes')
    wait_told n (suc fuel) timeout_ms l k k' e es h (once_more m k1 k2 k3 again more) answer enough
          own calls =
        let (v, first, rest) =
          run-split (close_calls l.pending_commands) (all_calls l.loop_breaker_event (e ∷ es))
            l.handled h calls in
        let l' : EventLoop K H = record l { kernel = k2; handled = v; pending_commands = [] } in
        let closes' =
          close_all_lem l.pending_commands (record l { kernel = k2; pending_commands = [] }) v
            first in
        let ends =
          wait_told m fuel timeout_ms l' k k' e es h more answer (omega arith) own
            (ap (λ cs. run cs v) (told_rest m l.loop_breaker_event (e ∷ es)) ∙ rest) in
        ground (arith, again, closes', ends)
