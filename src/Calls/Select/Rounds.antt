-- ===== src/Calls/Select/Rounds.antt =====
-- Rounds of timers and system calls in `select_any`, against the answers of the kernel.
use boson.Prelude.{
  ℕ, suc, ◌+◌, ◌^◌, ◌<◌, ◌≡◌, ◌≢◌, sym, ap, subst, Int32, int, Bool, true, false, List, [], ◌∷◌,
  ◌++◌, some, arith, append-nil, append_assoc,
}
use boson.Runtime.State.{WaitedEvent, timer, io_read, io_write, sema_wait, World}
use boson.Runtime.Routine.Round.{counted}
use boson.Runtime.Routine.Opening.{Open, timer-Open, read-Open, write-Open}
use boson.Runtime.Routine.Round.Extending.{counted-append}
use boson.Runtime.Waits.{add_event}
use boson.Runtime.Waits.Prepared.{io_event}
use boson.Calls.State.{
  SyscallId, sys_connect, is_read, Answer, returned, failed, eagain, einprogress, Kernel, Channel,
  Os, N,
}
use boson.Calls.Syscalls.{minus_one, would_block}
use boson.Calls.Select.{
  Selector, event_timer, event_syscall, event_connect, subscribe, subscribe_all,
}

-- The result of a call: the return code, and `errno`, which was `e`.
abbrev pub code : Answer → Int32
code (returned n) = int n
code (failed e) = minus_one

abbrev pub errno_after : Answer → ℕ → ℕ
errno_after (returned n) e = e
errno_after (failed e') e = e'

-- The descriptors of a round are in the range of the poller.
abbrev pub InRange : ℕ → List WaitedEvent → Type 0
InRange size [] = Unit {0}
InRange size (timer date ∷ es) = InRange size es
InRange size (io_read fd ∷ es) = (fd < size) × InRange size es
InRange size (io_write fd ∷ es) = (fd < size) × InRange size es
InRange size (sema_wait s i l ∷ es) = InRange size es

fd-InRange : {size : ℕ} (read : Bool) (fd : ℕ) → InRange size (io_event read fd ∷ []) → fd < size
fd-InRange true fd h = h.0
fd-InRange false fd h = h.0

abbrev pub at : {K : Type 0} → World → (k : K) → (e : ℕ) → (ℕ → Channel) → Os K
at w k e chans = record { world = w; errno = e; kernel = k; channels = chans }

module _ (w0 : World) (r p : ℕ) where
  event-Open :
      (read : Bool) (es : List WaitedEvent) (w : World) (fd : ℕ)
      → Open w0 r p es w
      → fd < (w0.threads (w0.routines r).thread).event_loop.waiters.size
      → (w0.threads (w0.routines r).thread).nb_suspended_routines
          + counted es
          + counted (io_event read fd ∷ [])
        < 2 ^ 64
      → (w' : World) × (add_event read r fd w ≡ some (tt, w'))
        × Open w0 r p (es ++ io_event read fd ∷ []) w'
  event-Open true es w fd o range room = read-Open w0 r p es w fd o range room
  event-Open false es w fd o range room = write-Open w0 r p es w fd o range room

InRange-split :
    (size : ℕ) (event : WaitedEvent) (es : List WaitedEvent)
    → InRange size (event ∷ es)
    → InRange size (event ∷ []) × InRange size es
InRange-split size (timer date) es h = (tt, h)
InRange-split size (io_read fd) es h = ((h.0, tt), h.1)
InRange-split size (io_write fd) es h = ((h.0, tt), h.1)
InRange-split size (sema_wait s i l) es h = (tt, h)

counted-cons :
    (event : WaitedEvent) (es : List WaitedEvent)
    → counted (event ∷ es) ≡ counted (event ∷ []) + counted es
counted-cons (timer date) es = omega arith
counted-cons (io_read fd) es = omega arith
counted-cons (io_write fd) es = omega arith
counted-cons (sema_wait s i l) es = omega arith

module _ {K R : Type 0} (kernel : Kernel K) where
  -- A selector that waits, with its event, what is kept of it, and kernel and `errno` before and after.
  pub data Blocks (k : K) (e : ℕ) : Selector K R → Selector K R → WaitedEvent → K → ℕ → Type 0 where
    timer_blocks :
        (date : ℕ) (func : N K R)
        → Blocks k e (event_timer date func) (event_timer date func) (timer date) k e
    syscall_blocks :
        (id : SyscallId) (fd : ℕ) (args : List ℕ) (last : Int32) (func : Int32 → N K R) (k' : K)
        → kernel.call id (fd ∷ args) k ≡ (failed eagain, k')
        → Blocks k e
            (event_syscall id fd args last func)
            (event_syscall id fd args minus_one func)
            (io_event (is_read id) fd)
            k'
            eagain
    connect_blocks :
        (fd : ℕ) (args : List ℕ) (last : Int32) (func : Int32 → N K R) (k' : K)
        → kernel.call sys_connect (fd ∷ args) k ≡ (failed einprogress, k')
        → Blocks k e
            (event_connect fd args last func)
            (event_connect fd args minus_one func)
            (io_write fd)
            k'
            einprogress

  -- A selector whose call has its answer at once.
  pub data Ready (k : K) (e : ℕ) : Selector K R → Selector K R → K → ℕ → Type 0 where
    syscall_ready :
        (id : SyscallId) (fd : ℕ) (args : List ℕ) (last : Int32) (func : Int32 → N K R) (a : Answer)
        (k' : K)
        → kernel.call id (fd ∷ args) k ≡ (a, k')
        → a ≢ failed eagain
        → Ready k e
            (event_syscall id fd args last func)
            (event_syscall id fd args (code a) func)
            k'
            (errno_after a e)

  -- The loop of subscriptions: whether a selector was ready, how many were not before it, the selectors
  -- afterwards, and the events of the round.
  pub data Subscribed
      : K
        → ℕ
        → List (Selector K R)
        → Bool
        → ℕ
        → List (Selector K R)
        → List WaitedEvent
        → K
        → ℕ
        → Type 0 where
    all_wait : (k : K) (e : ℕ) → Subscribed k e [] false 0 [] [] k e
    one_ready :
        (k : K) (e : ℕ) (s s' : Selector K R) (rest : List (Selector K R)) (k' : K) (e' : ℕ)
        → Ready k e s s' k' e'
        → Subscribed k e (s ∷ rest) true 0 (s' ∷ rest) [] k' e'
    one_waits :
        (k : K) (e : ℕ) (s s' : Selector K R) (event : WaitedEvent) (k1 : K) (e1 : ℕ)
        (rest rest' : List (Selector K R)) (cancel : Bool) (n : ℕ) (events : List WaitedEvent)
        (k' : K) (e' : ℕ)
        → Blocks k e s s' event k1 e1
        → Subscribed k1 e1 rest cancel n rest' events k' e'
        → Subscribed k e (s ∷ rest) cancel (suc n) (s' ∷ rest') (event ∷ events) k' e'

  module _ (w0 : World) (r p : ℕ) (chans : ℕ → Channel) where
    subscribe-Blocks :
        (es : List WaitedEvent) (w : World) (k k' : K) (e e' : ℕ) (s s' : Selector K R)
        (event : WaitedEvent)
        → Blocks k e s s' event k' e'
        → Open w0 r p es w
        → InRange (w0.threads (w0.routines r).thread).event_loop.waiters.size (event ∷ [])
        → (w0.threads (w0.routines r).thread).nb_suspended_routines
            + counted es
            + counted (event ∷ [])
          < 2 ^ 64
        → (w' : World) × (subscribe kernel r s (at w k e chans)
            ≡ some ((false, s'), at w' k' e' chans))
          × Open w0 r p (es ++ event ∷ []) w'
    unfolding subscribe would_block
    subscribe-Blocks es w k k' e e' s s' event (timer_blocks date func) o range room =
        let (w', f, o') = timer-Open w0 r p es w date o in (w', ground (arith, f), o')
    subscribe-Blocks es w k k' e e' s s' event (syscall_blocks id fd args last func k1 asked) o
          range room =
        let (w', f, o') =
          event-Open w0 r p (is_read id) es w fd o (fd-InRange (is_read id) fd range) room in
        (w', ground (arith, f, asked), o')
    subscribe-Blocks es w k k' e e' s s' event (connect_blocks fd args last func k1 asked) o range
          room =
        let (w', f, o') = event-Open w0 r p false es w fd o range.0 room in
        (w', ground (arith, f, asked), o')

    subscribe-Ready :
        (w : World) (k k' : K) (e e' : ℕ) (s s' : Selector K R)
        → Ready k e s s' k' e'
        → subscribe kernel r s (at w k e chans) ≡ some ((true, s'), at w k' e' chans)
    unfolding subscribe would_block
    subscribe-Ready w k k' e e' s s'
          (syscall_ready id fd args last func (returned n) k1 asked other) =
        ground (arith, asked)
    subscribe-Ready w k k' e e' s s'
          (syscall_ready id fd args last func (failed n) k1 asked other) =
        let differs : n ≢ eagain = λ q. other (ap failed q) in ground (arith, asked, differs)

    pub subscribe_all-Subscribed :
        (i : ℕ) (es : List WaitedEvent) (w : World) (k k' : K) (e e' n : ℕ)
        (ss ss' : List (Selector K R)) (cancel : Bool) (events : List WaitedEvent)
        → Subscribed k e ss cancel n ss' events k' e'
        → Open w0 r p es w
        → InRange (w0.threads (w0.routines r).thread).event_loop.waiters.size events
        → (w0.threads (w0.routines r).thread).nb_suspended_routines + counted es + counted events
          < 2 ^ 64
        → (w' : World) × (subscribe_all kernel r i ss (at w k e chans)
            ≡ some ((cancel, i + n, ss'), at w' k' e' chans))
          × Open w0 r p (es ++ events) w'
    unfolding subscribe_all
    subscribe_all-Subscribed i es w k k' e e' n ss ss' cancel events (all_wait k1 e1) o range room =
        (w, ground arith, subst (λ l. Open w0 r p l w) (sym (append-nil es)) o)
    subscribe_all-Subscribed i es w k k' e e' n ss ss' cancel events
          (one_ready k1 e1 s s' rest k2 e2 h) o range room =
        (
          w,
          ground (arith, subscribe-Ready w k k' e e' s s' h),
          subst (λ l. Open w0 r p l w) (sym (append-nil es)) o,
        )
    subscribe_all-Subscribed i es w k k' e e' n ss ss' cancel events
          (one_waits k1 e1 s s' event k2 e2 rest rest' c m evs k3 e3 b h) o range room =
        let (here, there) =
          InRange-split (w0.threads (w0.routines r).thread).event_loop.waiters.size event evs
            range in
        let sum = counted-cons event evs in
        let (v, f, ov) =
          subscribe-Blocks es w k k2 e e2 s s' event b o here (omega (arith, room, sum)) in
        let (w', g, o') =
          subscribe_all-Subscribed (suc i) (es ++ event ∷ []) v k2 k' e2 e' m rest rest' c evs h ov
            there (omega (arith, room, sum, counted-append es event)) in
        (
          w',
          ground (arith, f, g),
          subst (λ l. Open w0 r p l w') (append_assoc es (event ∷ []) evs) o',
        )
