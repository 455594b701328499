-- ===== src/Net/EventLoop.antt =====
-- `io_event_loop` on Linux, src/boson/src/linux/io_event_loop_impl.h and io_event_loop_impl.cc. Epoll and the
-- event descriptor are the kernel's: its state `K` and its answers are parameters, and so is the handler with its
-- state `H`. `none` is a failed assertion or a thrown exception.
pub mod Order
mod Tests
use boson.Prelude.{
  ℕ, zero, suc, ◌-◌, ◌==◌, Int32, int, Bool, true, false, ◌&&◌, ◌||◌, List, [], ◌∷◌, ◌++◌, Option,
  none, some, if◌then◌else◌, ◌>>=◌,
}

-- EPOLLIN, EPOLLOUT, EPOLLERR and EPOLLRDHUP of an event.
pub record EpollEvent : Type 0 where
  pub fd : ℕ
  pub readable : Bool
  pub writable : Bool
  pub error : Bool
  pub hang_up : Bool

pub data Waited : Type 0 where
  ready : List EpollEvent → Waited
  failed : (errno : ℕ) → Waited

-- A call of the kernel that fails gives its `errno`.
pub record LoopKernel (K : Type 0) : Type 0 where
  pub epoll_wait : Int32 → K → Waited × K
  pub epoll_add : ℕ → K → Option ℕ × K
  pub epoll_delete : ℕ → K → Option ℕ × K
  pub write_event : ℕ → K → Option ℕ × K
  pub read_event : ℕ → K → K

-- `io_event_handler`.
pub record Handler (H : Type 0) : Type 0 where
  pub read : ℕ → Int32 → H → Option H
  pub write : ℕ → Int32 → H → Option H
  pub closed : ℕ → H → Option H

pub data LoopEndReason : Type 0 where
  max_iter_reached timed_out error_occured : LoopEndReason

-- The commands of the queue are descriptors that were closed, oldest first.
pub record EventLoop (K H : Type 0) : Type 0 where
  pub loop_breaker_event : ℕ
  pub pending_commands : List ℕ
  pub kernel : K
  pub handled : H

-- Linux's numbers.
abbrev pub eperm : ℕ
eperm = 1

abbrev pub eintr : ℕ
eintr = 4

abbrev pub ebadf : ℕ
ebadf = 9

abbrev pub efault : ℕ
efault = 14

abbrev pub einval : ℕ
einval = 22

-- The status of an event for the handler: `interrupted ? -EINTR : 0`.
unfoldable pub status_of : EpollEvent → Int32
status_of e = if e.error || e.hang_up then int 0 - eintr else int 0

module _ {K H : Type 0} (kernel : LoopKernel K) where
  unfoldable pub interrupt : EventLoop K H → Option (EventLoop K H)
  interrupt l =
      let asked = kernel.write_event l.loop_breaker_event l.kernel in
      elim asked.0 [ none ↦ some (record l { kernel = asked.1 }) | some e ↦ none ]

  -- A failure with EPERM is let through.
  unfoldable pub register_fd : ℕ → EventLoop K H → Option (EventLoop K H)
  register_fd fd l =
      let asked = kernel.epoll_add fd l.kernel in
      elim asked.0 [
        | none ↦ some (record l { kernel = asked.1 })
        | some e ↦ if e == eperm then some (record l { kernel = asked.1 }) else none
      ]

  unfoldable pub unregister : ℕ → EventLoop K H → Option (EventLoop K H)
  unregister fd l =
      let asked = kernel.epoll_delete fd l.kernel in
      let told : EventLoop K H = record l {
        kernel = asked.1;
        pending_commands = l.pending_commands ++ fd ∷ [];
      } in
      elim asked.0 [ none ↦ some told | some e ↦ if e == eperm then some told else none ]

  module _ (handler : Handler H) where
    abbrev pub handle : (H → Option H) → EventLoop K H → Option (EventLoop K H)
    handle f l = do h ← f l.handled; some (record l { handled = h })

    unfoldable pub dispatch : EpollEvent → EventLoop K H → Option (EventLoop K H)
    unfolding status_of
    dispatch e l =
        if e.fd == l.loop_breaker_event
        then (if e.readable
            then some (record l { kernel = kernel.read_event l.loop_breaker_event l.kernel })
            else none)
        else (do
          l' ← (if e.readable then handle (handler.read e.fd (status_of e)) l else some l)
          (if e.writable then handle (handler.write e.fd (status_of e)) l' else some l'))

    unfoldable pub dispatch_all : List EpollEvent → EventLoop K H → Option (EventLoop K H)
    unfolding dispatch
    dispatch_all [] l = some l
    dispatch_all (e ∷ es) l = do l' ← dispatch e l; dispatch_all es l'

    -- The commands, from the oldest on; those that other threads add meanwhile wait for the next time.
    unfoldable pub close_all : List ℕ → EventLoop K H → Option (EventLoop K H)
    close_all [] l = some l
    close_all (fd ∷ fds) l = do l' ← handle (handler.closed fd) l; close_all fds l'

    unfoldable pub unqueue : EventLoop K H → Option (EventLoop K H)
    unfolding close_all
    unqueue l = close_all l.pending_commands (record l { pending_commands = [] })

    -- One turn of the loop of `wait`: how it ends, or that it is tried again.
    unfoldable pub after_wait :
        Int32 → Waited → EventLoop K H → Option (Option LoopEndReason × EventLoop K H)
    unfolding dispatch_all unqueue
    after_wait timeout_ms (ready []) l =
        if timeout_ms == int 0
        then (do l' ← unqueue l; some (some max_iter_reached, l'))
        else some (some timed_out, l)
    after_wait timeout_ms (ready (e ∷ es)) l = do
      l' ← dispatch_all (e ∷ es) l
      l'' ← unqueue l'
      some (some max_iter_reached, l'')
    after_wait timeout_ms (failed e) l =
        if e == ebadf || e == efault || e == einval
        then none
        else (do l' ← unqueue l; some ((if e == eintr then none else some max_iter_reached), l'))

    -- Without fuel it is a fault.
    unfoldable pub wait : ℕ → Int32 → EventLoop K H → Option (LoopEndReason × EventLoop K H)
    unfolding after_wait
    wait zero timeout_ms l = none
    wait (suc n) timeout_ms l =
        let waited = kernel.epoll_wait timeout_ms l.kernel in
        (after_wait timeout_ms waited.0 (record l { kernel = waited.1 }) >>= λ turn. elim turn.0 [
          | some reason ↦ some (reason, turn.1)
          | none ↦ wait n timeout_ms turn.1
        ])
