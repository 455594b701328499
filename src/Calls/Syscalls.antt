-- ===== src/Calls/Syscalls.antt =====
-- `wait_readiness`, the calls that wait until a descriptor is ready, and the others of
-- src/boson/src/syscalls.cc, with src/boson/boson/syscall_traits.h. What happens from the switch to the
-- thread's context until the routine is resumed is the parameter `suspend`; `r` is the running routine.
-- Timeouts are not negative.
pub mod Retries
pub mod Returns
mod Tests
use Prim.Native.Nat.{bit_or}
use boson.Prelude.{
  ℕ, zero, suc, ◌+◌, ◌-◌, ◌==◌, ltb, leb, Int32, int, Bool, true, false, ◌&&◌, ◌||◌, List, [], ◌∷◌,
  Option, none, some, if◌then◌else◌,
}
use boson.Net.Poller
use boson.Runtime.State.{RoutineStatus, Routine, Thread, World}
use boson.Runtime.State
use boson.Runtime.Clock.{usleep_date, seconds_us, timespec_us, nanoseconds_us}
use boson.Runtime.Semaphores.{run_again}
use boson.Runtime.Waits.{prepare_wait, prepare_sleep, signal_fd_closed}
use boson.Calls.State.{
  SyscallId, sys_read, sys_write, sys_recvfrom, sys_sendto, sys_accept, sys_connect, sys_open,
  sys_pipe2, sys_socket, sys_close, is_read, eagain, ewouldblock, einprogress, o_nonblock, Kernel,
  Os, N, pure, fault, ◌>>=◌, ◌>>◌, runtime, errno, set_errno, answered, syscall, clock,
}

-- `-1`.
abbrev pub minus_one : Int32
minus_one = int 0 - 1

-- `return_code < 0 && (EAGAIN == errno || EWOULDBLOCK == errno)`
unfoldable pub would_block : Int32 → ℕ → Bool
would_block return_code e = ltb return_code (int 0) && (e == eagain || e == ewouldblock)

-- `::fcntl(new_socket, F_SETFL, ::fcntl(new_socket, F_GETFD) | O_NONBLOCK)`
unfoldable pub set_non_blocking : {K : Type 0} → Kernel K → ℕ → N K (Unit {0})
set_non_blocking kernel fd o = some (
  tt,
  record o { kernel = kernel.set_fl fd (bit_or (kernel.get_fd fd o.kernel) o_nonblock) o.kernel },
)

module _ {K : Type 0} (kernel : Kernel K) (suspend : ℕ → N K (Unit {0})) (r : ℕ) where
  unfoldable pub yield : N K (Unit {0})
  yield = do
    body ← runtime (State.routine r)
    runtime (State.set_routine r (record body { status = RoutineStatus.yielding }))
    suspend r
    body' ← runtime (State.routine r)
    runtime (
        State.set_routine r (record body' {
          previous_status = RoutineStatus.yielding;
          status = RoutineStatus.running;
        }))

  unfoldable pub usleep : ℕ → N K (Unit {0})
  unfolding prepare_sleep run_again
  usleep duration_us = do
    now ← clock kernel
    runtime (prepare_sleep now r duration_us)
    suspend r
    body ← runtime (run_again r)
    pure tt

  unfoldable pub sleep : ℕ → N K ℕ
  unfolding usleep
  sleep duration_seconds = do usleep (seconds_us duration_seconds); pure 0

  -- `nanosleep(timespec)`, without the remaining time, which it sets to 0.
  unfoldable pub nanosleep : (tv_sec tv_nsec : ℕ) → N K ℕ
  unfolding usleep
  nanosleep tv_sec tv_nsec = do usleep (timespec_us tv_sec tv_nsec); pure 0

  unfoldable pub nanosleep_duration : ℕ → N K (Unit {0})
  unfolding usleep
  nanosleep_duration ns = usleep (nanoseconds_us ns)

  unfoldable pub wait_readiness : Bool → Option ℕ → ℕ → N K Int32
  unfolding prepare_wait run_again
  wait_readiness read timeout fd = do
    now ← clock kernel
    runtime (prepare_wait read timeout now r fd)
    suspend r
    body ← runtime (run_again r)
    if ltb body.happened_rc (int 0)
        then (set_errno (int 0 - body.happened_rc) >> pure minus_one)
        else pure (int 0)

  -- One turn of the loop of `boson_classic_syscall::call`: the wait, and the call again if it succeeded.
  unfoldable pub wait_and_call : SyscallId → Option ℕ → ℕ → List ℕ → N K Int32
  unfolding wait_readiness
  wait_and_call id timeout fd args = do
    return_code ← wait_readiness (is_read id) timeout fd
    if return_code == int 0 then syscall kernel id (fd ∷ args) else pure return_code

  -- The loop; without fuel it is a fault.
  unfoldable pub retry : ℕ → SyscallId → Option ℕ → ℕ → List ℕ → Int32 → N K Int32
  unfolding would_block wait_and_call
  retry zero id timeout fd args return_code = fault
  retry (suc n) id timeout fd args return_code = do
    e ← errno
    (if would_block return_code e
        then (do next ← wait_and_call id timeout fd args; retry n id timeout fd args next)
        else pure return_code)

  unfoldable pub classic_syscall : ℕ → SyscallId → Option ℕ → ℕ → List ℕ → N K Int32
  unfolding retry
  classic_syscall fuel id timeout fd args = do
    return_code ← syscall kernel id (fd ∷ args)
    retry fuel id timeout fd args return_code

  unfoldable pub read : ℕ → Option ℕ → (fd buf count : ℕ) → N K Int32
  unfolding classic_syscall
  read fuel timeout fd buf count = classic_syscall fuel sys_read timeout fd (buf ∷ count ∷ [])

  unfoldable pub write : ℕ → Option ℕ → (fd buf count : ℕ) → N K Int32
  unfolding classic_syscall
  write fuel timeout fd buf count = classic_syscall fuel sys_write timeout fd (buf ∷ count ∷ [])

  unfoldable pub send : ℕ → Option ℕ → (socket buffer length flags : ℕ) → N K Int32
  unfolding classic_syscall
  send fuel timeout socket buffer length flags =
      classic_syscall fuel sys_sendto timeout socket (buffer ∷ length ∷ flags ∷ 0 ∷ 0 ∷ [])

  unfoldable pub recv : ℕ → Option ℕ → (socket buffer length flags : ℕ) → N K Int32
  unfolding classic_syscall
  recv fuel timeout socket buffer length flags =
      classic_syscall fuel sys_recvfrom timeout socket (buffer ∷ length ∷ flags ∷ 0 ∷ 0 ∷ [])

  unfoldable pub accept : ℕ → Option ℕ → (socket address address_len : ℕ) → N K Int32
  unfolding classic_syscall set_non_blocking
  accept fuel timeout socket address address_len = do
    new_socket ← classic_syscall fuel sys_accept timeout socket (address ∷ address_len ∷ [])
    (if leb (int 0) new_socket then set_non_blocking kernel (new_socket - int 0) else pure tt)
    pure new_socket

  -- What `connect` reads when the socket is ready to write; a failure of `getsockopt` throws.
  unfoldable pub finish_connect : ℕ → N K Int32
  finish_connect sockfd o =
      let asked = kernel.socket_error sockfd o.kernel in
      (answered asked >>= λ return_code.
      if ltb return_code (int 0)
      then fault
      else if return_code == int 0
      then pure return_code
      else (set_errno (return_code - int 0) >> pure minus_one))
        o

  unfoldable pub connect : Option ℕ → (sockfd addr addrlen : ℕ) → N K Int32
  unfolding wait_readiness finish_connect
  connect timeout sockfd addr addrlen = do
    return_code ← syscall kernel sys_connect (sockfd ∷ addr ∷ addrlen ∷ [])
    e ← errno
    (if ltb return_code (int 0) && (e == einprogress)
        then (do
          waited ← wait_readiness (is_read sys_connect) timeout sockfd
          if waited == int 0 then finish_connect sockfd else pure waited)
        else pure return_code)

-- `open` with a mode or without, `creat`, `pipe2`, `pipe` and `socket`: calls that never block, with the
-- flag that makes what they open not blocking. 0755, O_CREAT | O_WRONLY | O_TRUNC and SOCK_NONBLOCK
-- are Linux's numbers.
module _ {K : Type 0} (kernel : Kernel K) where
  unfoldable pub open_file : (pathname flags mode : ℕ) → N K Int32
  open_file pathname flags mode =
      syscall kernel sys_open (pathname ∷ bit_or flags o_nonblock ∷ mode ∷ [])

  unfoldable pub open_default : (pathname flags : ℕ) → N K Int32
  open_default pathname flags =
      syscall kernel sys_open (pathname ∷ bit_or flags o_nonblock ∷ 493 ∷ [])

  -- The flags stand where the source has them, and the mode follows.
  unfoldable pub creat : (pathname mode : ℕ) → N K Int32
  creat pathname mode = syscall kernel sys_open (pathname ∷ bit_or 577 o_nonblock ∷ mode ∷ [])

  unfoldable pub pipe : ℕ → N K Int32
  pipe fds = syscall kernel sys_pipe2 (fds ∷ o_nonblock ∷ [])

  unfoldable pub pipe2 : (fds flags : ℕ) → N K Int32
  pipe2 fds flags = syscall kernel sys_pipe2 (fds ∷ bit_or flags o_nonblock ∷ [])

  unfoldable pub socket : (domain type protocol : ℕ) → N K Int32
  socket domain type protocol =
      syscall kernel sys_socket (domain ∷ bit_or type o_nonblock ∷ protocol ∷ [])

unfoldable pub close : {K : Type 0} → Kernel K → (threads fd : ℕ) → N K Int32
unfolding signal_fd_closed
close kernel threads fd = do
  runtime (signal_fd_closed threads fd)
  return_code ← syscall kernel sys_close (fd ∷ [])
  current_errno ← errno
  set_errno current_errno
  pure return_code
