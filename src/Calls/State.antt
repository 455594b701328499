-- ===== src/Calls/State.antt =====
-- The runtime beside the kernel and `errno`. The kernel is not code of the repository: its state `K` and
-- its answers are parameters. A call that fails returns -1 and sets `errno`; another leaves `errno`.
use boson.Prelude.{
  ℕ, ◌-◌, Int32, int, Bool, true, false, List, Option, none, some, ◌≡◌, Vector, update,
}
use boson.Runtime.State.{World, M}

pub data SyscallId : Type 0 where
  sys_read sys_write sys_recvfrom sys_sendto sys_accept sys_connect sys_open sys_pipe2 sys_socket
        sys_close :
      SyscallId

-- `syscall_traits<SyscallId>::is_read`, for the calls that may wait.
abbrev pub is_read : SyscallId → Bool
is_read sys_read = true
is_read sys_write = false
is_read sys_recvfrom = true
is_read sys_sendto = false
is_read sys_accept = true
is_read sys_connect = false
is_read sys_open = false
is_read sys_pipe2 = false
is_read sys_socket = false
is_read sys_close = false

pub data Answer : Type 0 where
  returned : ℕ → Answer
  failed : (errno : ℕ) → Answer

-- Linux's numbers.
abbrev pub eagain : ℕ
eagain = 11

abbrev pub ewouldblock : ℕ
ewouldblock = 11

abbrev pub einprogress : ℕ
einprogress = 115

abbrev pub o_nonblock : ℕ
o_nonblock = 0x800

-- What the code asks of the kernel: system calls with their arguments, the pending error of a socket, the
-- flags of a descriptor (`F_GETFD`) and a new status for it (`F_SETFL`), and the clock in nanoseconds.
pub record Kernel (K : Type 0) : Type 0 where
  pub call : SyscallId → List ℕ → K → Answer × K
  pub socket_error : ℕ → K → Answer × K
  pub get_fd : ℕ → K → ℕ
  pub set_fl : ℕ → ℕ → K → K
  pub now : K → ℕ

-- `channel_impl`, of numbers; its semaphores are objects of the runtime.
pub record Channel : Type 0 where
  pub buffer : Vector ℕ
  pub head : ℕ
  pub tail : ℕ
  pub readers_slots : ℕ
  pub writer_slots : ℕ

pub record Os (K : Type 0) : Type 0 where
  pub world : World
  pub errno : ℕ
  pub kernel : K
  pub channels : ℕ → Channel

-- `none` is a fault, as in the runtime, or a thrown exception.
abbrev pub N : Type 0 → Type 0 → Type 0
N K A = Os K → Option (A × Os K)

module _ {K : Type 0} where
  abbrev pub pure : {A : Type 0} → A → N K A
  pure a o = some (a, o)

  abbrev pub fault : {A : Type 0} → N K A
  fault o = none

  infixl 5 ◌>>=◌ ◌>>◌
  abbrev pub ◌>>=◌ : {A B : Type 0} → N K A → (A → N K B) → N K B
  ◌>>=◌ m f o = elim (m o) [ none ↦ none | some (a, o') ↦ f a o' ]

  abbrev pub ◌>>◌ : {B : Type 0} → N K (Unit {0}) → N K B → N K B
  m >> k = m >>= λ _. k

  -- A step of the runtime.
  abbrev pub runtime : {A : Type 0} → M A → N K A
  runtime m o = elim (m o.world) [ none ↦ none | some (a, w) ↦ some (a, record o { world = w }) ]

  abbrev pub errno : N K ℕ
  errno o = some (o.errno, o)

  abbrev pub set_errno : ℕ → N K (Unit {0})
  set_errno e o = some (tt, record o { errno = e })

  abbrev pub answered : Answer × K → N K Int32
  answered (returned n, k) o = some (int n, record o { kernel = k })
  answered (failed e, k) o = some (int 0 - 1, record o { kernel = k; errno = e })

  -- `::syscall`, and `syscall_callable<SyscallId>::call`.
  abbrev pub syscall : Kernel K → SyscallId → List ℕ → N K Int32
  syscall kernel id args o = answered (kernel.call id args o.kernel) o

  abbrev pub channel : ℕ → N K Channel
  channel c o = some (o.channels c, o)

  abbrev pub set_channel : ℕ → Channel → N K (Unit {0})
  set_channel c x o = some (tt, record o { channels = update o.channels c x })

  abbrev pub lift : {A : Type 0} → Option A → N K A
  lift none = fault
  lift (some a) = pure a

  abbrev pub clock : Kernel K → N K ℕ
  clock kernel o = some (kernel.now o.kernel, o)

  -- A step that returns hands its value and its state on.
  pub bind_ok :
      {A B : Type 0} (m : N K A) (f : A → N K B) {a : A} {o o' : Os K}
      → m o ≡ some (a, o')
      → (m >>= f) o ≡ f a o'
  bind_ok m f e = rw (e, ◌>>=◌)
