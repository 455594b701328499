-- ===== src/Runtime/State.antt =====
-- The objects of the runtime, in one store: routines, threads and semaphores by number, and the
-- counted references `memory::local_ptr` to routines. A routine is owned through a `unique_ptr` inside
-- such a reference; `none` for a reference is one that was invalidated, `some none` one whose pointer
-- was released.
use boson.Prelude.{ℕ, ◌+◌, ◌≡◌, Int32, int, Bool, true, false, List, Option, none, some, update}
use boson.Memory.SparseVector.{SparseVector}
use boson.Sync.Semaphore.{Semaphore}
use boson.Net.Poller.{Poller}

pub data RoutineStatus : Type 0 where
  is_new running yielding wait_events sema_event_candidate finished : RoutineStatus

-- `static_cast<int>` of a status.
abbrev pub status_number : RoutineStatus → Int32
status_number is_new = int 0
status_number running = int 1
status_number yielding = int 2
status_number wait_events = int 3
status_number sema_event_candidate = int 4
status_number finished = int 5

pub data EventType : Type 0 where
  nothing timer io_read io_write sema_wait sema_closed : EventType

-- `routine::waited_event`: the type with its data. A timer names the set of `timed_routines_` that it is
-- in by its date. No function adds an event of the types `none` and `sema_closed`.
pub data WaitedEvent : Type 0 where
  timer : ℕ → WaitedEvent
  io_read io_write : ℕ → WaitedEvent
  sema_wait : (sema index slot_index : ℕ) → WaitedEvent

pub record Routine : Type 0 where
  pub status : RoutineStatus
  pub previous_status : RoutineStatus
  pub thread : ℕ
  pub events : List WaitedEvent
  pub current_ptr : Option ℕ
  pub happened_type : EventType
  pub happened_rc : Int32
  pub happened_index : ℕ

pub record RoutineSlot : Type 0 where
  pub ptr : Option ℕ
  pub event_index : ℕ

abbrev pub slot : Option ℕ → ℕ → RoutineSlot
slot p i = record { ptr = p; event_index = i }

pub record TimedRoutinesSet : Type 0 where
  pub nb_active : ℕ
  pub slots : List ℕ

pub data ThreadStatus : Type 0 where
  idle busy finishing finished : ThreadStatus

-- `thread_command`, with the routine or the semaphore and slot that it carries.
pub data ThreadCommand : Type 0 where
  add_routine : ℕ → ThreadCommand
  schedule_waiting_routine : (sema slot_index : ℕ) → ThreadCommand
  finish : ThreadCommand
  fd_ready : (event_index fd : ℕ) (status : Int32) (reads : Bool) → ThreadCommand

pub record Thread : Type 0 where
  pub scheduled_routines : List RoutineSlot
  pub status : ThreadStatus
  pub running_routine : Option ℕ
  pub engine_queue : List ThreadCommand
  pub nb_pending_commands : ℕ
  -- In the order of their dates.
  pub timed_routines : List (ℕ × TimedRoutinesSet)
  pub nb_suspended_routines : ℕ
  pub suspended_slots : SparseVector RoutineSlot
  pub event_loop : Poller

pub record World : Type 0 where
  pub routines : ℕ → Routine
  pub refs : ℕ → Option (Option ℕ)
  pub next_ref : ℕ
  pub threads : ℕ → Thread
  -- None where the semaphore was destroyed.
  pub semaphores : ℕ → Option Semaphore

-- `none` is a fault: a failed assertion, a null pointer or an access out of range.
abbrev pub M : Type 0 → Type 0
M A = World → Option (A × World)

abbrev pub pure : {A : Type 0} → A → M A
pure a w = some (a, w)

abbrev pub fault : {A : Type 0} → M A
fault w = none

infixl 5 ◌>>=◌ ◌>>◌
abbrev pub ◌>>=◌ : {A B : Type 0} → M A → (A → M B) → M B
◌>>=◌ m f w = elim (m w) [ none ↦ none | some (a, w') ↦ f a w' ]

abbrev pub ◌>>◌ : {B : Type 0} → M (Unit {0}) → M B → M B
m >> k = m >>= λ _. k

abbrev pub assert : Bool → M (Unit {0})
assert true = pure tt
assert false = fault

abbrev pub lift : {A : Type 0} → Option A → M A
lift none = fault
lift (some a) = pure a

abbrev pub routine : ℕ → M Routine
routine r w = some (w.routines r, w)

abbrev pub set_routine : ℕ → Routine → M (Unit {0})
set_routine r x w = some (tt, record w { routines = update w.routines r x })

abbrev pub thread : ℕ → M Thread
thread t w = some (w.threads t, w)

abbrev pub set_thread : ℕ → Thread → M (Unit {0})
set_thread t x w = some (tt, record w { threads = update w.threads t x })

abbrev pub semaphore : ℕ → M Semaphore
semaphore s w = lift (w.semaphores s) w

abbrev pub set_semaphore : ℕ → Semaphore → M (Unit {0})
set_semaphore s x w = some (tt, record w { semaphores = update w.semaphores s (some x) })

-- `new references{1, new unique_ptr(r)}`.
abbrev pub new_ref : Option ℕ → M ℕ
new_ref r w =
    some
      (w.next_ref, record w { refs = update w.refs w.next_ref (some r); next_ref = w.next_ref + 1 })

-- `local_ptr::operator bool`.
abbrev pub is_valid : Option ℕ → M Bool
is_valid none w = some (false, w)
is_valid (some p) w = some (elim (w.refs p) [ none ↦ false | some o ↦ true ], w)

-- `ptr->get()` where the routine behind it is used: a fault if the pointer is null or released.
abbrev pub target : Option ℕ → M ℕ
target none w = none
target (some p) w = elim (w.refs p) [ none ↦ none | some o ↦ lift o w ]

abbrev pub set_ref : ℕ → Option (Option ℕ) → M (Unit {0})
set_ref p o w = some (tt, record w { refs = update w.refs p o })

-- `ptr->release()`: what the reference owned, and owns no more.
abbrev pub release : Option ℕ → M (Option ℕ)
release none w = none
release (some p) w = elim (w.refs p) [
  | none ↦ none
  | some o ↦ some (o, record w { refs = update w.refs p (some none) })
]

abbrev pub invalidate_all : Option ℕ → M (Unit {0})
invalidate_all none = pure tt
invalidate_all (some p) = set_ref p none

-- A step that returns hands its value and its world on.
pub bind_ok :
    {A B : Type 0} (m : M A) (f : A → M B) {a : A} {w w' : World}
    → m w ≡ some (a, w')
    → (m >>= f) w ≡ f a w'
bind_ok m f e = rw (e, ◌>>=◌)
