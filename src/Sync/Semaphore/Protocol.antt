-- ===== src/Sync/Semaphore/Protocol.antt =====
-- A semaphore shared by routines on any threads, one atomic operation or one locked queue access at a
-- time, in any order. Routines are counted by where they stand in `semaphore::wait`, `post`,
-- `pop_a_waiter`, `disable` and in the `sema_wait` case of `routine::event_happened`.
-- The two fetches of a refused call are one step. Fewer than 2^28 routines are under way. A candidate that
-- another event of its round wakes between its command and its turn takes no step here: it stays a candidate,
-- as Runtime/Semaphores/Lost shows that its turn does nothing.
use boson.Prelude.{ℕ, suc, ◌+◌, ◌^◌, ◌<◌, ◌≡◌, Int32, int, Bool, true, false}
use boson.Sync.Semaphore.{
  SemaphoreReturnValue, taken, refused, missed, take_ticket, restore_ticket, post_ticket,
  disabled_standpoint, is_ok,
}

pub record State : Type 0 where
  pub counter : Int32
  -- Entries of the queue of waiters.
  pub queued : ℕ
  -- Routines that missed a ticket and are not in the queue yet.
  pub missing : ℕ
  -- Routines that are in the queue and have not yet restored the counter.
  pub pushed : ℕ
  -- Calls of `pop_a_waiter` before their access to the queue.
  pub popping : ℕ
  -- Waiters out of the queue whose wake-up is under way.
  pub candidates : ℕ
  -- A call of `disable` is emptying the queue.
  pub draining : Bool
  -- The tickets taken and given back since the start, and whether `disable` was called.
  pub acquired : ℕ
  pub posted : ℕ
  pub was_disabled : Bool

unfoldable pub fresh : ℕ → State
fresh capacity = record {
  counter = int capacity;
  queued = 0;
  missing = 0;
  pushed = 0;
  popping = 0;
  candidates = 0;
  draining = false;
  acquired = 0;
  posted = 0;
  was_disabled = false;
}

abbrev pub bit : Bool → ℕ
bit true = 1
bit false = 0

abbrev pub under_way : State → ℕ
under_way s = s.missing + s.pushed + s.queued + s.candidates

pub data Step (s : State) : State → Type 0 where
  take :
      (c : Int32)
      → take_ticket s.counter ≡ (taken, c)
      → Step s (record s { counter = c; acquired = s.acquired + 1 })
  miss :
      (c : Int32)
      → take_ticket s.counter ≡ (missed, c)
      → under_way s < 2 ^ 28
      → Step s (record s { counter = c; missing = s.missing + 1 })
  refuse : (c : Int32) → take_ticket s.counter ≡ (refused, c) → Step s (record s { counter = c })
  enqueue :
      (m : ℕ)
      → s.missing ≡ suc m
      → under_way s < 2 ^ 28
      → Step s (record s { missing = m; pushed = s.pushed + 1; queued = s.queued + 1 })
  restore :
      (m : ℕ) (b : Bool) (c : Int32)
      → s.pushed ≡ suc m
      → restore_ticket s.counter ≡ (b, c)
      → Step s (record s { counter = c; pushed = m; popping = s.popping + bit b })
  post :
      (r : SemaphoreReturnValue) (b : Bool) (c : Int32)
      → post_ticket s.counter ≡ (r, b, c)
      → Step s
          (record s { counter = c; popping = s.popping + bit b; posted = s.posted + bit (is_ok r) })
  pop :
      (p q : ℕ)
      → s.popping ≡ suc p
      → s.queued ≡ suc q
      → Step s (record s { popping = p; queued = q; candidates = s.candidates + 1 })
  pop_nothing : (p : ℕ) → s.popping ≡ suc p → s.queued ≡ 0 → Step s (record s { popping = p })
  -- The wake-up reaches the routine, which tries again.
  retry_take :
      (k : ℕ) (c : Int32)
      → s.candidates ≡ suc k
      → take_ticket s.counter ≡ (taken, c)
      → Step s (record s { counter = c; candidates = k; acquired = s.acquired + 1 })
  retry_miss :
      (k : ℕ) (c : Int32)
      → s.candidates ≡ suc k
      → take_ticket s.counter ≡ (missed, c)
      → Step s (record s { counter = c; candidates = k; missing = s.missing + 1 })
  retry_refuse :
      (k : ℕ) (c : Int32)
      → s.candidates ≡ suc k
      → take_ticket s.counter ≡ (refused, c)
      → Step s (record s { counter = c; candidates = k })
  -- Another event has woken the routine: the wake-up is passed on.
  pass_on :
      (k : ℕ) → s.candidates ≡ suc k → Step s (record s { candidates = k; popping = s.popping + 1 })
  -- Another event takes the routine out of the queue.
  cancel : (q : ℕ) → s.queued ≡ suc q → Step s (record s { queued = q })
  disable :
      Step s (record s { counter = disabled_standpoint; draining = true; was_disabled = true })
  drain :
      (q : ℕ)
      → s.draining ≡ true
      → s.queued ≡ suc q
      → Step s (record s { queued = q; candidates = s.candidates + 1 })
  drained : s.draining ≡ true → s.queued ≡ 0 → Step s (record s { draining = false })

pub data Reach (s : State) : State → Type 0 where
  here : Reach s s
  next : {t u : State} → Reach s t → Step t u → Reach s u
