-- ===== src/Calls/Channels/Tickets.antt =====
-- A ticket of one semaphore that is taken, or given back, while a routine waits for another one.
use boson.Prelude.{
  ℕ, ◌≡◌, ◌≢◌, refl, sym, ap, ◌∙◌, ◌==◌, ==_iff, ltb, leb, Int32, int, increment, decrement, Bool,
  true, false, List, [], Option, some, update, arith, Bool-cases, inl, inr,
}
use boson.Queues.VectorizedQueue.Segment.{Entries}
use boson.Queues.VectorizedQueue.Invariant.{Holds}
use boson.Queues.VectorizedQueue.Refinement.{read-first}
use boson.Sync.Semaphore
use boson.Sync.Semaphore.{WaitingUnit, SemaphoreReturnValue, is_ok, disabling_threshold}
use boson.Runtime.State.{RoutineSlot, ThreadCommand, World}
use boson.Runtime.Thread.{pop_a_waiter}
use boson.Runtime.Semaphores.{post, begin_wait}
use boson.Runtime.Semaphores.Handover.{Waits}

-- A post on a semaphore without waiters changes its counter alone.
pub record Counted (w : World) (s : ℕ) (sem : Semaphore.Semaphore) (v : World) : Type 0 where
  pub sem' : Semaphore.Semaphore
  pub result : v ≡ record w { semaphores = v.semaphores }
  pub there : v.semaphores s ≡ some sem'
  pub counter : sem'.counter ≡ increment sem.counter
  pub waiters : Holds sem'.waiters []
  pub rest : (z : ℕ) → z ≢ s → v.semaphores z ≡ w.semaphores z

pub post-Counted :
    (w : World) (s : ℕ) (sem : Semaphore.Semaphore)
    → w.semaphores s ≡ some sem
    → ltb disabling_threshold sem.counter ≡ false
    → Holds sem.waiters []
    → (v : World) × (post s w ≡ some (SemaphoreReturnValue.ok, v)) × Counted w s sem v
unfolding post pop_a_waiter Semaphore.read Semaphore.post_ticket
post-Counted w s sem e enabled q =
    let (q', f, held) = read-first [] q in
    let sem1 : Semaphore.Semaphore = record sem { counter = increment sem.counter } in
    let sem2 : Semaphore.Semaphore = record sem1 { waiters = q' } in
    elim (leb (int 0) sem.counter)
        as (λ b.
          leb (int 0) sem.counter ≡ b
          → (v : World) × (post s w ≡ some (SemaphoreReturnValue.ok, v)) × Counted w s sem v) [
            | true ↦ λ above. (
              record w { semaphores = update (update w.semaphores s (some sem1)) s (some sem2) },
              ground (arith, e, f, enabled, above),
              record {
                sem' = sem2;
                result = refl;
                there = ground arith;
                counter = refl;
                waiters = held;
                rest = λ z ne. ground arith;
              },
            )
            | false ↦ λ below. (
              record w { semaphores = update w.semaphores s (some sem1) },
              ground (arith, e, enabled, below),
              record {
                sem' = sem1;
                result = refl;
                there = ground arith;
                counter = refl;
                waiters = q;
                rest = λ z ne. ground arith;
              },
            )
          ]
      refl

pub elsewhere :
    (ws : ℕ) (ss ss4 ss5 : ℕ → Option Semaphore.Semaphore) (old sem : Semaphore.Semaphore)
    → ss5 ws ≡ some sem
    → (z : ℕ) → ss4 z ≡ update ss ws (some old) z
    → (z ≢ ws → ss5 z ≡ ss4 z)
    → ss5 z ≡ update ss ws (some sem) z
elsewhere ws ss ss4 ss5 old sem there z before after = elim (Bool-cases (ws == z)) [
  | inl here ↦ ap ss5 (sym ((==_iff ws z).0 here)) ∙ there ∙ ground (arith, here)
  | inr other ↦
      after (λ is. absurd (ground (arith, ==_iff ws z, is, other))) ∙ before ∙ ground (arith, other)
]

-- A wait for one semaphore goes on while another one changes.
pub elsewhere-Waits :
    (v : World) (r t s p i j n : ℕ) (used : ℕ → Bool) (c : Int32) (xs : Entries WaitingUnit)
    (commands : List ThreadCommand) (turns : List RoutineSlot) (ss : ℕ → Option Semaphore.Semaphore)
    (z : ℕ) (sem : Semaphore.Semaphore)
    → s ≢ z
    → Waits v r t s p i j n used c xs commands turns ss
    → Waits
        (record v { semaphores = update v.semaphores z (some sem) })
        r
        t
        s
        p
        i
        j
        n
        used
        c
        xs
        commands
        turns
        (update ss z (some sem))
elsewhere-Waits v r t s p i j n used c xs commands turns ss z sem other k = record {
  sem = k.sem;
  on = k.on;
  events = k.events;
  ptr = k.ptr;
  owner = k.owner;
  apart = k.apart;
  there = ground (arith, k.there, other);
  rest = λ y ne. elim (Bool-cases (z == y)) [
    | inl here ↦ ground (arith, here)
    | inr away ↦ ground (arith, away, k.rest y ne)
  ];
  counter = k.counter;
  waiters = k.waiters;
  to_do = k.to_do;
  scheduled = k.scheduled;
  suspended = k.suspended;
  slots = k.slots;
  in_use = k.in_use;
  mine = k.mine;
  slot_there = k.slot_there;
}

-- A semaphore with a ticket less.
abbrev pub lowered : Semaphore.Semaphore → Semaphore.Semaphore
lowered sem = record sem { counter = decrement sem.counter }

pub begin_wait-taken :
    (v : World) (now r s : ℕ) (timeout : Int32) (sem : Semaphore.Semaphore)
    → v.semaphores s ≡ some sem
    → leb sem.counter (int 0) ≡ false
    → ltb disabling_threshold sem.counter ≡ false
    → begin_wait now r s timeout v
      ≡ some (
        some SemaphoreReturnValue.ok,
        record v { semaphores = update v.semaphores s (some (lowered sem)) },
      )
unfolding begin_wait Semaphore.take_ticket
begin_wait-taken v now r s timeout sem there ticket enabled = ground (arith, there, ticket, enabled)
