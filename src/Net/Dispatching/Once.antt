-- ===== src/Net/Dispatching/Once.antt =====
-- A waiter of a descriptor is woken once, whatever the loop tells the netpoller.
use boson.Prelude.{
  ℕ, ◌-◌, ◌<◌, ◌≡◌, refl, sym, subst, Int32, int, Bool-cases, false, List, [], ◌∷◌, some, arith,
  inl, inr, update, none,
}
use boson.Net.Poller.{Poller}
use boson.Net.EventLoop.{ebadf}
use boson.Net.EventLoop.Order.{HandlerCall, reads, writes, closes, run, call}
use boson.Net.Dispatching.{dispatch_read, dispatch_write, closed, poller_handler}
use boson.Net.Dispatching.Counting.{
  NetCall, wakes_reader, wakes_writer, only, first, recording, read_status, write_status, AllBelow,
  Woken, Woken-trans, Woken-same,
}

dispatch_read-Woken :
    (fd : ℕ) (status : Int32) (p : Poller) (log : List NetCall)
    → fd < p.waiters.size
    → (p' : Poller) × (log' : List NetCall) × (dispatch_read recording fd status (p, log)
        ≡ some (p', log'))
      × Woken p log (only fd status) (λ f. none) p' log'
unfolding dispatch_read
dispatch_read-Woken fd status p log range = elim (Bool-cases (p.waiters.at fd).read_enabled) [
  | inl waits ↦ (
    record p {
      waiters = record {
        size = p.waiters.size;
        at = update p.waiters.at fd (record (p.waiters.at fd) { read_enabled = false });
      };
    },
    wakes_reader fd (p.waiters.at fd).read_data status ∷ log,
    ground (arith, waits),
    record {
      size = refl;
      readers = λ f. ground (arith, waits);
      writers = λ f. ground arith;
      reading = λ f. ground arith;
      writing = λ f. ground arith;
      read_data = λ f. ground arith;
      write_data = λ f. ground arith;
    },
  )
  | inr idle ↦ (
    p,
    log,
    ground (arith, idle),
    record {
      size = refl;
      readers = λ f. ground (arith, idle);
      writers = λ f. ground arith;
      reading = λ f. ground (arith, idle);
      writing = λ f. ground arith;
      read_data = λ f. refl;
      write_data = λ f. refl;
    },
  )
]

dispatch_write-Woken :
    (fd : ℕ) (status : Int32) (p : Poller) (log : List NetCall)
    → fd < p.waiters.size
    → (p' : Poller) × (log' : List NetCall) × (dispatch_write recording fd status (p, log)
        ≡ some (p', log'))
      × Woken p log (λ f. none) (only fd status) p' log'
unfolding dispatch_write
dispatch_write-Woken fd status p log range = elim (Bool-cases (p.waiters.at fd).write_enabled) [
  | inl waits ↦ (
    record p {
      waiters = record {
        size = p.waiters.size;
        at = update p.waiters.at fd (record (p.waiters.at fd) { write_enabled = false });
      };
    },
    wakes_writer fd (p.waiters.at fd).write_data status ∷ log,
    ground (arith, waits),
    record {
      size = refl;
      readers = λ f. ground arith;
      writers = λ f. ground (arith, waits);
      reading = λ f. ground arith;
      writing = λ f. ground arith;
      read_data = λ f. ground arith;
      write_data = λ f. ground arith;
    },
  )
  | inr idle ↦ (
    p,
    log,
    ground (arith, idle),
    record {
      size = refl;
      readers = λ f. ground arith;
      writers = λ f. ground (arith, idle);
      reading = λ f. ground arith;
      writing = λ f. ground (arith, idle);
      read_data = λ f. refl;
      write_data = λ f. refl;
    },
  )
]

call-Woken :
    (c : HandlerCall) (p : Poller) (log : List NetCall)
    → AllBelow p.waiters.size (c ∷ [])
    → (p' : Poller) × (log' : List NetCall) × (call (poller_handler recording) c (p, log)
        ≡ some (p', log'))
      × Woken p log (λ fd. read_status fd (c ∷ [])) (λ fd. write_status fd (c ∷ [])) p' log'
unfolding poller_handler closed
call-Woken (reads f status) p log range =
    let (p', log', e, x) = dispatch_read-Woken f status p log range.0 in
    (
      p',
      log',
      e,
      Woken-same p p' log log' (only f status) (λ g. none)
          (λ g. read_status g (reads f status ∷ [])) (λ g. write_status g (reads f status ∷ []))
          (λ g. ground arith) (λ g. refl) x,
    )
call-Woken (writes f status) p log range =
    let (p', log', e, x) = dispatch_write-Woken f status p log range.0 in
    (
      p',
      log',
      e,
      Woken-same p p' log log' (λ g. none) (only f status)
          (λ g. read_status g (writes f status ∷ [])) (λ g. write_status g (writes f status ∷ []))
          (λ g. refl) (λ g. ground arith) x,
    )
call-Woken (closes f) p log range =
    let (q, log1, e, x) = dispatch_read-Woken f (int 0 - ebadf) p log range.0 in
    let (p', log', e', y) =
      dispatch_write-Woken f (int 0 - ebadf) q log1 (omega (arith, range.0, x.size)) in
    (
      p',
      log',
      ground (arith, e, e'),
      Woken-same p p' log log' (λ g. first (only f (int 0 - ebadf) g) none)
          (λ g. first none (only f (int 0 - ebadf) g)) (λ g. read_status g (closes f ∷ []))
          (λ g. write_status g (closes f ∷ [])) (λ g. ground arith) (λ g. ground arith)
          (Woken-trans p q p' log log1 log' (only f (int 0 - ebadf)) (λ g. none) (λ g. none)
            (only f (int 0 - ebadf)) x y),
    )

AllBelow-split :
    (size : ℕ) (c : HandlerCall) (cs : List HandlerCall)
    → AllBelow size (c ∷ cs)
    → AllBelow size (c ∷ []) × AllBelow size cs
AllBelow-split size (reads f status) cs h = ((h.0, tt), h.1)
AllBelow-split size (writes f status) cs h = ((h.0, tt), h.1)
AllBelow-split size (closes f) cs h = ((h.0, tt), h.1)

read_status-cons :
    (fd : ℕ) (c : HandlerCall) (cs : List HandlerCall)
    → first (read_status fd (c ∷ [])) (read_status fd cs) ≡ read_status fd (c ∷ cs)
read_status-cons fd (reads f status) cs = ground arith
read_status-cons fd (writes f status) cs = refl
read_status-cons fd (closes f) cs = ground arith

write_status-cons :
    (fd : ℕ) (c : HandlerCall) (cs : List HandlerCall)
    → first (write_status fd (c ∷ [])) (write_status fd cs) ≡ write_status fd (c ∷ cs)
write_status-cons fd (reads f status) cs = refl
write_status-cons fd (writes f status) cs = ground arith
write_status-cons fd (closes f) cs = ground arith

-- Whatever the loop tells a netpoller about descriptors in its range, in whatever order and how often, it does not
-- fault, and for each descriptor: if a reader waits and the descriptor was told to be readable or closed, the
-- handler gets one more call for a reader of it, with the data of the waiting reader and the status that was told
-- first (-EBADF for a close), and the reader waits no more; otherwise there is no such call. And so for a
-- waiting writer.
pub run-Woken :
    (cs : List HandlerCall) (p : Poller) (log : List NetCall)
    → AllBelow p.waiters.size cs
    → (p' : Poller) × (log' : List NetCall) × (run (poller_handler recording) cs (p, log)
        ≡ some (p', log'))
      × Woken p log (λ fd. read_status fd cs) (λ fd. write_status fd cs) p' log'
run-Woken [] p log range = (
  p,
  log,
  refl,
  record {
    size = refl;
    readers = λ fd. ground arith;
    writers = λ fd. ground arith;
    reading = λ fd. ground arith;
    writing = λ fd. ground arith;
    read_data = λ fd. refl;
    write_data = λ fd. refl;
  },
)
run-Woken (c ∷ cs) p log range =
    let (here, there) = AllBelow-split p.waiters.size c cs range in
    let (q, log1, e, x) = call-Woken c p log here in
    let (p', log', e', y) = run-Woken cs q log1 (subst (λ n. AllBelow n cs) (sym x.size) there) in
    (
      p',
      log',
      ground (arith, e, e'),
      Woken-same p p' log log' (λ fd. first (read_status fd (c ∷ [])) (read_status fd cs))
          (λ fd. first (write_status fd (c ∷ [])) (write_status fd cs))
          (λ fd. read_status fd (c ∷ cs)) (λ fd. write_status fd (c ∷ cs))
          (λ fd. read_status-cons fd c cs) (λ fd. write_status-cons fd c cs)
          (Woken-trans p q p' log log1 log' (λ fd. read_status fd (c ∷ []))
            (λ fd. write_status fd (c ∷ [])) (λ fd. read_status fd cs) (λ fd. write_status fd cs) x
            y),
    )
