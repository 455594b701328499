-- ===== src/Net/Dispatching/Counting.antt =====
-- Which waiters of descriptors a run of the loop wakes, how often, and with which data and status.
use boson.Prelude.{
  ℕ, ◌-◌, ◌<◌, ◌≡◌, refl, sym, ap, ◌∙◌, ◌==◌, Int32, int, Bool, true, false, ◌&&◌, List, [], ◌∷◌,
  ◌++◌, Option, none, some, is_none, if◌then◌else◌,
}
use boson.Net.Poller.{Poller}
use boson.Net.EventLoop.{ebadf}
use boson.Net.EventLoop.Order.{HandlerCall, reads, writes, closes}
use boson.Net.Dispatching.{NetEventHandler}

-- What reaches the handler of the netpoller, kept by one that only records it.
pub data NetCall : Type 0 where
  wakes_reader wakes_writer : (fd : ℕ) → (waiter : ℕ) → (status : Int32) → NetCall

abbrev pub recording : NetEventHandler (List NetCall)
recording = record {
  read = λ fd waiter status log. some (wakes_reader fd waiter status ∷ log);
  write = λ fd waiter status log. some (wakes_writer fd waiter status ∷ log);
  callback = λ log. some log;
}

-- The waiter and the status of each call for the reader of a descriptor, the last call first; and for its
-- writer.
abbrev pub readers_woken : ℕ → List NetCall → List (ℕ × Int32)
readers_woken fd [] = []
readers_woken fd (wakes_reader f waiter status ∷ log) =
    if fd == f then (waiter, status) ∷ readers_woken fd log else readers_woken fd log
readers_woken fd (wakes_writer f waiter status ∷ log) = readers_woken fd log

abbrev pub writers_woken : ℕ → List NetCall → List (ℕ × Int32)
writers_woken fd [] = []
writers_woken fd (wakes_reader f waiter status ∷ log) = writers_woken fd log
writers_woken fd (wakes_writer f waiter status ∷ log) =
    if fd == f then (waiter, status) ∷ writers_woken fd log else writers_woken fd log

-- The status with which the loop told first that a descriptor can be read, or that it was closed; and that it can
-- be written, or was closed.
abbrev pub read_status : ℕ → List HandlerCall → Option Int32
read_status fd [] = none
read_status fd (reads f status ∷ cs) = if fd == f then some status else read_status fd cs
read_status fd (writes f status ∷ cs) = read_status fd cs
read_status fd (closes f ∷ cs) = if fd == f then some (int 0 - ebadf) else read_status fd cs

abbrev pub write_status : ℕ → List HandlerCall → Option Int32
write_status fd [] = none
write_status fd (reads f status ∷ cs) = write_status fd cs
write_status fd (writes f status ∷ cs) = if fd == f then some status else write_status fd cs
write_status fd (closes f ∷ cs) = if fd == f then some (int 0 - ebadf) else write_status fd cs

-- One descriptor's status, and the first of two.
abbrev pub only : ℕ → Int32 → ℕ → Option Int32
only f status fd = if fd == f then some status else none

abbrev pub first : Option Int32 → Option Int32 → Option Int32
first none b = b
first (some status) b = some status

abbrev pub AllBelow : ℕ → List HandlerCall → Type 0
AllBelow size [] = Unit {0}
AllBelow size (reads f status ∷ cs) = (f < size) × AllBelow size cs
AllBelow size (writes f status ∷ cs) = (f < size) × AllBelow size cs
AllBelow size (closes f ∷ cs) = (f < size) × AllBelow size cs

-- The call for a waiter: one if it waits and the descriptor was told.
abbrev pub wakes : Bool → ℕ → Option Int32 → List (ℕ × Int32)
wakes false waiter status = []
wakes true waiter none = []
wakes true waiter (some status) = (waiter, status) ∷ []

-- The loop told the reader's side of the descriptors the statuses `r`, and the writer's side `w`: a waiter of a
-- descriptor that was told had its data and the status handed to the handler, once, and waits no more; no other was
-- handed anything.
pub record Woken (p : Poller) (log : List NetCall) (r w : ℕ → Option Int32) (p' : Poller)
    (log' : List NetCall) : Type 0 where
  pub size : p'.waiters.size ≡ p.waiters.size
  pub readers :
      (fd : ℕ)
      → readers_woken fd log'
        ≡ wakes (p.waiters.at fd).read_enabled (p.waiters.at fd).read_data (r fd)
          ++ readers_woken fd log
  pub writers :
      (fd : ℕ)
      → writers_woken fd log'
        ≡ wakes (p.waiters.at fd).write_enabled (p.waiters.at fd).write_data (w fd)
          ++ writers_woken fd log
  pub reading :
      (fd : ℕ)
      → (p'.waiters.at fd).read_enabled ≡ ((p.waiters.at fd).read_enabled && is_none (r fd))
  pub writing :
      (fd : ℕ)
      → (p'.waiters.at fd).write_enabled ≡ ((p.waiters.at fd).write_enabled && is_none (w fd))
  pub read_data : (fd : ℕ) → (p'.waiters.at fd).read_data ≡ (p.waiters.at fd).read_data
  pub write_data : (fd : ℕ) → (p'.waiters.at fd).write_data ≡ (p.waiters.at fd).write_data

wakes-first :
    (enabled : Bool) (waiter : ℕ) (a b : Option Int32) (xs : List (ℕ × Int32))
    → wakes (enabled && is_none a) waiter b ++ (wakes enabled waiter a ++ xs)
      ≡ wakes enabled waiter (first a b) ++ xs
wakes-first false waiter a b xs = refl
wakes-first true waiter none b xs = refl
wakes-first true waiter (some status) b xs = refl

still-first :
    (enabled : Bool) (a b : Option Int32)
    → ((enabled && is_none a) && is_none b) ≡ (enabled && is_none (first a b))
still-first false a b = refl
still-first true none b = refl
still-first true (some status) b = refl

wakes_again :
    (e e' : Bool) (d d' : ℕ) (a b : Option Int32) (xs ys zs : List (ℕ × Int32))
    → ys ≡ wakes e d a ++ xs
    → zs ≡ wakes e' d' b ++ ys
    → e' ≡ (e && is_none a)
    → d' ≡ d
    → zs ≡ wakes e d (first a b) ++ xs
wakes_again e e' d d' a b xs ys zs y z on same =
    z
    ∙ ap (λ l. wakes e' d' b ++ l) y
    ∙ ap (λ f. wakes f d' b ++ (wakes e d a ++ xs)) on
    ∙ ap (λ g. wakes (e && is_none a) g b ++ (wakes e d a ++ xs)) same
    ∙ wakes-first e d a b xs

pub Woken-trans :
    (p q s : Poller) (a b c : List NetCall) (r w r' w' : ℕ → Option Int32)
    → Woken p a r w q b
    → Woken q b r' w' s c
    → Woken p a (λ fd. first (r fd) (r' fd)) (λ fd. first (w fd) (w' fd)) s c
Woken-trans p q s a b c r w r' w' x y = record {
  size = y.size ∙ x.size;
  readers = λ fd.
      wakes_again _ _ _ _ (r fd) (r' fd) _ _ _ (x.readers fd) (y.readers fd) (x.reading fd)
        (x.read_data fd);
  writers = λ fd.
      wakes_again _ _ _ _ (w fd) (w' fd) _ _ _ (x.writers fd) (y.writers fd) (x.writing fd)
        (x.write_data fd);
  reading = λ fd.
      y.reading fd ∙ ap (λ f. f && is_none (r' fd)) (x.reading fd) ∙ still-first _ (r fd) (r' fd);
  writing = λ fd.
      y.writing fd ∙ ap (λ f. f && is_none (w' fd)) (x.writing fd) ∙ still-first _ (w fd) (w' fd);
  read_data = λ fd. y.read_data fd ∙ x.read_data fd;
  write_data = λ fd. y.write_data fd ∙ x.write_data fd;
}

pub Woken-same :
    (p q : Poller) (a b : List NetCall) (r w r' w' : ℕ → Option Int32)
    → ((fd : ℕ) → r fd ≡ r' fd)
    → ((fd : ℕ) → w fd ≡ w' fd)
    → Woken p a r w q b
    → Woken p a r' w' q b
Woken-same p q a b r w r' w' e f x = record {
  size = x.size;
  readers = λ fd. rw (sym (e fd)) (x.readers fd);
  writers = λ fd. rw (sym (f fd)) (x.writers fd);
  reading = λ fd. rw (sym (e fd)) (x.reading fd);
  writing = λ fd. rw (sym (f fd)) (x.writing fd);
  read_data = x.read_data;
  write_data = x.write_data;
}
