-- ===== src/Sync/Channel/Sequential.antt =====
-- A channel refines the bounded queue with a close, for every sequence of calls by one routine.
use boson.Prelude.{
  ℕ, suc, ◌+◌, ◌-◌, ◌%◌, ◌^◌, ◌<◌, ◌≤◌, ◌≡◌, refl, sym, ap, ◌∙◌, ◌==◌, ltb, Int32, int, Bool, true,
  false, not, List, [], ◌∷◌, ◌++◌, Option, none, some, Vector, update, length, length-append,
  if◌then◌else◌, ◌>>=◌, arith, add_size, sub_size, Bool-cases, inl, inr,
}
use native.Mathlib.Nat.{mod-lt}
use boson.Sync.Semaphore.{take_ticket, restore_ticket, post_ticket, is_ok, disabled_standpoint}
use boson.Sync.Channel.{Channel, write, read, close, init}
use boson.Sync.Channel.Contract.{
  Queue, Call, writes, reads, closes, spec_step, spec_run, step, run, and_then, and_then-some,
}
use boson.Sync.Channel.Window.{Window, Window-push}

module _ {A : Type 0} (size : ℕ) where
  -- The channel `c` holds what the queue `q` does, and nobody waits.
  pub record Holds (c : Channel A) (q : Queue A) : Type 0 where
    pub places : c.buffer.size ≡ size
    pub positive : 0 < size
    pub small : size ≤ 0x40000000
    pub fits : length q.items ≤ size
    pub ends : c.head ≡ c.tail + length q.items
    pub bounded : c.head < 2 ^ 64
    pub window : Window c.buffer.at size c.tail q.items
    pub readers : c.readers_slots ≡ (
        if q.is_closed
        then (if length q.items == 0 then disabled_standpoint else int (length q.items))
        else int (length q.items))
    pub writers :
        c.writer_slots ≡ (if q.is_closed then disabled_standpoint else int (size - length q.items))

  pub init-Holds :
      (default : A)
      → 0 < size
      → size ≤ 0x40000000
      → Holds (init size default) (record { items = []; is_closed = false })
  unfolding init
  init-Holds default p h = record {
    places = refl;
    positive = p;
    small = h;
    fits = omega arith;
    ends = omega arith;
    bounded = omega arith;
    window = tt;
    readers = refl;
    writers = ground arith;
  }

  -- One call does what the contract says, without a fault.
  record Refines (c : Channel A) (q : Queue A) (x : Call A) (d : Channel A) : Type 0 where
    result : step c x ≡ some ((spec_step size q x).0, d)
    holds : Holds d (spec_step size q x).1
    advance : d.head ≤ c.head + 1

  -- The channel after a write that found a place.
  abbrev written : Channel A → A → Channel A
  written c a = record {
    buffer = record { size = c.buffer.size; at = update c.buffer.at (c.head % c.buffer.size) a };
    head = c.head + 1;
    tail = c.tail;
    readers_slots = c.readers_slots + 1;
    writer_slots = c.writer_slots - 1;
  }

  write-Refines :
      (c : Channel A) (items : List A) (b : Bool) (a : A) (timeout : Int32)
      → Holds c (record { items = items; is_closed = b })
      → c.head + 1 < 2 ^ 64
      → (d : Channel A) × Refines c (record { items = items; is_closed = b }) (writes a timeout) d
  unfolding step spec_step write take_ticket restore_ticket post_ticket is_ok
  write-Refines c items true a timeout h k =
      (c, record { result = ground arith; holds = h; advance = omega arith })
  write-Refines c items false a timeout h k = elim (Bool-cases (ltb (length items) size)) [
    | inl room ↦ (
      written c a,
      record {
        result = ground (arith, mod-lt c.head {m = size} h.positive);
        holds = rw room (record {
          places = h.places;
          positive = h.positive;
          small = h.small;
          fits = omega (arith, length-append items (a ∷ []), boson.Prelude.Tests.ltb→lt _ _ room);
          ends = omega (arith, length-append items (a ∷ []), h.ends);
          bounded = k;
          window =
              rw h.places
                (Window-push c.buffer.at size c.tail c.head a items h.ends (ground arith) h.window);
          readers = omega (arith, length-append items (a ∷ []), h.readers);
          writers = ground (arith, length-append items (a ∷ []), h.writers);
        });
        advance = omega arith;
      },
    )
    | inr full ↦ (c, record { result = ground arith; holds = rw full h; advance = omega arith })
  ]

  -- The channel after a read that found a value. The last read of a closed channel disables the
  -- readers' semaphore.
  abbrev taken_from : Channel A → Bool → List A → Channel A
  taken_from c b xs = record {
    buffer = c.buffer;
    head = c.head;
    tail = c.tail + 1;
    readers_slots =
        if b
        then (if length xs == 0 then disabled_standpoint else int (length xs))
        else int (length xs);
    writer_slots = if b then disabled_standpoint else int (size - length xs);
  }

  read-Refines :
      (c : Channel A) (items : List A) (b : Bool) (timeout : Int32)
      → Holds c (record { items = items; is_closed = b })
      → (d : Channel A) × Refines c (record { items = items; is_closed = b }) (reads timeout) d
  unfolding step spec_step read take_ticket restore_ticket post_ticket is_ok
  read-Refines c [] true timeout h =
      (c, record { result = ground (arith, h.readers); holds = h; advance = omega arith })
  read-Refines c [] false timeout h =
      (c, record { result = ground (arith, h.readers); holds = h; advance = omega arith })
  read-Refines c (x ∷ xs) true timeout h = (
    taken_from c true xs,
    record {
      result =
          ground (arith, mod-lt c.tail {m = size} h.positive, h.readers, h.writers, h.window.0);
      holds = record {
        places = h.places;
        positive = h.positive;
        small = h.small;
        fits = omega (arith, h.fits);
        ends = omega (arith, h.ends);
        bounded = h.bounded;
        window = h.window.1;
        readers = refl;
        writers = refl;
      };
      advance = omega arith;
    },
  )
  read-Refines c (x ∷ xs) false timeout h = (
    taken_from c false xs,
    record {
      result =
          ground (arith, mod-lt c.tail {m = size} h.positive, h.readers, h.writers, h.window.0);
      holds = record {
        places = h.places;
        positive = h.positive;
        small = h.small;
        fits = omega (arith, h.fits);
        ends = omega (arith, h.ends);
        bounded = h.bounded;
        window = h.window.1;
        readers = refl;
        writers = refl;
      };
      advance = omega arith;
    },
  )

  close-Refines :
      (c : Channel A) (items : List A) (b : Bool)
      → Holds c (record { items = items; is_closed = b })
      → Refines c (record { items = items; is_closed = b }) closes (close c)
  unfolding step spec_step close
  close-Refines c items b h = record {
    result = refl;
    holds = record {
      places = h.places;
      positive = h.positive;
      small = h.small;
      fits = h.fits;
      ends = h.ends;
      bounded = h.bounded;
      window = h.window;
      readers = ground (arith, h.readers, h.ends, h.bounded);
      writers = refl;
    };
    advance = omega arith;
  }

  step-Refines :
      (c : Channel A) (q : Queue A) (x : Call A)
      → Holds c q
      → c.head + 1 < 2 ^ 64
      → (d : Channel A) × Refines c q x d
  step-Refines c q (writes a timeout) h k = write-Refines c q.items q.is_closed a timeout h k
  step-Refines c q (reads timeout) h k = read-Refines c q.items q.is_closed timeout h
  step-Refines c q closes h k = (close c, close-Refines c q.items q.is_closed h)

  -- A channel that holds what a queue of the contract holds, and whose head stays below 2^64 for every
  -- call: a sequence of writes, reads and closes by one routine, each write and read with its timeout or
  -- without one, runs without a fault and replies as the queue does, up to the first call that does not
  -- return.
  pub channel_refines :
      (xs : List (Call A)) (c : Channel A) (q : Queue A)
      → Holds c q
      → c.head + length xs < 2 ^ 64
      → run c xs ≡ some (spec_run size q xs)
  unfolding run spec_run
  channel_refines [] c q h k = refl
  channel_refines (x ∷ xs) c q h k =
      let (d, r) = step-Refines c q x h (omega arith) in
      let rest = channel_refines xs d (spec_step size q x).1 r.holds (omega (arith, r.advance)) in
      ap (λ o. do (reply, e) ← o; and_then reply (run e xs)) r.result
      ∙ ap (and_then (spec_step size q x).0) rest
      ∙ and_then-some (spec_step size q x).0 (spec_run size (spec_step size q x).1 xs)
