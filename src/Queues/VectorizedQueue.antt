-- ===== src/Queues/VectorizedQueue.antt =====
-- `queues::vectorized_queue` of src/boson/boson/queues/vectorized_queue.h: a doubly linked list in an
-- array, with deletion by index. The mark `empty` (the greatest `size_t`, which no index reaches) is
-- `none`; so is storage that holds no value.
pub mod Segment
pub mod Relink
pub mod Invariant
pub mod Write
pub mod Unlink
pub mod Ends
pub mod Free
pub mod Spec
mod Tests
pub mod Capacity
pub mod Refinement
use boson.Prelude.{
  ℕ, ◌+◌, ◌-◌, ◌==◌, ltb, Bool, true, false, not, ◌&&◌, Option, none, some, Vector, filled, get,
  put, push_back, if◌then◌else◌, is_none, is_link, ◌>>=◌, ◌>>◌, assert,
}

pub record Cell (A : Type 0) : Type 0 where
  pub value : Option A
  pub previous : Option ℕ
  pub next : Option ℕ

pub record VectorizedQueue (A : Type 0) : Type 0 where
  pub cells : Vector (Cell A)
  pub first_free_cell : Option ℕ
  pub head : Option ℕ
  pub tail : Option ℕ

module _ {A : Type 0} where
  abbrev pub cell : Option A → Option ℕ → Option ℕ → Cell A
  cell v p n = record { value = v; previous = p; next = n }

  unfoldable pub has : VectorizedQueue A → ℕ → Bool
  has q i = if ltb i q.cells.size then not (is_link (q.cells.at i).previous i) else false

  unfoldable pub empty_queue : VectorizedQueue A
  empty_queue = record {
    cells = filled 0 (cell none none none);
    first_free_cell = none;
    head = none;
    tail = none;
  }

  -- The constructor with an initial size, which pushes one cell less than it is asked for. Then it
  -- writes to `data_.back()`, a fault where no cell was pushed.
  unfoldable pub with_size : ℕ → Option (VectorizedQueue A)
  with_size n = if n == 0 then some empty_queue else do
    let pushed : Vector (Cell A) = record {
      size = n - 1;
      at = λ index. cell none (some index) (some (index + 1));
    }
    cells ← put pushed (pushed.size - 1) (cell none none none)
    some (record empty_queue { cells = cells; first_free_cell = some 0 })

  -- The cell that `write` takes, with the vector that it is in.
  unfoldable pub take_cell : VectorizedQueue A → ℕ × Vector (Cell A)
  take_cell q = elim q.first_free_cell [
    | none ↦ (q.cells.size, push_back q.cells (cell none (some q.cells.size) none))
    | some f ↦ (f, q.cells)
  ]

  -- `data_[l].next = i` and `data_[l].previous = i`, where the link `l` is none for no write.
  unfoldable pub set_next : Vector (Cell A) → Option ℕ → Option ℕ → Option (Vector (Cell A))
  set_next v none i = some v
  set_next v (some l) i = do node ← get v l; put v l (record node { next = i })

  unfoldable pub set_previous : Vector (Cell A) → Option ℕ → Option ℕ → Option (Vector (Cell A))
  set_previous v none i = some v
  set_previous v (some l) i = do node ← get v l; put v l (record node { previous = i })

  unfoldable pub write : VectorizedQueue A → A → Option (ℕ × VectorizedQueue A)
  unfolding take_cell set_next
  write q a = do
    let taken = take_cell q
    node ← get taken.1 taken.0
    filled_in ← put taken.1 taken.0 (cell (some a) q.tail none)
    linked ← set_next filled_in q.tail (some taken.0)
    some (
      taken.0,
      record {
        cells = linked;
        first_free_cell = node.next;
        head = if is_none q.head then some taken.0 else q.head;
        tail = some taken.0;
      },
    )

  -- `assert(has(l))`, where there is a cell behind the link.
  unfoldable pub assert_has : VectorizedQueue A → Option ℕ → Option (Unit {0})
  assert_has q none = some tt
  assert_has q (some l) = assert (has q l)

  -- The three cases of `free`, up to the point where the cell is out of the list.
  unfoldable pub unlink_head : VectorizedQueue A → ℕ → Cell A → Option (VectorizedQueue A)
  unlink_head q i node = do
    assert_has q node.next
    cells ← set_previous q.cells node.next none
    some (record q {
      cells = cells;
      head = node.next;
      tail = if is_link q.tail i then none else q.tail;
    })

  unfoldable pub unlink_tail : VectorizedQueue A → Cell A → Option (VectorizedQueue A)
  unlink_tail q node = do
    assert_has q node.previous
    cells ← set_next q.cells node.previous none
    some (record q { cells = cells; tail = node.previous })

  -- Both neighbours are indexed without a test, so a missing one is a fault.
  unfoldable pub unlink_middle : VectorizedQueue A → Cell A → Option (VectorizedQueue A)
  unlink_middle q node = do
    before ← node.previous
    after ← node.next
    assert (has q before && has q after)
    cells ← set_next q.cells (some before) (some after)
    cells' ← set_previous cells (some after) (some before)
    some (record q { cells = cells' })

  unfoldable pub unlink : VectorizedQueue A → ℕ → Cell A → Option (VectorizedQueue A)
  unlink q i node =
      if is_link q.head i
      then unlink_head q i node
      else if is_link q.tail i
      then unlink_tail q node
      else unlink_middle q node

  unfoldable pub free : VectorizedQueue A → ℕ → Option (VectorizedQueue A)
  free q i = do
    assert (has q i)
    node ← get q.cells i
    unlinked ← unlink q i node
    cells ← put unlinked.cells i (cell none (some i) unlinked.first_free_cell)
    some (record unlinked { cells = cells; first_free_cell = some i })

  unfoldable pub lazy_free : VectorizedQueue A → ℕ → Option (Bool × VectorizedQueue A)
  lazy_free q i =
      if ltb i q.cells.size && not (is_link (q.cells.at i).previous i)
      then (do q' ← free q i; some (true, q'))
      else some (false, q)

  -- `read(value)`: the value that was moved out, if the queue held one.
  unfoldable pub read : VectorizedQueue A → Option (Option A × VectorizedQueue A)
  read q = elim q.head [
    | none ↦ some (none, q)
    | some h ↦ do
      assert (has q h)
      node ← get q.cells h
      value ← node.value
      q' ← free q h
      some (some value, q')
  ]
