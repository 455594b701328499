-- ===== src/Memory/SparseVector.antt =====
-- `memory::sparse_vector` of src/boson/boson/memory/sparse_vector.h: cells at stable indices, with
-- the free ones chained through `free_cells_`. A link `-1` is `none`. Indices stay below 2^31, where
-- the casts of the source change nothing.
pub mod FreeList
pub mod Allocation
mod Tests
pub mod Sized
pub mod Elements
use boson.Prelude.{
  ℕ, ◌+◌, ◌==◌, ltb, Bool, not, ◌&&◌, Option, none, some, Vector, update, filled, get, put,
  push_back, if◌then◌else◌, is_none, is_link, ◌>>=◌, ◌>>◌, assert,
}

-- `ValueType{}` is a value that the element type gives.
pub record SparseVector (A : Type 0) : Type 0 where
  pub data_cells : Vector A
  pub free_cells : Vector (Option ℕ)
  pub first_free_cell : Option ℕ
  pub last_free_cell : Option ℕ

module _ {A : Type 0} where
  unfoldable pub empty : A → SparseVector A
  empty default = record {
    data_cells = filled 0 default;
    free_cells = filled 0 none;
    first_free_cell = none;
    last_free_cell = none;
  }

  -- The constructor with an initial size: the cells are chained in order.
  unfoldable pub with_size : A → ℕ → SparseVector A
  with_size default n = if n == 0 then empty default else record {
    data_cells = filled n default;
    free_cells = record { size = n; at = λ i. if ltb (i + 1) n then some (i + 1) else none };
    first_free_cell = some 0;
    last_free_cell = none;
  }

  unfoldable pub has : SparseVector A → ℕ → Bool
  has v i =
      ltb i v.data_cells.size && not (is_link v.last_free_cell i) && is_none (v.free_cells.at i)

  -- `operator[]`, read and written through.
  unfoldable pub read : SparseVector A → ℕ → Option A
  read v i = assert (has v i) >> get v.data_cells i

  unfoldable pub write : SparseVector A → ℕ → A → Option (SparseVector A)
  write v i a = do
    assert (has v i)
    cells ← put v.data_cells i a
    some (record v { data_cells = cells })

  unfoldable pub allocate : A → SparseVector A → Option (ℕ × SparseVector A)
  allocate default v = elim v.first_free_cell [
    | none ↦ some (
      v.data_cells.size,
      record v {
        data_cells = push_back v.data_cells default;
        free_cells = push_back v.free_cells none;
      },
    )
    | some cell_index ↦ do
      next ← get v.free_cells cell_index
      cells ← put v.free_cells cell_index none
      some (
        cell_index,
        record v {
          free_cells = cells;
          first_free_cell = next;
          last_free_cell = if is_link v.last_free_cell cell_index then none else v.last_free_cell;
        },
      )
  ]

  unfoldable pub free : SparseVector A → ℕ → Option (SparseVector A)
  free v i = do
    cells ← put v.free_cells i v.first_free_cell
    some (record v {
      free_cells = cells;
      first_free_cell = some i;
      last_free_cell = if is_none v.last_free_cell then some i else v.last_free_cell;
    })
