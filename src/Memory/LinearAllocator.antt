-- ===== src/Memory/LinearAllocator.antt =====
-- `memory::linear_allocator` of src/boson/boson/memory/linear_allocator.h. A cell is named by its index, where
-- the source gives a pointer, which the growth of the vector invalidates. A link `-1` is `none`.
pub mod FreeStack
mod Tests
use boson.Prelude.{
  ℕ, ◌+◌, ◌==◌, ltb, Option, none, some, Vector, filled, get, put, push_back, if◌then◌else◌, ◌>>=◌,
}

pub record LinearAllocator (A : Type 0) : Type 0 where
  pub cells : Vector A
  pub free_cells : Vector (Option ℕ)
  pub first_free_cell : Option ℕ

module _ {A : Type 0} where
  -- The constructor: the cells are chained in order.
  unfoldable pub init : A → ℕ → LinearAllocator A
  init default size = record {
    cells = filled size default;
    free_cells = record { size = size; at = λ i. if ltb (i + 1) size then some (i + 1) else none };
    first_free_cell = if size == 0 then none else some 0;
  }

  unfoldable pub allocate : A → LinearAllocator A → Option (ℕ × LinearAllocator A)
  allocate default a = elim a.first_free_cell [
    | none ↦ some (
      a.cells.size,
      record a { cells = push_back a.cells default; free_cells = push_back a.free_cells none },
    )
    | some cell_index ↦ do
      next ← get a.free_cells cell_index
      free_cells ← put a.free_cells cell_index none
      some (cell_index, record a { first_free_cell = next; free_cells = free_cells })
  ]

  unfoldable pub free : ℕ → LinearAllocator A → Option (LinearAllocator A)
  free index a = do
    free_cells ← put a.free_cells index a.first_free_cell
    some (record a { free_cells = free_cells; first_free_cell = some index })
