-- ===== src/Memory/SparseVector/Elements.antt =====
-- `operator[]` of `sparse_vector`.
use boson.Prelude.{ℕ, ◌≡◌, refl, ◌==◌, true, List, some, update, if◌then◌else◌, arith}
use boson.Memory.SparseVector.{SparseVector, has, read, write}
use boson.Memory.SparseVector.FreeList.{Rep}

module _ {A : Type 0} where
  -- A write to a cell in use is read back there, changes no other cell, and leaves the free list and
  -- what is in use as they were.
  pub read-write :
      {v : SparseVector A} {fs : List ℕ} (i : ℕ) (a : A)
      → Rep v fs
      → has v i ≡ true
      → (w : SparseVector A) × (write v i a ≡ some w)
        × Rep w fs
        × ((j : ℕ) → has w j ≡ has v j)
        × ((j : ℕ) → read w j ≡ (if i == j then some a else read v j))
  unfolding read write has
  read-write {v} i a r h = (
    record v { data_cells = record { size = v.data_cells.size; at = update v.data_cells.at i a } },
    ground arith,
    record {
      sizes = r.sizes;
      chain = r.chain;
      distinct = r.distinct;
      final = r.final;
      in_range = r.in_range;
      unlinked = r.unlinked;
    },
    (λ j. refl),
    (λ j. ground arith),
  )
