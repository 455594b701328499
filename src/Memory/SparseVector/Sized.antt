-- ===== src/Memory/SparseVector/Sized.antt =====
-- The constructor of `sparse_vector` with an initial size.
use boson.Prelude.{
  ℕ, suc, ◌+◌, ◌<◌, ◌==◌, ◌≡◌, subst, ltb, none, some, filled, if◌then◌else◌, arith,
}
use boson.Memory.SparseVector.{SparseVector, with_size, has}
use boson.Memory.SparseVector.FreeList.{Chain, indices, indices-Chain}

module _ {A : Type 0} (default : A) where
  abbrev chain_of : ℕ → SparseVector A
  chain_of size = record {
    data_cells = filled size default;
    free_cells = record { size = size; at = λ i. if ltb (i + 1) size then some (i + 1) else none };
    first_free_cell = some 0;
    last_free_cell = none;
  }

  sized : (n : ℕ) → chain_of (suc n) ≡ with_size default (suc n)
  unfolding with_size
  sized n = ground arith

  chained :
      (n : ℕ)
      → Chain
          (chain_of (suc n)).free_cells.at
          (chain_of (suc n)).first_free_cell
          (indices 0 (suc n))
  chained n =
      subst (λ o. Chain (chain_of (suc n)).free_cells.at o (indices 0 (suc n))) (ground arith)
        (indices-Chain (suc n) 0 (suc n) (omega arith))

  -- After the constructor with a size above 0 all cells are free: from the first free cell the links
  -- lead through every index in order to the end. And yet `has` is true of the last cell, and only of
  -- it.
  pub has-with_size :
      (n i : ℕ)
      → i < suc n
      → Chain
          (with_size default (suc n)).free_cells.at
          (with_size default (suc n)).first_free_cell
          (indices 0 (suc n))
        × (has (with_size default (suc n)) i ≡ (i == n))
  unfolding with_size has
  has-with_size n i h = (
    subst (λ (v : SparseVector A). Chain v.free_cells.at v.first_free_cell (indices 0 (suc n)))
        (sized n) (chained n),
    ground arith,
  )
