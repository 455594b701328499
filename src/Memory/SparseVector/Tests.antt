-- ===== src/Memory/SparseVector/Tests.antt =====
-- Runs of `sparse_vector`, and its theorems at concrete vectors.
use boson.Prelude.{
  ℕ, ◌≡◌, refl, ◌==◌, true, List, [], ◌∷◌, Option, none, some, ◌>>=◌, arith, if◌then◌else◌,
}
use boson.Memory.SparseVector.{SparseVector, empty, has, read, write, allocate, free, with_size}
use boson.Memory.SparseVector.FreeList.{Chain, Rep}
use boson.Memory.SparseVector.Allocation.{
  Allocated, Freed, allocate-Allocated, free-Freed, allocate-free,
}
use boson.Memory.SparseVector.Sized.{has-with_size}
use boson.Memory.SparseVector.Elements.{read-write}

-- The cells are given back in the reverse order.
indices : Option (List ℕ)
unfolding empty allocate free
indices = do
  (a, v) ← allocate {A = ℕ} 0 (empty 0)
  (b, v) ← allocate 0 v
  (c, v) ← allocate 0 v
  v ← free v 0
  v ← free v 2
  (d, v) ← allocate 0 v
  (e, v) ← allocate 0 v
  some (a ∷ b ∷ c ∷ d ∷ e ∷ [])

indices_lem : indices ≡ some (0 ∷ 1 ∷ 2 ∷ 2 ∷ 0 ∷ [])
unfolding indices
indices_lem = refl

-- Two cells, of which the first is free.
abbrev half_full : SparseVector ℕ
half_full = record {
  data_cells = record { size = 2; at = λ i. 5 };
  free_cells = record { size = 2; at = λ i. none };
  first_free_cell = some 0;
  last_free_cell = some 0;
}

half_full-Rep : Rep half_full (0 ∷ [])
half_full-Rep = record {
  sizes = refl;
  chain = (refl, refl);
  distinct = (refl, tt);
  final = refl;
  in_range = λ i h. ground arith;
  unlinked = λ i h k. refl;
}

has_one : has half_full 1 ≡ true
unfolding has
has_one = refl

allocate-Allocated_example :
    (i : ℕ) × (w : SparseVector ℕ) × (gs : List ℕ) × Allocated 0 half_full i w gs
allocate-Allocated_example = allocate-Allocated 0 (0 ∷ []) half_full-Rep

free-Freed_example : (w : SparseVector ℕ) × Freed 0 half_full 1 w (1 ∷ 0 ∷ [])
free-Freed_example = free-Freed 0 1 half_full-Rep has_one

allocate-free_example : (free half_full 1 >>= allocate 0) ≡ some (1, half_full)
allocate-free_example = allocate-free 0 1 half_full-Rep has_one

has-with_size_example :
    Chain
      (with_size {A = ℕ} 0 3).free_cells.at
      (with_size {A = ℕ} 0 3).first_free_cell
      (0 ∷ 1 ∷ 2 ∷ [])
    × (has (with_size {A = ℕ} 0 3) 2 ≡ (2 == 2))
has-with_size_example = has-with_size {A = ℕ} 0 2 2 (omega arith)

read-write_trial :
    (w : SparseVector ℕ) × (write half_full 1 9 ≡ some w)
    × Rep w (0 ∷ [])
    × ((j : ℕ) → has w j ≡ has half_full j)
    × ((j : ℕ) → read w j ≡ (if 1 == j then some 9 else read half_full j))
read-write_trial = read-write 1 9 half_full-Rep has_one
