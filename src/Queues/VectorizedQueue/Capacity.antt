-- ===== src/Queues/VectorizedQueue/Capacity.antt =====
-- A queue has a cell for each of its entries.
use boson.Prelude.{
  ℕ, zero, suc, ◌<◌, ◌≤◌, ◌≡◌, ◌==◌, ==_iff, true, not, ◌&&◌, [], ◌∷◌, length, arith, Bool-cases,
  inl, inr,
}
use boson.Queues.VectorizedQueue.{VectorizedQueue}
use boson.Queues.VectorizedQueue.Segment.{Entries, has_index, DistinctIndices}
use boson.Queues.VectorizedQueue.Spec.{remove}
use boson.Queues.VectorizedQueue.Invariant.{Holds}

module _ {A : Type 0} where
  length-remove : (i : ℕ) (xs : Entries A) → length xs ≤ suc (length (remove i xs))
  length-remove i [] = omega arith
  length-remove i ((j, a) ∷ xs) = ground (arith, length-remove i xs)

  has_index-remove :
      (i j : ℕ) (xs : Entries A)
      → DistinctIndices xs
      → has_index j (remove i xs) ≡ (has_index j xs && not (i == j))
  has_index-remove i j [] d = ground arith
  has_index-remove i j ((k, a) ∷ xs) d =
      ground (arith, has_index-remove i j xs d.1, ==_iff k i, ==_iff i j, ==_iff k j)

  remove-DistinctIndices :
      (i : ℕ) (xs : Entries A) → DistinctIndices xs → DistinctIndices (remove i xs)
  remove-DistinctIndices i [] d = d
  remove-DistinctIndices i ((k, a) ∷ xs) d = elim (Bool-cases (k == i)) [
    | inl hit ↦ rw hit d.1
    | inr miss ↦
        rw miss (ground (arith, has_index-remove i k xs d.1), remove-DistinctIndices i xs d.1)
  ]

  -- Distinct indices below `n` are at most `n`.
  length-le :
      (n : ℕ) (xs : Entries A)
      → DistinctIndices xs
      → ((i : ℕ) → has_index i xs ≡ true → i < n)
      → length xs ≤ n
  length-le zero [] d h = omega arith
  length-le zero ((i, a) ∷ xs) d h = absurd (omega (arith, h i (ground arith)))
  length-le (suc n) xs d h = omega (
    arith,
    length-remove n xs,
    length-le n (remove n xs) (remove-DistinctIndices n xs d)
        (λ i m. ground (arith, h i, has_index-remove n i xs d, ==_iff n i)),
  )

  pub Holds-length :
      {q : VectorizedQueue A} {xs : Entries A} → Holds q xs → length xs ≤ q.cells.size
  Holds-length {q} {xs} (fs, r) =
      length-le q.cells.size xs r.distinct (λ i m. ground (arith, r.covered i))
