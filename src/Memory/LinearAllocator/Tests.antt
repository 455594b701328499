-- ===== src/Memory/LinearAllocator/Tests.antt =====
-- Two cells, of which the first is freed and taken again before a third is made.
use boson.Prelude.{ℕ, ◌≡◌, refl, [], ◌∷◌, some, arith}
use boson.Memory.LinearAllocator.{LinearAllocator, init}
use boson.Memory.LinearAllocator.FreeStack.{allocates, frees, run, run-given}

run-given_example :
    (b : LinearAllocator ℕ) × (run 0
        (allocates ∷ allocates ∷ frees 0 ∷ allocates ∷ allocates ∷ [])
        (init 0 2)
      ≡ some (0 ∷ 1 ∷ 0 ∷ 2 ∷ [], b))
run-given_example =
    run-given 0 2 (allocates ∷ allocates ∷ frees 0 ∷ allocates ∷ allocates ∷ [])
      (omega arith, refl, tt)
