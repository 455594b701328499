-- ===== src/Queues/VectorizedQueue/Tests.antt =====
-- Runs of `vectorized_queue`, and its theorems at concrete queues.
use boson.Prelude.{ℕ, ◌≡◌, refl, ◌==◌, true, false, List, [], ◌∷◌, Option, none, some, ◌>>=◌, arith}
use boson.Queues.VectorizedQueue.{
  VectorizedQueue, Cell, cell, has, empty_queue, write, read, free, lazy_free, with_size, unlink,
  unlink_head, unlink_tail, unlink_middle, assert_has, set_previous,
}
use boson.Queues.VectorizedQueue.Segment.{Entries, has_index}
use boson.Queues.VectorizedQueue.Invariant.{Holds, has-has_index}
use boson.Queues.VectorizedQueue.Write.{write-append}
use boson.Queues.VectorizedQueue.Spec.{
  writes, reads, frees, Reply, index, value, found, Trace, run, step,
}
use boson.Queues.VectorizedQueue.Refinement.{read-first, lazy_free-remove, run_refines}

-- Three values, the middle one freed, one more written to its cell, and then all read.
replies : Option (List (Reply ℕ))
unfolding run step empty_queue write read lazy_free free has unlink unlink_head unlink_tail
    unlink_middle
replies = do
  (rs, q) ← run empty_queue (
      writes 10
      ∷ writes 11
      ∷ writes 12
      ∷ frees 1
      ∷ frees 1
      ∷ writes 13
      ∷ reads
      ∷ reads
      ∷ reads
      ∷ reads
      ∷ [])
  some rs

replies_lem :
    replies
    ≡ some (
        index 0
        ∷ index 1
        ∷ index 2
        ∷ found true
        ∷ found false
        ∷ index 1
        ∷ value (some 10)
        ∷ value (some 12)
        ∷ value (some 13)
        ∷ value none
        ∷ [])
unfolding replies set_previous assert_has
replies_lem = refl

-- Two entries in two cells.
abbrev two : VectorizedQueue ℕ
two = record {
  cells = record { size = 2; at = λ i. if_first i };
  first_free_cell = none;
  head = some 0;
  tail = some 1;
}
  where
    if_first : ℕ → Cell ℕ
    if_first i = elim (i == 0) [
      | true ↦ cell (some 7) none (some 1)
      | false ↦ cell (some 8) (some 0) none
    ]

two-Holds : Holds two ((0, 7) ∷ (1, 8) ∷ [])
two-Holds = (
  [],
  record {
    chain = (refl, refl, refl, (refl, refl, refl, (refl, refl)));
    distinct = (refl, (refl, tt));
    free_chain = refl;
    free_distinct = tt;
    covered = ground arith;
    apart = ground arith;
  },
)

write-append_trial :
    (i : ℕ) × (w : VectorizedQueue ℕ) × (write two 9 ≡ some (i, w))
    × (has_index {A = ℕ} i ((0, 7) ∷ (1, 8) ∷ []) ≡ false)
    × Holds w ((0, 7) ∷ (1, 8) ∷ (i, 9) ∷ [])
write-append_trial = write-append 9 two-Holds

two_gives_7 : (w : VectorizedQueue ℕ) × (read two ≡ some (some 7, w)) × Holds w ((1, 8) ∷ [])
two_gives_7 = read-first ((0, 7) ∷ (1, 8) ∷ []) two-Holds

lazy_free-remove_trial :
    (w : VectorizedQueue ℕ) × (lazy_free two 1 ≡ some (true, w)) × Holds w ((0, 7) ∷ [])
lazy_free-remove_trial = lazy_free-remove 1 two-Holds

run_refines_example :
    (rs : List (Reply ℕ)) × (w : VectorizedQueue ℕ) × (ys : Entries ℕ) × (run two
        (frees 0 ∷ writes 9 ∷ reads ∷ [])
      ≡ some (rs, w))
    × Trace ((0, 7) ∷ (1, 8) ∷ []) (frees 0 ∷ writes 9 ∷ reads ∷ []) rs ys
    × Holds w ys
run_refines_example = run_refines (frees 0 ∷ writes 9 ∷ reads ∷ []) two-Holds

has-has_index_example : has two 1 ≡ has_index {A = ℕ} 1 ((0, 7) ∷ (1, 8) ∷ [])
has-has_index_example = has-has_index (two-Holds.1) 1

-- The constructor pushes one cell less than it is asked for: with the size 1 it writes behind an empty
-- vector. The last free cell passes for an occupied one.
sized :
    (with_size {A = ℕ} 1 ≡ none)
    × ((with_size {A = ℕ} 4 >>= λ q. some q.cells.size) ≡ some 3)
    × ((with_size {A = ℕ} 4 >>= λ q. some (has q 1)) ≡ some false)
    × ((with_size {A = ℕ} 4 >>= λ q. some (has q 2)) ≡ some true)
unfolding with_size has
sized = (refl, refl, refl, refl)
