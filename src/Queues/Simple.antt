-- ===== src/Queues/Simple.antt =====
-- `queues::simple_queue` and `simple_void_queue` of src/boson/boson/queues/simple.h and
-- src/boson/src/queues/simple.cc: a deque behind one lock, so that a call is one step.
use boson.Prelude.{ℕ, List, [], ◌∷◌, ◌++◌, Option, none, some}

module _ {A : Type 0} where
  unfoldable pub write : A → List A → List A
  write value queue = queue ++ value ∷ []

  unfoldable pub read : List A → Option A × List A
  read [] = (none, [])
  read (value ∷ queue) = (some value, queue)

-- The queue of pointers, where `nullptr` is 0.
unfoldable pub write_pointer : (proc_id pointer : ℕ) → List ℕ → List ℕ
write_pointer proc_id pointer queue = queue ++ pointer ∷ []

unfoldable pub read_pointer : (proc_id : ℕ) → List ℕ → ℕ × List ℕ
read_pointer proc_id [] = (0, [])
read_pointer proc_id (pointer ∷ queue) = (pointer, queue)
