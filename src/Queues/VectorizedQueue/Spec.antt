-- ===== src/Queues/VectorizedQueue/Spec.antt =====
-- The contract of `vectorized_queue`: a queue of indexed entries. `write` appends under an index that
-- no entry has; `read` takes the oldest; `lazy_free` takes the entry of an index, if there is one.
use boson.Prelude.{
  ℕ, ◌≡◌, ◌==◌, Bool, false, List, [], ◌∷◌, ◌++◌, Option, none, some, if◌then◌else◌, ◌>>=◌,
}
use boson.Queues.VectorizedQueue.{VectorizedQueue, write, read, lazy_free}
use boson.Queues.VectorizedQueue.Segment.{Entries, has_index}

module _ {A : Type 0} where
  abbrev pub remove : ℕ → Entries A → Entries A
  remove i [] = []
  remove i ((j, a) ∷ xs) = if j == i then xs else (j, a) ∷ remove i xs

  abbrev pub drop_first : Entries A → Entries A
  drop_first [] = []
  drop_first (x ∷ xs) = xs

  abbrev pub first_value : Entries A → Option A
  first_value [] = none
  first_value ((i, a) ∷ xs) = some a

pub data Call (A : Type 0) : Type 0 where
  writes : A → Call A
  reads : Call A
  frees : ℕ → Call A

pub data Reply (A : Type 0) : Type 0 where
  index : ℕ → Reply A
  value : Option A → Reply A
  found : Bool → Reply A

-- What the contract allows as the reply and the entries after one call.
pub data Allows {A : Type 0} : Entries A → Call A → Reply A → Entries A → Type 0 where
  append :
      (xs : Entries A) (a : A) (i : ℕ)
      → has_index i xs ≡ false
      → Allows xs (writes a) (index i) (xs ++ (i, a) ∷ [])
  take_first : (xs : Entries A) → Allows xs reads (value (first_value xs)) (drop_first xs)
  take_at : (xs : Entries A) (i : ℕ) → Allows xs (frees i) (found (has_index i xs)) (remove i xs)

-- A history of calls and replies that the contract allows, from entries to entries.
pub data Trace {A : Type 0} : Entries A → List (Call A) → List (Reply A) → Entries A → Type 0 where
  done : {xs : Entries A} → Trace xs [] [] xs
  more :
      {xs ys zs : Entries A} {c : Call A} {cs : List (Call A)} {r : Reply A} {rs : List (Reply A)}
      → Allows xs c r ys
      → Trace ys cs rs zs
      → Trace xs (c ∷ cs) (r ∷ rs) zs

module _ {A : Type 0} where
  -- The code, driven by the same calls.
  unfoldable pub step : VectorizedQueue A → Call A → Option (Reply A × VectorizedQueue A)
  step q (writes a) = do (i, w) ← write q a; some (index i, w)
  step q reads = do (v, w) ← read q; some (value v, w)
  step q (frees i) = do (b, w) ← lazy_free q i; some (found b, w)

  unfoldable pub run :
      VectorizedQueue A → List (Call A) → Option (List (Reply A) × VectorizedQueue A)
  run q [] = some ([], q)
  run q (c ∷ cs) = step q c >>= λ (r, w). run w cs >>= λ (rs, z). some (r ∷ rs, z)
