-- ===== src/Queues/VectorizedQueue/Segment.antt =====
-- Segments of the doubly linked list of `vectorized_queue`, and what a write to one cell does to them.
use boson.Prelude.{
  ℕ, ◌≡◌, refl, ◌==◌, Bool, false, ◌||◌, List, [], ◌∷◌, ◌++◌, Option, some, update, arith,
}
use boson.Queues.VectorizedQueue.{Cell}

-- The entries of a queue, each with its index, oldest first.
abbrev pub Entries : Type 0 → Type 0
Entries A = List (ℕ × A)

module _ {A : Type 0} where
  abbrev pub has_index : ℕ → Entries A → Bool
  has_index i [] = false
  has_index i ((j, a) ∷ xs) = (j == i) || has_index i xs

  abbrev pub DistinctIndices : Entries A → Type 0
  DistinctIndices [] = Unit {0}
  DistinctIndices ((j, a) ∷ xs) = (has_index j xs ≡ false) × DistinctIndices xs

  -- Entered from the cell `p` at the link `c`, the cells hold `xs`; the last one is `q`, and its link
  -- is `d`.
  abbrev pub Seg : (ℕ → Cell A) → Option ℕ → Option ℕ → Entries A → Option ℕ → Option ℕ → Type 0
  Seg at p c [] q d = (p ≡ q) × (c ≡ d)
  Seg at p c ((i, a) ∷ xs) q d =
      (c ≡ some i)
      × ((at i).value ≡ some a)
      × ((at i).previous ≡ p)
      × Seg at (some i) (at i).next xs q d

  -- A write to a cell that is not in the segment leaves it.
  pub Seg-update :
      (at : ℕ → Cell A) (p c : Option ℕ) (xs : Entries A) (q d : Option ℕ) (i : ℕ) (n : Cell A)
      → has_index i xs ≡ false
      → Seg at p c xs q d
      → Seg (update at i n) p c xs q d
  Seg-update at p c [] q d i n out s = s
  Seg-update at p c ((j, a) ∷ xs) q d i n out s =
      ground (arith, Seg-update at (some j) (at j).next xs q d i n)

  pub Seg-append :
      (at : ℕ → Cell A) (p c : Option ℕ) (xs ys : Entries A) (m l q d : Option ℕ)
      → Seg at p c xs m l
      → Seg at m l ys q d
      → Seg at p c (xs ++ ys) q d
  Seg-append at p c [] ys m l q d s t = rw (s.0, s.1) t
  Seg-append at p c ((i, a) ∷ xs) ys m l q d s t =
      (s.0, s.1, s.2, Seg-append at (some i) (at i).next xs ys m l q d s.3 t)

  pub Seg-split :
      (at : ℕ → Cell A) (p c : Option ℕ) (xs ys : Entries A) (q d : Option ℕ)
      → Seg at p c (xs ++ ys) q d
      → (m l : Option ℕ) × Seg at p c xs m l × Seg at m l ys q d
  Seg-split at p c [] ys q d s = (p, c, (refl, refl), s)
  Seg-split at p c ((i, a) ∷ xs) ys q d s =
      let (m, l, front, back) = Seg-split at (some i) (at i).next xs ys q d s.3 in
      (m, l, (s.0, s.1, s.2, front), back)

  pub has_index-append :
      (i : ℕ) (xs ys : Entries A) → has_index i (xs ++ ys) ≡ (has_index i xs || has_index i ys)
  has_index-append i [] ys = refl
  has_index-append i ((j, a) ∷ xs) ys = ground (arith, has_index-append i xs ys)
