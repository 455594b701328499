-- ===== src/Queues/VectorizedQueue/Invariant.antt =====
-- What a `vectorized_queue` holds: the entries on its list, and the cells on its free list.
use boson.Prelude.{
  ℕ, ◌≡◌, refl, ltb, Bool, true, false, not, ◌&&◌, ◌||◌, List, [], ◌∷◌, Option, none, some, update,
  is_link, arith, ==_iff, mem, Distinct,
}
use boson.Queues.VectorizedQueue.{Cell, VectorizedQueue, cell, has, empty_queue}
use boson.Queues.VectorizedQueue.Segment.{Entries, has_index, DistinctIndices, Seg}
use boson.Queues.VectorizedQueue.Relink.{outside, redirect, repoint}

abbrev pub link_outside : Option ℕ → List ℕ → Bool
link_outside none fs = true
link_outside (some k) fs = not (mem k fs)

module _ {A : Type 0} where
  -- A free cell names itself as its predecessor.
  abbrev pub FreeChain : (ℕ → Cell A) → Option ℕ → List ℕ → Type 0
  FreeChain at c [] = c ≡ none
  FreeChain at c (f ∷ fs) = (c ≡ some f) × ((at f).previous ≡ some f) × FreeChain at (at f).next fs

  pub record Rep (q : VectorizedQueue A) (xs : Entries A) (fs : List ℕ) : Type 0 where
    pub chain : Seg q.cells.at none q.head xs q.tail none
    pub distinct : DistinctIndices xs
    pub free_chain : FreeChain q.cells.at q.first_free_cell fs
    pub free_distinct : Distinct fs
    pub covered : (i : ℕ) → (has_index i xs || mem i fs) ≡ ltb i q.cells.size
    pub apart : (i : ℕ) → (has_index i xs && mem i fs) ≡ false

  -- The cells in use are disjoint from the free ones, and the queue is the list `xs`.
  abbrev pub Holds : VectorizedQueue A → Entries A → Type 0
  Holds q xs = (fs : List ℕ) × Rep q xs fs

  pub empty-Holds : Holds empty_queue []
  unfolding empty_queue
  empty-Holds = (
    [],
    record {
      chain = (refl, refl);
      distinct = tt;
      free_chain = refl;
      free_distinct = tt;
      covered = ground arith;
      apart = ground arith;
    },
  )

  pub FreeChain-update :
      (at : ℕ → Cell A) (c : Option ℕ) (fs : List ℕ) (i : ℕ) (n : Cell A)
      → mem i fs ≡ false
      → FreeChain at c fs
      → FreeChain (update at i n) c fs
  FreeChain-update at c [] i n out s = s
  FreeChain-update at c (f ∷ fs) i n out s =
      ground (arith, ==_iff f i, FreeChain-update at (at f).next fs i n)

  pub FreeChain-redirect :
      (at : ℕ → Cell A) (c : Option ℕ) (fs : List ℕ) (l n : Option ℕ)
      → link_outside l fs ≡ true
      → FreeChain at c fs
      → FreeChain (redirect at l n) c fs
  FreeChain-redirect at c fs none n out s = s
  FreeChain-redirect at c fs (some k) n out s =
      FreeChain-update at c fs k (cell (at k).value (at k).previous n) (ground arith) s

  pub FreeChain-repoint :
      (at : ℕ → Cell A) (c : Option ℕ) (fs : List ℕ) (l n : Option ℕ)
      → link_outside l fs ≡ true
      → FreeChain at c fs
      → FreeChain (repoint at l n) c fs
  FreeChain-repoint at c fs none n out s = s
  FreeChain-repoint at c fs (some k) n out s =
      FreeChain-update at c fs k (cell (at k).value n (at k).next) (ground arith) s

  FreeChain-previous :
      (at : ℕ → Cell A) (c : Option ℕ) (fs : List ℕ) (i : ℕ)
      → FreeChain at c fs
      → mem i fs ≡ true
      → (at i).previous ≡ some i
  FreeChain-previous at c [] i s m = cc
  FreeChain-previous at c (f ∷ fs) i s m =
      ground (arith, ==_iff f i, FreeChain-previous at (at f).next fs i s.2)

  -- The predecessor of an entry is another entry, or what stands before the segment.
  Seg-previous :
      (at : ℕ → Cell A) (p c : Option ℕ) (xs : Entries A) (q d : Option ℕ) (i : ℕ)
      → DistinctIndices xs
      → outside p xs ≡ true
      → Seg at p c xs q d
      → has_index i xs ≡ true
      → is_link (at i).previous i ≡ false
  Seg-previous at p c [] q d i u o s h = cc
  Seg-previous at none c ((j, a) ∷ xs) q d i u o s h =
      ground (arith, ==_iff j i, Seg-previous at (some j) (at j).next xs q d i u.1)
  Seg-previous at (some k) c ((j, a) ∷ xs) q d i u o s h =
      ground (arith, ==_iff j i, ==_iff k i, Seg-previous at (some j) (at j).next xs q d i u.1)

  -- `has` tells the cells of the list from all others.
  pub has-has_index :
      {q : VectorizedQueue A} {xs : Entries A} {fs : List ℕ}
      → Rep q xs fs
      → (i : ℕ) → has q i ≡ has_index i xs
  unfolding has
  has-has_index {q} {xs} {fs} r i = ground (
    arith,
    r.covered i,
    r.apart i,
    Seg-previous q.cells.at none q.head xs q.tail none i r.distinct refl r.chain,
    FreeChain-previous q.cells.at q.first_free_cell fs i r.free_chain,
  )
