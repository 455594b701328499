-- ===== src/Memory/SparseVector/FreeList.antt =====
-- The free list of `sparse_vector`: what `first_free_cell_`, `last_free_cell_` and `free_cells_`
-- say, and how `has` reads it.
use boson.Prelude.{
  ℕ, zero, suc, ◌+◌, ◌<◌, ◌≤◌, ◌≡◌, subst, if◌then◌else◌, ltb, true, false, not, ◌&&◌, ◌||◌, ==_iff,
  List, [], ◌∷◌, Option, none, some, update, is_link, is_none, mem, Distinct, arith,
}
use boson.Memory.SparseVector.{SparseVector, has}

-- From `cur` the links lead through the cells `fs` to the end.
abbrev pub Chain : (ℕ → Option ℕ) → Option ℕ → List ℕ → Type 0
Chain at cur [] = cur ≡ none
Chain at cur (f ∷ fs) = (cur ≡ some f) × Chain at (at f) fs

abbrev pub last : List ℕ → Option ℕ
last [] = none
last (f ∷ []) = some f
last (f ∷ g ∷ fs) = last (g ∷ fs)

-- The free cells of `v` are `fs`, the one to be allocated first in front.
pub record Rep {A : Type 0} (v : SparseVector A) (fs : List ℕ) : Type 0 where
  pub sizes : v.free_cells.size ≡ v.data_cells.size
  pub chain : Chain v.free_cells.at v.first_free_cell fs
  pub distinct : Distinct fs
  pub final : v.last_free_cell ≡ last fs
  pub in_range : (i : ℕ) → mem i fs ≡ true → i < v.data_cells.size
  pub unlinked : (i : ℕ) → mem i fs ≡ false → i < v.data_cells.size → v.free_cells.at i ≡ none

-- A chain survives a write to a cell that is not on it.
pub Chain-update :
    (at : ℕ → Option ℕ) (cur : Option ℕ) (fs : List ℕ) (i : ℕ) (l : Option ℕ)
    → Chain at cur fs
    → mem i fs ≡ false
    → Chain (update at i l) cur fs
Chain-update at cur [] i l c out = c
Chain-update at cur (f ∷ fs) i l c out =
    ground (arith, ==_iff f i, ==_iff i f, Chain-update at (at f) fs i l c.1)

-- A free cell is the last one or has a link; the last one is free.
free_marked :
    (at : ℕ → Option ℕ) (cur : Option ℕ) (fs : List ℕ) (i : ℕ)
    → Chain at cur fs
    → mem i fs ≡ true
    → (is_link (last fs) i || not (is_none (at i))) ≡ true
free_marked at cur [] i c m = ground arith
free_marked at cur (f ∷ []) i c m = ground (arith, ==_iff f i)
free_marked at cur (f ∷ g ∷ fs) i c m =
    ground (arith, ==_iff f i, free_marked at (at f) (g ∷ fs) i c.1)

pub last-mem : (fs : List ℕ) (i : ℕ) → is_link (last fs) i ≡ true → mem i fs ≡ true
last-mem [] i h = h
last-mem (f ∷ []) i h = ground arith
last-mem (f ∷ g ∷ fs) i h = ground (arith, last-mem (g ∷ fs) i h)

-- `has` is true of exactly the cells in range that are not free.
pub has-eq-not_free :
    {A : Type 0} {v : SparseVector A} {fs : List ℕ}
    → Rep v fs
    → (i : ℕ) → has v i ≡ (ltb i v.data_cells.size && not (mem i fs))
unfolding has
has-eq-not_free {v} {fs} r i = ground (
  arith,
  r.unlinked i,
  r.final,
  last-mem fs i,
  free_marked v.free_cells.at v.first_free_cell fs i r.chain,
)

-- `count` indices from `k` on.
abbrev pub indices : ℕ → ℕ → List ℕ
indices k zero = []
indices k (suc count) = k ∷ indices (suc k) count

pub mem-indices : (k count i : ℕ) → mem i (indices k count) ≡ true → (k ≤ i) × (i < k + count)
mem-indices k zero i m = absurd (cc)
mem-indices k (suc count) i m = ground (arith, ==_iff k i, mem-indices (suc k) count i, m)

pub indices-Distinct : (k count : ℕ) → Distinct (indices k count)
indices-Distinct k zero = tt
indices-Distinct k (suc count) =
    (ground (arith, mem-indices (suc k) count k), indices-Distinct (suc k) count)

pub indices-Chain :
    (size k count : ℕ)
    → k + count ≡ size
    → Chain
        (λ i. if ltb (i + 1) size then some (i + 1) else none)
        (if ltb k size then some k else none)
        (indices k count)
indices-Chain size k zero e = ground (arith, e)
indices-Chain size k (suc count) e = (
  ground (arith, e),
  subst
      (λ o. Chain (λ i. if ltb (i + 1) size then some (i + 1) else none) o (indices (suc k) count))
      (ground arith) (indices-Chain size (suc k) count (omega (arith, e))),
)
