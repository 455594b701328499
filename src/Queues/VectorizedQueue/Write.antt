-- ===== src/Queues/VectorizedQueue/Write.antt =====
-- `vectorized_queue::write` appends.
use boson.Prelude.{
  ℕ, ◌⊎◌, ◌≡◌, refl, sym, ◌==◌, ltb, true, false, ◌&&◌, ◌||◌, List, [], ◌∷◌, ◌++◌, Option, none,
  some, Vector, update, is_link, is_none, if◌then◌else◌, arith, ==_iff, inl, inr, mem, Distinct,
  push_back,
}
use boson.Queues.VectorizedQueue.{Cell, VectorizedQueue, cell, take_cell, write}
use boson.Queues.VectorizedQueue.Segment.{
  Entries, has_index, DistinctIndices, Seg, Seg-update, Seg-append, has_index-append,
}
use boson.Queues.VectorizedQueue.Relink.{
  redirect, first, redirect_ne, Seg-redirect, Seg-first, Seg-last, set_next_lem, in_bounds,
}
use boson.Queues.VectorizedQueue.Invariant.{
  FreeChain, Rep, Holds, FreeChain-update, FreeChain-redirect, link_outside,
}

module _ {A : Type 0} where
  -- The cell that is taken: its index, the vector with it, and the free list that is left.
  record Taken (q : VectorizedQueue A) (xs : Entries A) (i : ℕ) (v : Vector (Cell A)) (fs : List ℕ)
      : Type 0 where
    result : take_cell q ≡ (i, v)
    chain : Seg v.at none q.head xs q.tail none
    free_chain : FreeChain v.at (v.at i).next fs
    free_distinct : Distinct fs
    fresh : has_index i xs ≡ false
    fresh_free : mem i fs ≡ false
    covered : (j : ℕ) → (has_index j xs || mem j fs || i == j) ≡ ltb j v.size
    apart : (j : ℕ) → (has_index j xs && mem j fs) ≡ false

  take_cell-Taken :
      {q : VectorizedQueue A} {xs : Entries A} (fs : List ℕ)
      → Rep q xs fs
      → (i : ℕ) × (v : Vector (Cell A)) × (gs : List ℕ) × Taken q xs i v gs
  unfolding take_cell
  take_cell-Taken {q} {xs} [] r =
      let n = q.cells.size in
      let out : has_index n xs ≡ false = ground (arith, r.covered n) in
      (
        n,
        push_back q.cells (cell none (some n) none),
        [],
        record {
          result = ground (arith, r.free_chain);
          chain =
              Seg-update q.cells.at none q.head xs q.tail none n (cell none (some n) none) out
                r.chain;
          free_chain = ground arith;
          free_distinct = tt;
          fresh = out;
          fresh_free = refl;
          covered = λ j. ground (arith, r.covered j);
          apart = r.apart;
        },
      )
  take_cell-Taken {q} {xs} (f ∷ fs) r = (
    f,
    q.cells,
    fs,
    record {
      result = ground (arith, r.free_chain.0);
      chain = r.chain;
      free_chain = r.free_chain.2;
      free_distinct = r.free_distinct.1;
      fresh = ground (arith, r.apart f);
      fresh_free = r.free_distinct.0;
      covered = λ j. ground (arith, r.covered j);
      apart = λ j. ground (arith, r.apart j);
    },
  )

  -- The tail of a queue is one of its entries.
  tail_link :
      (at : ℕ → Cell A) (c q : Option ℕ) (xs : Entries A)
      → Seg at none c xs q none
      → (q ≡ none) ⊎ ((k : ℕ) × (q ≡ some k) × (has_index k xs ≡ true))
  tail_link at c q [] s = inl (sym s.0)
  tail_link at c q ((i, a) ∷ xs) s = inr (Seg-last at none c i a xs q none s)

  head_of_first :
      (c : Option ℕ) (xs : Entries A) (i : ℕ)
      → c ≡ first xs none
      → (if is_none c then some i else c) ≡ first xs (some i)
  head_of_first c [] i e = rw e
  head_of_first c (x ∷ xs) i e = rw e

  DistinctIndices-append :
      (i : ℕ) (a : A) (xs : Entries A)
      → has_index i xs ≡ false
      → DistinctIndices xs
      → DistinctIndices (xs ++ (i, a) ∷ [])
  DistinctIndices-append i a [] out u = (refl, tt)
  DistinctIndices-append i a ((j, b) ∷ xs) out u = (
    rw has_index-append (ground (arith, ==_iff j i, ==_iff i j)),
    DistinctIndices-append i a xs (ground arith) u.1,
  )

  -- The vector after the two writes.
  abbrev after : VectorizedQueue A → ℕ → Vector (Cell A) → A → Vector (Cell A)
  after q i v a = record {
    size = v.size;
    at = redirect (update v.at i (cell (some a) q.tail none)) q.tail (some i);
  }

  abbrev written : VectorizedQueue A → ℕ → Vector (Cell A) → A → VectorizedQueue A
  written q i v a = record {
    cells = after q i v a;
    first_free_cell = (v.at i).next;
    head = if is_none q.head then some i else q.head;
    tail = some i;
  }

  module _ {q : VectorizedQueue A} {xs : Entries A} {i : ℕ} {v : Vector (Cell A)} {fs : List ℕ}
      (a : A) (u : DistinctIndices xs) (t : Taken q xs i v fs) where
    tail_ne : is_link q.tail i ≡ false
    tail_ne = elim (tail_link v.at q.head q.tail xs t.chain) [
      | inl e ↦ rw e
      | inr (k, e, h) ↦ rw e (ground (arith, t.fresh, ==_iff k i))
    ]

    tail_in_bounds : in_bounds v q.tail ≡ true
    tail_in_bounds = elim (tail_link v.at q.head q.tail xs t.chain) [
      | inl e ↦ rw e
      | inr (k, e, h) ↦ rw e (ground (arith, t.covered k))
    ]

    tail_not_free : link_outside q.tail fs ≡ true
    tail_not_free = elim (tail_link v.at q.head q.tail xs t.chain) [
      | inl e ↦ rw e
      | inr (k, e, h) ↦ rw e (ground (arith, t.apart k))
    ]

    written-chain :
        Seg
          (after q i v a).at
          none
          (if is_none q.head then some i else q.head)
          (xs ++ (i, a) ∷ [])
          (some i)
          none
    written-chain =
        let node = cell (some a) q.tail none in
        let front =
          Seg-redirect (update v.at i node) none q.head xs q.tail none (some i) u
            (Seg-update v.at none q.head xs q.tail none i node t.fresh t.chain) in
        let same = redirect_ne (update v.at i node) q.tail (some i) i tail_ne in
        let value : (update v.at i node i).value ≡ some a = ground arith in
        let previous : (update v.at i node i).previous ≡ q.tail = ground arith in
        let next : (update v.at i node i).next ≡ none = ground arith in
        let head : (if is_none q.head then some i else q.head) ≡ first xs (some i) =
          head_of_first q.head xs i (Seg-first v.at none q.head xs q.tail none t.chain) in
        rw head (
          Seg-append _ none (first xs (some i)) xs ((i, a) ∷ []) q.tail (some i) (some i) none front
            (refl, rw same value, rw same previous, (refl, rw same next)))

    written-Rep : Rep (written q i v a) (xs ++ (i, a) ∷ []) fs
    written-Rep = record {
      chain = written-chain;
      distinct = DistinctIndices-append i a xs t.fresh u;
      free_chain =
          FreeChain-redirect (update v.at i (cell (some a) q.tail none)) (v.at i).next fs q.tail
            (some i) tail_not_free
            (FreeChain-update v.at (v.at i).next fs i (cell (some a) q.tail none) t.fresh_free
              t.free_chain);
      free_distinct = t.free_distinct;
      covered = λ j. rw has_index-append (ground (arith, t.covered j));
      apart = λ j. rw has_index-append (ground (arith, t.apart j, ==_iff i j, t.fresh_free));
    }

    write-eq : write q a ≡ some (i, written q i v a)
    unfolding write
    write-eq =
        let inside : ltb i v.size ≡ true = ground (arith, t.covered i) in
        let node = cell (some a) q.tail none in
        let relink =
          set_next_lem (record { size = v.size; at = update v.at i node }) q.tail (some i)
            tail_in_bounds in
        rw (t.result, write, inside) (rw relink)

  -- `write` never faults. It gives the value an index that no entry has, and appends it.
  pub write-append :
      {q : VectorizedQueue A} {xs : Entries A} (a : A)
      → Holds q xs
      → (i : ℕ) × (w : VectorizedQueue A) × (write q a ≡ some (i, w))
        × (has_index i xs ≡ false)
        × Holds w (xs ++ (i, a) ∷ [])
  write-append {q} {xs} a (fs, r) =
      let (i, v, gs, t) = take_cell-Taken fs r in
      (i, written q i v a, write-eq a r.distinct t, t.fresh, (gs, written-Rep a r.distinct t))
