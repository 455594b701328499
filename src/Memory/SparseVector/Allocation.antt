-- ===== src/Memory/SparseVector/Allocation.antt =====
-- `allocate` and `free` of `sparse_vector` keep the free list and hand out free cells only.
use mathlib.Core.Path.{fun_ext}
use boson.Prelude.{
  ℕ, sym, ◌∙◌, ◌>>=◌, ◌+◌, ◌<◌, ◌≡◌, ◌≢◌, refl, ◌==◌, ltb, true, false, not, ◌&&◌, ◌||◌, ==_iff,
  List, [], ◌∷◌, none, some, update, if◌then◌else◌, is_link, is_none, mem, arith,
}
use boson.Memory.SparseVector.{SparseVector, empty, has, allocate, free}
use boson.Memory.SparseVector.FreeList.{last, Rep, Chain-update, last-mem, has-eq-not_free}

module _ {A : Type 0} (default : A) where
  pub empty-Rep : Rep (empty default) []
  unfolding empty
  empty-Rep = record {
    sizes = refl;
    chain = refl;
    distinct = tt;
    final = refl;
    in_range = ground arith;
    unlinked = ground arith;
  }

  -- With no free cell the vector grows by one.
  abbrev grown : SparseVector A → SparseVector A
  grown v = record v {
    data_cells = record {
      size = v.data_cells.size + 1;
      at = update v.data_cells.at v.data_cells.size default;
    };
    free_cells = record {
      size = v.free_cells.size + 1;
      at = update v.free_cells.at v.free_cells.size none;
    };
  }

  grown-Rep : {v : SparseVector A} → Rep v [] → Rep (grown v) []
  grown-Rep {v} r = record {
    sizes = omega (arith, r.sizes);
    chain = r.chain;
    distinct = tt;
    final = r.final;
    in_range = ground arith;
    unlinked = λ i m h. ground (arith, r.unlinked i, r.sizes);
  }

  -- Otherwise it gives the front of the free list.
  abbrev popped : SparseVector A → ℕ → SparseVector A
  popped v f = record v {
    free_cells = record { size = v.free_cells.size; at = update v.free_cells.at f none };
    first_free_cell = v.free_cells.at f;
    last_free_cell = if is_link v.last_free_cell f then none else v.last_free_cell;
  }

  last-tail :
      (f : ℕ) (fs : List ℕ)
      → mem f fs ≡ false
      → (if is_link (last (f ∷ fs)) f then none else last (f ∷ fs)) ≡ last fs
  last-tail f [] h = ground arith
  last-tail f (g ∷ fs) h = ground (arith, last-mem (g ∷ fs) f)

  popped-Rep : {v : SparseVector A} {f : ℕ} {fs : List ℕ} → Rep v (f ∷ fs) → Rep (popped v f) fs
  popped-Rep {v} {f} {fs} r = record {
    sizes = r.sizes;
    chain = Chain-update v.free_cells.at (v.free_cells.at f) fs f none r.chain.1 r.distinct.0;
    distinct = r.distinct.1;
    final = rw r.final (last-tail f fs r.distinct.0);
    in_range = λ i m. r.in_range i (ground arith);
    unlinked = λ i m h. ground (arith, r.unlinked i);
  }

  -- What `allocate` promises: the index was not in use, and now it is.
  pub record Allocated (v : SparseVector A) (i : ℕ) (w : SparseVector A) (fs : List ℕ)
      : Type 0 where
    pub result : allocate default v ≡ some (i, w)
    pub rep : Rep w fs
    pub was_free : has v i ≡ false
    pub others : (j : ℕ) → has w j ≡ (has v j || i == j)
    pub kept : (j : ℕ) → j ≢ i → w.data_cells.at j ≡ v.data_cells.at j

  -- `allocate` never faults.
  pub allocate-Allocated :
      {v : SparseVector A} (fs : List ℕ)
      → Rep v fs
      → (i : ℕ) × (w : SparseVector A) × (gs : List ℕ) × Allocated v i w gs
  unfolding allocate
  allocate-Allocated {v} [] r = (
    v.data_cells.size,
    grown v,
    [],
    record {
      result = ground (arith, r.chain);
      rep = grown-Rep r;
      was_free = rw (has-eq-not_free r) (ground arith);
      others = λ j. rw (has-eq-not_free r, has-eq-not_free (grown-Rep r)) (ground arith);
      kept = λ j ne. ground arith;
    },
  )
  allocate-Allocated {v} (f ∷ fs) r = (
    f,
    popped v f,
    fs,
    record {
      result = rw (r.chain.0, allocate) (ground (arith, r.sizes, r.in_range f));
      rep = popped-Rep r;
      was_free = rw (has-eq-not_free r) (ground arith);
      others = λ j.
          rw (has-eq-not_free r, has-eq-not_free (popped-Rep r))
            (ground (arith, r.in_range j, r.distinct.0, ==_iff f j));
      kept = λ j ne. refl;
    },
  )

  abbrev released : SparseVector A → ℕ → SparseVector A
  released v i = record v {
    free_cells = record {
      size = v.free_cells.size;
      at = update v.free_cells.at i v.first_free_cell;
    };
    first_free_cell = some i;
    last_free_cell = if is_none v.last_free_cell then some i else v.last_free_cell;
  }

  last-cons :
      (i : ℕ) (fs : List ℕ) → (if is_none (last fs) then some i else last fs) ≡ last (i ∷ fs)
  last-cons i [] = refl
  last-cons i (f ∷ []) = refl
  last-cons i (f ∷ g ∷ fs) = last-cons i (g ∷ fs)

  released-Rep :
      {v : SparseVector A} {fs : List ℕ} (i : ℕ)
      → Rep v fs
      → i < v.data_cells.size
      → mem i fs ≡ false
      → Rep (released v i) (i ∷ fs)
  released-Rep {v} {fs} i r h out = record {
    sizes = r.sizes;
    chain = (
      refl,
      ground (
        arith,
        Chain-update v.free_cells.at v.first_free_cell fs i v.first_free_cell r.chain out,
      ),
    );
    distinct = (out, r.distinct);
    final = simp r.final (last-cons i fs);
    in_range = λ j m. ground (arith, r.in_range j);
    unlinked = λ j m k. ground (arith, r.unlinked j);
  }

  -- What `free` promises of a cell in use: exactly that cell leaves, and no element moves.
  pub record Freed (v : SparseVector A) (i : ℕ) (w : SparseVector A) (fs : List ℕ) : Type 0 where
    pub result : free v i ≡ some w
    pub rep : Rep w fs
    pub others : (j : ℕ) → has w j ≡ (has v j && not (i == j))
    pub kept : (j : ℕ) → w.data_cells.at j ≡ v.data_cells.at j

  pub free-Freed :
      {v : SparseVector A} {fs : List ℕ} (i : ℕ)
      → Rep v fs
      → has v i ≡ true
      → (w : SparseVector A) × Freed v i w (i ∷ fs)
  unfolding free
  free-Freed {v} {fs} i r h =
      let in_use : (ltb i v.data_cells.size && not (mem i fs)) ≡ true =
        sym (has-eq-not_free r i) ∙ h in
      let after : Rep (released v i) (i ∷ fs) = released-Rep i r (ground arith) (ground arith) in
      (
        released v i,
        record {
          result = ground (arith, r.sizes);
          rep = after;
          others = λ j. rw (has-eq-not_free r, has-eq-not_free after) (ground arith);
          kept = λ j. refl;
        },
      )

  -- A cell that was just freed is the next one that `allocate` gives, and nothing else changes.
  pub allocate-free :
      {v : SparseVector A} {fs : List ℕ} (i : ℕ)
      → Rep v fs
      → has v i ≡ true
      → (free v i >>= allocate default) ≡ some (i, v)
  unfolding free allocate has
  allocate-free {v} {fs} i r h =
      let same : update (update v.free_cells.at i v.first_free_cell) i none ≡ v.free_cells.at =
        fun_ext λ j. ground arith in
      ground (arith, same, r.sizes)
