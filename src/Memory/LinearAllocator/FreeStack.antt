-- ===== src/Memory/LinearAllocator/FreeStack.antt =====
-- The free cells of a `linear_allocator` as a stack.
use boson.Prelude.{
  ℕ, suc, ◌+◌, ◌<◌, ◌≡◌, refl, sym, subst, ==_iff, ltb, true, false, List, [], ◌∷◌, Option, none,
  some, update, mem, Distinct, if◌then◌else◌, ◌>>=◌, arith,
}
use boson.Memory.SparseVector.FreeList.{
  Chain, Chain-update, indices, mem-indices, indices-Distinct, indices-Chain,
}
use boson.Memory.LinearAllocator.{LinearAllocator, init, allocate, free}

-- The calls of a program, and the cells that it gets.
pub data Call : Type 0 where
  allocates : Call
  frees : ℕ → Call

module _ {A : Type 0} (default : A) where
  pub run : List Call → LinearAllocator A → Option (List ℕ × LinearAllocator A)
  run [] a = some ([], a)
  run (allocates ∷ cs) a = do (i, b) ← allocate default a; (is, c) ← run cs b; some (i ∷ is, c)
  run (frees i ∷ cs) a = do b ← free i a; run cs b

-- A stack of free cells, and how many cells there are: an allocation takes the top, or a new cell.
abbrev pub given : List Call → List ℕ → ℕ → List ℕ
given [] fs size = []
given (allocates ∷ cs) [] size = size ∷ given cs [] (suc size)
given (allocates ∷ cs) (f ∷ fs) size = f ∷ given cs fs size
given (frees i ∷ cs) fs size = given cs (i ∷ fs) size

-- Cells that are freed exist and are not free.
abbrev pub Legal : List Call → List ℕ → ℕ → Type 0
Legal [] fs size = Unit {0}
Legal (allocates ∷ cs) [] size = Legal cs [] (suc size)
Legal (allocates ∷ cs) (f ∷ fs) size = Legal cs fs size
Legal (frees i ∷ cs) fs size = (i < size) × (mem i fs ≡ false) × Legal cs (i ∷ fs) size

record Rep {A : Type 0} (a : LinearAllocator A) (fs : List ℕ) (size : ℕ) : Type 0 where
  cells : a.cells.size ≡ size
  links : a.free_cells.size ≡ size
  chain : Chain a.free_cells.at a.first_free_cell fs
  distinct : Distinct fs
  in_range : (i : ℕ) → mem i fs ≡ true → i < size

module _ {A : Type 0} (default : A) where
  runs :
      (cs : List Call) (a : LinearAllocator A) (fs : List ℕ) (size : ℕ)
      → Legal cs fs size
      → Rep a fs size
      → (b : LinearAllocator A) × (run default cs a ≡ some (given cs fs size, b))
  unfolding run allocate free
  runs [] a fs size ok r = (a, refl)
  runs (allocates ∷ cs) a [] size ok r =
      let b : LinearAllocator A = record a {
        cells = record { size = a.cells.size + 1; at = update a.cells.at a.cells.size default };
        free_cells = record {
          size = a.free_cells.size + 1;
          at = update a.free_cells.at a.free_cells.size none;
        };
      } in
      let (c, e) = runs cs b [] (suc size) ok (record {
        cells = omega (arith, r.cells);
        links = omega (arith, r.links);
        chain = r.chain;
        distinct = tt;
        in_range = λ i m. cc;
      }) in
      (c, ground (arith, r.chain, r.cells, e))
  runs (allocates ∷ cs) a (f ∷ fs) size ok r =
      let b : LinearAllocator A = record a {
        first_free_cell = a.free_cells.at f;
        free_cells = record { size = a.free_cells.size; at = update a.free_cells.at f none };
      } in
      let inside : f < size = r.in_range f (ground (arith, ==_iff f f)) in
      let (c, e) = runs cs b fs size ok (record {
        cells = r.cells;
        links = r.links;
        chain = Chain-update a.free_cells.at (a.free_cells.at f) fs f none r.chain.1 r.distinct.0;
        distinct = r.distinct.1;
        in_range = λ i m. r.in_range i (ground (arith, m));
      }) in
      (c, ground (arith, r.chain.0, r.links, inside, e))
  runs (frees i ∷ cs) a fs size ok r =
      let b : LinearAllocator A = record a {
        first_free_cell = some i;
        free_cells = record {
          size = a.free_cells.size;
          at = update a.free_cells.at i a.first_free_cell;
        };
      } in
      let back : update a.free_cells.at i a.first_free_cell i ≡ a.first_free_cell = ground arith in
      let (c, e) = runs cs b (i ∷ fs) size ok.2 (record {
        cells = r.cells;
        links = r.links;
        chain = (
          refl,
          subst (λ o. Chain (update a.free_cells.at i a.first_free_cell) o fs) (sym back)
              (Chain-update a.free_cells.at a.first_free_cell fs i a.first_free_cell r.chain ok.1),
        );
        distinct = (ok.1, r.distinct);
        in_range = λ j m. ground (arith, ok.0, ==_iff i j, r.in_range j, m);
      }) in
      (c, ground (arith, r.links, ok.0, e))

init-Rep : {A : Type 0} (default : A) (size : ℕ) → Rep (init default size) (indices 0 size) size
unfolding init
init-Rep default size = record {
  cells = refl;
  links = refl;
  chain =
      subst (λ o. Chain (λ i. if ltb (i + 1) size then some (i + 1) else none) o (indices 0 size))
        (ground arith) (indices-Chain size 0 size (omega arith));
  distinct = indices-Distinct 0 size;
  in_range = λ i m. let (low, high) = mem-indices 0 size i m in omega (arith, high);
}

-- On a new allocator of any size every sequence of allocations and of calls that free a cell which is not
-- free runs to its end without a fault, and gives the cells that a stack gives: at first all in order, then
-- the one freed last, and a new cell when none is free.
pub run-given :
    {A : Type 0} (default : A) (size : ℕ) (cs : List Call)
    → Legal cs (indices 0 size) size
    → (b : LinearAllocator A) × (run default cs (init default size)
        ≡ some (given cs (indices 0 size) size, b))
run-given default size cs ok =
    runs default cs (init default size) (indices 0 size) size ok (init-Rep default size)
