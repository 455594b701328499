-- ===== src/Queues/VectorizedQueue/Free.antt =====
-- `vectorized_queue::free` takes out one entry and keeps the order of the others.
use boson.Prelude.{
  ℕ, ◌≡◌, refl, sym, ltb, true, false, ◌&&◌, List, ◌∷◌, ◌++◌, Option, none, some, update, is_none,
  if◌then◌else◌, subst, arith, ==_iff, mem,
}
use boson.Queues.VectorizedQueue.{Cell, VectorizedQueue, cell, has, free}
use boson.Queues.VectorizedQueue.Segment.{
  Entries, has_index, DistinctIndices, Seg, Seg-update, Seg-append, Seg-split, has_index-append,
}
use boson.Queues.VectorizedQueue.Relink.{
  redirect, repoint, first, final, Seg-redirect, Seg-repoint, Seg-redirect_frame, Seg-repoint_frame,
}
use boson.Queues.VectorizedQueue.Invariant.{
  FreeChain, Rep, Holds, FreeChain-update, FreeChain-redirect, FreeChain-repoint, has-has_index,
}
use boson.Queues.VectorizedQueue.Unlink.{Placed, unlink_lem}
use boson.Queues.VectorizedQueue.Ends.{
  DistinctIndices-append, DistinctIndices-remove, Ends, last-Ends, first-Ends, Ends-outside,
  Ends-link_outside, Ends-has, head_is, tail_is, new_head, new_tail,
}

module _ {A : Type 0} where
  -- The queue after `free(i)`, where the cell `i` had the neighbours `p` and `n`.
  abbrev freed : VectorizedQueue A → ℕ → Option ℕ → Option ℕ → VectorizedQueue A
  freed q i p n = record {
    cells = record {
      size = q.cells.size;
      at = update (repoint (redirect q.cells.at p n) n p) i (cell none (some i) q.first_free_cell);
    };
    first_free_cell = some i;
    head = if is_none p then n else q.head;
    tail = if is_none n then p else q.tail;
  }

  -- The cell `i` holds `a`, between the entries `pre` and `post`.
  record Between (q : VectorizedQueue A) (pre : Entries A) (i : ℕ) (a : A) (post : Entries A)
      (fs : List ℕ) (p n : Option ℕ) : Type 0 where
    cell_eq : q.cells.at i ≡ cell (some a) p n
    front : Seg q.cells.at none q.head pre p (some i)
    back : Seg q.cells.at (some i) n post q.tail none
    front_distinct : DistinctIndices pre
    back_distinct : DistinctIndices post
    not_front : has_index i pre ≡ false
    not_back : has_index i post ≡ false
    apart : (j : ℕ) → (has_index j pre && has_index j post) ≡ false

  Rep-Between :
      {q : VectorizedQueue A} (pre : Entries A) (i : ℕ) (a : A) (post : Entries A) {fs : List ℕ}
      → Rep q (pre ++ (i, a) ∷ post) fs
      → (p n : Option ℕ) × Between q pre i a post fs p n
  Rep-Between {q} pre i a post {fs} r =
      let (p, l, front, back) =
        Seg-split q.cells.at none q.head pre ((i, a) ∷ post) q.tail none r.chain in
      let (u, w, apart) = DistinctIndices-append pre ((i, a) ∷ post) r.distinct in
      (
        p,
        (q.cells.at i).next,
        record {
          cell_eq =
              λ k. record { value = back.1 k; previous = back.2 k; next = (q.cells.at i).next };
          front = subst (λ m. Seg q.cells.at none q.head pre p m) back.0 front;
          back = back.3;
          front_distinct = u;
          back_distinct = w.1;
          not_front = ground (arith, apart i);
          not_back = w.0;
          apart = λ j. ground (arith, apart j);
        },
      )

  module _ {q : VectorizedQueue A} (pre : Entries A) (i : ℕ) (a : A) (post : Entries A)
      {fs : List ℕ} {p n : Option ℕ} (r : Rep q (pre ++ (i, a) ∷ post) fs)
      (b : Between q pre i a post fs p n) where
    front-Ends : Ends p pre
    front-Ends = last-Ends q.cells.at q.head pre p (some i) b.front

    back-Ends : Ends n post
    back-Ends = first-Ends q.cells.at (some i) n post q.tail b.back

    placed : Placed q i p n
    placed = record {
      head = head_is q.cells.at q.head pre p i b.front b.not_front;
      tail = tail_is q.cells.at n post q.tail i b.back b.not_back;
      before = Ends-has q p pre front-Ends (λ j h. rw (has-has_index r, has_index-append, h));
      after =
          Ends-has q n post back-Ends
            (λ j h. rw (has-has_index r, has_index-append) (ground arith));
    }

    freed-chain :
        Seg
          (freed q i p n).cells.at
          none
          (freed q i p n).head
          (pre ++ post)
          (freed q i p n).tail
          none
    freed-chain =
        let at = q.cells.at in
        let dead : Cell A = cell none (some i) q.first_free_cell in
        let one = redirect at p n in
        let two = repoint one n p in
        let p_out = Ends-outside p pre post front-Ends b.apart in
        let n_out = Ends-outside n post pre back-Ends (λ j. ground (arith, b.apart j)) in
        let front = Seg-update two none (first pre n) pre p n i dead b.not_front (
          Seg-repoint_frame one none (first pre n) pre p n n p n_out
            (Seg-redirect at none q.head pre p (some i) n b.front_distinct b.front)) in
        let back = Seg-update two p n post (final post p) none i dead b.not_back (
          Seg-repoint one (some i) n post q.tail none p b.back_distinct
            (Seg-redirect_frame at (some i) n post q.tail none p n p_out b.back)) in
        rw (new_head at q.head pre p (some i) n b.front, new_tail at p n post i q.tail b.back)
          (Seg-append _ none (first pre n) pre post p n (final post p) none front back)

    not_free : (j : ℕ) → has_index j (pre ++ (i, a) ∷ post) ≡ true → mem j fs ≡ false
    not_free j h = ground (arith, r.apart j)

    freed-FreeChain : FreeChain (freed q i p n).cells.at ((freed q i p n).cells.at i).next fs
    freed-FreeChain =
        let at = q.cells.at in
        let dead : Cell A = cell none (some i) q.first_free_cell in
        let in_pre =
          λ (j : ℕ) (h : has_index j pre ≡ true). not_free j (rw has_index-append (ground arith)) in
        let in_post = λ (j : ℕ) (h : has_index j post ≡ true).
          not_free j (rw has_index-append (ground arith)) in
        let next : ((freed q i p n).cells.at i).next ≡ q.first_free_cell = ground arith in
        subst (λ l. FreeChain (freed q i p n).cells.at l fs) (sym next)
          (FreeChain-update (repoint (redirect at p n) n p) q.first_free_cell fs i dead
            (not_free i (rw has_index-append (ground arith)))
            (FreeChain-repoint (redirect at p n) q.first_free_cell fs n p
              (Ends-link_outside n post fs back-Ends in_post)
              (FreeChain-redirect at q.first_free_cell fs p n
                (Ends-link_outside p pre fs front-Ends in_pre) r.free_chain)))

    freed-Rep : Rep (freed q i p n) (pre ++ post) (i ∷ fs)
    freed-Rep = record {
      chain = freed-chain;
      distinct = DistinctIndices-remove pre i a post r.distinct;
      free_chain = (refl, ground arith, freed-FreeChain);
      free_distinct =
          (ground (arith, r.apart i, has_index-append i pre ((i, a) ∷ post)), r.free_distinct);
      covered = λ j.
          ground (
            arith,
            r.covered j,
            has_index-append j pre ((i, a) ∷ post),
            has_index-append j pre post,
          );
      apart = λ j. ground (
        arith,
        r.apart j,
        has_index-append j pre ((i, a) ∷ post),
        has_index-append j pre post,
        b.not_front,
        b.not_back,
        ==_iff i j,
      );
    }

    free-eq : free q i ≡ some (freed q i p n)
    unfolding free
    free-eq =
        let inside : has q i ≡ true = rw (has-has_index r, has_index-append) (ground arith) in
        let bound : ltb i q.cells.size ≡ true =
          ground (arith, r.covered i, has_index-append i pre ((i, a) ∷ post)) in
        rw (inside, bound, b.cell_eq, unlink_lem q i (some a) p n placed) (rw bound)

  -- `free` of an entry never faults, and takes out that entry alone.
  pub free-remove :
      {q : VectorizedQueue A} (pre : Entries A) (i : ℕ) (a : A) (post : Entries A)
      → Holds q (pre ++ (i, a) ∷ post)
      → (w : VectorizedQueue A) × (free q i ≡ some w) × Holds w (pre ++ post)
  free-remove {q} pre i a post (fs, r) =
      let (p, n, b) = Rep-Between pre i a post r in
      (freed q i p n, free-eq pre i a post r b, (i ∷ fs, freed-Rep pre i a post r b))
