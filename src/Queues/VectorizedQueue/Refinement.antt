-- ===== src/Queues/VectorizedQueue/Refinement.antt =====
-- `vectorized_queue` refines its contract.
use boson.Prelude.{
  ℕ, ◌≡◌, refl, sym, ◌∙◌, ap, ◌==◌, ltb, true, false, not, ◌&&◌, List, [], ◌∷◌, ◌++◌, some, is_link,
  subst, arith, ==_iff, Bool-cases, inl, inr,
}
use boson.Queues.VectorizedQueue.{VectorizedQueue, has, lazy_free, read}
use boson.Queues.VectorizedQueue.Segment.{Entries, has_index}
use boson.Queues.VectorizedQueue.Invariant.{Holds, has-has_index}
use boson.Queues.VectorizedQueue.Write.{write-append}
use boson.Queues.VectorizedQueue.Free.{free-remove}
use boson.Queues.VectorizedQueue.Spec.{
  remove, drop_first, first_value, Call, writes, reads, frees, Reply, index, value, found, Allows,
  append, take_first, take_at, Trace, done, more, step, run,
}

module _ {A : Type 0} where
  -- Where the first entry under an index stands.
  split_at :
      (i : ℕ) (xs : Entries A)
      → has_index i xs ≡ true
      → (pre : Entries A) × (a : A) × (post : Entries A) × (xs ≡ pre ++ (i, a) ∷ post)
        × (remove i xs ≡ pre ++ post)
  split_at i [] h = cc
  split_at i ((j, a) ∷ xs) h = elim (Bool-cases (j == i)) [
    | inl hit ↦ ([], a, xs, ap (λ (k : ℕ). (k, a) ∷ xs) ((==_iff j i).0 hit), rw hit)
    | inr miss ↦
        let (pre, b, post, e, f) = split_at i xs (ground arith) in
        ((j, a) ∷ pre, b, post, ap (◌∷◌ (j, a)) e, rw (miss, f))
  ]

  remove-not_mem : (i : ℕ) (xs : Entries A) → has_index i xs ≡ false → remove i xs ≡ xs
  remove-not_mem i [] h = refl
  remove-not_mem i ((j, a) ∷ xs) h = ground (arith, remove-not_mem i xs)

  -- `read` never faults. It gives the oldest value, if there is one, and takes it out.
  pub read-first :
      {q : VectorizedQueue A} (xs : Entries A)
      → Holds q xs
      → (w : VectorizedQueue A) × (read q ≡ some (first_value xs, w)) × Holds w (drop_first xs)
  unfolding read
  read-first {q} [] (fs, r) = (q, ground (arith, r.chain.1), (fs, r))
  read-first {q} ((i, a) ∷ xs) (fs, r) =
      let (w, e, h) = free-remove [] i a xs (fs, r) in
      let here : has q i ≡ true = has-has_index r i ∙ ground arith in
      let bound : ltb i q.cells.size ≡ true = sym (r.covered i) ∙ ground arith in
      (w, rw (r.chain.0, read) (rw (here, bound, r.chain.1, e)), h)

  -- `lazy_free` never faults. It tells whether the index is that of an entry, and takes that out.
  pub lazy_free-remove :
      {q : VectorizedQueue A} {xs : Entries A} (i : ℕ)
      → Holds q xs
      → (w : VectorizedQueue A) × (lazy_free q i ≡ some (has_index i xs, w)) × Holds w (remove i xs)
  unfolding lazy_free has
  lazy_free-remove {q} {xs} i (fs, r) =
      let test : (ltb i q.cells.size && not (is_link (q.cells.at i).previous i)) ≡ has_index i xs =
        ground (arith, has-has_index r i) in
      elim (Bool-cases (has_index i xs)) [
        | inl hit ↦
            let (pre, a, post, e, f) = split_at i xs hit in
            let (w, g, h) = free-remove pre i a post (subst (Holds q) e (fs, r)) in
            (w, rw (test, hit, g), rw f h)
        | inr miss ↦ (q, rw (test, miss), rw (remove-not_mem i xs miss) (fs, r))
      ]

  step_refines :
      {q : VectorizedQueue A} {xs : Entries A} (c : Call A)
      → Holds q xs
      → (r : Reply A) × (w : VectorizedQueue A) × (ys : Entries A) × (step q c ≡ some (r, w))
        × Allows xs c r ys
        × Holds w ys
  unfolding step
  step_refines {q} {xs} (writes a) h =
      let (i, w, e, fresh, k) = write-append a h in
      (index i, w, xs ++ (i, a) ∷ [], rw e, append xs a i fresh, k)
  step_refines {q} {xs} reads h =
      let (w, e, k) = read-first xs h in
      (value (first_value xs), w, drop_first xs, rw e, take_first xs, k)
  step_refines {q} {xs} (frees i) h =
      let (w, e, k) = lazy_free-remove i h in
      (found (has_index i xs), w, remove i xs, rw e, take_at xs i, k)

  -- From a queue that holds `xs`, every sequence of calls runs to its end without a fault, with a
  -- history of replies that the contract allows.
  pub run_refines :
      (cs : List (Call A)) {q : VectorizedQueue A} {xs : Entries A}
      → Holds q xs
      → (rs : List (Reply A)) × (w : VectorizedQueue A) × (ys : Entries A) × (run q cs
          ≡ some (rs, w))
        × Trace xs cs rs ys
        × Holds w ys
  unfolding run
  run_refines [] {q} {xs} h = ([], q, xs, refl, done, h)
  run_refines (c ∷ cs) {q} {xs} h =
      let (r, w, ys, e, a, k) = step_refines c h in
      let (rs, z, zs, f, t, m) = run_refines cs k in (r ∷ rs, z, zs, rw e (rw f), more a t, m)
