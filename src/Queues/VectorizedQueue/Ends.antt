-- ===== src/Queues/VectorizedQueue/Ends.antt =====
-- The links of a cell of `vectorized_queue` against the entries before and after it.
use boson.Prelude.{
  ℕ, ◌⊎◌, ◌≡◌, refl, sym, true, false, ◌&&◌, List, [], ◌∷◌, ◌++◌, Option, none, some, is_link,
  is_none, if◌then◌else◌, arith, ==_iff, inl, inr, mem,
}
use boson.Queues.VectorizedQueue.{Cell, VectorizedQueue, has}
use boson.Queues.VectorizedQueue.Segment.{
  Entries, has_index, DistinctIndices, Seg, has_index-append,
}
use boson.Queues.VectorizedQueue.Relink.{outside, first, Seg-last, final, Seg-final}
use boson.Queues.VectorizedQueue.Invariant.{link_outside}
use boson.Queues.VectorizedQueue.Unlink.{has_link}

module _ {A : Type 0} where
  pub DistinctIndices-append :
      (xs ys : Entries A)
      → DistinctIndices (xs ++ ys)
      → DistinctIndices xs
        × DistinctIndices ys
        × ((j : ℕ) → (has_index j xs && has_index j ys) ≡ false)
  DistinctIndices-append [] ys u = (tt, u, λ j. refl)
  DistinctIndices-append ((i, a) ∷ xs) ys u =
      let (v, w, apart) = DistinctIndices-append xs ys u.1 in
      (
        (ground (arith, u.0, has_index-append i xs ys), v),
        w,
        λ j. ground (arith, u.0, has_index-append i xs ys, apart j, ==_iff i j),
      )

  pub DistinctIndices-remove :
      (xs : Entries A) (i : ℕ) (a : A) (ys : Entries A)
      → DistinctIndices (xs ++ (i, a) ∷ ys)
      → DistinctIndices (xs ++ ys)
  DistinctIndices-remove [] i a ys u = u.1
  DistinctIndices-remove ((j, b) ∷ xs) i a ys u = (
    ground (arith, u.0, has_index-append j xs ys, has_index-append j xs ((i, a) ∷ ys)),
    DistinctIndices-remove xs i a ys u.1,
  )

  -- A link at the end of a segment: none behind no entry, else an entry.
  abbrev pub Ends : Option ℕ → Entries A → Type 0
  Ends l xs = ((l ≡ none) × (xs ≡ [])) ⊎ ((k : ℕ) × (l ≡ some k) × (has_index k xs ≡ true))

  pub last-Ends :
      (at : ℕ → Cell A) (c : Option ℕ) (xs : Entries A) (q d : Option ℕ)
      → Seg at none c xs q d
      → Ends q xs
  last-Ends at c [] q d s = inl (sym s.0, refl)
  last-Ends at c ((i, a) ∷ xs) q d s = inr (Seg-last at none c i a xs q d s)

  pub first-Ends :
      (at : ℕ → Cell A) (p c : Option ℕ) (xs : Entries A) (q : Option ℕ)
      → Seg at p c xs q none
      → Ends c xs
  first-Ends at p c [] q s = inl (s.1, refl)
  first-Ends at p c ((i, a) ∷ xs) q s = inr (i, s.0, ground arith)

  pub Ends-outside :
      (l : Option ℕ) (xs ys : Entries A)
      → Ends l xs
      → ((j : ℕ) → (has_index j xs && has_index j ys) ≡ false)
      → outside l ys ≡ true
  Ends-outside l xs ys (inl (e, h)) apart = rw e
  Ends-outside l xs ys (inr (k, e, h)) apart = rw e (ground (arith, apart k))

  pub Ends-link_outside :
      (l : Option ℕ) (xs : Entries A) (fs : List ℕ)
      → Ends l xs
      → ((j : ℕ) → has_index j xs ≡ true → mem j fs ≡ false)
      → link_outside l fs ≡ true
  Ends-link_outside l xs fs (inl (e, h)) apart = rw e
  Ends-link_outside l xs fs (inr (k, e, h)) apart = rw e (ground (arith, apart k h))

  pub Ends-has :
      (q : VectorizedQueue A) (l : Option ℕ) (xs : Entries A)
      → Ends l xs
      → ((j : ℕ) → has_index j xs ≡ true → has q j ≡ true)
      → has_link q l ≡ true
  Ends-has q l xs (inl (e, h)) all = rw e
  Ends-has q l xs (inr (k, e, h)) all = rw e (all k h)

  pub head_is :
      (at : ℕ → Cell A) (h : Option ℕ) (pre : Entries A) (p : Option ℕ) (i : ℕ)
      → Seg at none h pre p (some i)
      → has_index i pre ≡ false
      → is_link h i ≡ is_none p
  head_is at h [] p i s out = rw (← s.0, s.1) (ground arith)
  head_is at h ((j, b) ∷ pre) p i s out =
      let (k, e, m) = Seg-last at none h j b pre p (some i) s in rw (e, s.0) (ground arith)

  pub tail_is :
      (at : ℕ → Cell A) (n : Option ℕ) (post : Entries A) (t : Option ℕ) (i : ℕ)
      → Seg at (some i) n post t none
      → has_index i post ≡ false
      → is_link t i ≡ is_none n
  tail_is at n [] t i s out = rw (← s.0, s.1) (ground arith)
  tail_is at n ((j, b) ∷ post) t i s out =
      let (k, e, m) = Seg-last at (some i) n j b post t none s in
      rw (e, s.0) (ground (arith, ==_iff k i))

  pub new_head :
      (at : ℕ → Cell A) (h : Option ℕ) (pre : Entries A) (p d n : Option ℕ)
      → Seg at none h pre p d
      → (if is_none p then n else h) ≡ first pre n
  new_head at h [] p d n s = rw (← s.0)
  new_head at h ((j, b) ∷ pre) p d n s =
      let (k, e, m) = Seg-last at none h j b pre p d s in rw (e, s.0)

  pub new_tail :
      (at : ℕ → Cell A) (p n : Option ℕ) (post : Entries A) (i : ℕ) (t : Option ℕ)
      → Seg at (some i) n post t none
      → (if is_none n then p else t) ≡ final post p
  new_tail at p n [] i t s = rw s.1
  new_tail at p n ((j, b) ∷ post) i t s = rw s.0 (Seg-final at (some i) n ((j, b) ∷ post) t none s)
