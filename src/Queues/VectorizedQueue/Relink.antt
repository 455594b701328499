-- ===== src/Queues/VectorizedQueue/Relink.antt =====
-- The two writes that relink the neighbours of a cell in `vectorized_queue`.
use boson.Prelude.{
  ℕ, ◌≡◌, refl, sym, ◌∙◌, ap, ltb, Bool, true, false, not, [], ◌∷◌, Option, none, some, Vector,
  update, is_link, subst, arith,
}
use boson.Queues.VectorizedQueue.{Cell, cell, set_next, set_previous}
use boson.Queues.VectorizedQueue.Segment.{Entries, has_index, DistinctIndices, Seg, Seg-update}

module _ {A : Type 0} where
  -- The memory after `data_[l].next = n` and after `data_[l].previous = n`.
  abbrev pub redirect : (ℕ → Cell A) → Option ℕ → Option ℕ → ℕ → Cell A
  redirect at none n = at
  redirect at (some k) n = update at k (cell (at k).value (at k).previous n)

  abbrev pub repoint : (ℕ → Cell A) → Option ℕ → Option ℕ → ℕ → Cell A
  repoint at none n = at
  repoint at (some k) n = update at k (cell (at k).value n (at k).next)

  -- The link to the first entry, and to the last, where `c` and `p` stand for no entry.
  abbrev pub first : Entries A → Option ℕ → Option ℕ
  first [] c = c
  first ((i, a) ∷ xs) c = some i

  abbrev pub final : Entries A → Option ℕ → Option ℕ
  final [] p = p
  final ((i, a) ∷ xs) p = final xs (some i)

  abbrev pub outside : Option ℕ → Entries A → Bool
  outside none xs = true
  outside (some k) xs = not (has_index k xs)

  abbrev pub in_bounds : Vector (Cell A) → Option ℕ → Bool
  in_bounds v none = true
  in_bounds v (some k) = ltb k v.size

  pub set_next_lem :
      (v : Vector (Cell A)) (l n : Option ℕ)
      → in_bounds v l ≡ true
      → set_next v l n ≡ some (record v { at = redirect v.at l n })
  unfolding set_next
  set_next_lem v none n h = refl
  set_next_lem v (some k) n h = ground arith

  pub set_previous_lem :
      (v : Vector (Cell A)) (l n : Option ℕ)
      → in_bounds v l ≡ true
      → set_previous v l n ≡ some (record v { at = repoint v.at l n })
  unfolding set_previous
  set_previous_lem v none n h = refl
  set_previous_lem v (some k) n h = ground arith

  pub Seg-first :
      (at : ℕ → Cell A) (p c : Option ℕ) (xs : Entries A) (q d : Option ℕ)
      → Seg at p c xs q d
      → c ≡ first xs d
  Seg-first at p c [] q d s = s.1
  Seg-first at p c ((i, a) ∷ xs) q d s = s.0

  pub Seg-final :
      (at : ℕ → Cell A) (p c : Option ℕ) (xs : Entries A) (q d : Option ℕ)
      → Seg at p c xs q d
      → q ≡ final xs p
  Seg-final at p c [] q d s = sym s.0
  Seg-final at p c ((i, a) ∷ xs) q d s = Seg-final at (some i) (at i).next xs q d s.3

  -- The last entry of a list that has one is an entry.
  pub final-has_index :
      (i : ℕ) (a : A) (xs : Entries A)
      → (k : ℕ) × (final ((i, a) ∷ xs) none ≡ some k) × (has_index k ((i, a) ∷ xs) ≡ true)
  final-has_index i a [] = (i, refl, ground arith)
  final-has_index i a ((j, b) ∷ xs) = let (k, e, h) = final-has_index j b xs in (k, e, ground arith)

  pub Seg-redirect_frame :
      (at : ℕ → Cell A) (p c : Option ℕ) (xs : Entries A) (q d l n : Option ℕ)
      → outside l xs ≡ true
      → Seg at p c xs q d
      → Seg (redirect at l n) p c xs q d
  Seg-redirect_frame at p c xs q d none n out s = s
  Seg-redirect_frame at p c xs q d (some k) n out s =
      Seg-update at p c xs q d k (cell (at k).value (at k).previous n) (ground arith) s

  pub Seg-repoint_frame :
      (at : ℕ → Cell A) (p c : Option ℕ) (xs : Entries A) (q d l n : Option ℕ)
      → outside l xs ≡ true
      → Seg at p c xs q d
      → Seg (repoint at l n) p c xs q d
  Seg-repoint_frame at p c xs q d none n out s = s
  Seg-repoint_frame at p c xs q d (some k) n out s =
      Seg-update at p c xs q d k (cell (at k).value n (at k).next) (ground arith) s

  pub redirect_ne :
      (at : ℕ → Cell A) (l n : Option ℕ) (i : ℕ) → is_link l i ≡ false → redirect at l n i ≡ at i
  redirect_ne at none n i h = refl
  redirect_ne at (some k) n i h = ground arith

  pub repoint_ne :
      (at : ℕ → Cell A) (l n : Option ℕ) (i : ℕ) → is_link l i ≡ false → repoint at l n i ≡ at i
  repoint_ne at none n i h = refl
  repoint_ne at (some k) n i h = ground arith

  -- A segment with an entry ends in an entry.
  pub Seg-last :
      (at : ℕ → Cell A) (p c : Option ℕ) (i : ℕ) (a : A) (xs : Entries A) (q d : Option ℕ)
      → Seg at p c ((i, a) ∷ xs) q d
      → (k : ℕ) × (q ≡ some k) × (has_index k ((i, a) ∷ xs) ≡ true)
  Seg-last at p c i a xs q d s =
      let (k, e, h) = final-has_index i a xs in (k, Seg-final at p c ((i, a) ∷ xs) q d s ∙ e, h)

  -- The last cell gets a new successor, and the segment leads there.
  pub Seg-redirect :
      (at : ℕ → Cell A) (p c : Option ℕ) (xs : Entries A) (q d n : Option ℕ)
      → DistinctIndices xs
      → Seg at p c xs q d
      → Seg (redirect at q n) p (first xs n) xs q n
  Seg-redirect at p c [] q d n u s = (s.0, refl)
  Seg-redirect at p c ((i, a) ∷ []) q d n u s =
      subst (λ m. Seg (redirect at m n) p (some i) ((i, a) ∷ []) m n) s.3.0
        (refl, ground arith, ground arith, (refl, ground arith))
  Seg-redirect at p c ((i, a) ∷ (j, b) ∷ xs) q d n u s =
      let rest = Seg-redirect at (some i) (at i).next ((j, b) ∷ xs) q d n u.1 s.3 in
      let (k, e, h) = Seg-last at (some i) (at i).next j b xs q d s.3 in
      let same : redirect at q n i ≡ at i = redirect_ne at q n i (ground arith) in
      let next : (redirect at q n i).next ≡ some j = ap (λ (m : Cell A). m.next) same ∙ s.3.0 in
      (
        refl,
        rw same s.1,
        rw same s.2,
        subst (λ m. Seg (redirect at q n) (some i) m ((j, b) ∷ xs) q n) (sym next) rest,
      )

  -- The first cell gets a new predecessor.
  pub Seg-repoint :
      (at : ℕ → Cell A) (p c : Option ℕ) (xs : Entries A) (q d n : Option ℕ)
      → DistinctIndices xs
      → Seg at p c xs q d
      → Seg (repoint at c n) n c xs (final xs n) d
  Seg-repoint at p c [] q d n u s = (refl, s.1)
  Seg-repoint at p c ((i, a) ∷ xs) q d n u s =
      let q' : q ≡ final xs (some i) = Seg-final at (some i) (at i).next xs q d s.3 in
      let rest =
        Seg-update at (some i) (at i).next xs q d i (cell (at i).value n (at i).next) u.0 s.3 in
      let next : (update at i (cell (at i).value n (at i).next) i).next ≡ (at i).next =
        ground arith in
      subst (λ l. Seg (repoint at l n) n l ((i, a) ∷ xs) (final xs (some i)) d) (sym s.0)
        (
          refl,
          ground arith,
          ground arith,
          subst (λ l. Seg (repoint at (some i) n) (some i) l xs (final xs (some i)) d) (sym next)
              (subst (λ m. Seg (repoint at (some i) n) (some i) (at i).next xs m d) q' rest),
        )
