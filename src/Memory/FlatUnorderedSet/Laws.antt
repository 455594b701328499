-- ===== src/Memory/FlatUnorderedSet/Laws.antt =====
-- `insert` and `erase` on a vector without duplicates are those of a set.
use boson.Prelude.{
  suc, ◌≡◌, ◌↔◌, refl, sym, ◌∙◌, ap, subst, ◌==◌, ==_iff, Bool, true, false, not, ◌&&◌, ◌||◌, List,
  [], ◌∷◌, ◌++◌, length, if◌then◌else◌, arith, Bool-cases, inl, inr,
}
use boson.Memory.FlatUnorderedSet.{find, erase_at, insert, erase}

module _ {A : Type 0} (eq : A → A → Bool) where
  abbrev pub contains : List A → A → Bool
  contains [] v = false
  contains (x ∷ xs) v = eq x v || contains xs v

  abbrev pub NoDuplicates : List A → Type 0
  NoDuplicates [] = Unit {0}
  NoDuplicates (x ∷ xs) = (contains xs x ≡ false) × NoDuplicates xs

  find-contains : (xs : List A) (v : A) → (length xs == find eq xs v) ≡ not (contains xs v)
  unfolding find
  find-contains [] v = refl
  find-contains (x ∷ xs) v = ground (
    arith,
    find-contains xs v,
    ==_iff (length xs) (find eq xs v),
    ==_iff (suc (length xs)) (suc (find eq xs v)),
  )

  contains-append : (xs : List A) (v y : A) → contains (xs ++ v ∷ []) y ≡ (contains xs y || eq v y)
  contains-append [] v y = ground arith
  contains-append (x ∷ xs) v y = ground (arith, contains-append xs v y)

  module _ (decides : (x y : A) → (eq x y ≡ true) ↔ (x ≡ y)) where
    eq_sym : (x y : A) → eq x y ≡ eq y x
    eq_sym x y = ground (arith, decides x y, decides y x)

    append-NoDuplicates :
        (xs : List A) (v : A)
        → contains xs v ≡ false
        → NoDuplicates xs
        → NoDuplicates (xs ++ v ∷ [])
    append-NoDuplicates [] v h d = (refl, tt)
    append-NoDuplicates (x ∷ xs) v h d = (
      ground (arith, contains-append xs v x, eq_sym x v),
      append-NoDuplicates xs v (ground arith) d.1,
    )

    erase_at-contains :
        (xs : List A) (v y : A)
        → NoDuplicates xs
        → contains xs v ≡ true
        → contains (erase_at eq (find eq xs v) xs) y ≡ (contains xs y && not (eq v y))
    unfolding find
    erase_at-contains [] v y d h = cc
    erase_at-contains (x ∷ xs) v y d h = elim (Bool-cases (eq x v)) [
      | inl hit ↦ elim (Bool-cases (eq v y)) [
        | inl e ↦
            let gone : contains xs y ≡ false =
              subst (λ z. contains xs z ≡ false) ((decides x v).0 hit ∙ (decides v y).0 e) d.0 in
            ground (arith, hit, e, gone)
        | inr n ↦
            let other : eq x y ≡ false =
              subst (λ z. eq z y ≡ false) (sym ((decides x v).0 hit)) n in
            ground (arith, hit, n, other)
      ]
      | inr miss ↦ ground (
        arith,
        erase_at-contains xs v y d.1,
        decides x y,
        decides v y,
        decides x v,
        eq_sym x v,
        eq_sym x y,
        eq_sym v y,
      )
    ]

    erase_at-NoDuplicates :
        (xs : List A) (v : A)
        → NoDuplicates xs
        → contains xs v ≡ true
        → NoDuplicates (erase_at eq (find eq xs v) xs)
    unfolding find
    erase_at-NoDuplicates [] v d h = tt
    erase_at-NoDuplicates (x ∷ xs) v d h = elim (Bool-cases (eq x v)) [
      | inl hit ↦ rw hit d.1
      | inr miss ↦ rw miss (
        ground (arith, erase_at-contains xs v x d.1),
        erase_at-NoDuplicates xs v d.1 (ground arith),
      )
    ]

    same_value : (xs : List A) (v y : A) → eq v y ≡ true → contains xs v ≡ contains xs y
    same_value xs v y e = ap (contains xs) ((decides v y).0 e)

    -- Without duplicates, and with a test `eq` that decides equality, `insert` leaves none; it adds exactly the value and tells whether it was new.
    -- `erase` leaves none either; it takes out exactly the value, and gives how many it took.
    pub insert-erase :
        (xs : List A) (v : A)
        → NoDuplicates xs
        → ((insert eq xs v).0.1 ≡ not (contains xs v))
          × NoDuplicates (insert eq xs v).1
          × ((y : A) → contains (insert eq xs v).1 y ≡ (contains xs y || eq v y))
          × ((erase eq xs v).0 ≡ (if contains xs v then 1 else 0))
          × NoDuplicates (erase eq xs v).1
          × ((y : A) → contains (erase eq xs v).1 y ≡ (contains xs y && not (eq v y)))
    unfolding insert erase
    insert-erase xs v d = elim (Bool-cases (contains xs v)) [
      | inl old ↦
          let here : (length xs == find eq xs v) ≡ false = find-contains xs v ∙ ap not old in
          let found : (find eq xs v == length xs) ≡ false =
            ground
              (arith, here, ==_iff (length xs) (find eq xs v), ==_iff (find eq xs v) (length xs)) in
          (
            rw here (sym (ap not old)),
            rw here d,
            (λ y. rw here (ground (arith, old, same_value xs v y))),
            rw (found, old) refl,
            rw found (erase_at-NoDuplicates xs v d old),
            λ y. rw found (erase_at-contains xs v y d old),
          )
      | inr new ↦
          let here : (length xs == find eq xs v) ≡ true = find-contains xs v ∙ ap not new in
          let found : (find eq xs v == length xs) ≡ true =
            ground
              (arith, here, ==_iff (length xs) (find eq xs v), ==_iff (find eq xs v) (length xs)) in
          (
            rw here (sym (ap not new)),
            rw here (append-NoDuplicates xs v new d),
            (λ y. rw here (contains-append xs v y)),
            rw (found, new) refl,
            rw found d,
            λ y. rw found (ground (arith, new, same_value xs v y)),
          )
    ]
