-- ===== src/Memory/LocalPtr/Programs.antt =====
-- What a program does with its pointers.
use boson.Prelude.{
  ℕ, ◌<◌, ◌≡◌, ◌≢◌, refl, sym, ap, subst, ◌∙◌, ◌∷◌, Option, Option-cases, inl, inr, none, some,
  update, arith,
}
use boson.Memory.LocalPtr.{
  References, Store, point, delete, with_new, decrement, increment, make_from, reset, copy, move,
  assign, move_assign, assign_null, destroy, invalidate_all,
}
use boson.Memory.LocalPtr.Owners.{value_of, Owned-new, new-unowned}
use boson.Memory.LocalPtr.Holders.{holders}
use boson.Memory.LocalPtr.Counting.{
  Counted, OwnedIn, Unowned, held, point_twice, decrement-Counted, increment-Counted, move-Counted,
  make-Counted, reset-Counted,
}

pub data Operation (V : Type 0) : Type 0 where
  makes : ℕ → V → Operation V
  copies moves assigns move_assigns : (i other : ℕ) → Operation V
  assigns_null destroys invalidates : ℕ → Operation V
  resets : ℕ → Option V → Operation V

module _ {V : Type 0} where
  -- The caller makes the value that it gives.
  abbrev pub reset_to : ℕ → Option V → Store V → Option (Store V)
  reset_to i none s = reset i none s
  reset_to i (some v) s = reset i (some s.next_value) (with_new v s)

  abbrev pub perform : Operation V → Store V → Option (Store V)
  perform (makes i v) = make_from i v
  perform (copies i other) = copy i other
  perform (moves i other) = move i other
  perform (assigns i other) = assign i other
  perform (move_assigns i other) = move_assign i other
  perform (assigns_null i) = assign_null i
  perform (destroys i) = destroy i
  perform (invalidates i) = invalidate_all i
  perform (resets i v) = reset_to i v

  -- Constructors need a place without a pointer, and no pointer is made from or assigned to itself.
  abbrev pub Legal : ℕ → Store V → Operation V → Type 0
  Legal n s (makes i v) = (i < n) × (s.pointers i ≡ none)
  Legal n s (copies i other) = (i < n) × (other < n) × (s.pointers i ≡ none)
  Legal n s (moves i other) = (i < n) × (other < n) × (other ≢ i) × (s.pointers i ≡ none)
  Legal n s (assigns i other) = (i < n) × (other < n) × (other ≢ i)
  Legal n s (move_assigns i other) = (i < n) × (other < n) × (other ≢ i)
  Legal n s (assigns_null i) = i < n
  Legal n s (destroys i) = i < n
  Legal n s (invalidates i) = i < n
  Legal n s (resets i v) = i < n

  new-Counted : (n : ℕ) (s : Store V) (v : V) → Counted n s → Counted n (with_new v s)
  new-Counted n s v c = record { counts = c.counts; positive = c.positive; fresh = c.fresh }

  new-Unowned : (n : ℕ) (s : Store V) (v : V) → OwnedIn n s → Unowned n (with_new v s) s.next_value
  new-Unowned n s v o = record {
    alive = (v, ground arith);
    unowned = λ q. new-unowned s.refs s.values s.next_value q o;
  }

  made :
      (n : ℕ) (s : Store V) (i : ℕ) (v : V)
      → i < n
      → s.pointers i ≡ none
      → Counted n s
      → OwnedIn n s
      → (t : Store V) × (make_from i v s ≡ some t) × Counted n t × OwnedIn n t
  unfolding make_from
  made n s i v h empty c o =
      make-Counted n (with_new v s) i s.next_value h empty (new-Counted n s v c)
        (Owned-new s.refs s.values s.next_value v o) (new-Unowned n s v o)

  performed :
      (n : ℕ) (s : Store V) (op : Operation V)
      → Legal n s op
      → Counted n s
      → OwnedIn n s
      → (t : Store V) × (perform op s ≡ some t) × Counted n t × OwnedIn n t
  unfolding copy move assign move_assign assign_null destroy invalidate_all make_from
  performed n s (makes i v) (h, empty) c o = made n s i v h empty c o
  performed n s (copies i other) (h, h', empty) c o = increment-Counted n s i other h h' empty c o
  performed n s (moves i other) (h, h', ne, empty) c o =
      (_, refl, move-Counted n s i other h h' ne empty c, o)
  performed n s (assigns i other) (h, h', ne) c o =
      let (s1, e, c1, o1, others) = decrement-Counted n s i h c o in
      let (t, f, c2, o2) =
        increment-Counted n (point i none s1) i other h h' (ground arith) c1 o1 in
      let same : point i ((point i none s1).pointers other) (point i none s1)
          ≡ point i (s1.pointers other) s1 =
        ap (λ o. point i o (point i none s1)) (ground (arith, ne))
        ∙ point_twice n i (s1.pointers other) s1 in
      (t, ground (arith, e, sym (ap (increment i) same) ∙ f), c2, o2)
  performed n s (move_assigns i other) (h, h', ne) c o =
      let (s1, e, c1, o1, others) = decrement-Counted n s i h c o in
      let same : point i ((point i none s1).pointers other) (point i none s1)
          ≡ point i (s1.pointers other) s1 =
        ap (λ o. point i o (point i none s1)) (ground (arith, ne))
        ∙ point_twice n i (s1.pointers other) s1 in
      (
        point other none (point i (s1.pointers other) s1),
        ground (arith, e),
        subst (λ (u : Store V). Counted n (point other none u)) same
            (move-Counted n (point i none s1) i other h h' ne (ground arith) c1),
        o1,
      )
  performed n s (assigns_null i) h c o =
      let (s1, e, c1, o1, others) = decrement-Counted n s i h c o in
      (point i none s1, ground (arith, e), c1, o1)
  performed n s (destroys i) h c o =
      let (s1, e, c1, o1, others) = decrement-Counted n s i h c o in
      (point i none s1, ground (arith, e), c1, o1)
  performed n s (invalidates i) h c o =
      reset-Counted n s i none h c o (λ a e. absurd (ground arith))
  performed n s (resets i none) h c o =
      reset-Counted n s i none h c o (λ a e. absurd (ground arith))
  performed n s (resets i (some v)) h c o =
      reset-Counted n (with_new v s) i (some s.next_value) h (new-Counted n s v c)
        (Owned-new s.refs s.values s.next_value v o)
        (λ a e. subst (Unowned n (with_new v s)) (ground arith) (new-Unowned n s v o))

  -- Where every reference counts the places that hold it, and every value that a reference points to is there
  -- and has no other reference, an operation fails no assertion, and neither uses deleted memory nor deletes it
  -- again, and both hold afterwards. So what a pointer points to is there, with its value unless that is
  -- null, and a reference that no place holds is gone. Constructors need a free place, no pointer is made from
  -- or assigned to itself, and the value that a constructor or reset takes was made for it.
  pub perform-Counted :
      (n : ℕ) (s : Store V) (op : Operation V)
      → Legal n s op
      → Counted n s
      → OwnedIn n s
      → (t : Store V) × (perform op s ≡ some t)
        × Counted n t
        × OwnedIn n t
        × ((i p : ℕ)
            → i < n
            → t.pointers i ≡ some p
            → (r : References) × (t.refs p ≡ some r)
              × ((a : ℕ) → r.value ≡ some a → (v : V) × (t.values a ≡ some v)))
        × ((p : ℕ) → holders p n t.pointers ≡ 0 → t.refs p ≡ none)
  perform-Counted n s op ok c o =
      let (t, e, c', o') = performed n s op ok c o in
      (
        t,
        e,
        c',
        o',
        (λ i p h at.
            let (r, there, more) = held n t i p h c' at in
            (r, there, λ a mine. o'.live p a (ap value_of there ∙ mine))),
        λ p nobody. gone t p c' nobody,
      )
    where
      gone : (t : Store V) (p : ℕ) → Counted n t → holders p n t.pointers ≡ 0 → t.refs p ≡ none
      gone t p c' nobody = elim (Option-cases (t.refs p)) [
        | inl e ↦ e
        | inr (r, there) ↦ absurd (ground (arith, there, c'.positive p r there, c'.counts p))
      ]

  -- The last pointer to a value that is assigned to itself deletes the value and is null afterwards.
  pub assign_self :
      (s : Store V) (i p a : ℕ) (v : V)
      → s.pointers i ≡ some p
      → s.refs p ≡ some (record { shared_refs = 1; value = some a })
      → s.values a ≡ some v
      → (t : Store V) × (assign i i s ≡ some t)
        × (t.pointers i ≡ none)
        × (t.refs p ≡ none)
        × (t.values a ≡ none)
        × (t.deleted ≡ v ∷ s.deleted)
  unfolding assign decrement increment delete
  assign_self s i p a v e there alive =
      let s' : Store V = record s { values = update s.values a none; deleted = v ∷ s.deleted } in
      let t : Store V = point i none (point i none (record s' { refs = update s.refs p none })) in
      (t, ground (arith, e, there, alive), ground arith, ground arith, ground arith, refl)
