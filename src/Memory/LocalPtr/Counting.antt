-- ===== src/Memory/LocalPtr/Counting.antt =====
-- Every reference counts its holders: no use of a pointer finds deleted memory, and what nobody holds is gone.
use mathlib.Core.Path.{fun_ext}
use boson.Prelude.{
  ℕ, ◌+◌, ◌-◌, ◌<◌, ◌≤◌, ◌≡◌, ◌≢◌, refl, sym, ap, subst, ◌∙◌, ◌==◌, ==_iff, Bool-cases,
  Option-cases, inl, inr, Option, none, some, update, arith,
}
use boson.Memory.LocalPtr.{References, Store, point, decrement, increment, make, reset}
use boson.Memory.LocalPtr.Owners.{value_of, Owned, Owned-same, Owned-changed, delete-Released}
use boson.Memory.LocalPtr.Holders.{holds, holders, holders-update, holds-le-holders}

abbrev pub refcount : Option References → ℕ
refcount none = 0
refcount (some r) = r.shared_refs

-- Pointers live at the first `n` places.
pub record Counted {V : Type 0} (n : ℕ) (s : Store V) : Type 0 where
  pub counts : (p : ℕ) → holders p n s.pointers ≡ refcount (s.refs p)
  pub positive : (p : ℕ) (r : References) → s.refs p ≡ some r → 0 < r.shared_refs
  pub fresh : (p : ℕ) → s.next_ref ≤ p → s.refs p ≡ none

module _ {V : Type 0} (n : ℕ) where
  -- What a pointer points to is there.
  pub held :
      (s : Store V) (i p : ℕ)
      → i < n
      → Counted n s
      → s.pointers i ≡ some p
      → (r : References) × (s.refs p ≡ some r) × (0 < r.shared_refs)
  held s i p h c e = elim (Option-cases (s.refs p)) [
    | inl gone ↦
        absurd
          (ground (arith, e, gone, ==_iff p p, c.counts p, holds-le-holders p n s.pointers i h))
    | inr (r, there) ↦ (r, there, c.positive p r there)
  ]

  -- The state after one place and one reference changed, by what they are there and elsewhere.
  changed-Counted :
      (s t : Store V) (i p : ℕ) (o : Option ℕ)
      → i < n
      → t.pointers ≡ update s.pointers i o
      → ((q : ℕ) → q ≢ p → t.refs q ≡ s.refs q)
      → s.next_ref ≤ t.next_ref
      → ((q : ℕ) → q ≢ p → holds q o ≡ holds q (s.pointers i))
      → refcount (t.refs p) + holds p (s.pointers i) ≡ refcount (s.refs p) + holds p o
      → ((r : References) → t.refs p ≡ some r → 0 < r.shared_refs)
      → (t.next_ref ≤ p → t.refs p ≡ none)
      → Counted n s
      → Counted n t
  changed-Counted s t i p o h ptrs others next elsewhere here positive fresh c = record {
    counts = λ q. elim (Bool-cases (q == p)) [
      | inl same ↦
          (ap (holders q n) ptrs
            ∙ ground
                (arith, ==_iff q p, same, here, c.counts q, holders-update q n s.pointers i o h))
      | inr differ ↦
          (ap (holders q n) ptrs
            ∙ ground (
              arith,
              ==_iff q p,
              differ,
              others q,
              elsewhere q,
              c.counts q,
              holders-update q n s.pointers i o h,
            ))
    ];
    positive = λ q r e. elim (Bool-cases (q == p)) [
      | inl same ↦ (ground (arith, ==_iff q p, same, positive r, e))
      | inr differ ↦ (ground (arith, ==_iff q p, differ, others q, c.positive q r, e))
    ];
    fresh = λ q e. elim (Bool-cases (q == p)) [
      | inl same ↦ (ground (arith, ==_iff q p, same, fresh, e))
      | inr differ ↦ (ground (arith, ==_iff q p, differ, others q, c.fresh q, e, next))
    ];
  }

  pub point_twice : (i : ℕ) (o : Option ℕ) (s : Store V) → point i o (point i none s) ≡ point i o s
  point_twice i o s =
      ap (λ (f : ℕ → Option ℕ). record s { pointers = f }) (fun_ext (λ j. ground arith))

  abbrev pub OwnedIn : Store V → Type 0
  OwnedIn s = Owned s.refs s.values s.next_value

  -- A pointer whose place is left gives its reference up.
  pub decrement-Counted :
      (s : Store V) (i : ℕ)
      → i < n
      → Counted n s
      → OwnedIn s
      → (t : Store V) × (decrement i s ≡ some t)
        × Counted n (point i none t)
        × OwnedIn t
        × ((j : ℕ) → j ≢ i → t.pointers j ≡ s.pointers j)
  unfolding decrement
  decrement-Counted s i h c o = elim (Option-cases (s.pointers i)) [
    | inl e ↦ (
      s,
      ground (arith, e),
      record {
        counts = λ q. ground (arith, e, c.counts q, holders-update q n s.pointers i none h);
        positive = c.positive;
        fresh = c.fresh;
      },
      o,
      λ j ne. refl,
    )
    | inr (p, e) ↦
        let (r, there, more) = held s i p h c e in
        elim (Bool-cases (r.shared_refs - 1 == 0)) [
          | inl last ↦
              let (s', f, k) = delete-Released s p r there o in
              let gone : Store V = record s' { refs = update s'.refs p none } in
              let refs : (q : ℕ) → s'.refs q ≡ s.refs q = λ q. ap (λ g. g q) k.refs in
              (
                point i none gone,
                ground (arith, e, there, more, last, f),
                changed-Counted s (point i none (point i none gone)) i p none h
                    (ap (λ (u : Store V). u.pointers) (point_twice i none gone)
                      ∙ ap (λ g. update g i none) k.pointers)
                    (λ q ne. ground (arith, refs q)) (omega (arith, k.next_ref))
                    (λ q ne. ground (arith, e)) (ground (arith, e, there, more, last))
                    (λ r' e'. absurd (ground arith)) (λ late. ground arith) c,
                subst (Owned gone.refs s'.values) (sym k.next_value) (
                    Owned-changed s.refs gone.refs s.values s'.values s.next_value p
                      (λ q ne. ground (arith, refs q)) k.kept (λ a e'. absurd (ground arith))
                      (λ a q e'. absurd (ground arith)) o),
                λ j ne. ground (arith, ap (λ g. g j) k.pointers),
              )
          | inr left ↦
              let t : Store V = record s {
                refs = update s.refs p (some (record r { shared_refs = r.shared_refs - 1 }));
              } in
              (
                t,
                ground (arith, e, there, more, left),
                changed-Counted s (point i none t) i p none h refl (λ q ne. ground arith)
                    (omega arith) (λ q ne. ground (arith, e)) (ground (arith, e, there, more))
                    (λ r' e'. ground (arith, left)) (λ late. ground (arith, there, c.fresh p)) c,
                Owned-same s.refs t.refs s.values s.next_value
                    (λ q. ground (arith, ==_iff p q, there)) o,
                λ j ne. refl,
              )
        ]
  ]

  -- A place without a pointer takes a share in what another one holds.
  pub increment-Counted :
      (s : Store V) (i other : ℕ)
      → i < n
      → other < n
      → s.pointers i ≡ none
      → Counted n s
      → OwnedIn s
      → (t : Store V) × (increment i (point i (s.pointers other) s) ≡ some t)
        × Counted n t
        × OwnedIn t
  unfolding increment
  increment-Counted s i other h h' empty c o = elim (Option-cases (s.pointers other)) [
    | inl e ↦ (
      point i (s.pointers other) s,
      ground (arith, e),
      record {
        counts = λ q.
            ground
              (arith, e, empty, c.counts q, holders-update q n s.pointers i (s.pointers other) h);
        positive = c.positive;
        fresh = c.fresh;
      },
      o,
    )
    | inr (p, e) ↦
        let (r, there, more) = held s other p h' c e in
        let t : Store V = point i (s.pointers other) (record s {
          refs = update s.refs p (some (record r { shared_refs = r.shared_refs + 1 }));
        }) in
        (
          t,
          ground (arith, e, there),
          changed-Counted s t i p (s.pointers other) h refl (λ q ne. ground arith) (omega arith)
              (λ q ne. ground (arith, e, empty, ==_iff q p))
              (ground (arith, e, empty, there, ==_iff p p)) (λ r' e'. ground arith)
              (λ late. ground (arith, there, c.fresh p)) c,
          Owned-same s.refs t.refs s.values s.next_value (λ q. ground (arith, ==_iff p q, there)) o,
        )
  ]

  -- What lives at `other` moves to a place without a pointer.
  pub move-Counted :
      (s : Store V) (i other : ℕ)
      → i < n
      → other < n
      → other ≢ i
      → s.pointers i ≡ none
      → Counted n s
      → Counted n (point other none (point i (s.pointers other) s))
  move-Counted s i other h h' ne empty c =
      let f : ℕ → Option ℕ = update s.pointers i (s.pointers other) in
      let there : f other ≡ s.pointers other = ground (arith, ne) in
      record {
        counts = λ q.
            moved q f there (holders-update q n s.pointers i (s.pointers other) h)
              (holders-update q n f other none h');
        positive = c.positive;
        fresh = c.fresh;
      }
    where
      moved :
          (q : ℕ) (f : ℕ → Option ℕ)
          → f other ≡ s.pointers other
          → holders q n f + holds q (s.pointers i)
            ≡ holders q n s.pointers + holds q (s.pointers other)
          → holders q n (update f other none) + holds q (f other) ≡ holders q n f + holds q none
          → holders q n (update f other none) ≡ refcount (s.refs q)
      moved q f there first second =
          let a : holds q (f other) ≡ holds q (s.pointers other) = ap (holds q) there in
          let b : holds q (s.pointers i) ≡ 0 = ap (holds q) empty in
          omega (arith, first, second, a, b, c.counts q)

  -- The values that are there and that no reference points to.
  pub record Unowned (s : Store V) (a : ℕ) : Type 0 where
    pub alive : (v : V) × (s.values a ≡ some v)
    pub unowned : (q : ℕ) → value_of (s.refs q) ≢ some a

  pub make-Counted :
      (s : Store V) (i a : ℕ)
      → i < n
      → s.pointers i ≡ none
      → Counted n s
      → OwnedIn s
      → Unowned s a
      → (t : Store V) × (make i a s ≡ some t) × Counted n t × OwnedIn t
  unfolding make
  make-Counted s i a h empty c o u =
      let p = s.next_ref in
      let t : Store V = point i (some p) (record s {
        refs = update s.refs p (some (record { shared_refs = 1; value = some a }));
        next_ref = p + 1;
      }) in
      let mine : (b : ℕ) → value_of (t.refs p) ≡ some b → a ≡ b = λ b e. ground arith in
      (
        t,
        refl,
        changed-Counted s t i p (some p) h refl (λ q ne. ground arith) (omega arith)
            (λ q ne. ground (arith, empty, ==_iff q p))
            (ground (arith, empty, c.fresh p, ==_iff p p)) (λ r e. ground arith)
            (λ late. absurd (omega (arith, late))) c,
        Owned-changed s.refs t.refs s.values s.values s.next_value p (λ q ne. ground arith)
            (λ b ne. refl) (λ b e. subst (λ x. (v : V) × (s.values x ≡ some v)) (mine b e) u.alive)
            (λ b q e. subst (λ x. value_of (s.refs q) ≢ some x) (mine b e) (u.unowned q)) o,
      )

  -- The new value, if there is one, has no owner yet.
  pub reset-Counted :
      (s : Store V) (i : ℕ) (new_value : Option ℕ)
      → i < n
      → Counted n s
      → OwnedIn s
      → ((a : ℕ) → new_value ≡ some a → Unowned s a)
      → (t : Store V) × (reset i new_value s ≡ some t) × Counted n t × OwnedIn t
  unfolding reset
  reset-Counted s i new_value h c o u = elim (Option-cases (s.pointers i)) [
    | inl e ↦ (s, ground (arith, e), c, o)
    | inr (p, e) ↦
        let (r, there, more) = held s i p h c e in
        let (s', f, k) = delete-Released s p r there o in
        let t : Store V = record s' {
          refs = update s'.refs p (some (record r { value = new_value }));
        } in
        let refs : (q : ℕ) → s'.refs q ≡ s.refs q = λ q. ap (λ g. g q) k.refs in
        (
          t,
          ground (arith, e, there, f),
          record {
            counts = λ q.
                ap (holders q n) k.pointers
                ∙ c.counts q
                ∙ ground (arith, ==_iff p q, there, refs q);
            positive = λ q r' e'. elim (Bool-cases (p == q)) [
              | inl same ↦ ground (arith, same, more, e')
              | inr differ ↦ ground (arith, differ, refs q, c.positive q r', e')
            ];
            fresh =
                λ q late. ground (arith, ==_iff p q, there, refs q, k.next_ref, c.fresh q, late);
          },
          subst (Owned t.refs s'.values) (sym k.next_value) (
              Owned-changed s.refs t.refs s.values s'.values s.next_value p
                (λ q ne. ground (arith, refs q)) k.kept (λ a e'. (u a (ground arith)).alive)
                (λ a q e'. (u a (ground arith)).unowned q) o),
        )
  ]
