-- ===== src/Memory/LocalPtr/Owners.antt =====
-- Which reference owns a value: a value that a reference points to is there, and no other one points to it.
use boson.Prelude.{
  ℕ, ◌+◌, ◌≤◌, ◌≡◌, ◌≢◌, refl, sym, ap, subst, ◌∙◌, ◌==◌, ==_iff, Bool-cases, inl, inr, Option,
  Option-cases, ◌∷◌, none, some, update, arith,
}
use boson.Memory.LocalPtr.{References, Store, delete}

abbrev pub value_of : Option References → Option ℕ
value_of none = none
value_of (some r) = r.value

module _ {V : Type 0} where
  pub record Owned (refs : ℕ → Option References) (values : ℕ → Option V) (next : ℕ) : Type 0 where
    pub live : (p a : ℕ) → value_of (refs p) ≡ some a → (v : V) × (values a ≡ some v)
    pub owner : (p q a : ℕ) → value_of (refs p) ≡ some a → value_of (refs q) ≡ some a → p ≡ q
    pub unborn : (a : ℕ) → next ≤ a → values a ≡ none

  -- The same values under other counts.
  pub Owned-same :
      (refs refs' : ℕ → Option References) (values : ℕ → Option V) (next : ℕ)
      → ((q : ℕ) → value_of (refs' q) ≡ value_of (refs q))
      → Owned refs values next
      → Owned refs' values next
  Owned-same refs refs' values next same o = record {
    live = λ p a e. o.live p a (sym (same p) ∙ e);
    owner = λ p q a e f. o.owner p q a (sym (same p) ∙ e) (sym (same q) ∙ f);
    unborn = o.unborn;
  }

  -- A new value has no owner.
  pub new-unowned :
      (refs : ℕ → Option References) (values : ℕ → Option V) (next q : ℕ)
      → Owned refs values next
      → value_of (refs q) ≢ some next
  new-unowned refs values next q o e =
      let (v, there) = o.live q next e in absurd (ground (arith, there, o.unborn next))

  pub Owned-new :
      (refs : ℕ → Option References) (values : ℕ → Option V) (next : ℕ) (v : V)
      → Owned refs values next
      → Owned refs (update values next (some v)) (next + 1)
  Owned-new refs values next v o = record {
    live = λ p a e.
        let (x, there) = o.live p a e in (x, ground (arith, there, ==_iff next a, o.unborn next));
    owner = o.owner;
    unborn = λ a h. ground (arith, ==_iff next a, o.unborn a, h);
  }

  -- The reference `p` gives up its value, which may be deleted, for another one, which has no owner.
  pub Owned-changed :
      (refs refs' : ℕ → Option References) (values values' : ℕ → Option V) (next p : ℕ)
      → ((q : ℕ) → q ≢ p → value_of (refs' q) ≡ value_of (refs q))
      → ((b : ℕ) → value_of (refs p) ≢ some b → values' b ≡ values b)
      → ((a : ℕ) → value_of (refs' p) ≡ some a → (v : V) × (values a ≡ some v))
      → ((a q : ℕ) → value_of (refs' p) ≡ some a → value_of (refs q) ≢ some a)
      → Owned refs values next
      → Owned refs' values' next
  Owned-changed refs refs' values values' next p others kept live unowned o = record {
    live = λ q a e. elim (Bool-cases (q == p)) [
      | inl same ↦
          let at : value_of (refs' p) ≡ some a =
            subst (λ x. value_of (refs' x) ≡ some a) ((==_iff q p).0 same) e in
          let (v, there) = live a at in (v, kept a (unowned a p at) ∙ there)
      | inr differ ↦
          let ne : q ≢ p = λ is. absurd (ground (arith, ==_iff q p, is, differ)) in
          let at = sym (others q ne) ∙ e in
          let (v, there) = o.live q a at in (v, kept a (λ mine. ne (o.owner q p a at mine)) ∙ there)
    ];
    owner = λ q q' a e e'. elim (Bool-cases (q == p)) [
      | inl same ↦
          let at : value_of (refs' p) ≡ some a =
            subst (λ x. value_of (refs' x) ≡ some a) ((==_iff q p).0 same) e in
          elim (Bool-cases (q' == p)) [
            | inl same' ↦ (==_iff q p).0 same ∙ sym ((==_iff q' p).0 same')
            | inr differ' ↦ absurd (
                unowned a q' at
                  (sym (others q' (λ is. absurd (ground (arith, ==_iff q' p, is, differ')))) ∙ e'))
          ]
      | inr differ ↦
          let at = sym (others q (λ is. absurd (ground (arith, ==_iff q p, is, differ)))) ∙ e in
          elim (Bool-cases (q' == p)) [
            | inl same' ↦ absurd (
                unowned a q (subst (λ x. value_of (refs' x) ≡ some a) ((==_iff q' p).0 same') e')
                  at)
            | inr differ' ↦
                o.owner q q' a at
                  (sym (others q' (λ is. absurd (ground (arith, ==_iff q' p, is, differ')))) ∙ e')
          ]
    ];
    unborn = λ a h.
        kept a (λ mine.
          let (v, there) = o.live p a mine in absurd (ground (arith, there, o.unborn a, h)))
        ∙ o.unborn a h;
  }

  -- The state after the value of the reference `p` was deleted.
  pub record Released (s : Store V) (p : ℕ) (s' : Store V) : Type 0 where
    pub pointers : s'.pointers ≡ s.pointers
    pub refs : s'.refs ≡ s.refs
    pub next_ref : s'.next_ref ≡ s.next_ref
    pub next_value : s'.next_value ≡ s.next_value
    pub kept : (b : ℕ) → value_of (s.refs p) ≢ some b → s'.values b ≡ s.values b
    pub gone : (a : ℕ) → value_of (s.refs p) ≡ some a → s'.values a ≡ none

  -- It is deleted once, since it is there.
  pub delete-Released :
      (s : Store V) (p : ℕ) (r : References)
      → s.refs p ≡ some r
      → Owned s.refs s.values s.next_value
      → (s' : Store V) × (delete r.value s ≡ some s') × Released s p s'
  unfolding delete
  delete-Released s p r there o = elim (Option-cases r.value) [
    | inl null ↦ (
      s,
      ground (arith, null),
      record {
        pointers = refl;
        refs = refl;
        next_ref = refl;
        next_value = refl;
        kept = λ b ne. refl;
        gone = λ a e. absurd (ground (arith, null, there, e));
      },
    )
    | inr (a, at) ↦
        let mine : value_of (s.refs p) ≡ some a = ap value_of there ∙ at in
        let (v, alive) = o.live p a mine in
        (
          record s { values = update s.values a none; deleted = v ∷ s.deleted },
          ground (arith, at, alive),
          record {
            pointers = refl;
            refs = refl;
            next_ref = refl;
            next_value = refl;
            kept = λ b ne. elim (Bool-cases (a == b)) [
              | inl same ↦ absurd (ne (mine ∙ ap some ((==_iff a b).0 same)))
              | inr differ ↦ ground (arith, differ)
            ];
            gone = λ b e. ground (arith, mine, e, ==_iff a b);
          },
        )
  ]
