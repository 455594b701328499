-- ===== src/Queues/Mpsc/Order.antt =====
-- The order in which an `mpsc` hands its values on.
use boson.Prelude.{
  ℕ, suc, ◌≡◌, ◌⊎◌, inl, inr, refl, sym, ap, subst, ◌∙◌, List, [], ◌∷◌, ◌++◌, Option, none, some,
  update, arith, Option-cases,
}
use boson.Queues.Mpsc.{Node, Mpsc, init, exchange, link, read}
use boson.Queues.Mpsc.Steps.{
  State, Step, exchanges, links, takes, finds_none, Reach, here, then, fresh,
}
use boson.Queues.Mpsc.Invariant.{
  value_of, next_of, Inv, update_here, update_there, exchanged-Inv, linked-Inv, taken-Inv,
}

module _ {A : Type 0} where
  exchanges-Inv :
      (s : State A) (held : List A) (a : A)
      → Inv s held
      → Inv
          (record s {
            queue = (exchange a s.queue).1;
            writers = update s.writers (exchange a s.queue).0.0 (some (exchange a s.queue).0.1);
            sent = s.sent ++ a ∷ [];
          })
          (held ++ a ∷ [])
  unfolding exchange
  exchanges-Inv s held a v =
      exchanged-Inv s held a
        (update s.queue.nodes s.queue.allocated (some (record { value = some a; next = none })))
        (update s.writers s.queue.head (some s.queue.allocated))
        (update_here s.queue.nodes s.queue.allocated _)
        (update_there s.queue.nodes s.queue.allocated _) (update_here s.writers s.queue.head _)
        (update_there s.writers s.queue.head _) v

  -- A writer that did its exchange finds the node before its own.
  links-Inv :
      (s : State A) (held : List A) (prev node : ℕ)
      → Inv s held
      → s.writers prev ≡ some node
      → (q : Mpsc A) × (link prev node s.queue ≡ some q)
        × Inv (record s { queue = q; writers = update s.writers prev none }) held
  unfolding link
  links-Inv s held prev node v w = elim (Option-cases (s.queue.nodes prev)) [
    | inl gone ↦ absurd (ground (arith, gone, v.alive prev, v.idle prev, w))
    | inr (n, there) ↦
        let nodes : ℕ → Option (Node A) =
          update s.queue.nodes prev (some (record n { next = some node })) in
        (
          record s.queue { nodes = nodes },
          rw there refl,
          linked-Inv s held prev node n nodes (update s.writers prev none) w there
              (update_here s.queue.nodes prev _) (update_there s.queue.nodes prev _)
              (update_here s.writers prev none) (update_there s.writers prev none) v,
        )
  ]

  -- A read gives the first of the values held, unless none is held or the writer of the first is on its way.
  abbrev ReadResult : State A → List A → Option A → Mpsc A → Type 0
  ReadResult s held none q =
      (q ≡ s.queue) × ((held ≡ []) ⊎ (s.writers s.queue.tail ≡ some (suc s.queue.tail)))
  ReadResult s held (some a) q =
      (rest : List A) × (held ≡ a ∷ rest)
      × Inv (record s { queue = q; received = s.received ++ a ∷ [] }) rest

  reads_lem :
      (s : State A) (held : List A)
      → Inv s held
      → (o : Option A) × (q : Mpsc A) × (read s.queue ≡ some (o, q)) × ReadResult s held o q
  unfolding read
  reads_lem s [] v = elim (Option-cases (s.queue.nodes s.queue.tail)) [
    | inl gone ↦ absurd (ground (arith, gone, v.alive s.queue.tail, v.ends))
    | inr (n, there) ↦
        let at_head : s.queue.tail ≡ s.queue.head = omega (arith, v.ends) in
        let unlinked : n.next ≡ none =
          sym (ap next_of there) ∙ ap (λ i. next_of (s.queue.nodes i)) at_head ∙ v.last in
        (none, s.queue, ground (arith, there, unlinked), (refl, inl refl))
  ]
  reads_lem s (x ∷ xs) v = elim (Option-cases (s.queue.nodes s.queue.tail)) [
    | inl gone ↦ absurd (ground (arith, gone, v.alive s.queue.tail, v.ends))
    | inr (n, there) ↦ elim (v.linked s.queue.tail (omega arith) (omega (arith, v.ends))) [
      | inr (unlinked, owed) ↦
          let nothing : n.next ≡ none = sym (ap next_of there) ∙ unlinked in
          (none, s.queue, ground (arith, there, nothing), (refl, inr owed))
      | inl (follows, free) ↦ elim (Option-cases (s.queue.nodes (suc s.queue.tail))) [
        | inl gone ↦ absurd (ground (arith, gone, v.alive (suc s.queue.tail), v.ends))
        | inr (m, next) ↦
            let link_to : n.next ≡ some (suc s.queue.tail) = sym (ap next_of there) ∙ follows in
            let holds : m.value ≡ some x = sym (ap value_of next) ∙ v.values.0 in
            let moved : ℕ → Option (Node A) =
              update s.queue.nodes (suc s.queue.tail) (some (record m { value = none })) in
            let nodes : ℕ → Option (Node A) = update moved s.queue.tail none in
            (
              some x,
              record s.queue { nodes = nodes; tail = suc s.queue.tail },
              rw (there, link_to, next, holds) refl,
              (
                xs,
                refl,
                taken-Inv s x xs m nodes next free
                    (update_there moved s.queue.tail none (suc s.queue.tail) (omega arith)
                      ∙ update_here s.queue.nodes (suc s.queue.tail) _)
                    (λ j b c.
                      update_there moved s.queue.tail none j b
                      ∙ update_there s.queue.nodes (suc s.queue.tail) _ j c)
                    v,
              ),
            )
      ]
    ]
  ]

  same_read :
      (o o' : Option A) (q q' : Mpsc A)
      → ◌≡◌ {A = Option (Option A × Mpsc A)} (some (o, q)) (some (o', q'))
      → (o ≡ o') × (q ≡ q')
  same_read o o' q q' e = (
    ap (λ z. elim z [ none ↦ o | some (p, r) ↦ p ]) e,
    ap (λ z. elim z [ none ↦ q | some (p, r) ↦ r ]) e,
  )

  Step-Inv :
      (s t : State A) (held : List A) → Step s t → Inv s held → (held' : List A) × Inv t held'
  Step-Inv s t held (exchanges a) v = (held ++ a ∷ [], exchanges-Inv s held a v)
  Step-Inv s t held (links prev node q w e) v =
      let (q', e', v') = links-Inv s held prev node v w in
      let same : q' ≡ q = ap (λ z. elim z [ none ↦ q | some r ↦ r ]) (sym e' ∙ e) in
      (
        held,
        subst (λ r. Inv (record s { queue = r; writers = update s.writers prev none }) held) same
            v',
      )
  Step-Inv s t held (takes a q e) v =
      let (o, q', e', result) = reads_lem s held v in
      let (same, moved) = same_read o (some a) q' q (sym e' ∙ e) in
      let (rest, split, v') =
        subst (ReadResult s held (some a)) moved
          (subst (λ p. ReadResult s held p q') same result) in
      (rest, v')
  Step-Inv s t held (finds_none q e) v =
      let (o, q', e', result) = reads_lem s held v in
      let (same, moved) = same_read o none q' q (sym e' ∙ e) in
      let (still, why) =
        subst (ReadResult s held none) moved (subst (λ p. ReadResult s held p q') same result) in
      (held, subst (λ r. Inv (record s { queue = r }) held) (sym still) v)

  fresh-Inv : Inv (fresh {A = A}) []
  unfolding init
  fresh-Inv = record {
    names = omega arith;
    ends = omega arith;
    values = tt;
    alive = λ i b c. ground arith;
    linked = λ i b c. absurd (omega (arith, b, c));
    last = refl;
    idle = λ i b. refl;
    order = refl;
  }

  Reach-Inv : (s : State A) → Reach fresh s → (held : List A) × Inv s held
  Reach-Inv s here = ([], fresh-Inv)
  Reach-Inv s (then {t} before step) =
      let (held, v) = Reach-Inv t before in Step-Inv t s held step v

  -- In every state that any number of writers and one reader reach by their steps in any order, the values
  -- received are the first of the values sent, in the order of the exchanges and each once. A writer that
  -- has done its exchange links without a fault. A read does not fault: it gives the first of the values left,
  -- or finds nothing, which it does only if none is left or the writer of the first has still to link it.
  pub sent_in_order :
      (s : State A)
      → Reach fresh s
      → (rest : List A) × (s.sent ≡ s.received ++ rest)
        × ((prev node : ℕ)
            → s.writers prev ≡ some node
            → (q : Mpsc A) × (link prev node s.queue ≡ some q))
        × ((q : Mpsc A) × (((read s.queue ≡ some (none, q))
                × ((rest ≡ []) ⊎ (s.writers s.queue.tail ≡ some (suc s.queue.tail))))
              ⊎ ((a : A) × (left : List A) × (read s.queue ≡ some (some a, q))
                  × (rest ≡ a ∷ left))))
  sent_in_order s steps =
      let (held, v) = Reach-Inv s steps in
      let (o, q, e, result) = reads_lem s held v in
      (
        held,
        v.order,
        (λ prev node w. let (q', f, _) = links-Inv s held prev node v w in (q', f)),
        (q, told o q e held result),
      )
    where
      told :
          (o : Option A) (q : Mpsc A)
          → read s.queue ≡ some (o, q)
          → (held : List A) → ReadResult s held o q
          → ((read s.queue ≡ some (none, q))
              × ((held ≡ []) ⊎ (s.writers s.queue.tail ≡ some (suc s.queue.tail))))
            ⊎ ((a : A) × (left : List A) × (read s.queue ≡ some (some a, q)) × (held ≡ a ∷ left))
      told none q e held result = inl (e, result.1)
      told (some a) q e held result = inr (a, result.0, e, result.1)
