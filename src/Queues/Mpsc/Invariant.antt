-- ===== src/Queues/Mpsc/Invariant.antt =====
-- What holds between the steps of the writers and the reader of an `mpsc`.
use boson.Prelude.{
  ℕ, suc, ◌+◌, ◌<◌, ◌≤◌, ◌≡◌, ◌≢◌, ◌⊎◌, refl, sym, ap, ◌∙◌, List, [], ◌∷◌, ◌++◌, append_assoc,
  Option, none, some, update, length, length-append, arith,
}
use boson.Queues.Mpsc.{Node}
use boson.Queues.Mpsc.Steps.{State}

abbrev pub value_of : {A : Type 0} → Option (Node A) → Option A
value_of none = none
value_of (some n) = n.value

abbrev pub next_of : {A : Type 0} → Option (Node A) → Option ℕ
next_of none = none
next_of (some n) = n.next

-- The values of the nodes behind `t`.
abbrev pub Values : {A : Type 0} → (ℕ → Option (Node A)) → ℕ → List A → Type 0
Values nodes t [] = Unit {0}
Values nodes t (x ∷ xs) = (value_of (nodes (suc t)) ≡ some x) × Values nodes (suc t) xs

pub record Inv {A : Type 0} (s : State A) (held : List A) : Type 0 where
  pub names : s.queue.allocated ≡ s.queue.head + 1
  pub ends : s.queue.head ≡ s.queue.tail + length held
  pub values : Values s.queue.nodes s.queue.tail held
  pub alive : (i : ℕ) → s.queue.tail ≤ i → i ≤ s.queue.head → s.queue.nodes i ≢ none
  pub linked :
      (i : ℕ)
      → s.queue.tail ≤ i
      → i < s.queue.head
      → ((next_of (s.queue.nodes i) ≡ some (suc i)) × (s.writers i ≡ none))
        ⊎ ((next_of (s.queue.nodes i) ≡ none) × (s.writers i ≡ some (suc i)))
  pub last : next_of (s.queue.nodes s.queue.head) ≡ none
  pub idle : (i : ℕ) → (i < s.queue.tail) ⊎ (s.queue.head ≤ i) → s.writers i ≡ none
  pub order : s.sent ≡ s.received ++ held

Values-same :
    {A : Type 0} (f g : ℕ → Option (Node A)) (t : ℕ) (xs : List A)
    → ((i : ℕ) → t < i → i ≤ t + length xs → value_of (f i) ≡ value_of (g i))
    → Values f t xs
    → Values g t xs
Values-same f g t [] same v = tt
Values-same f g t (x ∷ xs) same v = (
  sym (same (suc t) (omega arith) (omega arith)) ∙ v.0,
  Values-same f g (suc t) xs (λ i a b. same i (omega (arith, a)) (omega (arith, b))) v.1,
)

Values-append :
    {A : Type 0} (f : ℕ → Option (Node A)) (t : ℕ) (xs : List A) (a : A)
    → Values f t xs
    → value_of (f (suc (t + length xs))) ≡ some a
    → Values f t (xs ++ a ∷ [])
Values-append f t [] a v e = (ap (λ i. value_of (f i)) (omega arith) ∙ e, tt)
Values-append f t (x ∷ xs) a v e =
    (v.0, Values-append f (suc t) xs a v.1 (ap (λ i. value_of (f i)) (omega arith) ∙ e))

pub update_here {ℓ} : {B : Type ℓ} (f : ℕ → B) (i : ℕ) (b : B) → update f i b i ≡ b
update_here f i b = ground arith

pub update_there {ℓ} :
    {B : Type ℓ} (f : ℕ → B) (i : ℕ) (b : B) (j : ℕ) → j ≢ i → update f i b j ≡ f j
update_there f i b j h = ground arith

module _ {A : Type 0} where
  -- The state after a step, by what nodes and writers are at the place that changed and elsewhere.
  pub exchanged-Inv :
      (s : State A) (held : List A) (a : A) (nodes : ℕ → Option (Node A)) (writers : ℕ → Option ℕ)
      → nodes s.queue.allocated ≡ some (record { value = some a; next = none })
      → ((j : ℕ) → j ≢ s.queue.allocated → nodes j ≡ s.queue.nodes j)
      → writers s.queue.head ≡ some s.queue.allocated
      → ((j : ℕ) → j ≢ s.queue.head → writers j ≡ s.writers j)
      → Inv s held
      → Inv
          (record s {
            queue = record s.queue {
              nodes = nodes;
              allocated = s.queue.allocated + 1;
              head = s.queue.allocated;
            };
            writers = writers;
            sent = s.sent ++ a ∷ [];
          })
          (held ++ a ∷ [])
  exchanged-Inv s held a nodes writers at_it there owes others v = record {
    names = refl;
    ends = omega (arith, v.names, v.ends, length-append held (a ∷ []));
    values =
        Values-append nodes s.queue.tail held a
          (Values-same s.queue.nodes nodes s.queue.tail held
            (λ i b c. ground (arith, v.names, v.ends, there i)) v.values)
          (ground (arith, v.names, v.ends, at_it));
    alive = λ i b c. ground (arith, v.names, at_it, there i, v.alive i b);
    linked = λ i b c. ground (
      arith,
      v.names,
      v.ends,
      v.linked i b,
      v.last,
      v.idle s.queue.head,
      there i,
      others i,
      owes,
    );
    last = ground (arith, at_it);
    idle = λ i b. ground (arith, v.names, v.ends, v.idle i, others i);
    order = ap (λ l. l ++ a ∷ []) v.order ∙ append_assoc s.received held (a ∷ []);
  }

  pub linked-Inv :
      (s : State A) (held : List A) (prev node : ℕ) (n : Node A) (nodes : ℕ → Option (Node A))
      (writers : ℕ → Option ℕ)
      → s.writers prev ≡ some node
      → s.queue.nodes prev ≡ some n
      → nodes prev ≡ some (record n { next = some node })
      → ((j : ℕ) → j ≢ prev → nodes j ≡ s.queue.nodes j)
      → writers prev ≡ none
      → ((j : ℕ) → j ≢ prev → writers j ≡ s.writers j)
      → Inv s held
      → Inv (record s { queue = record s.queue { nodes = nodes }; writers = writers }) held
  linked-Inv s held prev node n nodes writers w old at_it there done others v = record {
    names = v.names;
    ends = v.ends;
    values =
        Values-same s.queue.nodes nodes s.queue.tail held
          (λ i b c. ground (arith, old, at_it, there i)) v.values;
    alive = λ i b c. ground (arith, at_it, there i, v.alive i b c);
    linked = λ i b c. ground (arith, v.linked i b c, at_it, there i, others i, done, w, old);
    last = ground (arith, v.last, v.idle prev, w, there s.queue.head);
    idle = λ i b. ground (arith, v.idle i b, others i, done);
    order = v.order;
  }

  -- A reader that takes a value: the node that it goes to is linked, and holds the first of the values.
  pub taken-Inv :
      (s : State A) (x : A) (xs : List A) (n : Node A) (nodes : ℕ → Option (Node A))
      → s.queue.nodes (suc s.queue.tail) ≡ some n
      → s.writers s.queue.tail ≡ none
      → nodes (suc s.queue.tail) ≡ some (record n { value = none })
      → ((j : ℕ) → j ≢ s.queue.tail → j ≢ suc s.queue.tail → nodes j ≡ s.queue.nodes j)
      → Inv s (x ∷ xs)
      → Inv
          (record s {
            queue = record s.queue { nodes = nodes; tail = suc s.queue.tail };
            received = s.received ++ x ∷ [];
          })
          xs
  taken-Inv s x xs n nodes old free at_it there v = record {
    names = v.names;
    ends = omega (arith, v.ends);
    values =
        Values-same s.queue.nodes nodes (suc s.queue.tail) xs (λ i b c. ground (arith, there i))
          v.values.1;
    alive = λ i b c. ground (arith, at_it, there i, v.alive i);
    linked = λ i b c. ground (arith, v.linked i, at_it, there i, old);
    last = ground (arith, v.last, v.ends, at_it, old, there s.queue.head);
    idle = λ i b. ground (arith, v.idle i, free);
    order = v.order ∙ sym (append_assoc s.received (x ∷ []) xs);
  }
