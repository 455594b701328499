-- ===== src/Queues/Mpsc.antt =====
-- `queues::mpsc` of src/boson/boson/queues/mpsc.h: linked nodes of several writers and one reader. A node is
-- its writer's own until the exchange, and is named here by the order of the exchanges.
pub mod Steps
pub mod Invariant
pub mod Order
mod Tests
use boson.Prelude.{ℕ, ◌+◌, Option, none, some, update, ◌>>=◌}

-- The first node holds no value.
pub record Node (A : Type 0) : Type 0 where
  pub value : Option A
  pub next : Option ℕ

-- `none` for a node that is not allocated, or was deleted.
pub record Mpsc (A : Type 0) : Type 0 where
  pub nodes : ℕ → Option (Node A)
  pub allocated : ℕ
  pub head : ℕ
  pub tail : ℕ

module _ {A : Type 0} where
  unfoldable pub init : Mpsc A
  init = record {
    nodes = update (λ i. none) 0 (some (record { value = none; next = none }));
    allocated = 1;
    head = 0;
    tail = 0;
  }

  -- A new node, and the exchange: the head before, and the node.
  unfoldable pub exchange : A → Mpsc A → (ℕ × ℕ) × Mpsc A
  exchange input q = (
    (q.head, q.allocated),
    record q {
      nodes = update q.nodes q.allocated (some (record { value = some input; next = none }));
      allocated = q.allocated + 1;
      head = q.allocated;
    },
  )

  -- `prev_head->next.store(node)`; a fault if the node was deleted.
  unfoldable pub link : (prev_head node : ℕ) → Mpsc A → Option (Mpsc A)
  link prev_head node q = do
    prev ← q.nodes prev_head
    some (record q { nodes = update q.nodes prev_head (some (record prev { next = some node })) })

  unfoldable pub write : A → Mpsc A → Option (Mpsc A)
  unfolding exchange link
  write input q = let exchanged = exchange input q in link exchanged.0.0 exchanged.0.1 exchanged.1

  unfoldable pub read : Mpsc A → Option (Option A × Mpsc A)
  read q = do
    tail ← q.nodes q.tail
    elim tail.next [
      | none ↦ some (none, q)
      | some next ↦ (do
        node ← q.nodes next
        output ← node.value
        some (
          some output,
          record q {
            nodes = update (update q.nodes next (some (record node { value = none }))) q.tail none;
            tail = next;
          },
        ))
    ]
