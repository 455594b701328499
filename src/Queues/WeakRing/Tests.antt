-- ===== src/Queues/WeakRing/Tests.antt =====
-- A ring of one place: a value goes through it.
use boson.Prelude.{
  ℕ, update, ◌≤◌, ◌≡◌, refl, ◌++◌, List, [], ◌∷◌, length, Option, none, some, ◌>>=◌, arith,
}
use boson.Queues.WeakRing.{
  WeakRing, with_capacity, write, read, check_room, store, publish_back, check_item, take,
  publish_front,
}
use boson.Queues.WeakRing.Order.{
  State, Phase, resting, Reach, here, next, fresh, room, stores, written, item, takes,
  received_in_order,
}

-- A second write is refused until the first value is read.
run : Option (List (Option ℕ))
unfolding with_capacity write read
run = do
  (a, q) ← write (with_capacity 1 0) 5
  (b, r) ← write q 6
  (x, s) ← read r
  (y, t) ← read s
  some (x ∷ y ∷ [])

run_lem : run ≡ some (some 5 ∷ none ∷ [])
unfolding run
run_lem = refl

abbrev filled_ring : WeakRing ℕ
filled_ring = record {
  front = 0;
  pfront = 0;
  back = 1;
  cback = 1;
  contents = record { size = 1; at = update (λ i. 0) 0 5 };
}

abbrev taken : State ℕ
taken = record {
  ring = filled_ring;
  writer = resting;
  reader = Phase.moved;
  sent = 5 ∷ [];
  received = 5 ∷ [];
}

-- Room, store, publish, look, take.
taken-Reach : Reach (fresh 1 0) taken
unfolding with_capacity check_room store publish_back check_item take publish_front
taken-Reach =
    next
      (next
        (next (next (next here (room _ refl refl)) (stores 5 _ refl (omega arith) refl))
          (written refl))
        (item _ refl refl))
      (takes 5 refl refl)

received_in_order_example :
    (waiting : List ℕ) × (5 ∷ [] ≡ (5 ∷ []) ++ waiting) × (length waiting ≤ 1)
received_in_order_example =
    received_in_order 1 0 {s = taken} (omega arith) (omega arith) taken-Reach
