-- ===== src/Queues/Mpsc/Tests.antt =====
-- Two writers that have done their exchanges, and have still to link.
use boson.Prelude.{ℕ, suc, ◌≡◌, ◌⊎◌, List, [], ◌∷◌, ◌++◌, none, some, update}
use boson.Queues.Mpsc.{Mpsc, exchange, link, read}
use boson.Queues.Mpsc.Steps.{State, exchanges, here, then, fresh}
use boson.Queues.Mpsc.Order.{sent_in_order}

abbrev exchanged : State ℕ → ℕ → State ℕ
exchanged s a = record s {
  queue = (exchange a s.queue).1;
  writers = update s.writers (exchange a s.queue).0.0 (some (exchange a s.queue).0.1);
  sent = s.sent ++ a ∷ [];
}

abbrev two : State ℕ
two = exchanged (exchanged fresh 7) 8

sent_in_order_example :
    (rest : List ℕ) × (two.sent ≡ two.received ++ rest)
    × ((prev node : ℕ)
        → two.writers prev ≡ some node
        → (q : Mpsc ℕ) × (link prev node two.queue ≡ some q))
    × ((q : Mpsc ℕ) × (((read two.queue ≡ some (none, q))
            × ((rest ≡ []) ⊎ (two.writers two.queue.tail ≡ some (suc two.queue.tail))))
          ⊎ ((a : ℕ) × (left : List ℕ) × (read two.queue ≡ some (some a, q)) × (rest ≡ a ∷ left))))
sent_in_order_example = sent_in_order two (then (then here (exchanges 7)) (exchanges 8))
