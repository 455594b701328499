-- ===== src/Queues/Mpsc/Steps.antt =====
-- Writers and one reader of an `mpsc`, step by step in any order. A writer that has done its exchange is
-- kept under the node that it still has to link.
use boson.Prelude.{ℕ, ◌≡◌, List, [], ◌∷◌, ◌++◌, Option, none, some, update}
use boson.Queues.Mpsc.{Mpsc, init, exchange, link, read}

pub record State (A : Type 0) : Type 0 where
  pub queue : Mpsc A
  pub writers : ℕ → Option ℕ
  pub sent : List A
  pub received : List A

pub data Step {A : Type 0} (s : State A) : State A → Type 0 where
  exchanges :
      (a : A)
      → Step s (record s {
        queue = (exchange a s.queue).1;
        writers = update s.writers (exchange a s.queue).0.0 (some (exchange a s.queue).0.1);
        sent = s.sent ++ a ∷ [];
      })
  links :
      (prev node : ℕ) (q : Mpsc A)
      → s.writers prev ≡ some node
      → link prev node s.queue ≡ some q
      → Step s (record s { queue = q; writers = update s.writers prev none })
  takes :
      (a : A) (q : Mpsc A)
      → read s.queue ≡ some (some a, q)
      → Step s (record s { queue = q; received = s.received ++ a ∷ [] })
  finds_none : (q : Mpsc A) → read s.queue ≡ some (none, q) → Step s (record s { queue = q })

pub data Reach {A : Type 0} (s : State A) : State A → Type 0 where
  here : Reach s s
  then : {t u : State A} → Reach s t → Step t u → Reach s u

abbrev pub fresh : {A : Type 0} → State A
fresh = record { queue = init; writers = λ i. none; sent = []; received = [] }
