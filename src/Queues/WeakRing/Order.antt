-- ===== src/Queues/WeakRing/Order.antt =====
-- The calls of one writer and one reader of a `weakrb`, step by step in any order.
use native.Mathlib.Nat.{mod-lt}
use boson.Prelude.{
  ℕ, ◌+◌, ◌%◌, ◌^◌, ◌<◌, ◌≤◌, ◌≡◌, refl, sym, ap, ◌∙◌, add_size, true, false, List, [], ◌∷◌, ◌++◌,
  append_assoc, some, update, length, length-append, subst, arith,
}
use boson.Sync.Channel.Window.{Window, Window-push}
use boson.Queues.WeakRing.{
  WeakRing, with_capacity, check_room, store, publish_back, check_item, take, publish_front,
}

-- How far a call of `write` is, and one of `read`.
pub data Phase : Type 0 where
  resting checked moved : Phase

-- With all values stored so far and all values taken so far.
pub record State (A : Type 0) : Type 0 where
  pub ring : WeakRing A
  pub writer : Phase
  pub reader : Phase
  pub sent : List A
  pub received : List A

pub data Step {A : Type 0} (s : State A) : State A → Type 0 where
  room :
      (q : WeakRing A)
      → s.writer ≡ resting
      → check_room s.ring ≡ (true, q)
      → Step s (record s { ring = q; writer = checked })
  full :
      (q : WeakRing A)
      → s.writer ≡ resting
      → check_room s.ring ≡ (false, q)
      → Step s (record s { ring = q })
  stores :
      (a : A) (q : WeakRing A)
      → s.writer ≡ checked
      → s.ring.back < 2 ^ 62
      → store s.ring a ≡ some q
      → Step s (record s { ring = q; writer = moved; sent = s.sent ++ a ∷ [] })
  written : s.writer ≡ moved → Step s (record s { ring = publish_back s.ring; writer = resting })
  item :
      (q : WeakRing A)
      → s.reader ≡ resting
      → check_item s.ring ≡ (true, q)
      → Step s (record s { ring = q; reader = checked })
  nothing :
      (q : WeakRing A)
      → s.reader ≡ resting
      → check_item s.ring ≡ (false, q)
      → Step s (record s { ring = q })
  takes :
      (a : A)
      → s.reader ≡ checked
      → take s.ring ≡ some a
      → Step s (record s { reader = moved; received = s.received ++ a ∷ [] })
  freed : s.reader ≡ moved → Step s (record s { ring = publish_front s.ring; reader = resting })

pub data Reach {A : Type 0} (s : State A) : State A → Type 0 where
  here : Reach s s
  next : {t u : State A} → Reach s t → Step t u → Reach s u

abbrev pub fresh : {A : Type 0} → ℕ → A → State A
fresh size default = record {
  ring = with_capacity size default;
  writer = resting;
  reader = resting;
  sent = [];
  received = [];
}

abbrev busy : Phase → ℕ
busy resting = 0
busy checked = 1
busy moved = 1

abbrev done : Phase → ℕ
done resting = 0
done checked = 0
done moved = 1

-- What is left to take of the values in the ring.
abbrev left : {A : Type 0} → Phase → List A → List A
left resting xs = xs
left checked xs = xs
left moved [] = []
left moved (x ∷ xs) = xs

record Inv {A : Type 0} (size : ℕ) (s : State A) (held : List A) : Type 0 where
  places : s.ring.contents.size ≡ size
  window : Window s.ring.contents.at size s.ring.front held
  ends : s.ring.back + done s.writer ≡ s.ring.front + length held
  behind : s.ring.pfront ≤ s.ring.front
  room_left : s.ring.back + busy s.writer ≤ s.ring.pfront + size
  ahead : s.ring.cback ≤ s.ring.back
  items_left : s.ring.front + busy s.reader ≤ s.ring.cback
  bounded : s.ring.back + done s.writer ≤ 2 ^ 62
  order : s.sent ≡ s.received ++ left s.reader held

module _ {A : Type 0} (size : ℕ) (p : 0 < size) (k : size ≤ 2 ^ 62) where
  left-append :
      (r : Phase) (held : List A) (a : A)
      → done r ≤ length held
      → left r (held ++ a ∷ []) ≡ left r held ++ a ∷ []
  left-append resting held a h = refl
  left-append checked held a h = refl
  left-append moved [] a h = absurd (omega arith)
  left-append moved (x ∷ xs) a h = refl

  stores-Inv :
      {s : State A} (held : List A) (a : A) (q : WeakRing A)
      → s.writer ≡ checked
      → s.ring.back < 2 ^ 62
      → store s.ring a ≡ some q
      → Inv size s held
      → Inv size (record s { ring = q; writer = moved; sent = s.sent ++ a ∷ [] }) (held ++ a ∷ [])
  unfolding store
  stores-Inv {s} held a q e b f v =
      let at : ℕ → A = update s.ring.contents.at (s.ring.back % size) a in
      let same : q ≡ record s.ring { contents = record { size = s.ring.contents.size; at = at } } =
        ground (arith, f, v.places, mod-lt s.ring.back {m = size} p) in
      let ends : s.ring.back ≡ s.ring.front + length held = ground (arith, v.ends, e) in
      let space : s.ring.back + 1 ≤ s.ring.pfront + size = ground (arith, v.room_left, e) in
      let some_left : done s.reader ≤ length held = ground (arith, v.items_left, v.ahead, ends) in
      subst
        (λ r.
          Inv size (record s { ring = r; writer = moved; sent = s.sent ++ a ∷ [] })
            (held ++ a ∷ []))
        (sym same)
        (record {
          places = v.places;
          window =
              Window-push s.ring.contents.at size s.ring.front s.ring.back a held ends
                (omega (arith, v.behind)) v.window;
          ends = omega (arith, length-append held (a ∷ []));
          behind = v.behind;
          room_left = space;
          ahead = v.ahead;
          items_left = v.items_left;
          bounded = omega arith;
          order =
              ap (λ (l : List A). l ++ a ∷ []) v.order
              ∙ append_assoc s.received (left s.reader held) (a ∷ [])
              ∙ ap (◌++◌ s.received) (sym (left-append s.reader held a some_left));
        })

  takes-Inv :
      {s : State A} (held : List A) (a : A)
      → s.reader ≡ checked
      → take s.ring ≡ some a
      → Inv size s held
      → Inv size (record s { reader = moved; received = s.received ++ a ∷ [] }) held
  unfolding take
  takes-Inv {s} [] a e f v =
      let some_left : s.ring.front + 1 ≤ s.ring.cback = ground (arith, v.items_left, e) in
      absurd (omega (arith, v.ends, v.ahead))
  takes-Inv {s} (x ∷ xs) a e f v =
      let same : x ≡ a =
        ground (arith, f, v.places, v.window.0, mod-lt s.ring.front {m = size} p) in
      let order : s.sent ≡ s.received ++ x ∷ xs = ground (arith, v.order, e) in
      record {
        places = v.places;
        window = v.window;
        ends = v.ends;
        behind = v.behind;
        room_left = v.room_left;
        ahead = v.ahead;
        items_left = ground (arith, v.items_left, e);
        bounded = v.bounded;
        order =
            order ∙ ap (λ y. s.received ++ y ∷ xs) same ∙ sym (append_assoc s.received (a ∷ []) xs);
      }

  freed-Inv :
      {s : State A} (held : List A)
      → s.reader ≡ moved
      → Inv size s held
      → Inv size (record s { ring = publish_front s.ring; reader = resting }) (left moved held)
  unfolding publish_front
  freed-Inv {s} [] e v =
      let some_left : s.ring.front + 1 ≤ s.ring.cback = ground (arith, v.items_left, e) in
      absurd (omega (arith, v.ends, v.ahead))
  freed-Inv {s} (x ∷ xs) e v =
      let some_left : s.ring.front + 1 ≤ s.ring.cback = ground (arith, v.items_left, e) in
      let order : s.sent ≡ s.received ++ xs = ground (arith, v.order, e) in
      let step : add_size s.ring.front 1 ≡ s.ring.front + 1 = omega (arith, v.ahead, v.bounded) in
      record {
        places = v.places;
        window = subst (λ n. Window s.ring.contents.at size n xs) (sym step) v.window.1;
        ends = omega (arith, v.ends, v.ahead, v.bounded);
        behind = omega (arith, v.behind, v.ahead, v.bounded);
        room_left = v.room_left;
        ahead = v.ahead;
        items_left = omega (arith, v.ahead, v.bounded);
        bounded = v.bounded;
        order = order;
      }

  Step-Inv :
      {s t : State A}
      → Step s t
      → (held : List A) → Inv size s held
      → (held' : List A) × Inv size t held'
  unfolding check_room publish_back check_item take publish_front
  Step-Inv {s} (room q e f) held v = (held, ground arith)
  Step-Inv {s} (full q e f) held v = (held, ground arith)
  Step-Inv {s} (stores a q e b f) held v = (held ++ a ∷ [], stores-Inv held a q e b f v)
  Step-Inv {s} (written e) held v = (held, ground arith)
  Step-Inv {s} (item q e f) held v = (held, ground arith)
  Step-Inv {s} (nothing q e f) held v = (held, ground arith)
  Step-Inv {s} (takes a e f) held v = (held, takes-Inv held a e f v)
  Step-Inv {s} (freed e) held v = (left moved held, freed-Inv held e v)

  fresh-Inv : (default : A) → Inv size (fresh size default) []
  unfolding with_capacity
  fresh-Inv default = record {
    places = refl;
    window = tt;
    ends = refl;
    behind = omega arith;
    room_left = omega arith;
    ahead = omega arith;
    items_left = omega arith;
    bounded = omega arith;
    order = refl;
  }

  Reach-Inv :
      {s t : State A}
      → Reach s t
      → (held : List A) → Inv size s held
      → (held' : List A) × Inv size t held'
  Reach-Inv here held v = (held, v)
  Reach-Inv (next r st) held v = let (held1, v1) = Reach-Inv r held v in Step-Inv st held1 v1

-- With a capacity between 1 and 2^62 and fewer than 2^62 values written, in every state that one writer
-- and one reader reach by their steps in any order, the values taken are the first of the values
-- stored, in order and each once, and at most the capacity of them are left.
pub received_in_order :
    {A : Type 0} (size : ℕ) (default : A) {s : State A}
    → 0 < size
    → size ≤ 2 ^ 62
    → Reach (fresh size default) s
    → (waiting : List A) × (s.sent ≡ s.received ++ waiting) × (length waiting ≤ size)
received_in_order size default {s} p k r =
    let (held, v) = Reach-Inv size p k r [] (fresh-Inv size p k default) in
    (
      left s.reader held,
      v.order,
      omega (arith, left_le s.reader held, v.ends, v.room_left, v.behind, done_le s.writer),
    )
  where
    left_le : {A : Type 0} (r : Phase) (xs : List A) → length (left r xs) ≤ length xs
    left_le resting xs = omega arith
    left_le checked xs = omega arith
    left_le moved [] = omega arith
    left_le moved (x ∷ xs) = omega arith

    done_le : (r : Phase) → done r ≤ busy r
    done_le resting = omega arith
    done_le checked = omega arith
    done_le moved = omega arith
