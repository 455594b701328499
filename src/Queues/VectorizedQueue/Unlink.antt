-- ===== src/Queues/VectorizedQueue/Unlink.antt =====
-- The three cases of `vectorized_queue::free` do one thing: both neighbours of the cell are relinked.
use boson.Prelude.{
  ℕ, ◌≡◌, refl, Bool, true, Option, none, some, is_link, is_none, if◌then◌else◌, arith,
}
use boson.Queues.VectorizedQueue.{
  VectorizedQueue, cell, has, unlink, unlink_head, unlink_tail, unlink_middle, assert_has,
}
use boson.Queues.VectorizedQueue.Relink.{
  redirect, repoint, set_next_lem, set_previous_lem, in_bounds,
}

module _ {A : Type 0} where
  abbrev pub unlinked : VectorizedQueue A → Option ℕ → Option ℕ → VectorizedQueue A
  unlinked q p n = record {
    cells = record { size = q.cells.size; at = repoint (redirect q.cells.at p n) n p };
    first_free_cell = q.first_free_cell;
    head = if is_none p then n else q.head;
    tail = if is_none n then p else q.tail;
  }

  abbrev pub has_link : VectorizedQueue A → Option ℕ → Bool
  has_link q none = true
  has_link q (some k) = has q k

  assert_has_lem :
      (q : VectorizedQueue A) (l : Option ℕ) → has_link q l ≡ true → assert_has q l ≡ some tt
  unfolding assert_has
  assert_has_lem q none h = refl
  assert_has_lem q (some k) h = rw h

  has-in_bounds :
      (q : VectorizedQueue A) (l : Option ℕ) → has_link q l ≡ true → in_bounds q.cells l ≡ true
  unfolding has
  has-in_bounds q none h = refl
  has-in_bounds q (some k) h = ground arith

  -- The links of the cell `i` agree with the ends of the queue.
  pub record Placed (q : VectorizedQueue A) (i : ℕ) (p n : Option ℕ) : Type 0 where
    pub head : is_link q.head i ≡ is_none p
    pub tail : is_link q.tail i ≡ is_none n
    pub before : has_link q p ≡ true
    pub after : has_link q n ≡ true

  pub unlink_lem :
      (q : VectorizedQueue A) (i : ℕ) (a : Option A) (p n : Option ℕ)
      → Placed q i p n
      → unlink q i (cell a p n) ≡ some (unlinked q p n)
  unfolding unlink unlink_head unlink_tail unlink_middle
  unlink_lem q i a none n w =
      rw
        (
          w.head,
          assert_has_lem q n w.after,
          set_previous_lem q.cells n none (has-in_bounds q n w.after),
        )
        (ground (arith, w.tail))
  unlink_lem q i a (some b) none w = rw (
    w.head,
    w.tail,
    assert_has_lem q (some b) w.before,
    set_next_lem q.cells (some b) none (has-in_bounds q (some b) w.before),
  )
  unlink_lem q i a (some b) (some c) w =
      let one = set_next_lem q.cells (some b) (some c) (has-in_bounds q (some b) w.before) in
      let two =
        set_previous_lem
          (record { size = q.cells.size; at = redirect q.cells.at (some b) (some c) }) (some c)
          (some b) (has-in_bounds q (some c) w.after) in
      rw (w.head, w.tail) (rw (w.before, w.after, one, two))
