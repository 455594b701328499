-- ===== src/Queues/WeakRing.antt =====
-- `queues::weakrb` of src/boson/boson/queues/weakrb.h: a ring for one writer and one reader. Each
-- function has at most one access to the index of the other side.
pub mod Order
mod Tests
use boson.Prelude.{
  ℕ, ◌+◌, ◌-◌, ◌%◌, ◌^◌, ltb, add_size, sub_size, Bool, true, false, not, Option, none, some,
  Vector, filled, get, put, if◌then◌else◌, ◌>>=◌,
}

pub record WeakRing (A : Type 0) : Type 0 where
  pub front : ℕ
  pub pfront : ℕ
  pub back : ℕ
  pub cback : ℕ
  pub contents : Vector A

module _ {A : Type 0} where
  unfoldable pub with_capacity : ℕ → A → WeakRing A
  with_capacity capacity default = record {
    front = 0;
    pfront = 0;
    back = 0;
    cback = 0;
    contents = filled capacity default;
  }

  -- `pfront_ + size_ - back < 1`
  abbrev pub lacks_room : WeakRing A → ℕ → Bool
  lacks_room q pfront = ltb (sub_size (add_size pfront q.contents.size) q.back) 1

  -- Whether there is a place to write, with a look at `front_` only if the last one saw none.
  unfoldable pub check_room : WeakRing A → Bool × WeakRing A
  check_room q =
      if lacks_room q q.pfront
      then (not (lacks_room q q.front), record q { pfront = q.front })
      else (true, q)

  unfoldable pub store : WeakRing A → A → Option (WeakRing A)
  store q a = do
    contents ← put q.contents (q.back % q.contents.size) a
    some (record q { contents = contents })

  unfoldable pub publish_back : WeakRing A → WeakRing A
  publish_back q = record q { back = add_size q.back 1 }

  -- Whether there is a value to read, with a look at `back_` only if the last one saw none.
  unfoldable pub check_item : WeakRing A → Bool × WeakRing A
  check_item q =
      if ltb (sub_size q.cback q.front) 1
      then (not (ltb (sub_size q.back q.front) 1), record q { cback = q.back })
      else (true, q)

  unfoldable pub take : WeakRing A → Option A
  take q = get q.contents (q.front % q.contents.size)

  unfoldable pub publish_front : WeakRing A → WeakRing A
  publish_front q = record q { front = add_size q.front 1 }

  unfoldable pub write : WeakRing A → A → Option (Bool × WeakRing A)
  unfolding check_room store publish_back
  write q a =
      let (ok, seen) = check_room q in
      if not ok
      then some (false, seen)
      else do stored ← store seen a; some (true, publish_back stored)

  unfoldable pub read : WeakRing A → Option (Option A × WeakRing A)
  unfolding check_item take publish_front
  read q =
      let (ok, seen) = check_item q in
      if not ok then some (none, seen) else do a ← take seen; some (some a, publish_front seen)
