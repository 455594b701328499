-- ===== src/Memory/FlatUnorderedSet.antt =====
-- `memory::flat_unordered_set` of src/boson/boson/memory/flat_unordered_set.h: the values of a set in a
-- vector, as a list. The equality of the values is the parameter `eq`.
pub mod Laws
mod Tests
use boson.Prelude.{
  ℕ, zero, suc, ◌==◌, Bool, true, false, List, [], ◌∷◌, ◌++◌, length, if◌then◌else◌,
}

module _ {A : Type 0} (eq : A → A → Bool) where
  -- `std::find`: the position of the first equal value, or the end.
  unfoldable pub find : List A → A → ℕ
  find [] v = 0
  find (x ∷ xs) v = if eq x v then 0 else suc (find xs v)

  -- `values_.erase(pos)`.
  abbrev pub erase_at : ℕ → List A → List A
  erase_at i [] = []
  erase_at zero (x ∷ xs) = xs
  erase_at (suc i) (x ∷ xs) = x ∷ erase_at i xs

  -- The position is the one that was found before the value was added.
  unfoldable pub insert : List A → A → (ℕ × Bool) × List A
  unfolding find
  insert values v =
      let position = find values v in
      if length values == position
      then ((position, true), values ++ v ∷ [])
      else ((position, false), values)

  unfoldable pub erase : List A → A → ℕ × List A
  unfolding find
  erase values v =
      let pos = find values v in
      if pos == length values then (0, values) else (1, erase_at pos values)
