-- ===== src/Memory/FlatUnorderedSet/Tests.antt =====
-- A set of three numbers.
use boson.Prelude.{ℕ, ◌≡◌, refl, ◌==◌, ==_iff, Bool, false, not, ◌&&◌, ◌||◌, List, [], ◌∷◌}
use boson.Memory.FlatUnorderedSet.{insert, erase}
use boson.Memory.FlatUnorderedSet.Laws.{contains, NoDuplicates, insert-erase}

abbrev three : List ℕ
three = 4 ∷ 7 ∷ 9 ∷ []

abbrev equal : ℕ → ℕ → Bool
equal a b = a == b

insert-erase_trial :
    ((insert equal three 7).0.1 ≡ false)
    × NoDuplicates equal (insert equal three 7).1
    × ((y : ℕ) → contains equal (insert equal three 7).1 y ≡ (contains equal three y || (7 == y)))
    × ((erase equal three 7).0 ≡ 1)
    × NoDuplicates equal (erase equal three 7).1
    × ((y : ℕ)
        → contains equal (erase equal three 7).1 y ≡ (contains equal three y && not (7 == y)))
insert-erase_trial = insert-erase equal ==_iff three 7 (refl, (refl, (refl, tt)))
