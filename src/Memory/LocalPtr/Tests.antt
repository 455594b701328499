-- ===== src/Memory/LocalPtr/Tests.antt =====
-- Two pointers to one value, of three places.
use boson.Prelude.{
  ◌==◌, ==_iff, Bool-cases, inl, inr, ℕ, ◌<◌, ◌≡◌, refl, [], ◌∷◌, none, some, update, arith,
}
use boson.Memory.LocalPtr.{References, Store, assign}
use boson.Memory.LocalPtr.Holders.{holders}
use boson.Memory.LocalPtr.Counting.{Counted, OwnedIn}
use boson.Memory.LocalPtr.Programs.{perform, assigns, perform-Counted, assign_self}

abbrev shared : Store ℕ
shared = record {
  pointers = update (update (update (λ i. none) 0 (some 5)) 1 (some 5)) 2 (some 6);
  refs =
      update (update (λ p. none) 5 (some (record { shared_refs = 2; value = some 1 }))) 6
        (some (record { shared_refs = 1; value = some 2 }));
  next_ref = 7;
  values = update (update (λ a. none) 1 (some 70)) 2 (some 80);
  next_value = 3;
  deleted = [];
}

shared-Counted : Counted 3 shared
unfolding holders
shared-Counted = record {
  counts = λ p. ground arith;
  positive = λ p r e. ground arith;
  fresh = λ p late. ground arith;
}

shared-OwnedIn : OwnedIn 3 shared
shared-OwnedIn = record {
  live = λ p a e. elim (Bool-cases (1 == a)) [
    | inl one ↦ (70, ground arith)
    | inr other ↦ (80, ground arith)
  ];
  owner = λ p q a e f. ground (arith, ==_iff 5 p, ==_iff 5 q, ==_iff 6 p, ==_iff 6 q);
  unborn = λ a h. ground arith;
}

-- The value 80 has no holder after its pointer is assigned the other one.
perform-Counted_example :
    (t : Store ℕ) × (perform (assigns 2 0) shared ≡ some t)
    × Counted 3 t
    × OwnedIn 3 t
    × ((i p : ℕ)
        → i < 3
        → t.pointers i ≡ some p
        → (r : References) × (t.refs p ≡ some r)
          × ((a : ℕ) → r.value ≡ some a → (v : ℕ) × (t.values a ≡ some v)))
    × ((p : ℕ) → holders p 3 t.pointers ≡ 0 → t.refs p ≡ none)
perform-Counted_example =
    perform-Counted 3 shared (assigns 2 0) (omega arith, omega arith, cc) shared-Counted
      shared-OwnedIn

assign_self_example :
    (t : Store ℕ) × (assign 2 2 shared ≡ some t)
    × (t.pointers 2 ≡ none)
    × (t.refs 6 ≡ none)
    × (t.values 2 ≡ none)
    × (t.deleted ≡ 80 ∷ [])
assign_self_example = assign_self shared 2 6 2 80 refl refl refl
