-- ===== src/Prelude/Vectors.antt =====
-- `std::vector`: a size and the elements below it. An access out of range is a fault.
use Prim.Native.Nat.{ℕ, ◌+◌}
use mathlib.Core.Option.{Option, none, some}
use boson.Prelude.Tests.{ltb, ◌==◌, if◌then◌else◌}

pub record Vector {ℓ} (A : Type ℓ) : Type ℓ where
  pub size : ℕ
  pub at : ℕ → A

module _ {ℓ} {A : Type ℓ} where
  abbrev pub update : (ℕ → A) → ℕ → A → ℕ → A
  update f i a j = if i == j then a else f j

  -- A vector of `n` copies of `a`; with `n = 0` the empty vector.
  abbrev pub filled : ℕ → A → Vector A
  filled n a = record { size = n; at = λ _. a }

  abbrev pub get : Vector A → ℕ → Option A
  get v i = if ltb i v.size then some (v.at i) else none

  abbrev pub put : Vector A → ℕ → A → Option (Vector A)
  put v i a = if ltb i v.size then some (record v { at = update v.at i a }) else none

  abbrev pub push_back : Vector A → A → Vector A
  push_back v a = record { size = v.size + 1; at = update v.at v.size a }
