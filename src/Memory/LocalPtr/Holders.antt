-- ===== src/Memory/LocalPtr/Holders.antt =====
-- How many places hold a reference.
use boson.Prelude.{
  ℕ, zero, suc, ◌+◌, ◌<◌, ◌≤◌, ◌≡◌, ◌==◌, ==_iff, Bool-cases, inl, inr, Option, none, some, update,
  if◌then◌else◌, arith,
}

abbrev pub holds : ℕ → Option ℕ → ℕ
holds p none = 0
holds p (some q) = if p == q then 1 else 0

-- Among the first `n` places.
unfoldable pub holders : ℕ → ℕ → (ℕ → Option ℕ) → ℕ
holders p zero f = 0
holders p (suc n) f = holders p n f + holds p (f n)

holders-same :
    (p n : ℕ) (f : ℕ → Option ℕ) (i : ℕ) (o : Option ℕ)
    → n ≤ i
    → holders p n (update f i o) ≡ holders p n f
unfolding holders
holders-same p zero f i o h = omega arith
holders-same p (suc n) f i o h = ground (arith, holders-same p n f i o)

-- A place that changes gives up what it held.
pub holders-update :
    (p n : ℕ) (f : ℕ → Option ℕ) (i : ℕ) (o : Option ℕ)
    → i < n
    → holders p n (update f i o) + holds p (f i) ≡ holders p n f + holds p o
unfolding holders
holders-update p zero f i o h = absurd (omega arith)
holders-update p (suc n) f i o h = elim (Bool-cases (i == n)) [
  | inl last ↦ ground (arith, last, ==_iff i n, holders-same p n f i o)
  | inr other ↦ ground (arith, other, ==_iff i n, holders-update p n f i o)
]

-- A place that holds a reference counts.
pub holds-le-holders : (p n : ℕ) (f : ℕ → Option ℕ) (i : ℕ) → i < n → holds p (f i) ≤ holders p n f
unfolding holders
holds-le-holders p zero f i h = absurd (omega arith)
holds-le-holders p (suc n) f i h = elim (Bool-cases (i == n)) [
  | inl last ↦ ground (arith, last, ==_iff i n)
  | inr other ↦ ground (arith, other, ==_iff i n, holds-le-holders p n f i)
]
