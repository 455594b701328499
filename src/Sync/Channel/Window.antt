-- ===== src/Sync/Channel/Window.antt =====
-- The values of a ring from an index on, going round at its size.
use native.Mathlib.Nat.{mod-add-mod, mod-eq_of_lt, mod-eq-sub-mod, mod-lt}
use native.Mathlib.Decide.{dec_lt}
use boson.Prelude.{
  ℕ, ◌+◌, ◌-◌, ◌%◌, ◌<◌, ◌≤◌, ◌≡◌, ◌≢◌, sym, ap, ◌∙◌, ==_iff, List, [], ◌∷◌, ◌++◌, length, update,
  arith,
}

-- Two indices less than the size apart are two places of the ring.
offset_ne : (r k n : ℕ) → r < n → 0 < k → k < n → (r + k) % n ≢ r
offset_ne r k n hr hk h = elim (dec_lt (r + k) n) [
  | yes p ↦ omega (arith, mod-eq_of_lt p)
  | no p ↦ omega (
    arith,
    mod-eq-sub-mod {n = r + k} {m = n} (omega arith),
    mod-eq_of_lt {n = r + k - n} {m = n} (omega arith),
  )
]

pub places_ne : (a b n : ℕ) → a < b → b < a + n → b % n ≢ a % n
places_ne a b n h k e =
    let there : b ≡ a + (b - a) = omega arith in
    let shift : (a % n + (b - a)) % n ≡ (a + (b - a)) % n = mod-add-mod a n (b - a) in
    offset_ne (a % n) (b - a) n (mod-lt a (omega arith)) (omega arith) (omega arith)
      (shift ∙ ap (λ x. x % n) (sym there) ∙ e)

module _ {A : Type 0} where
  abbrev pub Window : (ℕ → A) → ℕ → ℕ → List A → Type 0
  Window at n t [] = Unit {0}
  Window at n t (x ∷ xs) = (at (t % n) ≡ x) × Window at n (t + 1) xs

  -- A write less than a turn ahead of the window leaves it.
  Window-update :
      (at : ℕ → A) (n t b : ℕ) (a : A) (xs : List A)
      → t + length xs ≤ b
      → b < t + n
      → Window at n t xs
      → Window (update at (b % n) a) n t xs
  Window-update at n t b a [] h k w = tt
  Window-update at n t b a (x ∷ xs) h k w = (
    ground (arith, places_ne t b n),
    Window-update at n (t + 1) b a xs (omega arith) (omega arith) w.1,
  )

  Window-append :
      (at : ℕ → A) (n t : ℕ) (a : A) (xs : List A)
      → at ((t + length xs) % n) ≡ a
      → Window at n t xs
      → Window at n t (xs ++ a ∷ [])
  Window-append at n t a [] e w = (ap (λ k. at (k % n)) (omega arith) ∙ e, tt)
  Window-append at n t a (x ∷ xs) e w =
      (w.0, Window-append at n (t + 1) a xs (ap (λ k. at (k % n)) (omega arith) ∙ e) w.1)

  -- A write just behind the window extends it.
  pub Window-push :
      (at : ℕ → A) (n t b : ℕ) (a : A) (xs : List A)
      → b ≡ t + length xs
      → length xs < n
      → Window at n t xs
      → Window (update at (b % n) a) n t (xs ++ a ∷ [])
  Window-push at n t b a xs e h w =
      Window-append (update at (b % n) a) n t a xs
        (let same : (t + length xs) % n ≡ b % n = ap (λ k. k % n) (sym e) in
          ground (arith, ==_iff (b % n) (b % n)))
        (Window-update at n t b a xs (omega arith) (omega arith) w)
