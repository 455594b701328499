-- ===== src/Memory/LocalPtr.antt =====
-- `memory::local_ptr` of src/boson/boson/memory/local_ptr.h: counted references that every holder can
-- invalidate. The pointers of a program are numbered places; a place where no pointer lives, or a null one, is
-- `none`. The values live at addresses, of which a deleted one is `none`. A result `none` is a failed assertion, or
-- a use or a second delete of deleted memory.
pub mod Holders
pub mod Owners
pub mod Counting
pub mod Programs
mod Tests
use boson.Prelude.{
  ℕ, ◌+◌, ◌-◌, ◌==◌, ltb, Bool, true, false, List, [], ◌∷◌, Option, none, some, update,
  if◌then◌else◌, ◌>>=◌,
}

-- The value is its address, or none for a null pointer.
pub record References : Type 0 where
  pub shared_refs : ℕ
  pub value : Option ℕ

-- The values that were deleted are kept in a list too, the last one first.
pub record Store (V : Type 0) : Type 0 where
  pub pointers : ℕ → Option ℕ
  pub refs : ℕ → Option References
  pub next_ref : ℕ
  pub values : ℕ → Option V
  pub next_value : ℕ
  pub deleted : List V

module _ {V : Type 0} where
  abbrev pub point : ℕ → Option ℕ → Store V → Store V
  point i p s = record s { pointers = update s.pointers i p }

  -- `new T{value}`, with the address, and `delete value`, which does nothing for a null pointer.
  abbrev pub with_new : V → Store V → Store V
  with_new v s = record s {
    values = update s.values s.next_value (some v);
    next_value = s.next_value + 1;
  }

  unfoldable pub delete : Option ℕ → Store V → Option (Store V)
  delete none s = some s
  delete (some a) s = do
    v ← s.values a
    some (record s { values = update s.values a none; deleted = v ∷ s.deleted })

  -- `decrement` of the pointer at `i`.
  unfoldable pub decrement : ℕ → Store V → Option (Store V)
  unfolding delete
  decrement i s = elim (s.pointers i) [
    | none ↦ some s
    | some p ↦ elim (s.refs p) [
      | none ↦ none
      | some r ↦
          if ltb 0 r.shared_refs
          then (if r.shared_refs - 1 == 0
              then (do
                s' ← delete r.value s
                some (point i none (record s' { refs = update s'.refs p none })))
              else some (record s {
                refs = update s.refs p (some (record r { shared_refs = r.shared_refs - 1 }));
              }))
          else none
    ]
  ]

  -- `if (ref_) ++ref_->shared_refs`.
  unfoldable pub increment : ℕ → Store V → Option (Store V)
  increment i s = elim (s.pointers i) [
    | none ↦ some s
    | some p ↦ elim (s.refs p) [
      | none ↦ none
      | some r ↦ some (record s {
        refs = update s.refs p (some (record r { shared_refs = r.shared_refs + 1 }));
      })
    ]
  ]

  -- The constructor from the address of a value, and from a value.
  unfoldable pub make : ℕ → ℕ → Store V → Option (Store V)
  make i a s = some (
      point i (some s.next_ref) (record s {
        refs = update s.refs s.next_ref (some (record { shared_refs = 1; value = some a }));
        next_ref = s.next_ref + 1;
      }))

  unfoldable pub make_from : ℕ → V → Store V → Option (Store V)
  unfolding make
  make_from i v s = make i s.next_value (with_new v s)

  -- The copy and the move constructor.
  unfoldable pub copy : ℕ → ℕ → Store V → Option (Store V)
  unfolding increment
  copy i other s = increment i (point i (s.pointers other) s)

  unfoldable pub move : ℕ → ℕ → Store V → Option (Store V)
  move i other s = some (point other none (point i (s.pointers other) s))

  -- The assignments of a copy, of a temporary and of `nullptr`.
  unfoldable pub assign : ℕ → ℕ → Store V → Option (Store V)
  unfolding decrement increment
  assign i other s = do s' ← decrement i s; increment i (point i (s'.pointers other) s')

  unfoldable pub move_assign : ℕ → ℕ → Store V → Option (Store V)
  unfolding decrement
  move_assign i other s = do
    s' ← decrement i s
    some (point other none (point i (s'.pointers other) s'))

  unfoldable pub assign_null : ℕ → Store V → Option (Store V)
  unfolding decrement
  assign_null i s = do s' ← decrement i s; some (point i none s')

  -- The destructor; the place is free then.
  unfoldable pub destroy : ℕ → Store V → Option (Store V)
  unfolding decrement
  destroy i s = do s' ← decrement i s; some (point i none s')

  -- `new_value` is the address of a value, or null.
  unfoldable pub reset : ℕ → Option ℕ → Store V → Option (Store V)
  unfolding delete
  reset i new_value s = elim (s.pointers i) [
    | none ↦ some s
    | some p ↦ elim (s.refs p) [
      | none ↦ none
      | some r ↦ (do
        s' ← delete r.value s
        some (record s' { refs = update s'.refs p (some (record r { value = new_value })) }))
    ]
  ]

  unfoldable pub invalidate_all : ℕ → Store V → Option (Store V)
  unfolding reset
  invalidate_all i s = reset i none s

  -- `operator*` and `operator->`; `operator bool` is whether the pointer and the address are there.
  unfoldable pub get : ℕ → Store V → Option V
  get i s = do p ← s.pointers i; r ← s.refs p; a ← r.value; s.values a
