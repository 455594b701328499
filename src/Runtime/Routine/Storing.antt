-- ===== src/Runtime/Routine/Storing.antt =====
-- A slot that is stored for a routine that waits.
use boson.Prelude.{ℕ, ◌≡◌, ◌∙◌, ◌==◌, ==_iff, true, false, ◌||◌, List, some, arith}
use boson.Memory.SparseVector
use boson.Memory.SparseVector.{SparseVector}
use boson.Memory.SparseVector.FreeList.{Rep}
use boson.Memory.SparseVector.Allocation.{allocate-Allocated}
use boson.Memory.SparseVector.Elements.{read-write}
use boson.Runtime.State.{RoutineSlot, World}
use boson.Runtime.Thread.{no_slot, store_slot}
use boson.Runtime.Routine.Round.{SlotsOk, changed}

-- A new slot is in use beside the others, and holds what was stored.
pub record Stored (v : SparseVector RoutineSlot) (x : RoutineSlot) (index : ℕ)
    (u : SparseVector RoutineSlot) : Type 0 where
  pub rep : (fs : List ℕ) × Rep u fs
  pub used : (j : ℕ) → SparseVector.has u j ≡ (SparseVector.has v j || index == j)
  pub fresh : SparseVector.has v index ≡ false
  pub there : SparseVector.read u index ≡ some x

-- The thread after a slot was stored.
abbrev pub with_slots : World → ℕ → SparseVector RoutineSlot → World
with_slots w t u = changed w t (record (w.threads t) { suspended_slots = u }) w.semaphores

pub store_slot-Stored :
    (w : World) (t : ℕ) (x : RoutineSlot)
    → SlotsOk w t
    → (index : ℕ) × (u : SparseVector RoutineSlot) × (store_slot t x w
        ≡ some (index, with_slots w t u))
      × Stored (w.threads t).suspended_slots x index u
unfolding store_slot
store_slot-Stored w t x (fs, r) =
    let (i, v, gs, a) = allocate-Allocated no_slot fs r in
    let used : SparseVector.has v i ≡ true = ground (arith, a.others i, ==_iff i i) in
    let (u, e, rep, same, reads) = read-write i x a.rep used in
    (
      i,
      u,
      ground (arith, a.result, e),
      record {
        rep = (gs, rep);
        used = λ j. same j ∙ a.others j;
        fresh = a.was_free;
        there = ground (arith, reads i, ==_iff i i);
      },
    )
