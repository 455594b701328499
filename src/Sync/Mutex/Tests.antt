-- ===== src/Sync/Mutex/Tests.antt =====
-- The mutex at a concrete timeout.
use boson.Prelude.{int, ◌≡◌, ◌-◌, refl, none, some}
use boson.Sync.Semaphore.{take_ticket, restore_ticket}
use boson.Sync.Mutex.{lock}

held_for_ever : lock (int 0 - 1) (int 0) ≡ none
unfolding lock take_ticket restore_ticket
held_for_ever = refl

held_for_a_while : lock (int 100) (int 0) ≡ some (int 0)
unfolding lock take_ticket restore_ticket
held_for_a_while = refl
