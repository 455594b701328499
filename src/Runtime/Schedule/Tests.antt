-- ===== src/Runtime/Schedule/Tests.antt =====
-- The end of a round of a thread that waits for a routine.
use boson.Prelude.{Bool, ◌≡◌, some}
use boson.Runtime.State.{World}
use boson.Runtime.Schedule.{finish_round}
use boson.Runtime.Schedule.Rest.{Rested, finish_round-Rested}
use boson.Runtime.Sample.{world}

finish_round-Rested_example :
    (again idle : Bool) × (w' : World) × (finish_round 0 world ≡ some ((again, idle), w'))
    × Rested (world.threads 0) (w'.threads 0) again idle
finish_round-Rested_example = finish_round-Rested world 0
