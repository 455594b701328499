-- ===== src/Calls/Syscalls/Tests.antt =====
-- A read that would block once, and then has 7 bytes.
use boson.Prelude.{ℕ, ◌≡◌, ◌↔◌, refl, ap, int, true, List, [], ◌∷◌, some, none, arith}
use boson.Runtime.Sample.{world, host-SlotsOk}
use boson.Runtime.Waits.Prepared.{prepare_wait_wakes}
use boson.Calls.State.{sys_read, Answer, returned, failed, eagain, Os}
use boson.Calls.Sample.{next_answer, script, wakes_with, start}
use boson.Calls.Syscalls.{classic_syscall}
use boson.Calls.Syscalls.Returns.{Calm, classic_syscall_iff}
use boson.Calls.Syscalls.Retries.{again, Resumed, Served, finishes, waits, classic_syscall-Served}

abbrev answers : List Answer
answers = failed eagain ∷ returned 7 ∷ []

abbrev blocked : Os (List Answer)
blocked = record (start answers) { kernel = returned 7 ∷ []; errno = eagain }

resumed :
    (o' : Os (List Answer)) × Resumed script (wakes_with (int 1)) 0 true none 5 blocked o' (int 1)
    × (o'.kernel ≡ returned 7 ∷ [])
resumed =
    let (w, e, waits_, by_fd, by_date) =
      prepare_wait_wakes true none 0 0 5 world host-SlotsOk (omega arith) (omega arith) in
    (_, record { registered = w; prepared = e; back = refl; code = ground arith }, refl)

classic_syscall-Served_trial :
    (o' : Os (List Answer)) × (classic_syscall script
        (wakes_with (int 1))
        0
        2
        sys_read
        none
        5
        (64 ∷ 10 ∷ [])
        (start answers)
      ≡ some (int 7, o'))
classic_syscall-Served_trial = (
  _,
  classic_syscall-Served script (wakes_with (int 1)) 0 sys_read none 5 (64 ∷ 10 ∷ []) 1 2
      (start answers) _ (int 7)
      (waits (start answers) (resumed.0) _ (int 1) (int 7) (returned 7 ∷ []) 0 refl (resumed.1)
        (omega arith) (finishes (again 0 (resumed.0)) 7 [] (ap next_answer (resumed.2))))
      (omega arith),
)

resumes-Calm : Calm script (wakes_with (int 1)) 0 sys_read none 5 (64 ∷ 10 ∷ [])
resumes-Calm = λ o o' e. ground (arith, e)

-- The state that the read leaves.
abbrev served : Os (List Answer)
served = record (again 0 (resumed.0)) { kernel = [] }

classic_syscall_iff_example :
    ((fuel : ℕ) × (classic_syscall script
          (wakes_with (int 1))
          0
          fuel
          sys_read
          none
          5
          (64 ∷ 10 ∷ [])
          (start answers)
        ≡ some (int 7, served)))
    ↔ ((n : ℕ) × Served script
          (wakes_with (int 1))
          0
          sys_read
          none
          5
          (64 ∷ 10 ∷ [])
          n
          (start answers)
          (int 7)
          served)
classic_syscall_iff_example =
    classic_syscall_iff script (wakes_with (int 1)) 0 sys_read none 5 (64 ∷ 10 ∷ []) (start answers)
      served (int 7) resumes-Calm
