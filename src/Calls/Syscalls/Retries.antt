-- ===== src/Calls/Syscalls/Retries.antt =====
-- A call that waits: what the loop of `boson_classic_syscall::call` returns, against the turns of kernel and
-- runtime that it takes part in.
use boson.Prelude.{
  ℕ, zero, suc, ◌-◌, ◌<◌, ◌≤◌, ◌≡◌, ◌≢◌, ◌∙◌, Int32, int, Bool, List, ◌∷◌, Option, some, update,
  arith,
}
use boson.Runtime.State.{RoutineStatus, World}
use boson.Runtime.Semaphores.{run_again}
use boson.Runtime.Waits.{prepare_wait}
use boson.Calls.State.{SyscallId, is_read, returned, failed, eagain, Kernel, Os, N}
use boson.Calls.Syscalls.{
  minus_one, would_block, wait_readiness, wait_and_call, retry, classic_syscall,
}

-- The routine `r` runs again.
abbrev pub again : {K : Type 0} → ℕ → Os K → Os K
again r o = record o {
  world = record o.world {
    routines = update o.world.routines r (record (o.world.routines r) {
      previous_status = RoutineStatus.wait_events;
      status = RoutineStatus.running;
    });
  };
}

module _ {K : Type 0} (kernel : Kernel K) (suspend : ℕ → N K (Unit {0})) (r : ℕ) where
  -- The wait for `fd` was registered in `o`, the control given away, and given back in `o'` with a code.
  pub record Resumed (read : Bool) (timeout : Option ℕ) (fd : ℕ) (o o' : Os K) (rc : Int32)
      : Type 0 where
    pub registered : World
    pub prepared :
        prepare_wait read timeout (kernel.now o.kernel) r fd o.world ≡ some (tt, registered)
    pub back : suspend r (record o { world = registered }) ≡ some (tt, o')
    pub code : (o'.world.routines r).happened_rc ≡ rc

  pub ready-wait_readiness :
      (read : Bool) (timeout : Option ℕ) (fd : ℕ) (o o' : Os K) (rc : Int32)
      → int 0 ≤ rc
      → Resumed read timeout fd o o' rc
      → wait_readiness kernel suspend r read timeout fd o ≡ some (int 0, again r o')
  unfolding wait_readiness run_again
  ready-wait_readiness read timeout fd o o' rc good h = ground (arith, h.prepared, h.back, h.code)

  pub failed-wait_readiness :
      (read : Bool) (timeout : Option ℕ) (fd : ℕ) (o o' : Os K) (rc : Int32)
      → rc < int 0
      → Resumed read timeout fd o o' rc
      → wait_readiness kernel suspend r read timeout fd o
        ≡ some (minus_one, record (again r o') { errno = int 0 - rc })
  unfolding wait_readiness run_again
  failed-wait_readiness read timeout fd o o' rc bad h = ground (arith, h.prepared, h.back, h.code)

  -- The turns of a call of `id`: it returns, or fails for another reason than that it would block; or it
  -- would block, and the wait fails; or the wait succeeds, and the turns begin anew. The first number
  -- counts the waits.
  module _ (id : SyscallId) (timeout : Option ℕ) (fd : ℕ) (args : List ℕ) where
    pub data Served : ℕ → Os K → Int32 → Os K → Type 0 where
      finishes :
          (o : Os K) (n : ℕ) (k : K)
          → kernel.call id (fd ∷ args) o.kernel ≡ (returned n, k)
          → Served 0 o (int n) (record o { kernel = k })
      fails :
          (o : Os K) (e : ℕ) (k : K)
          → kernel.call id (fd ∷ args) o.kernel ≡ (failed e, k)
          → e ≢ eagain
          → Served 0 o minus_one (record o { kernel = k; errno = e })
      gives_up :
          (o o' : Os K) (rc : Int32) (k : K)
          → kernel.call id (fd ∷ args) o.kernel ≡ (failed eagain, k)
          → Resumed (is_read id) timeout fd (record o { kernel = k; errno = eagain }) o' rc
          → rc < int 0
          → int 0 - rc ≢ eagain
          → Served 1 o minus_one (record (again r o') { errno = int 0 - rc })
      waits :
          (o o' o'' : Os K) (rc res : Int32) (k : K) (n : ℕ)
          → kernel.call id (fd ∷ args) o.kernel ≡ (failed eagain, k)
          → Resumed (is_read id) timeout fd (record o { kernel = k; errno = eagain }) o' rc
          → int 0 ≤ rc
          → Served n (again r o') res o''
          → Served (suc n) o res o''

    pub classic_syscall-wait :
        (m : ℕ) (o o' : Os K) (rc : Int32) (k : K)
        → kernel.call id (fd ∷ args) o.kernel ≡ (failed eagain, k)
        → Resumed (is_read id) timeout fd (record o { kernel = k; errno = eagain }) o' rc
        → int 0 ≤ rc
        → classic_syscall kernel suspend r (suc m) id timeout fd args o
          ≡ classic_syscall kernel suspend r m id timeout fd args (again r o')
    unfolding classic_syscall retry wait_and_call would_block
    classic_syscall-wait m o o' rc k asked h good = ground (
      arith,
      asked,
      ready-wait_readiness (is_read id) timeout fd (record o { kernel = k; errno = eagain }) o' rc
          good h,
    )

    -- With more fuel than there are waits, the loop returns what the turns say, in the state that they leave.
    pub classic_syscall-Served :
        (n fuel : ℕ) (o o' : Os K) (res : Int32)
        → Served n o res o'
        → n < fuel
        → classic_syscall kernel suspend r fuel id timeout fd args o ≡ some (res, o')
    unfolding classic_syscall retry wait_and_call would_block
    classic_syscall-Served n zero o o' res turns enough = absurd (omega arith)
    classic_syscall-Served n (suc zero) o o' res (gives_up o1 o2 rc k asked h bad other) enough =
        absurd (omega arith)
    classic_syscall-Served n (suc m) o o' res (finishes o1 c k asked) enough = ground (arith, asked)
    classic_syscall-Served n (suc m) o o' res (fails o1 e k asked other) enough =
        ground (arith, asked, other)
    classic_syscall-Served n (suc (suc m)) o o' res (gives_up o1 o2 rc k asked h bad other) enough =
        ground (
          arith,
          asked,
          other,
          failed-wait_readiness (is_read id) timeout fd (record o { kernel = k; errno = eagain }) o2
              rc bad h,
        )
    classic_syscall-Served n (suc m) o o' res (waits o1 o2 o3 rc res1 k n1 asked h good rest)
          enough =
        classic_syscall-wait m o o2 rc k asked h good
        ∙ classic_syscall-Served n1 m (again r o2) o' res rest (omega arith)
