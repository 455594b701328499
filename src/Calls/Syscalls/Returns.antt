-- ===== src/Calls/Syscalls/Returns.antt =====
-- Every return of a call that waits comes from turns of kernel and runtime.
use boson.Prelude.{
  ℕ, zero, suc, ◌-◌, ◌<◌, ◌≤◌, ◌≡◌, ◌≢◌, ◌↔◌, refl, sym, subst, ◌∙◌, ◌==◌, ==_iff, ltb, Int32, int,
  Bool-cases, List, ◌∷◌, Option, Option-cases, none, some, inl, inr, arith,
}
use boson.Runtime.Waits.{prepare_wait}
use boson.Calls.State.{SyscallId, is_read, Answer, returned, failed, eagain, Kernel, Os, N}
use boson.Calls.Syscalls.{
  minus_one, would_block, wait_readiness, wait_and_call, retry, classic_syscall,
}
use boson.Calls.Syscalls.Retries.{
  again, Resumed, Served, finishes, fails, gives_up, waits, failed-wait_readiness,
  classic_syscall-wait, classic_syscall-Served,
}

module _ {K : Type 0} (kernel : Kernel K) (suspend : ℕ → N K (Unit {0})) (r : ℕ) (id : SyscallId)
    (timeout : Option ℕ) (fd : ℕ) (args : List ℕ) where
  abbrev Returns : ℕ → Os K → Int32 → Os K → Type 0
  Returns fuel o res o' =
      (n : ℕ) × (n < fuel) × Served kernel suspend r id timeout fd args n o res o'

  same_return :
      (n : ℕ) (o o1 o' : Os K) (x res : Int32)
      → Served kernel suspend r id timeout fd args n o x o1
      → ◌≡◌ {A = Option (Int32 × Os K)} (some (x, o1)) (some (res, o'))
      → Served kernel suspend r id timeout fd args n o res o'
  same_return n o o1 o' x res s e =
      subst
        (λ z. elim z [
          | none ↦ Unit {0}
          | some (y, p) ↦ Served kernel suspend r id timeout fd args n o y p
        ])
        e s

  -- No wake-up of the routine leaves the code for a call that would block.
  abbrev pub Calm : Type 0
  Calm =
      (o o' : Os K)
      → suspend r o ≡ some (tt, o')
      → int 0 - (o'.world.routines r).happened_rc ≢ eagain

  -- The state in which the wait starts, and where it goes.
  module _ (m : ℕ) (o : Os K) (k : K)
      (asked : kernel.call id (fd ∷ args) o.kernel ≡ (failed eagain, k)) where
    abbrev blocked : Os K
    blocked = record o { kernel = k; errno = eagain }

    -- The wait was reached, since a fault before it would be one of the whole call.
    reached :
        (o' : Os K) (res : Int32)
        → classic_syscall kernel suspend r (suc m) id timeout fd args o ≡ some (res, o')
        → (o2 : Os K) × Resumed kernel suspend r
            (is_read id)
            timeout
            fd
            blocked
            o2
            (o2.world.routines r).happened_rc
    unfolding classic_syscall retry wait_and_call would_block wait_readiness
    reached o' res e =
        elim (Option-cases (prepare_wait (is_read id) timeout (kernel.now k) r fd o.world)) [
          | inl gone ↦ absurd (ground (arith, asked, gone, e))
          | inr ((u, w), prepared) ↦
              elim (Option-cases (suspend r (record blocked { world = w }))) [
                | inl gone ↦ absurd (ground (arith, asked, prepared, gone, e))
                | inr ((u', o2), back) ↦
                    (o2, record { registered = w; prepared = prepared; back = back; code = refl })
              ]
        ]

    -- After a wait that failed the loop needs one turn more to return.
    waited_out :
        (o2 : Os K) (rc : Int32)
        → Resumed kernel suspend r (is_read id) timeout fd blocked o2 rc
        → rc < int 0
        → classic_syscall kernel suspend r 1 id timeout fd args o ≡ none
    unfolding classic_syscall retry wait_and_call would_block
    waited_out o2 rc h bad = ground (
      arith,
      asked,
      failed-wait_readiness kernel suspend r (is_read id) timeout fd blocked o2 rc bad h,
    )

  Served-return :
      (n fuel : ℕ) (o o1 o' : Os K) (x res : Int32)
      → Served kernel suspend r id timeout fd args n o x o1
      → n < fuel
      → classic_syscall kernel suspend r fuel id timeout fd args o ≡ some (res, o')
      → Returns fuel o res o'
  Served-return n fuel o o1 o' x res s enough e = (
    n,
    enough,
    same_return n o o1 o' x res s (
        sym (classic_syscall-Served kernel suspend r id timeout fd args n fuel o o1 x s enough)
        ∙ e),
  )

  gave_up :
      (m : ℕ) (o o2 o' : Os K) (rc res : Int32) (k : K)
      → Calm
      → kernel.call id (fd ∷ args) o.kernel ≡ (failed eagain, k)
      → Resumed kernel suspend r
          (is_read id)
          timeout
          fd
          (record o { kernel = k; errno = eagain })
          o2
          rc
      → rc < int 0
      → classic_syscall kernel suspend r (suc m) id timeout fd args o ≡ some (res, o')
      → Returns (suc m) o res o'
  gave_up zero o o2 o' rc res k calm asked h bad e =
      absurd (ground (arith, waited_out zero o k asked o2 rc h bad, e))
  gave_up (suc m) o o2 o' rc res k calm asked h bad e =
      Served-return 1 (suc (suc m)) o (record (again r o2) { errno = int 0 - rc }) o' minus_one res
        (gives_up o o2 rc k asked h bad (
          subst (λ c. int 0 - c ≢ eagain) h.code
            (calm (record o { kernel = k; errno = eagain; world = h.registered }) o2 h.back)))
        (omega arith) e

  answered_by :
      (m : ℕ) (o o' : Os K) (res : Int32)
      → Calm
      → classic_syscall kernel suspend r (suc m) id timeout fd args o ≡ some (res, o')
      → ((o1 : Os K)
          → classic_syscall kernel suspend r m id timeout fd args o1 ≡ some (res, o')
          → Returns m o1 res o')
      → (a : Answer) (k : K) → kernel.call id (fd ∷ args) o.kernel ≡ (a, k)
      → Returns (suc m) o res o'
  answered_by m o o' res calm e ih (returned c) k asked =
      Served-return 0 (suc m) o (record o { kernel = k }) o' (int c) res (finishes o c k asked)
        (omega arith) e
  answered_by m o o' res calm e ih (failed c) k asked = elim (Bool-cases (c == eagain)) [
    | inr other ↦
        Served-return 0 (suc m) o (record o { kernel = k; errno = c }) o' minus_one res
          (fails o c k asked (λ q. ground (arith, q, other))) (omega arith) e
    | inl blocks ↦
        let asked' : kernel.call id (fd ∷ args) o.kernel ≡ (failed eagain, k) =
          subst (λ x. kernel.call id (fd ∷ args) o.kernel ≡ (failed x, k))
            ((==_iff c eagain).0 blocks) asked in
        let (o2, h) = reached m o k asked' o' res e in
        elim (Bool-cases (ltb (o2.world.routines r).happened_rc (int 0))) [
          | inl bad ↦
              gave_up m o o2 o' (o2.world.routines r).happened_rc res k calm asked' h
                (ground (arith, bad)) e
          | inr good ↦
              let rc = (o2.world.routines r).happened_rc in
              let fine : int 0 ≤ rc = ground (arith, good) in
              let (n, less, s) = ih (again r o2) (
                sym (
                  classic_syscall-wait kernel suspend r id timeout fd args m o o2 rc k asked' h
                    fine)
                ∙ e) in
              (suc n, omega (arith, less), waits o o2 o' rc res k n asked' h fine s)
        ]
  ]

  returns :
      (fuel : ℕ) (o o' : Os K) (res : Int32)
      → Calm
      → classic_syscall kernel suspend r fuel id timeout fd args o ≡ some (res, o')
      → Returns fuel o res o'
  unfolding classic_syscall retry
  returns zero o o' res calm e =
      never (kernel.call id (fd ∷ args) o.kernel).0 (kernel.call id (fd ∷ args) o.kernel).1 refl
    where
      never :
          (a : Answer) (k : K)
          → kernel.call id (fd ∷ args) o.kernel ≡ (a, k)
          → Returns zero o res o'
      never (returned c) k asked = absurd (ground (arith, asked, e))
      never (failed c) k asked = absurd (ground (arith, asked, e))
  returns (suc m) o o' res calm e =
      answered_by m o o' res calm e (λ o1. returns m o1 o' res calm)
        (kernel.call id (fd ∷ args) o.kernel).0 (kernel.call id (fd ∷ args) o.kernel).1 refl

  -- If no wake-up of the routine leaves the code for a call that would block, then a call that may wait
  -- returns a result in a state, for some fuel, exactly if there are turns of kernel and runtime that end with
  -- that result in that state.
  pub classic_syscall_iff :
      (o o' : Os K) (res : Int32)
      → Calm
      → ((fuel : ℕ) × (classic_syscall kernel suspend r fuel id timeout fd args o ≡ some (res, o')))
        ↔ ((n : ℕ) × Served kernel suspend r id timeout fd args n o res o')
  classic_syscall_iff o o' res calm = (
    (λ (fuel, e). let (n, less, s) = returns fuel o o' res calm e in (n, s)),
    (λ (n, s). (
      suc n,
      classic_syscall-Served kernel suspend r id timeout fd args n (suc n) o o' res s (omega arith),
    )),
  )
