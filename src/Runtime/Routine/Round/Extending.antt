-- ===== src/Runtime/Routine/Round/Extending.antt =====
-- Events added to a round and taken from it: what stays well formed, and how many are counted.
use boson.Prelude.{
  ℕ, zero, suc, ◌+◌, ◌≡◌, List, [], ◌∷◌, ◌++◌, Option, none, some, get_elem?, arith,
}
use boson.Runtime.State.{WaitedEvent, timer, io_read, io_write, sema_wait, Routine, World}
use boson.Runtime.Routine.{others}
use boson.Runtime.Routine.Round.{counted, EventOk, slot_of, Apart, RoundOk}

pub RoundOk-mono :
    (w w' : World) (t : ℕ) (es : List WaitedEvent)
    → ((e : WaitedEvent) → EventOk w t e → EventOk w' t e)
    → RoundOk w t es
    → RoundOk w' t es
RoundOk-mono w w' t [] keeps k = tt
RoundOk-mono w w' t (e ∷ es) keeps k = (keeps e k.0, k.1, RoundOk-mono w w' t es keeps k.2)

pub EventOk-routines :
    (w : World) (rs : ℕ → Routine) (t : ℕ) (e : WaitedEvent)
    → EventOk w t e
    → EventOk (record w { routines = rs }) t e
EventOk-routines w rs t (timer d) h = h
EventOk-routines w rs t (io_read fd) h = h
EventOk-routines w rs t (io_write fd) h = h
EventOk-routines w rs t (sema_wait s i l) h = h

Apart-append :
    (o : Option ℕ) (es : List WaitedEvent) (e : WaitedEvent)
    → slot_of e ≡ none
    → Apart o es
    → Apart o (es ++ e ∷ [])
Apart-append o [] e n a = ((λ l q q'. cc), tt)
Apart-append o (x ∷ es) e n a = (a.0, Apart-append o es e n a.1)

pub RoundOk-append :
    (w : World) (t : ℕ) (es : List WaitedEvent) (e : WaitedEvent)
    → slot_of e ≡ none
    → RoundOk w t es
    → EventOk w t e
    → RoundOk w t (es ++ e ∷ [])
RoundOk-append w t [] e n k h = (h, tt, tt)
RoundOk-append w t (x ∷ es) e n k h =
    (k.0, Apart-append (slot_of x) es e n k.1, RoundOk-append w t es e n k.2 h)

pub counted-append :
    (es : List WaitedEvent) (e : WaitedEvent)
    → counted (es ++ e ∷ []) ≡ counted es + counted (e ∷ [])
counted-append [] e = omega arith
counted-append (timer d ∷ es) e = counted-append es e
counted-append (io_read fd ∷ es) e = omega (arith, counted-append es e)
counted-append (io_write fd ∷ es) e = omega (arith, counted-append es e)
counted-append (sema_wait s i l ∷ es) e = omega (arith, counted-append es e)

Apart-others : (o : Option ℕ) (es : List WaitedEvent) (i : ℕ) → Apart o es → Apart o (others es i)
unfolding others
Apart-others o [] i a = tt
Apart-others o (e ∷ es) zero a = a.1
Apart-others o (e ∷ es) (suc i) a = (a.0, Apart-others o es i a.1)

pub RoundOk-others :
    (w : World) (t : ℕ) (es : List WaitedEvent) (i : ℕ) → RoundOk w t es → RoundOk w t (others es i)
unfolding others
RoundOk-others w t [] i k = tt
RoundOk-others w t (e ∷ es) zero k = k.2
RoundOk-others w t (e ∷ es) (suc i) k =
    (k.0, Apart-others (slot_of e) es i k.1, RoundOk-others w t es i k.2)

pub counted-others :
    (es : List WaitedEvent) (i : ℕ) (e : WaitedEvent)
    → get_elem? es i ≡ some e
    → counted (e ∷ []) + counted (others es i) ≡ counted es
unfolding others
counted-others [] i e h = cc
counted-others (timer d ∷ es) zero e h = ground arith
counted-others (io_read fd ∷ es) zero e h = ground arith
counted-others (io_write fd ∷ es) zero e h = ground arith
counted-others (sema_wait s j l ∷ es) zero e h = ground arith
counted-others (timer d ∷ es) (suc i) e h = counted-others es i e h
counted-others (io_read fd ∷ es) (suc i) e h = omega (arith, counted-others es i e h)
counted-others (io_write fd ∷ es) (suc i) e h = omega (arith, counted-others es i e h)
counted-others (sema_wait s j l ∷ es) (suc i) e h = omega (arith, counted-others es i e h)
