-- ===== src/Sync/Channel/Contract.antt =====
-- The contract of a channel that one routine uses: a bounded queue that can be closed.
use boson.Prelude.{
  ℕ, ltb, leb, Int32, int, Bool, true, false, List, [], ◌∷◌, ◌++◌, Option, none, some, ◌≡◌, refl,
  length, if◌then◌else◌, ◌>>=◌,
}
use boson.Sync.Channel.{Channel, ChannelResultValue, ok, timedout, closed, write, read, close}

pub record Queue (A : Type 0) : Type 0 where
  pub items : List A
  pub is_closed : Bool

pub data Call (A : Type 0) : Type 0 where
  writes : A → (timeout : Int32) → Call A
  reads : (timeout : Int32) → Call A
  closes : Call A

-- A reply is none where the call does not return.
abbrev pub Reply : Type 0 → Type 0
Reply A = Option (ChannelResultValue × Option A)

-- A call that cannot go on ends when its timeout is over, if it has one.
abbrev pub gives_up : {A : Type 0} → Int32 → Reply A
gives_up timeout = if leb (int 0) timeout then some (timedout, none) else none

module _ {A : Type 0} (size : ℕ) where
  -- A write fails on a closed queue; on a full one it gives up or waits for ever.
  abbrev pub put_item : Queue A → A → Int32 → Reply A × Queue A
  put_item q a timeout =
      if q.is_closed
      then (some (closed, none), q)
      else if ltb (length q.items) size
      then (some (ok, none), record q { items = q.items ++ a ∷ [] })
      else (gives_up timeout, q)

-- A read takes the oldest item, also of a closed queue; it tells a closed queue from an empty one.
abbrev pub take_from : {A : Type 0} → Int32 → List A → Bool → Reply A × Queue A
take_from timeout [] true = (some (closed, none), record { items = []; is_closed = true })
take_from timeout [] false = (gives_up timeout, record { items = []; is_closed = false })
take_from timeout (x ∷ xs) b = (some (ok, some x), record { items = xs; is_closed = b })

module _ {A : Type 0} where
  unfoldable pub spec_step : ℕ → Queue A → Call A → Reply A × Queue A
  spec_step size q (writes a timeout) = put_item size q a timeout
  spec_step size q (reads timeout) = take_from timeout q.items q.is_closed
  spec_step size q closes = (some (ok, none), record q { is_closed = true })

  -- No call follows one that does not return.
  unfoldable pub followed_by : Reply A → List (Reply A) → List (Reply A)
  followed_by none rest = none ∷ []
  followed_by (some reply) rest = some reply ∷ rest

  -- The replies up to the first call that does not return.
  unfoldable pub spec_run : ℕ → Queue A → List (Call A) → List (Reply A)
  spec_run size q [] = []
  spec_run size q (c ∷ cs) = let (r, q') = spec_step size q c in followed_by r (spec_run size q' cs)

  abbrev with_value : Option ChannelResultValue → Option A → Reply A
  with_value none v = none
  with_value (some r) v = some (r, v)

  -- The code, driven by the same calls.
  unfoldable pub step : Channel A → Call A → Option (Reply A × Channel A)
  step c (writes a timeout) = do (r, d) ← write c a timeout; some (with_value r none, d)
  step c (reads timeout) = do (r, v, d) ← read c timeout; some (with_value r v, d)
  step c closes = some (some (ok, none), close c)

  -- The replies of a run: the later ones only where this call returns.
  unfoldable pub and_then : Reply A → Option (List (Reply A)) → Option (List (Reply A))
  and_then none rest = some (none ∷ [])
  and_then (some reply) rest = do rs ← rest; some (some reply ∷ rs)

  pub and_then-some :
      (r : Reply A) (rs : List (Reply A)) → and_then r (some rs) ≡ some (followed_by r rs)
  unfolding and_then followed_by
  and_then-some none rs = refl
  and_then-some (some reply) rs = refl

  unfoldable pub run : Channel A → List (Call A) → Option (List (Reply A))
  run c [] = some []
  run c (x ∷ xs) = do (r, d) ← step c x; and_then r (run d xs)
