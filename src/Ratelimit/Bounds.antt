-- ===== src/Ratelimit/Bounds.antt =====
-- What a bucket keeps whatever the rounding, and when a wait passes at once.
use rclaude.Prelude.{◌⊎◌, ◌≡◌, true, nat_eq}
use rclaude.Ratelimit.{Float64, Limiter, Waited, passed, waiting, zero_units}
use rclaude.Ratelimit.Rounding.{Rounds}

module _ {F : Type 0} (fl : Float64 F) (laws : Rounds fl) where
  abbrev pub AtMost : F → F → Type 0
  AtMost a b = fl.le a b ≡ true

  -- A bucket with no debt and no more than its burst.
  abbrev pub IsFilled : Limiter F → Type 0
  IsFilled l = (fl.le (zero_units fl) l.tokens ≡ true) × (fl.le l.tokens l.burst ≡ true)

  -- The same limiter, filled.
  abbrev pub Keeps : Limiter F → Limiter F → Type 0
  Keeps l next = (next.rate ≡ l.rate) × (next.burst ≡ l.burst) × IsFilled next

  -- The last part of what was asked is off the burst.
  abbrev pub Spent : F → F → F → Type 0
  Spent burst remaining tokens =
      (part : F) × (fl.lt (zero_units fl) part ≡ true)
      × AtMost part remaining
      × AtMost tokens (fl.sub burst part)

  -- A wait that asked for `remaining` and goes on has emptied the bucket.
  abbrev Drained : Limiter F → F → Waited F → Type 0
  Drained l remaining (passed next) = Keeps l next × Spent l.burst remaining next.tokens
  Drained l remaining (waiting next left) =
      Keeps l next
      × AtMost next.tokens (zero_units fl)
      × (fl.lt (zero_units fl) left ≡ true)
      × AtMost left remaining

  -- The whole amount is off the burst, or more was asked than there was.
  abbrev pub Paced : Limiter F → F → Waited F → Type 0
  Paced l remaining (passed next) =
      Keeps l next
      × (AtMost next.tokens (fl.sub l.burst remaining)
          ⊎ ((fl.lt l.tokens remaining ≡ true) × Spent l.burst remaining next.tokens))
  Paced l remaining (waiting next left) =
      Keeps l next
      × AtMost next.tokens (zero_units fl)
      × (fl.lt (zero_units fl) left ≡ true)
      × AtMost left remaining
      × (fl.lt l.tokens remaining ≡ true)
