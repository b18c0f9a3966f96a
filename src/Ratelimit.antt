-- ===== src/Ratelimit.antt =====
-- pkg/ratelimit/limiter.go: the token bucket. The numbers of float64 are a parameter with its
-- operations, which round as they do. A time and a duration are numbers of nanoseconds, 0 the zero
-- time; an elapsed time that is not positive is not counted, whatever it is.
pub mod Rounding
pub mod Bounds
use rclaude.Prelude.{
  ℕ, ◌-◌, Bool, true, false, not, ◌&&◌, ◌||◌, List, [], ◌∷◌, leb, ◌==◌, nat_eq, if◌then◌else◌,
}
use rclaude.Prelude.Int.{ℤ, pos, leb_ℤ, ltb_ℤ}

-- float64: float64(n), Duration.Seconds(), the operations, math.Ceil and time.Duration(x)
pub record Float64 (F : Type 0) : Type 0 where
  pub of_int : ℤ → F
  pub seconds : ℕ → F
  pub add : F → F → F
  pub sub : F → F → F
  pub mul : F → F → F
  pub div : F → F → F
  pub lt : F → F → Bool
  pub le : F → F → Bool
  pub ceil : F → F
  pub to_duration : F → ℕ

pub record Limiter (F : Type 0) : Type 0 where
  pub rate : ℤ
  pub burst : F
  pub tokens : F
  pub last : ℕ

-- Enabled, on a limiter that is not nil
unfoldable pub enabled : {F : Type 0} → Limiter F → Bool
enabled l = ltb_ℤ (pos 0) l.rate

-- A round of the loop in Wait under the mutex: what is left, and how long to wait.
pub record Round (F : Type 0) : Type 0 where
  pub limiter : Limiter F
  pub remaining : F
  pub wait_for : ℕ

-- What Wait ends in, given the times of its rounds: it succeeds, or it waits at the end of them.
pub data Waited (F : Type 0) : Type 0 where
  passed : Limiter F → Waited F
  waiting : Limiter F → F → Waited F

module _ {F : Type 0} (fl : Float64 F) where
  abbrev pub zero_units : F
  zero_units = fl.of_int (pos 0)

  abbrev one_unit : F
  one_unit = fl.of_int (pos 1)

  -- New, at the time `now`
  unfoldable pub new_limiter : ℕ → ℤ → ℤ → Limiter F
  new_limiter now rate burst =
      if leb_ℤ rate (pos 0)
      then record { rate = pos 0; burst = zero_units; tokens = zero_units; last = 0 }
      else (let effective = if leb_ℤ burst (pos 0) then rate else burst in
          record {
            rate = rate;
            burst = fl.of_int effective;
            tokens = fl.of_int effective;
            last = now;
          })

  -- minFloat64
  abbrev pub min_units : F → F → F
  min_units a b = if fl.lt a b then a else b

  -- refillLocked
  abbrev pub capped : F → F → F
  capped burst filled = if fl.lt burst filled then burst else filled

  unfoldable pub refill_locked : ℕ → Limiter F → Limiter F
  refill_locked now l =
      if not (enabled l)
      then l
      else if l.last == 0
      then record l { last = now }
      else if leb now l.last
      then l
      else (let added = fl.mul (fl.of_int l.rate) (fl.seconds (now - l.last)) in
          record l { tokens = capped l.burst (fl.add l.tokens added); last = now })

  -- durationForUnits
  unfoldable pub duration_for_units : F → ℤ → ℕ
  duration_for_units units rate =
      if fl.le units zero_units || leb_ℤ rate (pos 0)
      then 0
      else (let nanos =
            fl.ceil (fl.mul (fl.div units (fl.of_int rate)) (fl.of_int (pos 1000000000))) in
          fl.to_duration (if fl.lt nanos one_unit then one_unit else nanos))

  abbrev pub consume_tokens : Limiter F → F → Limiter F × F
  consume_tokens l remaining =
      if fl.lt zero_units l.tokens
      then (let consumed = min_units remaining l.tokens in
          (record l { tokens = fl.sub l.tokens consumed }, fl.sub remaining consumed))
      else (l, remaining)

  abbrev time_to_wait : Limiter F → F → ℕ
  time_to_wait l remaining =
      if fl.lt zero_units remaining
      then (let need = fl.sub (min_units remaining l.burst) l.tokens in
          duration_for_units (if fl.lt need one_unit then one_unit else need) l.rate)
      else 0

  unfoldable pub wait_round : ℕ → Limiter F → F → Round F
  wait_round now l remaining =
      let (next, left) = consume_tokens (refill_locked now l) remaining in
      record { limiter = next; remaining = left; wait_for = time_to_wait next left }

  -- The loop of Wait.
  unfoldable pub wait_loop : List ℕ → Limiter F → F → Waited F
  wait_loop [] l remaining = if fl.lt zero_units remaining then waiting l remaining else passed l
  wait_loop (now ∷ times) l remaining =
      let round = wait_round now l remaining in
      let rest = wait_loop times round.limiter round.remaining in
      if not (fl.lt zero_units remaining)
      then passed l
      else if fl.le round.remaining zero_units
      then passed round.limiter
      else rest

  -- Wait for n units
  unfoldable pub wait : List ℕ → ℤ → Limiter F → Waited F
  wait times n l =
      if not (enabled l) || leb_ℤ n (pos 0) then passed l else wait_loop times l (fl.of_int n)
