-- ===== src/Ratelimit/Rounding.antt =====
-- What the limiter relies on of the numbers of float64.
use rclaude.Prelude.{ℕ, ◌≡◌, true, false, not}
use rclaude.Prelude.Int.{pos}
use rclaude.Ratelimit.{Float64}

-- A total order, and results that round monotonically, so that they keep to the bounds that the
-- exact results have; a difference of numbers that differ does not round to 0. F stands for the
-- finite numbers: amounts and elapsed times of 64 bits give no others, since none of the
-- operations on them overflows.
pub record Rounds {F : Type 0} (fl : Float64 F) : Type 0 where
  pub le_refl : (a : F) → fl.le a a ≡ true
  pub le_trans : (a b c : F) → fl.le a b ≡ true → fl.le b c ≡ true → fl.le a c ≡ true
  pub lt_le : (a b : F) → fl.lt a b ≡ not (fl.le b a)
  pub le_total : (a b : F) → fl.le a b ≡ false → fl.le b a ≡ true
  pub of_int_nonneg : (n : ℕ) → fl.le (fl.of_int (pos 0)) (fl.of_int (pos n)) ≡ true
  pub seconds_nonneg : (n : ℕ) → fl.le (fl.of_int (pos 0)) (fl.seconds n) ≡ true
  pub mul_nonneg :
      (a b : F)
      → fl.le (fl.of_int (pos 0)) a ≡ true
      → fl.le (fl.of_int (pos 0)) b ≡ true
      → fl.le (fl.of_int (pos 0)) (fl.mul a b) ≡ true
  pub add_le : (a b : F) → fl.le (fl.of_int (pos 0)) b ≡ true → fl.le a (fl.add a b) ≡ true
  pub sub_le : (a b : F) → fl.le (fl.of_int (pos 0)) b ≡ true → fl.le (fl.sub a b) a ≡ true
  pub sub_nonneg : (a b : F) → fl.le b a ≡ true → fl.le (fl.of_int (pos 0)) (fl.sub a b) ≡ true
  pub sub_mono : (a b c : F) → fl.le a b ≡ true → fl.le (fl.sub a c) (fl.sub b c) ≡ true
  pub sub_le_zero : (a b : F) → fl.le (fl.sub a b) (fl.of_int (pos 0)) ≡ true → fl.le a b ≡ true
  pub sub_nonpos : (a b : F) → fl.le a b ≡ true → fl.le (fl.sub a b) (fl.of_int (pos 0)) ≡ true
