-- ===== src/Tests/Ratelimit.antt =====
-- A limiter of two units in a second, on whole numbers as the amounts.
use rclaude.Prelude.{ℕ, ◌+◌, ◌-◌, ◌*◌, ◌/◌, ◌≡◌, refl, ltb, leb, [], ◌∷◌, nat_eq}
use rclaude.Prelude.Int.{pos, pos_part}
use rclaude.Ratelimit.{
  Float64, Limiter, new_limiter, enabled, refill_locked, duration_for_units, wait_round, wait_loop,
  wait, passed,
}

abbrev second : ℕ
second = 1000000000

-- Numbers that round down to a whole number, and up to 0.
abbrev whole : Float64 ℕ
whole = record {
  of_int = pos_part;
  seconds = λ n. n / second;
  add = ◌+◌;
  sub = ◌-◌;
  mul = ◌*◌;
  div = ◌/◌;
  lt = ltb;
  le = leb;
  ceil = λ a. a;
  to_duration = λ a. a;
}

abbrev full : Limiter ℕ
full = record { rate = pos 2; burst = 2; tokens = 2; last = 5 }

new_limiter_run : new_limiter whole 5 (pos 2) (pos 0) ≡ full
unfolding new_limiter
new_limiter_run = refl

-- Three units pass a limiter that holds two when a second has gone.
wait_run :
    wait whole (5 ∷ (5 + second) ∷ []) (pos 3) full
    ≡ passed (record { rate = pos 2; burst = 2; tokens = 1; last = 5 + second })
unfolding wait wait_loop wait_round refill_locked duration_for_units enabled
wait_run = refl
