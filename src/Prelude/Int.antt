-- ===== src/Prelude/Int.antt =====
-- Go's int64 as signed integers over the native numbers, with the wrap-around written out.
use Prim.Native.Nat.{ℕ, suc, ◌+◌, ◌-◌, ◌%◌, ◌^◌, ◌≤◌, ◌<◌}
use mathlib.Core.Path.{◌≡◌, refl}
use mathlib.Core.Logic.{◌↔◌}
use mathlib.Core.Bool.{Bool, true, false}
use native.Mathlib.Omega.{arith}
use rclaude.Prelude.Tests.{ltb, leb, nat_beq, Eq, if◌then◌else◌}

-- `negsuc n` is -(n + 1).
pub data ℤ : Type 0 where
  pos : ℕ → ℤ
  negsuc : ℕ → ℤ

abbrev pub pos_part : ℤ → ℕ
pos_part (pos n) = n
pos_part (negsuc n) = 0

abbrev pub neg_part : ℤ → ℕ
neg_part (pos n) = 0
neg_part (negsuc n) = suc n

abbrev pub sub_ℕ : ℕ → ℕ → ℤ
sub_ℕ a b = if leb b a then pos (a - b) else negsuc (b - a - 1)

-- The 64-bit pattern of an integer, and the integer that a pattern stands for.
abbrev pub bits64 : ℤ → ℕ
bits64 (pos n) = n % 2 ^ 64
bits64 (negsuc n) = 2 ^ 64 - 1 - n % 2 ^ 64

abbrev pub signed64 : ℕ → ℤ
signed64 w = if ltb w (2 ^ 63) then pos w else negsuc (2 ^ 64 - 1 - w)

-- int64 a + b and a - b
unfoldable pub add64 : ℤ → ℤ → ℤ
add64 a b = signed64 (bits64 (sub_ℕ (pos_part a + pos_part b) (neg_part a + neg_part b)))

unfoldable pub sub64 : ℤ → ℤ → ℤ
sub64 a b = signed64 (bits64 (sub_ℕ (pos_part a + neg_part b) (neg_part a + pos_part b)))

-- a < b and a <= b
abbrev pub ltb_ℤ : ℤ → ℤ → Bool
ltb_ℤ a b = ltb (pos_part a + neg_part b) (pos_part b + neg_part a)

abbrev pub leb_ℤ : ℤ → ℤ → Bool
leb_ℤ a b = leb (pos_part a + neg_part b) (pos_part b + neg_part a)

pub add64_pos : (a b : ℕ) → a + b < 2 ^ 63 → add64 (pos a) (pos b) ≡ pos (a + b)
unfolding add64
add64_pos a b h = ground arith

pub sub64_pos : (a b : ℕ) → b ≤ a → a < 2 ^ 63 → sub64 (pos a) (pos b) ≡ pos (a - b)
unfolding sub64
sub64_pos a b h k = ground arith

-- The sum of two positive numbers wraps once it passes the largest int64.
add64_wraps : add64 (pos (2 ^ 63 - 1)) (pos 1) ≡ negsuc (2 ^ 63 - 1)
unfolding add64
add64_wraps = refl

unfoldable pub int_beq : ℤ → ℤ → Bool
int_beq (pos a) (pos b) = nat_beq a b
int_beq (negsuc a) (negsuc b) = nat_beq a b
int_beq _ _ = false

pub int_beq_iff : (a b : ℤ) → (int_beq a b ≡ true) ↔ (a ≡ b)
unfolding int_beq
int_beq_iff (pos a) (pos b) = ground arith
int_beq_iff (negsuc a) (negsuc b) = ground arith
int_beq_iff _ _ = ground arith

instance abbrev pub int_eq : Eq ℤ
int_eq = record { same = int_beq; same_iff = int_beq_iff }
