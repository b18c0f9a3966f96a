-- ===== src/Prelude/Strings.antt =====
-- Go strings as the lists of their code points (they are valid UTF-8), and the functions of package strings that the code calls.
use Prim.Native.Char.{code}
use Prim.Native.Nat.{ℕ}
use Prim.Native.String.{String}
use mathlib.Core.Path.{◌≡◌, refl}
use mathlib.Core.Logic.{◌↔◌}
use mathlib.Core.Bool.{Bool, true, false, ◌&&◌, ◌||◌}
use mathlib.Core.List.{List, [], ◌∷◌, reverse}
use native.Mathlib.Omega.{arith}
use rclaude.Prelude.Tests.{◌==◌, Eq, nat_eq, leb, if◌then◌else◌}

abbrev pub Text : Type 0
Text = List ℕ

-- The code points of a literal.
abbrev pub codes : String → Text
codes String.[] = []
codes (String.◌∷◌ c s) = code c ∷ codes s

unfoldable pub text_beq : Text → Text → Bool
text_beq [] [] = true
text_beq (a ∷ s) (b ∷ t) = (a == b) && text_beq s t
text_beq _ _ = false

pub text_beq_iff : (s t : Text) → (text_beq s t ≡ true) ↔ (s ≡ t)
unfolding text_beq
text_beq_iff [] [] = (λ _. refl, λ _. refl)
text_beq_iff (a ∷ s) (b ∷ t) = ground (arith, text_beq_iff s t)
text_beq_iff _ _ = ground arith

instance abbrev pub text_eq : Eq Text
text_eq = record { same = text_beq; same_iff = text_beq_iff }

-- strings.HasPrefix(s, prefix)
unfoldable pub starts_with : Text → Text → Bool
starts_with s [] = true
starts_with [] (b ∷ t) = false
starts_with (a ∷ s) (b ∷ t) = (a == b) && starts_with s t

-- strings.Contains(s, part)
unfoldable pub contains_text : Text → Text → Bool
unfolding starts_with
contains_text [] part = starts_with [] part
contains_text (a ∷ s) part = starts_with (a ∷ s) part || contains_text s part

-- unicode.IsSpace
unfoldable pub is_space : ℕ → Bool
is_space c =
    (leb 0x09 c && leb c 0x0d)
    || c == 0x20
    || c == 0x85
    || c == 0xa0
    || c == 0x1680
    || (leb 0x2000 c && leb c 0x200a)
    || c == 0x2028
    || c == 0x2029
    || c == 0x202f
    || c == 0x205f
    || c == 0x3000

unfoldable pub trim_left : Text → Text
trim_left [] = []
trim_left (c ∷ s) = let rest = trim_left s in if is_space c then rest else c ∷ s

-- strings.TrimSpace
unfoldable pub trim_space : Text → Text
trim_space s = reverse (trim_left (reverse (trim_left s)))

-- strings.ReplaceAll(s, old, new) of one code point by another
unfoldable pub replace_all : ℕ → ℕ → Text → Text
replace_all old new [] = []
replace_all old new (c ∷ s) = (if c == old then new else c) ∷ replace_all old new s

abbrev pub is_one_of : ℕ → List ℕ → Bool
is_one_of c [] = false
is_one_of c (d ∷ chars) = c == d || is_one_of c chars

-- strings.ContainsAny(s, chars)
unfoldable pub contains_any : List ℕ → Text → Bool
contains_any chars [] = false
contains_any chars (c ∷ s) = is_one_of c chars || contains_any chars s
