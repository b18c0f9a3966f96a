-- ===== src/Startup/Colors.antt =====
-- The colors of the depth-first search, and how many components are still white.
use rclaude.Prelude.{
  ℕ, ◌+◌, ◌≤◌, ◌<◌, ◌≡◌, refl, ◌⊎◌, inl, inr, true, List, [], ◌∷◌, Text, ◌==◌, text_eq,
  text_beq_iff, nat_eq, arith, ap, Bool-cases, if◌then◌else◌,
}
use rclaude.Prelude.Assoc
use rclaude.Sorting.{member}
use rclaude.Startup.Cycles.{Color, white, gray, black, Colors, color_of}

pub color_of-insert :
    (key other : Text) (c : Color) (colors : Colors)
    → color_of other (Assoc.insert key c colors)
      ≡ (if key == other then c else color_of other colors)
unfolding color_of
color_of-insert key other c colors = ground (arith, Assoc.lookup-insert key other c colors)

pub Color-cases : (c : Color) → (c ≡ white) ⊎ ((c ≡ gray) ⊎ (c ≡ black))
Color-cases white = inl refl
Color-cases gray = inr (inl refl)
Color-cases black = inr (inr refl)

abbrev pub is_white : Color → ℕ
is_white white = 1
is_white _ = 0

-- How many of the names are white.
abbrev pub whites : List Text → Colors → ℕ
whites [] colors = 0
whites (name ∷ names) colors = is_white (color_of name colors) + whites names colors

-- What a search may do to the colors.
pub record Grows (before after : Colors) : Type 0 where
  pub black_kept : (n : Text) → color_of n before ≡ black → color_of n after ≡ black
  pub gray_old : (n : Text) → color_of n after ≡ gray → color_of n before ≡ gray
  pub white_old : (n : Text) → color_of n after ≡ white → color_of n before ≡ white

pub Grows-refl : (c : Colors) → Grows c c
Grows-refl c = record { black_kept = λ n h. h; gray_old = λ n h. h; white_old = λ n h. h }

pub Grows-trans : {a b c : Colors} → Grows a b → Grows b c → Grows a c
Grows-trans g h = record {
  black_kept = λ n e. h.black_kept n (g.black_kept n e);
  gray_old = λ n e. g.gray_old n (h.gray_old n e);
  white_old = λ n e. g.white_old n (h.white_old n e);
}

is_white_le : (a b : Color) → (a ≡ white → b ≡ white) → is_white a ≤ is_white b
is_white_le white b h = rw (h refl) (omega arith)
is_white_le gray b h = omega arith
is_white_le black b h = omega arith

pub whites_le : {a b : Colors} → Grows a b → (names : List Text) → whites names b ≤ whites names a
whites_le g [] = omega arith
whites_le {a} {b} g (name ∷ names) =
    omega
      (arith, whites_le g names, is_white_le (color_of name b) (color_of name a) (g.white_old name))

-- Coloring a white name takes one away.
whites-insert :
    (node : Text) (c : Color) (colors : Colors) (names : List Text)
    → is_white c ≡ 0
    → whites names (Assoc.insert node c colors) ≤ whites names colors
whites-insert node c colors [] dark = omega arith
whites-insert node c colors (name ∷ names) dark =
    ground (arith, color_of-insert node name c colors, whites-insert node c colors names)

pub whites_less :
    (node : Text) (c : Color) (colors : Colors) (names : List Text)
    → is_white c ≡ 0
    → color_of node colors ≡ white
    → member node names ≡ true
    → whites names (Assoc.insert node c colors) < whites names colors
whites_less node c colors [] dark fresh h = cc
whites_less node c colors (name ∷ names) dark fresh h = elim (Bool-cases (name == node)) [
  | inl here ↦
      let e : name ≡ node = (text_beq_iff name node).0 here in
      let fresh' : color_of name colors ≡ white = rw e fresh in
      let shut : color_of name (Assoc.insert node c colors) ≡ c =
        rw (color_of-insert node name c colors, e, (text_beq_iff node node).1 refl) refl in
      omega (arith, whites-insert node c colors names dark, ap is_white fresh', ap is_white shut)
  | inr other ↦
      let ih = whites_less node c colors names dark fresh (rw other at h) in
      ground (arith, color_of-insert node name c colors, ih)
]
