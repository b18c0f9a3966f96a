-- ===== src/Startup/Edges.antt =====
-- The edges between components, and what a search of them leaves behind.
use mathlib.Core.WellFounded.{Acc}
use rclaude.Prelude.{
  ◌≡◌, inl, inr, true, List, [], ◌∷◌, Text, ◌==◌, text_eq, text_beq_iff, nat_eq, Bool-cases, All,
}
use rclaude.Sorting.{member}
use rclaude.Startup.{Deps}
use rclaude.Startup.Cycles.{black, Colors, color_of, deps_of, Search, done, cycle, out_of_fuel}
use rclaude.Startup.Colors.{Grows, Grows-trans}

module _ (deps : Deps) where
  -- The second component depends on the first.
  abbrev pub DependsOn : Text → Text → Type 0
  DependsOn dep node = member dep (deps_of deps node) ≡ true

  -- The first component waits, over some steps, for the second.
  pub data Needs : Text → Text → Type 0 where
    direct : {node dep : Text} → DependsOn dep node → Needs node dep
    through : {node dep far : Text} → DependsOn dep node → Needs dep far → Needs node far

  pub Needs-more : {node dep far : Text} → Needs node dep → DependsOn far dep → Needs node far
  Needs-more (direct h) k = through h (direct k)
  Needs-more (through h rest) k = through h (Needs-more rest k)

  -- A component whose dependencies, and theirs, come to an end.
  abbrev pub Ends : Text → Type 0
  Ends = Acc DependsOn

  abbrev pub IsFinished : Colors → Type 0
  IsFinished colors = (n : Text) → color_of n colors ≡ black → Ends n

  abbrev pub AllBlack : Colors → List Text → Type 0
  AllBlack colors = All (λ n. color_of n colors ≡ black)

  pub AllBlack-Grows :
      {a b : Colors} → Grows a b → (names : List Text) → AllBlack a names → AllBlack b names
  AllBlack-Grows g [] h = tt
  AllBlack-Grows g (n ∷ names) (h, hs) = (g.black_kept n h, AllBlack-Grows g names hs)

  pub black_of_member :
      (colors : Colors) (n : Text) (names : List Text)
      → AllBlack colors names
      → member n names ≡ true
      → color_of n colors ≡ black
  black_of_member colors n [] h m = cc
  black_of_member colors n (name ∷ names) (h, hs) m = elim (Bool-cases (name == n)) [
    | inl here ↦ rw (← (text_beq_iff name n).0 here) h
    | inr other ↦ black_of_member colors n names hs (rw other at m)
  ]

  -- What a search of some names leaves behind.
  abbrev pub Found : List Text → Colors → Search → Type 0
  Found names before (done after) = IsFinished after × AllBlack after names × Grows before after
  Found names before (cycle node dep) = (n : Text) × Needs n n
  Found names before out_of_fuel = ⊥

  -- A name that is black already may stand before the others.
  pub Found-cons :
      (name : Text) (names : List Text) (before after : Colors)
      → color_of name after ≡ black
      → Grows before after
      → (s : Search) → Found names after s
      → Found (name ∷ names) before s
  Found-cons name names before after old g (done last) (f, all, h) =
      (f, (h.black_kept name old, all), Grows-trans g h)
  Found-cons name names before after old g (cycle a b) h = h
  Found-cons name names before after old g out_of_fuel h = h
