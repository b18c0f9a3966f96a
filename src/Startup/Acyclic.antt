-- ===== src/Startup/Acyclic.antt =====
-- ensureAcyclic decides whether the dependencies have a cycle, and always ends.
use rclaude.Prelude.{
  ℕ, ◌+◌, ◌≤◌, ◌<◌, ◌≡◌, ◌≢◌, refl, inl, inr, true, List, [], ◌∷◌, Text, length, text_eq, nat_eq,
  arith, All,
}
use rclaude.Prelude.Assoc
use rclaude.Sorting.{member}
use rclaude.Startup.{Deps, Spec}
use rclaude.Startup.Cycles.{
  Color, white, gray, black, Colors, color_of, Search, done, cycle, out_of_fuel, then_search,
  visit_for_cycle, ensure_each, ensure_acyclic, spec_names,
}
use rclaude.Startup.Colors.{Color-cases, is_white, whites, Grows-refl, whites_le}
use rclaude.Startup.Edges.{DependsOn, Needs, Ends, IsFinished, AllBlack, Found, Found-cons}
use rclaude.Startup.Visits.{members, visit-Found}

module _ (deps : Deps) (known : List Text)
    (closed : (dep node : Text) → DependsOn deps dep node → member dep known ≡ true) where
  ensure-Found :
      (fuel : ℕ) (names : List Text) (colors : Colors)
      → All (λ n. member n known ≡ true) names
      → ((n : Text) → color_of n colors ≢ gray)
      → whites known colors < fuel
      → IsFinished deps colors
      → Found deps names colors (ensure_each fuel deps names colors)
  unfolding ensure_each
  ensure-Found fuel [] colors names_known no_gray enough finished =
      (finished, tt, Grows-refl colors)
  ensure-Found fuel (name ∷ names) colors (m, ms) no_gray enough finished =
      elim (Color-cases (color_of name colors)) [
        | inl fresh ↦
            rw (fresh, ensure_each)
              (onto (λ later. ensure-Found fuel names later ms)
                (visit_for_cycle fuel deps name colors)
                (visit-Found deps known closed fuel name colors
                  (m, fresh, enough, (λ n h. absurd (no_gray n h)), finished)))
        | inr (inl open_) ↦ absurd (no_gray name open_)
        | inr (inr old) ↦
            rw (old, ensure_each)
              (Found-cons deps name names colors colors old (Grows-refl colors)
                (ensure_each fuel deps names colors)
                (ensure-Found fuel names colors ms no_gray enough finished))
      ]
    where
      onto :
          ((later : Colors)
            → ((n : Text) → color_of n later ≢ gray)
            → whites known later < fuel
            → IsFinished deps later
            → Found deps names later (ensure_each fuel deps names later))
          → (s : Search) → Found deps (name ∷ []) colors s
          → Found deps (name ∷ names) colors (then_search s (ensure_each fuel deps names))
      onto again (done after) (f, (old, _), g) =
          Found-cons deps name names colors after old g (ensure_each fuel deps names after)
            (again after (λ n h. no_gray n (g.gray_old n h)) (omega (arith, whites_le g known)) f)
      onto again (cycle a b) h = h
      onto again out_of_fuel h = h

whites_le_length : (colors : Colors) (names : List Text) → whites names colors ≤ length names
whites_le_length colors [] = omega arith
whites_le_length colors (n ∷ names) =
    omega (arith, whites_le_length colors names, small (color_of n colors))
  where
    small : (c : Color) → is_white c ≤ 1
    small white = omega arith
    small gray = omega arith
    small black = omega arith

spec_names-length : (specs : List Spec) → length (spec_names specs) ≡ length specs
spec_names-length [] = refl
spec_names-length (spec ∷ specs) = omega (arith, spec_names-length specs)

-- What the answer of ensureAcyclic says of the edges.
abbrev pub Decides : List Spec → Deps → Search → Type 0
Decides specs deps (done _) = All (Ends deps) (spec_names specs)
Decides specs deps (cycle _ _) = (n : Text) × Needs deps n n
Decides specs deps out_of_fuel = ⊥

-- When every dependency is the name of a spec, the search of ensureAcyclic ends within its fuel; if
-- it finds no cycle, the dependencies of every spec, and theirs, come to an end, and if it finds
-- one, there is a component that waits for itself.
pub ensure_acyclic-Decides :
    (specs : List Spec) (deps : Deps)
    → ((dep node : Text) → DependsOn deps dep node → member dep (spec_names specs) ≡ true)
    → Decides specs deps (ensure_acyclic specs deps)
unfolding ensure_acyclic
ensure_acyclic-Decides specs deps closed =
    decided (ensure_each (length specs + 1) deps (spec_names specs) []) (
      ensure-Found deps (spec_names specs) closed (length specs + 1) (spec_names specs) []
        (members deps (spec_names specs) closed (spec_names specs)) (λ n h. cc (empty n))
        (omega (arith, whites_le_length [] (spec_names specs), spec_names-length specs))
        (λ n h. cc (empty n)))
  where
    empty : (n : Text) → color_of n [] ≡ white
    empty n = unfold color_of Assoc.lookup in refl

    finished :
        (names : List Text) (after : Colors)
        → IsFinished deps after
        → AllBlack deps after names
        → All (Ends deps) names
    finished [] after f h = tt
    finished (n ∷ names) after f (h, hs) = (f n h, finished names after f hs)

    decided : (s : Search) → Found deps (spec_names specs) [] s → Decides specs deps s
    decided (done after) (f, all, g) = finished (spec_names specs) after f all
    decided (cycle a b) h = h
    decided out_of_fuel h = h
