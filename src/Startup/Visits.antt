-- ===== src/Startup/Visits.antt =====
-- visitForCycle: what one visit leaves behind, and that its fuel is enough.
use mathlib.Core.WellFounded.{Acc}
use rclaude.Prelude.{
  ℕ, zero, suc, ◌<◌, ◌≡◌, refl, ◌⊎◌, inl, inr, true, List, [], ◌∷◌, Text, ◌==◌, text_eq,
  text_beq_iff, nat_eq, arith, sym, ◌∙◌, Bool-cases, All, if◌then◌else◌,
}
use rclaude.Prelude.Assoc
use rclaude.Sorting.{member}
use rclaude.Startup.{Deps}
use rclaude.Startup.Cycles.{
  Color, white, gray, black, Colors, color_of, deps_of, Search, done, cycle, out_of_fuel,
  then_search, visit_each, visit_for_cycle,
}
use rclaude.Startup.Colors.{
  color_of-insert, Color-cases, whites, Grows, Grows-refl, whites_le, whites_less,
}
use rclaude.Startup.Edges.{
  DependsOn, Needs, direct, Needs-more, IsFinished, AllBlack, black_of_member, Found, Found-cons,
}

module _ (deps : Deps) (known : List Text)
    (closed : (dep node : Text) → DependsOn deps dep node → member dep known ≡ true) where
  abbrev pub CanVisit : ℕ → Text → Colors → Type 0
  CanVisit fuel node colors =
      (member node known ≡ true)
      × (color_of node colors ≡ white)
      × (whites known colors < fuel)
      × ((n : Text) → color_of n colors ≡ gray → Needs deps n node)
      × IsFinished deps colors

  -- The nodes on the stack: the one that is visited, and those that wait for it.
  abbrev pub OnStack : Text → Colors → Type 0
  OnStack node colors = (n : Text) → color_of n colors ≡ gray → (n ≡ node) ⊎ Needs deps n node

  each-Found :
      (fuel : ℕ) (visit : Text → Colors → Search)
      → ((dep : Text) (colors : Colors)
          → CanVisit fuel dep colors
          → Found deps (dep ∷ []) colors (visit dep colors))
      → (node : Text) (rest : List Text) → All (λ dep. DependsOn deps dep node) rest
      → (colors : Colors) → OnStack node colors
      → whites known colors < fuel
      → IsFinished deps colors
      → Found deps rest colors (visit_each visit node rest colors)
  unfolding visit_each
  each-Found fuel visit found node [] edges colors stack enough finished =
      (finished, tt, Grows-refl colors)
  each-Found fuel visit found node (dep ∷ rest) (edge, edges) colors stack enough finished =
      elim (Color-cases (color_of dep colors)) [
        | inl fresh ↦
            rw (fresh, visit_each)
              (onto (each-Found fuel visit found node rest edges) (visit dep colors)
                (found dep colors (closed dep node edge, fresh, enough, waits, finished)))
        | inr (inl open_) ↦ rw (open_, visit_each) (closing (stack dep open_))
        | inr (inr old) ↦
            rw (old, visit_each)
              (Found-cons deps dep rest colors colors old (Grows-refl colors)
                (visit_each visit node rest colors)
                (each-Found fuel visit found node rest edges colors stack enough finished))
      ]
    where
      waits : (n : Text) → color_of n colors ≡ gray → Needs deps n dep
      waits n h = elim (stack n h) [
        | inl same ↦ rw same (direct edge)
        | inr needs ↦ Needs-more deps needs edge
      ]

      closing : (dep ≡ node) ⊎ Needs deps dep node → (n : Text) × Needs deps n n
      closing (inl same) = (dep, rw (← same) at (direct edge))
      closing (inr needs) = (dep, Needs-more deps needs edge)

      onto :
          ((later : Colors)
            → OnStack node later
            → whites known later < fuel
            → IsFinished deps later
            → Found deps rest later (visit_each visit node rest later))
          → (s : Search) → Found deps (dep ∷ []) colors s
          → Found deps (dep ∷ rest) colors (then_search s (visit_each visit node rest))
      onto again (done after) (f, (old, _), g) =
          Found-cons deps dep rest colors after old g (visit_each visit node rest after)
            (again after (λ n h. stack n (g.gray_old n h)) (omega (arith, whites_le g known)) f)
      onto again (cycle a b) h = h
      onto again out_of_fuel h = h

  pub members : (names : List Text) → All (λ n. member n names ≡ true) names
  members [] = tt
  members (n ∷ names) = (ground (arith, text_beq_iff n n), weaken n names names (members names))
    where
      weaken :
          (n : Text) (all names : List Text)
          → All (λ k. member k all ≡ true) names
          → All (λ k. member k (n ∷ all) ≡ true) names
      weaken n all [] h = tt
      weaken n all (k ∷ names) (h, hs) = (ground arith, weaken n all names hs)

  pub visit-Found :
      (fuel : ℕ) (node : Text) (colors : Colors)
      → CanVisit fuel node colors
      → Found deps (node ∷ []) colors (visit_for_cycle fuel deps node colors)
  unfolding visit_for_cycle
  visit-Found zero node colors (m, fresh, enough, stack, finished) = absurd (omega arith)
  visit-Found (suc fuel) node colors (m, fresh, enough, stack, finished) =
      onto (visit_each (visit_for_cycle fuel deps) node (deps_of deps node) opened) (
        each-Found fuel (visit_for_cycle fuel deps) (visit-Found fuel) node (deps_of deps node)
          (members (deps_of deps node)) opened on_stack
          (omega (arith, whites_less node gray colors known refl fresh m)) still)
    where
      opened : Colors
      opened = Assoc.insert node gray colors

      at :
          (n : Text) (c : Color) (later : Colors)
          → color_of n (Assoc.insert node c later) ≡ (if node == n then c else color_of n later)
      at n c later = color_of-insert node n c later

      on_stack : OnStack node opened
      on_stack n h = elim (Bool-cases (node == n)) [
        | inl same ↦ inl (sym ((text_beq_iff node n).0 same))
        | inr other ↦ inr (stack n (sym (rw other at (at n gray colors)) ∙ h))
      ]

      still : IsFinished deps opened
      still n h = elim (Bool-cases (node == n)) [
        | inl same ↦ absurd (cc (rw same at (at n gray colors), h))
        | inr other ↦ finished n (sym (rw other at (at n gray colors)) ∙ h)
      ]

      close :
          (after : Colors)
          → IsFinished deps after
          → AllBlack deps after (deps_of deps node)
          → Grows opened after
          → Found deps (node ∷ []) colors (done (Assoc.insert node black after))
      close after f all g = (
        λ n h. elim (Bool-cases (node == n)) [
          | inl same ↦ rw (← (text_beq_iff node n).0 same) (
              Acc.intro node
                (λ y hy. f y (black_of_member deps after y (deps_of deps node) all hy)))
          | inr other ↦ f n (sym (rw other at (at n black after)) ∙ h)
        ],
        (rw ((text_beq_iff node node).1 refl) at (at node black after), tt),
        record {
          black_kept = λ n h. elim (Bool-cases (node == n)) [
            | inl same ↦ rw same at (at n black after)
            | inr other ↦
                rw other at (at n black after)
                ∙ g.black_kept n ((rw other at (at n gray colors)) ∙ h)
          ];
          gray_old = λ n h. elim (Bool-cases (node == n)) [
            | inl same ↦ absurd (cc (rw same at (at n black after), h))
            | inr other ↦
                sym (rw other at (at n gray colors))
                ∙ g.gray_old n (sym (rw other at (at n black after)) ∙ h)
          ];
          white_old = λ n h. elim (Bool-cases (node == n)) [
            | inl same ↦ absurd (cc (rw same at (at n black after), h))
            | inr other ↦
                sym (rw other at (at n gray colors))
                ∙ g.white_old n (sym (rw other at (at n black after)) ∙ h)
          ];
        },
      )

      onto :
          (s : Search)
          → Found deps (deps_of deps node) opened s
          → Found deps
              (node ∷ [])
              colors
              (then_search s (λ next. done (Assoc.insert node black next)))
      onto (done after) (f, all, g) = close after f all g
      onto (cycle a b) h = h
      onto out_of_fuel h = h
