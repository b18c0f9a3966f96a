-- ===== src/Startup/Cycles.antt =====
-- buildDependencies and ensureAcyclic of pkg/startup/coordinator.go: the checks of the edges.
use rclaude.Prelude.{
  ℕ, zero, suc, ◌+◌, Option, none, some, List, [], ◌∷◌, Text, length, ◌==◌, text_eq, if◌then◌else◌,
  Result, ok, err,
}
use rclaude.Prelude.Assoc
use rclaude.Prelude.Assoc.{Assoc}
use rclaude.Startup.{
  Names, Deps, Spec, StartupError, self_dependency, unknown_dependency, dependency_cycle,
}

pub data Color : Type 0 where
  white gray black : Color

abbrev pub Colors : Type 0
Colors = Assoc Text Color

abbrev pub or_white : Option Color → Color
or_white none = white
or_white (some c) = c

-- color[node]
unfoldable pub color_of : Text → Colors → Color
color_of node colors = or_white (Assoc.lookup node colors)

abbrev pub names_of : Option Names → List Text
names_of none = []
names_of (some []) = []
names_of (some ((dep, _) ∷ set)) = dep ∷ names_of (some set)

-- The dependencies over which `range deps[node]` goes.
unfoldable pub deps_of : Deps → Text → List Text
deps_of deps node = names_of (Assoc.lookup node deps)

-- What a search ends in: the colors, the edge that closes a cycle, or the fuel ran out.
pub data Search : Type 0 where
  done : Colors → Search
  cycle : Text → Text → Search
  out_of_fuel : Search

abbrev pub then_search : Search → (Colors → Search) → Search
then_search (done colors) next = next colors
then_search (cycle node dep) next = cycle node dep
then_search out_of_fuel next = out_of_fuel

-- The loop of visitForCycle over the dependencies.
unfoldable pub visit_each : (Text → Colors → Search) → Text → List Text → Colors → Search
visit_each visit node [] colors = done colors
visit_each visit node (dep ∷ rest) colors = elim (color_of dep colors) [
  | gray ↦ cycle node dep
  | white ↦ then_search (visit dep colors) (visit_each visit node rest)
  | black ↦ visit_each visit node rest colors
]

-- visitForCycle
unfoldable pub visit_for_cycle : ℕ → Deps → Text → Colors → Search
visit_for_cycle zero deps node colors = out_of_fuel
visit_for_cycle (suc fuel) deps node colors =
    then_search
      (visit_each (visit_for_cycle fuel deps) node (deps_of deps node)
        (Assoc.insert node gray colors))
      (λ next. done (Assoc.insert node black next))

-- The loop of ensureAcyclic over the specs, by their names.
unfoldable pub ensure_each : ℕ → Deps → List Text → Colors → Search
ensure_each fuel deps [] colors = done colors
ensure_each fuel deps (name ∷ names) colors = elim (color_of name colors) [
  | white ↦ then_search (visit_for_cycle fuel deps name colors) (ensure_each fuel deps names)
  | _ ↦ ensure_each fuel deps names colors
]

abbrev pub spec_names : List Spec → List Text
spec_names [] = []
spec_names (spec ∷ specs) = spec.name ∷ spec_names specs

-- ensureAcyclic: as many rounds as there are specs, of which each colors one
unfoldable pub ensure_acyclic : List Spec → Deps → Search
ensure_acyclic specs deps = ensure_each (length specs + 1) deps (spec_names specs) []

-- The inner loop of buildDependencies.
unfoldable pub collect_deps :
    Assoc Text (Unit {0}) → Text → List Text → Names → Result StartupError Names
collect_deps known name [] set = ok set
collect_deps known name (dep ∷ rest) set =
    let next = collect_deps known name rest (Assoc.insert dep tt set) in
    if dep == name
    then err (self_dependency name)
    else elim (Assoc.lookup dep known) [ none ↦ err (unknown_dependency name dep) | some _ ↦ next ]

abbrev keep_deps :
    (Names → Result StartupError Deps) → Result StartupError Names → Result StartupError Deps
keep_deps next (err e) = err e
keep_deps next (ok set) = next set

unfoldable pub collect_each : Assoc Text (Unit {0}) → List Spec → Deps → Result StartupError Deps
collect_each known [] deps = ok deps
collect_each known (spec ∷ specs) deps =
    keep_deps (λ set. collect_each known specs (Assoc.insert spec.name set deps))
      (collect_deps known spec.name spec.depends_on [])

abbrev pub of_search : Deps → Search → Option (Result StartupError Deps)
of_search deps (done _) = some (ok deps)
of_search deps (cycle node dep) = some (err (dependency_cycle node dep))
of_search deps out_of_fuel = none

abbrev pub check_deps : List Spec → Result StartupError Deps → Option (Result StartupError Deps)
check_deps specs (err e) = some (err e)
check_deps specs (ok deps) = of_search deps (ensure_acyclic specs deps)

-- buildDependencies; `none` would be a search that does not end
unfoldable pub build_dependencies :
    List Spec → Assoc Text (Unit {0}) → Option (Result StartupError Deps)
build_dependencies specs known = check_deps specs (collect_each known specs [])
