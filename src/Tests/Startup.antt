-- ===== src/Tests/Startup.antt =====
-- The daemon and the terminal that waits for it.
use rclaude.Prelude.{
  ◌≡◌, refl, inl, inr, true, false, none, some, List, [], ◌∷◌, Text, ◌==◌, text_eq, text_beq,
  nat_eq, arith, ok, Bool-cases,
}
use rclaude.Prelude.Assoc
use rclaude.Prelude.Assoc.{Assoc}
use rclaude.Sorting.{member}
use rclaude.Startup.{Deps, Spec, Failure, pending}
use rclaude.Startup.Cycles.{
  ensure_acyclic, ensure_each, visit_for_cycle, visit_each, deps_of, color_of, collect_each,
  collect_deps, build_dependencies, spec_names, cycle,
}
use rclaude.Startup.Edges.{DependsOn}
use rclaude.Startup.Acyclic.{Decides, ensure_acyclic-Decides}
use rclaude.Startup.Coordinator.{Coordinator}

abbrev daemon : Text
daemon = 1 ∷ []

abbrev pty : Text
pty = 2 ∷ []

abbrev two_specs : List Spec
two_specs =
    record { name = daemon; depends_on = [] } ∷ record { name = pty; depends_on = daemon ∷ [] } ∷ []

abbrev two_deps : Deps
two_deps = (daemon, []) ∷ (pty, (daemon, tt) ∷ []) ∷ []

build_dependencies_run :
    build_dependencies two_specs ((daemon, tt) ∷ (pty, tt) ∷ []) ≡ some (ok two_deps)
unfolding build_dependencies collect_each collect_deps ensure_acyclic ensure_each visit_for_cycle
    visit_each deps_of color_of Assoc.lookup Assoc.insert text_beq
build_dependencies_run = refl

abbrev loop_deps : Deps
loop_deps = (daemon, (pty, tt) ∷ []) ∷ (pty, (daemon, tt) ∷ []) ∷ []

ensure_acyclic_run : ensure_acyclic two_specs loop_deps ≡ cycle pty daemon
unfolding ensure_acyclic ensure_each visit_for_cycle visit_each deps_of color_of Assoc.lookup
    Assoc.insert text_beq
ensure_acyclic_run = refl

only_daemon :
    (dep node : Text) → DependsOn two_deps dep node → member dep (spec_names two_specs) ≡ true
unfolding deps_of Assoc.lookup
only_daemon dep node h = elim (Bool-cases (daemon == node)) [
  | inl same ↦ cc (rw same at h)
  | inr other ↦ elim (Bool-cases (pty == node)) [
    | inl same ↦ let k = rw (other, same) at h in ground (arith, k)
    | inr none_left ↦ cc (rw (other, none_left) at h)
  ]
]

ensure_acyclic-Decides_example : Decides two_specs two_deps (ensure_acyclic two_specs two_deps)
ensure_acyclic-Decides_example = ensure_acyclic-Decides two_specs two_deps only_daemon

abbrev failed : Failure
failed = record { component = daemon; attempt = 1; error = 7 }

abbrev starting : Coordinator
starting = record {
  specs = two_specs;
  max_attempts = 2;
  states =
      (daemon, record { phase = pending; last_failure = failed })
      ∷ (pty, record { phase = pending; last_failure = failed })
      ∷ [];
  deps = two_deps;
  released = [];
  failures = [];
  retries = (daemon, []) ∷ (pty, []) ∷ [];
  events = [];
  overflow = none;
  aborted = false;
  cancelled = false;
}
