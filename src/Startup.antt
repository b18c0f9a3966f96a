-- ===== src/Startup.antt =====
-- pkg/startup: the components of the program that start together, with retries that they drive for
-- each other over a bus. A component is its name; an error is a number.
pub mod Cycles
pub mod Coordinator
pub mod Driving
pub mod Colors
pub mod Edges
pub mod Visits
pub mod Acyclic
use rclaude.Prelude.{
  ℕ, ◌+◌, ◌≡◌, Bool, true, false, Option, none, some, List, [], ◌∷◌, Text, map, codes, ltb, ◌==◌,
  text_eq, if◌then◌else◌, Result, ok, err, ◌>>=◌,
}
use rclaude.Prelude.Assoc
use rclaude.Prelude.Assoc.{Assoc}

-- map[Component]struct{}
abbrev pub Names : Type 0
Names = Assoc Text (Unit {0})

abbrev pub Deps : Type 0
Deps = Assoc Text Names

pub data StartupError : Type 0 where
  nil_bus no_specs : StartupError
  duplicate_component : Text → StartupError
  self_dependency : Text → StartupError
  unknown_dependency dependency_cycle : Text → Text → StartupError

-- Spec, without the function that it runs
pub record Spec : Type 0 where
  pub name : Text
  pub depends_on : List Text

-- Failure
pub record Failure : Type 0 where
  pub component : Text
  pub attempt : ℕ
  pub error : ℕ

pub data Phase : Type 0 where
  pending started waiting_retry gave_up : Phase

-- componentState
pub record ComponentState : Type 0 where
  pub phase : Phase
  pub last_failure : Failure
