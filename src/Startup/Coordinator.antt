-- ===== src/Startup/Coordinator.antt =====
-- New of pkg/startup/coordinator.go, and the state that it makes.
pub mod Peers
pub mod Protocol
use rclaude.Prelude.{
  ℕ, zero, suc, ◌+◌, Bool, true, false, not, ◌&&◌, ◌||◌, Option, none, some, List, [], ◌∷◌, ◌++◌,
  Text, length, ltb, ◌==◌, text_eq, nat_eq, if◌then◌else◌, Result, ok, err,
}
use rclaude.Prelude.Int.{ℤ, pos, pos_part, ltb_ℤ}
use rclaude.Prelude.Assoc
use rclaude.Prelude.Assoc.{Assoc}
use rclaude.Startup.{
  Names, Deps, StartupError, nil_bus, no_specs, duplicate_component, Spec, Failure, Phase, pending,
  started, waiting_retry, gave_up, ComponentState,
}
use rclaude.Startup.Cycles.{build_dependencies}

-- failBufferSize and retryBufferSize
abbrev pub fail_buffer_size : ℕ
fail_buffer_size = 16

abbrev pub retry_buffer_size : ℕ
retry_buffer_size = 8

-- Event, by its kind
pub data Event : Type 0 where
  started_event : (component : Text) (attempt : ℕ) → Event
  gave_up_event : (component : Text) (attempt error : ℕ) → Event
  aborted_event : (component : Text) → Event
  exited_event : (component : Text) (attempt error : ℕ) → Event

-- The Coordinator: the channels are the lists of what they hold, `released` is the set of
-- components whose channel of startedChs is closed, and `overflow` is what overflowCh holds.
pub record Coordinator : Type 0 where
  pub specs : List Spec
  pub max_attempts : ℕ
  pub states : Assoc Text ComponentState
  pub deps : Deps
  pub released : Names
  pub failures : List Failure
  pub retries : Assoc Text (List ℕ)
  pub events : List Event
  pub overflow : Option Text
  pub aborted : Bool
  pub cancelled : Bool

abbrev pub no_failure : Failure
no_failure = record { component = []; attempt = 0; error = 0 }

-- The loop of New over the specs.
unfoldable pub collect_states :
    List Spec → Assoc Text ComponentState → Result StartupError (Assoc Text ComponentState)
collect_states [] states = ok states
collect_states (spec ∷ specs) states =
    let next =
      collect_states specs
        (Assoc.insert spec.name (record { phase = pending; last_failure = no_failure }) states) in
    elim (Assoc.lookup spec.name states) [
      | some _ ↦ err (duplicate_component spec.name)
      | none ↦ next
    ]

abbrev pub empty_queues : List Spec → Assoc Text (List ℕ)
empty_queues [] = []
empty_queues (spec ∷ specs) = Assoc.insert spec.name [] (empty_queues specs)

abbrev pub known_names : Assoc Text ComponentState → Names
known_names [] = []
known_names ((name, _) ∷ states) = (name, tt) ∷ known_names states

abbrev new_with_deps :
    ℤ
    → List Spec
    → Assoc Text ComponentState
    → Option (Result StartupError Deps)
    → Option (Result StartupError Coordinator)
new_with_deps max_retries specs states none = none
new_with_deps max_retries specs states (some (err e)) = some (err e)
new_with_deps max_retries specs states (some (ok deps)) = some (
    ok (record {
      specs = specs;
      max_attempts = (if ltb_ℤ max_retries (pos 0) then 0 else pos_part max_retries) + 1;
      states = states;
      deps = deps;
      released = [];
      failures = [];
      retries = empty_queues specs;
      events = [];
      overflow = none;
      aborted = false;
      cancelled = false;
    }))

abbrev new_with_states :
    ℤ
    → List Spec
    → Result StartupError (Assoc Text ComponentState)
    → Option (Result StartupError Coordinator)
new_with_states max_retries specs (err e) = some (err e)
new_with_states max_retries specs (ok states) =
    new_with_deps max_retries specs states (build_dependencies specs (known_names states))

-- New
unfoldable pub new_coordinator : Bool → ℤ → List Spec → Option (Result StartupError Coordinator)
new_coordinator has_bus max_retries specs =
    if not has_bus
    then some (err nil_bus)
    else if ltb (length specs) 2
    then some (err no_specs)
    else new_with_states max_retries specs (collect_states specs [])
