-- ===== src/Startup/Driving.antt =====
-- The failure protocol of pkg/startup/coordinator.go and runner.go. Each region under the mutex, with
-- the sends that follow it, is one step; a send to a full channel of events would block and is not
-- modelled, so that the list of events is what was sent.
use rclaude.Prelude.{
  ℕ, ◌+◌, Bool, true, false, not, ◌||◌, Option, none, some, List, [], ◌∷◌, ◌++◌, Text, length, ltb,
  ◌==◌, text_eq, nat_eq, if◌then◌else◌,
}
use rclaude.Prelude.Assoc
use rclaude.Prelude.Assoc.{Assoc}
use rclaude.Startup.{
  Names, Deps, Failure, Phase, pending, started, waiting_retry, gave_up, ComponentState,
}
use rclaude.Startup.Coordinator.{
  Coordinator, aborted_event, fail_buffer_size, gave_up_event, no_failure, retry_buffer_size,
  started_event,
}

-- signalOverflow
abbrev pub or_else_name : Option Text → Text → Option Text
or_else_name (some held) name = some held
or_else_name none name = some name

unfoldable pub signal_overflow : Text → Coordinator → Coordinator
signal_overflow name c = record c { overflow = or_else_name c.overflow name }

-- The handlers of the bus: a failure, and a retry request.
unfoldable pub on_failed : Failure → Coordinator → Coordinator
on_failed f c =
    if ltb (length c.failures) fail_buffer_size
    then record c { failures = c.failures ++ f ∷ [] }
    else signal_overflow f.component c

abbrev pub queue_retry : Text → ℕ → Option (List ℕ) → Coordinator → Coordinator
queue_retry name attempt none c = c
queue_retry name attempt (some queued) c =
    if ltb (length queued) retry_buffer_size
    then record c { retries = Assoc.insert name (queued ++ attempt ∷ []) c.retries }
    else signal_overflow name c

unfoldable pub on_retry : Text → ℕ → Coordinator → Coordinator
on_retry name attempt c = queue_retry name attempt (Assoc.lookup name c.retries) c

-- publishRetry: the bus calls the handler
unfoldable pub publish_retry : Text → ℕ → Coordinator → Coordinator
publish_retry name attempt c = on_retry name attempt c

-- abort
unfoldable pub abort : Text → Coordinator → Coordinator
abort trigger c = if c.aborted then c else record c {
  aborted = true;
  cancelled = true;
  events = c.events ++ aborted_event trigger ∷ [];
}

-- dependsOn
abbrev pub in_set : Text → Option Names → Bool
in_set name none = false
in_set name (some set) = elim (Assoc.lookup name set) [ none ↦ false | some _ ↦ true ]

unfoldable pub depends_on : Deps → Text → Text → Bool
depends_on deps component dependency = in_set dependency (Assoc.lookup component deps)

abbrev pub is_pending : Phase → Bool
is_pending pending = true
is_pending _ = false

-- hasPendingDependentLocked, over the states
unfoldable pub has_pending_dependent : Deps → Text → Assoc Text ComponentState → Bool
has_pending_dependent deps self [] = false
has_pending_dependent deps self ((name, state) ∷ states) =
    let rest = has_pending_dependent deps self states in
    if name == self || not (is_pending state.phase)
    then rest
    else if depends_on deps name self
    then true
    else rest

-- peerSummaryLocked: a started peer, or whether all others are down
pub data Peers : Type 0 where
  peer_started : Text → Peers
  no_peer_started : (all_down : Bool) → Peers

unfoldable pub peer_summary : Text → Assoc Text ComponentState → Bool → Peers
peer_summary self [] all_down = no_peer_started all_down
peer_summary self ((name, state) ∷ states) all_down =
    let rest = peer_summary self states all_down in
    let seen_pending = peer_summary self states false in
    if name == self then rest else elim state.phase [
      | started ↦ peer_started name
      | pending ↦ seen_pending
      | waiting_retry ↦ rest
      | gave_up ↦ rest
    ]

abbrev pub is_gave_up : Phase → Bool
is_gave_up gave_up = true
is_gave_up _ = false

abbrev pub mark_waiting :
    Failure → Option ComponentState → Assoc Text ComponentState → Assoc Text ComponentState
mark_waiting f none states = states
mark_waiting f (some state) states =
    if is_gave_up state.phase
    then states
    else Assoc.insert f.component (record { phase = waiting_retry; last_failure = f }) states

abbrev pub drive_self : Failure → Coordinator → Coordinator
drive_self f c =
    if ltb f.attempt c.max_attempts then publish_retry f.component (f.attempt + 1) c else c

-- The switch of onFailure; a peer whose name is empty counts as none.
abbrev pub react : Failure → Peers → Bool → Coordinator → Coordinator
react f (peer_started (_ ∷ _)) has_dependent c = drive_self f c
react f (peer_started []) has_dependent c = if has_dependent then drive_self f c else c
react f (no_peer_started all_down) has_dependent c =
    if has_dependent then drive_self f c else if all_down then abort f.component c else c

-- onFailure
unfoldable pub on_failure : Failure → Coordinator → Coordinator
on_failure f c =
    let states = mark_waiting f (Assoc.lookup f.component c.states) c.states in
    react f (peer_summary f.component states true) (has_pending_dependent c.deps f.component states)
      (record c { states = states })

-- pendingPeerFailuresLocked
unfoldable pub pending_peer_failures : Text → Assoc Text ComponentState → List Failure
pending_peer_failures self [] = []
pending_peer_failures self ((name, state) ∷ states) =
    let rest = pending_peer_failures self states in
    if name == self then rest else elim state.phase [
      | waiting_retry ↦ state.last_failure ∷ rest
      | pending ↦ rest
      | started ↦ rest
      | gave_up ↦ rest
    ]

unfoldable pub drive_all : List Failure → Coordinator → Coordinator
drive_all [] c = c
drive_all (f ∷ fs) c = drive_all fs (drive_self f c)

abbrev set_phase : Phase → Option ComponentState → ComponentState
set_phase phase none = record { phase = phase; last_failure = no_failure }
set_phase phase (some state) = record state { phase = phase }

abbrev pub with_phase : Text → Phase → Coordinator → Coordinator
with_phase name phase c = record c {
  states = Assoc.insert name (set_phase phase (Assoc.lookup name c.states)) c.states;
}

-- markStarted
unfoldable pub mark_started : Text → ℕ → Coordinator → Coordinator
mark_started name attempt c =
    let next = with_phase name started c in
    drive_all (pending_peer_failures name next.states) (record next {
      released = Assoc.insert name tt next.released;
      events = next.events ++ started_event name attempt ∷ [];
    })

-- markGaveUp
unfoldable pub mark_gave_up : Text → ℕ → ℕ → Coordinator → Coordinator
mark_gave_up name attempts error c =
    let next = with_phase name gave_up c in
    abort name (record next { events = next.events ++ gave_up_event name attempts error ∷ [] })

-- coordinate, where a failure is in its channel and where an overflow is
unfoldable pub take_failure : Coordinator → Coordinator
take_failure c = elim c.failures [ [] ↦ c | f ∷ rest ↦ on_failure f (record c { failures = rest }) ]

unfoldable pub take_overflow : Coordinator → Coordinator
take_overflow c = elim c.overflow [
  | none ↦ c
  | some name ↦ abort name (record c { overflow = none })
]

-- awaitDependencies: whether every dependency has started
unfoldable pub dependencies_started : List Text → Names → Bool
dependencies_started [] released = true
dependencies_started (dep ∷ rest) released = elim (Assoc.lookup dep released) [
  | none ↦ false
  | some _ ↦ dependencies_started rest released
]

-- runComponent after an attempt that failed: what it publishes, and whether it gives up
unfoldable pub attempt_failed : Text → ℕ → ℕ → Coordinator → Coordinator
attempt_failed name attempt error c =
    let told = on_failed (record { component = name; attempt = attempt; error = error }) c in
    if nat_eq.same attempt c.max_attempts then mark_gave_up name attempt error told else told

-- awaitRetry, where a request is in the channel of the component; runComponent goes by its own
-- count of attempts.
abbrev pub next_attempt : Text → Option (List ℕ) → Coordinator → Option (ℕ × Coordinator)
next_attempt name none c = none
next_attempt name (some []) c = none
next_attempt name (some (attempt ∷ rest)) c =
    some (attempt, record c { retries = Assoc.insert name rest c.retries })

unfoldable pub await_retry : Text → Coordinator → Option (ℕ × Coordinator)
await_retry name c = next_attempt name (Assoc.lookup name c.retries) c
