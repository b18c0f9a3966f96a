-- ===== src/Startup/Coordinator/Peers.antt =====
-- What the summary of the other components and the search for a pending dependent say of them
-- (pkg/startup/coordinator.go).
use rclaude.Prelude.{
  ap, ◌<◌, ◌≡◌, ◌≢◌, refl, ◌⊎◌, inl, inr, Bool, true, false, Option, none, some, [], ◌∷◌, Text,
  length, ◌==◌, text_eq, arith, Bool-cases, ◌∙◌, sym,
}
use rclaude.Prelude.Assoc
use rclaude.Prelude.Assoc.{Assoc}
use rclaude.Sorting.{member}
use rclaude.Startup.{Deps, Names, Phase, pending, started, waiting_retry, gave_up, ComponentState}
use rclaude.Startup.Cycles.{deps_of, names_of}
use rclaude.Startup.Edges.{DependsOn}
use rclaude.Startup.Driving.{
  Peers, peer_started, no_peer_started, peer_summary, has_pending_dependent, depends_on, in_set,
  is_pending,
}

-- Some component but this one is so, and none is.
abbrev pub SomeOther : (Text → ComponentState → Type 0) → Text → Assoc Text ComponentState → Type 0
SomeOther P self [] = ⊥
SomeOther P self ((name, state) ∷ states) =
    (((name == self) ≡ false) × P name state) ⊎ SomeOther P self states

abbrev pub NoOther : (Text → ComponentState → Type 0) → Text → Assoc Text ComponentState → Type 0
NoOther P self [] = Unit
NoOther P self ((name, state) ∷ states) =
    (((name == self) ≡ true) ⊎ (¬ P name state)) × NoOther P self states

abbrev pub IsStarted : Text → ComponentState → Type 0
IsStarted name state = state.phase ≡ started

-- It has yet to make its first attempt.
abbrev pub IsPending : Text → ComponentState → Type 0
IsPending name state = state.phase ≡ pending

-- It has yet to make its first attempt, and depends on the component.
abbrev pub Waits : Deps → Text → Text → ComponentState → Type 0
Waits deps self name state = (state.phase ≡ pending) × DependsOn deps self name

-- What the summary of the peers says.
abbrev pub Says : Text → Assoc Text ComponentState → Bool → Peers → Type 0
Says self states all_down (peer_started []) = ⊥
Says self states all_down (peer_started (_ ∷ _)) = SomeOther IsStarted self states
Says self states all_down (no_peer_started true) =
    (all_down ≡ true) × NoOther IsStarted self states × NoOther IsPending self states
Says self states all_down (no_peer_started false) =
    NoOther IsStarted self states × ((all_down ≡ false) ⊎ SomeOther IsPending self states)

-- An entry that the summary passes over.
abbrev IsIdle : Text → Text → ComponentState → Type 0
IsIdle self name state =
    ((name == self) ≡ true) ⊎ ((state.phase ≢ started) × (state.phase ≢ pending))

idle_skip :
    (self name : Text) (state : ComponentState)
    → IsIdle self name state
    → (((name == self) ≡ true) ⊎ (¬ IsStarted name state))
      × (((name == self) ≡ true) ⊎ (¬ IsPending name state))
idle_skip self name state (inl same) = (inl same, inl same)
idle_skip self name state (inr (a, b)) = (inr a, inr b)

later_peer :
    (self name : Text) (state : ComponentState) (states : Assoc Text ComponentState)
    (all_down : Bool) (p : Peers)
    → IsIdle self name state
    → Says self states all_down p
    → Says self ((name, state) ∷ states) all_down p
later_peer self name state states all_down (peer_started []) i h = h
later_peer self name state states all_down (peer_started (_ ∷ _)) i h = inr h
later_peer self name state states all_down (no_peer_started true) i (down, a, b) =
    let (ka, kb) = idle_skip self name state i in (down, (ka, a), (kb, b))
later_peer self name state states all_down (no_peer_started false) i (a, inl h) =
    (((idle_skip self name state i).0, a), inl h)
later_peer self name state states all_down (no_peer_started false) i (a, inr h) =
    (((idle_skip self name state i).0, a), inr (inr h))

pending_peer :
    (self name : Text) (state : ComponentState) (states : Assoc Text ComponentState)
    (all_down : Bool) (p : Peers)
    → (name == self) ≡ false
    → state.phase ≡ pending
    → Says self states false p
    → Says self ((name, state) ∷ states) all_down p
pending_peer self name state states all_down (peer_started []) other e h = h
pending_peer self name state states all_down (peer_started (_ ∷ _)) other e h = inr h
pending_peer self name state states all_down (no_peer_started true) other e (bad, _, _) = cc
pending_peer self name state states all_down (no_peer_started false) other e (a, _) =
    ((inr (λ z. cc), a), inr (inl (other, e)))

Phase-cases : (p : Phase) → (p ≡ pending) ⊎ ((p ≡ started) ⊎ ((p ≡ waiting_retry) ⊎ (p ≡ gave_up)))
Phase-cases pending = inl refl
Phase-cases started = inr (inl refl)
Phase-cases waiting_retry = inr (inr (inl refl))
Phase-cases gave_up = inr (inr (inr refl))

-- No component has the empty name.
abbrev pub IsNamed : Assoc Text ComponentState → Type 0
IsNamed [] = Unit
IsNamed ((name, _) ∷ states) = (0 < length name) × IsNamed states

named_peer :
    (self name : Text) (state : ComponentState) (states : Assoc Text ComponentState)
    (all_down : Bool)
    → 0 < length name
    → (name == self) ≡ false
    → state.phase ≡ started
    → Says self ((name, state) ∷ states) all_down (peer_started name)
named_peer self [] state states all_down h other e = omega arith
named_peer self (_ ∷ _) state states all_down h other e = inl (other, e)

pub peer_summary-Says :
    (self : Text) (states : Assoc Text ComponentState) (all_down : Bool)
    → IsNamed states
    → Says self states all_down (peer_summary self states all_down)
unfolding peer_summary
peer_summary-Says self [] true h = (refl, tt, tt)
peer_summary-Says self [] false h = (tt, inl refl)
peer_summary-Says self ((name, state) ∷ states) all_down (named, hs) =
    let rest = peer_summary-Says self states all_down hs in
    let seen = peer_summary-Says self states false hs in
    let skip = later_peer self name state states all_down (peer_summary self states all_down) in
    elim (Bool-cases (name == self)) [
      | inl same ↦ rw same (skip (inl same) rest)
      | inr other ↦ elim (Phase-cases state.phase) [
        | inl e ↦ rw other (
            simp e (
              pending_peer self name state states all_down (peer_summary self states false) other e
                seen))
        | inr (inl e) ↦ rw other (simp e (named_peer self name state states all_down named other e))
        | inr (inr (inl e)) ↦ rw other (simp e (skip (inr (λ z. cc, λ z. cc)) rest))
        | inr (inr (inr e)) ↦ rw other (simp e (skip (inr (λ z. cc, λ z. cc)) rest))
      ]
    ]

depends_on-member :
    (deps : Deps) (component dependency : Text)
    → depends_on deps component dependency ≡ member dependency (deps_of deps component)
unfolding depends_on deps_of Assoc.lookup
depends_on-member deps component dependency = at (Assoc.lookup component deps)
  where
    at : (o : Option Names) → in_set dependency o ≡ member dependency (names_of o)
    at none = refl
    at (some []) = refl
    at (some ((dep, _) ∷ set)) = ground (arith, at (some set))

-- What hasPendingDependentLocked says.
abbrev pub SaysWaiting : Deps → Text → Assoc Text ComponentState → Bool → Type 0
SaysWaiting deps self states true = SomeOther (Waits deps self) self states
SaysWaiting deps self states false = NoOther (Waits deps self) self states

pending_of : (p : Phase) → is_pending p ≡ true → p ≡ pending
pending_of pending h = refl
pending_of started h = cc
pending_of waiting_retry h = cc
pending_of gave_up h = cc

later_waiting :
    (deps : Deps) (self name : Text) (state : ComponentState) (states : Assoc Text ComponentState)
    (b : Bool)
    → ((name == self) ≡ true) ⊎ (¬ Waits deps self name state)
    → SaysWaiting deps self states b
    → SaysWaiting deps self ((name, state) ∷ states) b
later_waiting deps self name state states true idle h = inr h
later_waiting deps self name state states false idle h = (idle, h)

pub has_pending_dependent-Says :
    (deps : Deps) (self : Text) (states : Assoc Text ComponentState)
    → SaysWaiting deps self states (has_pending_dependent deps self states)
unfolding has_pending_dependent
has_pending_dependent-Says deps self [] = tt
has_pending_dependent-Says deps self ((name, state) ∷ states) =
    let rest = has_pending_dependent-Says deps self states in
    let skip = later_waiting deps self name state states (has_pending_dependent deps self states) in
    elim (Bool-cases (name == self)) [
      | inl same ↦ rw same (skip (inl same) rest)
      | inr other ↦ elim (Bool-cases (is_pending state.phase)) [
        | inr begun ↦ rw (other, begun) (skip (inr (λ (e, d). absurd (cc (ap is_pending e)))) rest)
        | inl early ↦ elim (Bool-cases (depends_on deps name self)) [
          | inl needs ↦
              rw (other, early, needs)
                (inl (
                  other,
                  (pending_of state.phase early, sym (depends_on-member deps name self) ∙ needs),
                ))
          | inr free ↦
              rw (other, early, free)
                (skip (inr (λ (e, d). absurd (cc (depends_on-member deps name self)))) rest)
        ]
      ]
    ]
