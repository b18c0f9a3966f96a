-- ===== src/Startup/Coordinator/Protocol.antt =====
-- A failure is always answered: by a retry, by an abort, or by a component that has yet to start
-- and then drives the retry.
use rclaude.Prelude.{ℕ, ◌+◌, ◌≡◌, ◌⊎◌, true, some, List, [], ◌∷◌, ◌++◌, text_eq}
use rclaude.Prelude.Assoc
use rclaude.Prelude.Assoc.{Assoc}
use rclaude.Startup.{Deps, Failure}
use rclaude.Startup.Coordinator.{Coordinator}
use rclaude.Startup.Coordinator.Peers.{SomeOther, NoOther, IsStarted, IsPending, Waits}
use rclaude.Startup.Driving.{Peers}

-- The retry of a failed attempt is in the queue of its component.
abbrev pub IsRetried : Failure → List ℕ → Coordinator → Type 0
IsRetried f queued c = Assoc.lookup f.component c.retries ≡ some (queued ++ (f.attempt + 1) ∷ [])

-- The retry, the abort, or the wait for a component that has yet to start, and when each is so.
abbrev pub Answered : Failure → List ℕ → Deps → Coordinator → Type 0
Answered f queued deps c =
    (IsRetried f queued c
      × (SomeOther IsStarted f.component c.states
          ⊎ SomeOther (Waits deps f.component) f.component c.states))
    ⊎ (((c.aborted ≡ true)
          × NoOther IsStarted f.component c.states
          × NoOther IsPending f.component c.states)
        ⊎ (SomeOther IsPending f.component c.states
            × NoOther IsStarted f.component c.states
            × NoOther (Waits deps f.component) f.component c.states))
