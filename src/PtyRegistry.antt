-- ===== src/PtyRegistry.antt =====
-- ptyRegistry of app/server/pty_runtime.go: the session manager as the registry of the terminals.
use rclaude.Prelude.{
  ℕ, ◌≡◌, refl, sym, ap, ◌∙◌, Bool, not, ◌&&◌, Option, none, some, [], Text, codes, ◌==◌, text_eq,
  nat_eq, if◌then◌else◌, Result, ok, err, Bool-cases, Option-cases, inl, inr,
}
use rclaude.Prelude.Assoc
use rclaude.Session.{Session}
use rclaude.Manager.{
  Heap, Manager, ManagerError, nil_session, empty_user_id, pty_busy, lookup_daemon, register_pty,
  unregister_pty, prune_expired_locked, closed_session,
}
use rclaude.Manager.Pty.{accepted, accepted_lem, is_free, register_pty_lem}
use rclaude.PtyService.Attach.{Registry}
use rclaude.PtyService.Attach.Orderly.{GivesBack, Declines}

-- WorkspaceName of the session
abbrev workspace_of : Option Session → Text
workspace_of none = []
workspace_of (some s) = s.workspace_name

abbrev name_daemon : Heap → Option ℕ → Option Text
name_daemon heap none = none
name_daemon heap (some ptr) = some (workspace_of (Assoc.lookup ptr heap))

abbrev error_text : ManagerError → Text
error_text empty_user_id = codes "session: empty user id"
error_text nil_session = codes "session: nil session"
error_text pty_busy = codes "session: pty already active"

abbrev of_registered : Result ManagerError Text → Result Text (Option Text)
of_registered (ok id) = ok (some id)
of_registered (err pty_busy) = ok none
of_registered (err e) = err (error_text e)

-- ptyRegistry, with a manager that is not nil, at a time and over the heap of sessions
unfoldable pub pty_registry : ℕ → Heap → Registry Manager
pty_registry now heap = record {
  lookup_daemon =
      λ user m. let (next, found) = lookup_daemon now heap user m in (next, name_daemon heap found);
  register_pty = λ user m. let (next, answer) = register_pty user m in (next, of_registered answer);
  unregister_pty = λ user id m. (unregister_pty user id m).0;
}

abbrev pub accepts : Text → Manager → Bool
accepts user m = accepted (register_pty user m).1

lookup_daemon-active_pty :
    (now : ℕ) (heap : Heap) (user : Text) (m : Manager)
    → (lookup_daemon now heap user m).0.active_pty ≡ m.active_pty
unfolding lookup_daemon prune_expired_locked
lookup_daemon-active_pty now heap user m = elim (Bool-cases (user == [])) [
  | inl empty ↦ rw empty refl
  | inr full ↦ rw full (found (Assoc.lookup user (prune_expired_locked now heap m).sessions))
]
  where
    pruned : Manager
    pruned = prune_expired_locked now heap m

    found :
        (s : Option ℕ)
        → (elim s as (λ _. Manager × Option ℕ) [
          | none ↦ (pruned, none)
          | some ptr ↦
              if closed_session (Assoc.lookup ptr heap) then (pruned, none) else (pruned, some ptr)
        ]).0.active_pty
          ≡ m.active_pty
    found none = refl
    found (some ptr) = elim (Bool-cases (closed_session (Assoc.lookup ptr heap))) [
      | inl closed ↦ rw closed refl
      | inr live ↦ rw live refl
    ]

register_pty_refused :
    (user : Text) (m next : Manager) (e : ManagerError)
    → register_pty user m ≡ (next, err e)
    → next ≡ m
unfolding register_pty
register_pty_refused user m next e h = elim (Bool-cases (user == [])) [
  | inl empty ↦ cc (rw empty at h)
  | inr full ↦ elim (Option-cases (Assoc.lookup user m.active_pty)) [
    | inl free ↦ cc (rw (full, free) at h)
    | inr (id, busy) ↦ cc (rw (full, busy) at h)
  ]
]

-- The manager gives a terminal back.
pub pty_registry-GivesBack : (now : ℕ) (heap : Heap) → GivesBack (pty_registry now heap) accepts
unfolding pty_registry
pty_registry-GivesBack now heap = record {
  looked_up = λ user other m.
      accepted_lem other (lookup_daemon now heap user m).0
      ∙ ap (λ a. not (other == []) && is_free (Assoc.lookup other a))
          (lookup_daemon-active_pty now heap user m)
      ∙ sym (accepted_lem other m);
  declined = λ user other m h. refused user other m (register_pty user m) refl h;
  restored =
      λ user session other m next e. back user session other m next (register_pty user m) refl e;
}
  where
    refused :
        (user other : Text) (m : Manager) (answer : Manager × Result ManagerError Text)
        → register_pty user m ≡ answer
        → Declines (of_registered answer.1)
        → accepts other answer.0 ≡ accepts other m
    refused user other m (next, ok id) e h = elim h [ ]
    refused user other m (next, err reason) e h =
        ap (accepts other) (register_pty_refused user m next reason e)

    back :
        (user session other : Text) (m next : Manager) (answer : Manager × Result ManagerError Text)
        → register_pty user m ≡ answer
        → ◌≡◌ {A = Manager × Result Text (Option Text)}
            (answer.0, of_registered answer.1)
            (next, ok (some session))
        → accepts other (unregister_pty user session next).0 ≡ accepts other m
    back user session other m next (after, ok id) e h =
        let at : after ≡ next = ap (λ p. p.0) h in
        let same : id ≡ session = cc (ap (λ p. p.1) h) in
        rw (← at, ← same) (register_pty_lem user id [] other m after e).3
    back user session other m next (after, err pty_busy) e h = cc (ap (λ p. p.1) h)
    back user session other m next (after, err nil_session) e h = cc (ap (λ p. p.1) h)
    back user session other m next (after, err empty_user_id) e h = cc (ap (λ p. p.1) h)
