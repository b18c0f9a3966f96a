-- ===== src/Manager/Expiry.antt =====
-- What the pruning of expired sessions leaves (pkg/session/manager.go).
use rclaude.Prelude.{
  ℕ, ◌≤◌, ◌≡◌, refl, Bool, true, false, ◌&&◌, ◌||◌, Option, none, some, [], ◌∷◌, Text, ◌==◌,
  text_eq, nat_eq, text_beq_iff, if◌then◌else◌, arith, ◌∙◌, Bool-cases, inl, inr,
}
use rclaude.Prelude.Assoc
use rclaude.Prelude.Assoc.{Assoc, NodupKeys}
use rclaude.Session.{Session, is_expired}
use rclaude.Manager.{Manager, Heap, expired_at, prune_each, prune_expired_locked, expired_session}

-- A session that has not expired.
abbrev pub live : ℕ → Heap → Option ℕ → Option ℕ
live now heap none = none
live now heap (some s) = if expired_at now heap s then none else some s

abbrev due : ℕ → Heap → Text → Assoc Text ℕ → Bool
due now heap user [] = false
due now heap user ((v, s) ∷ rest) = (v == user && expired_at now heap s) || due now heap user rest

lookup-prune_each :
    (now : ℕ) (heap : Heap) (user : Text) (entries sessions : Assoc Text ℕ)
    → Assoc.lookup user (prune_each now heap entries sessions)
      ≡ (if due now heap user entries then none else Assoc.lookup user sessions)
unfolding prune_each
lookup-prune_each now heap user [] sessions = refl
lookup-prune_each now heap user ((v, s) ∷ rest) sessions =
    lookup-prune_each now heap user rest
      (if expired_at now heap s then Assoc.remove v sessions else sessions)
    ∙ ground (arith, Assoc.lookup-remove v user sessions)

due_absent :
    (now : ℕ) (heap : Heap) (user : Text) (entries : Assoc Text ℕ)
    → Assoc.lookup user entries ≡ none
    → due now heap user entries ≡ false
unfolding Assoc.lookup
due_absent now heap user [] h = refl
due_absent now heap user ((v, s) ∷ rest) h = ground (arith, due_absent now heap user rest)

due_lem :
    (now : ℕ) (heap : Heap) (user : Text) (sessions : Assoc Text ℕ)
    → NodupKeys sessions
    → (if due now heap user sessions then none else Assoc.lookup user sessions)
      ≡ live now heap (Assoc.lookup user sessions)
unfolding Assoc.lookup
due_lem now heap user [] n = refl
due_lem now heap user ((v, s) ∷ rest) (fresh, n) = elim (Bool-cases (v == user)) [
  | inl same ↦
      let absent : Assoc.lookup user rest ≡ none = rw (← (text_beq_iff v user).0 same) fresh in
      ground (arith, due_absent now heap user rest absent)
  | inr other ↦ ground (arith, due_lem now heap user rest n)
]

-- After the pruning every user has the session that it had, unless that one has expired.
pub prune_lem :
    (now : ℕ) (heap : Heap) (user : Text) (m : Manager)
    → NodupKeys m.sessions
    → Assoc.lookup user (prune_expired_locked now heap m).sessions
      ≡ live now heap (Assoc.lookup user m.sessions)
unfolding prune_expired_locked
prune_lem now heap user m n =
    lookup-prune_each now heap user m.sessions m.sessions ∙ due_lem now heap user m.sessions n

expired_later :
    (now t : ℕ) (s : Option Session)
    → now ≤ t
    → expired_session now s ≡ true
    → expired_session t s ≡ true
unfolding is_expired
expired_later now t none h e = e
expired_later now t (some s) h e = ground arith

pub live-live :
    (now t : ℕ) (heap : Heap) (o : Option ℕ)
    → now ≤ t
    → live t heap (live now heap o) ≡ live t heap o
unfolding expired_at
live-live now t heap none h = refl
live-live now t heap (some p) h = elim (Bool-cases (expired_at now heap p)) [
  | inl gone ↦ rw gone (rw (expired_later now t (Assoc.lookup p heap) h gone) refl)
  | inr kept ↦ rw kept refl
]
