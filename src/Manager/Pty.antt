-- ===== src/Manager/Pty.antt =====
-- Each user has one PTY at a time, and only its own id gives it up.
use rclaude.Prelude.{
  ◌≡◌, refl, Bool, true, false, not, ◌&&◌, Option, none, some, [], ◌∷◌, ◌++◌, Text, ◌==◌, text_eq,
  text_beq, text_beq_iff, if◌then◌else◌, arith, ap, ◌∙◌, sym, Option-cases, inl, inr, beq_refl,
  Result, ok, err,
}
use rclaude.Prelude.Assoc
use rclaude.Manager.{Manager, ManagerError, register_pty, unregister_pty, next_pty_session_id}

-- Whether RegisterPTY of the user is accepted.
abbrev pub accepted : Result ManagerError Text → Bool
accepted (ok _) = true
accepted (err _) = false

abbrev pub is_free : Option Text → Bool
is_free none = true
is_free (some _) = false

pub accepted_lem :
    (user : Text) (m : Manager)
    → accepted (register_pty user m).1
      ≡ (not (user == []) && is_free (Assoc.lookup user m.active_pty))
unfolding register_pty next_pty_session_id
accepted_lem user m = elim (Option-cases (Assoc.lookup user m.active_pty)) [
  | inl e ↦ rw (e, register_pty) (ground arith)
  | inr (id, e) ↦ rw (e, register_pty) (ground arith)
]

-- What a successful RegisterPTY did.
record Granted (user id : Text) (m after : Manager) : Type 0 where
  pub named : (user == []) ≡ false
  pub free : Assoc.lookup user m.active_pty ≡ none
  pub full : (id == []) ≡ false
  pub stored : after.active_pty ≡ Assoc.insert user id m.active_pty

append-full : (s t : Text) → (s == []) ≡ false → ((s ++ t) == []) ≡ false
unfolding text_beq
append-full [] t h = absurd (ground arith)
append-full (c ∷ s) t h = refl

register_pty_free :
    (user : Text) (m : Manager)
    → (user == []) ≡ false
    → Assoc.lookup user m.active_pty ≡ none
    → register_pty user m ≡ (
      record m {
        active_pty = Assoc.insert user (next_pty_session_id user m).1 m.active_pty;
        next_pty_id = (next_pty_session_id user m).0.next_pty_id;
      },
      ok (next_pty_session_id user m).1,
    )
unfolding register_pty next_pty_session_id
register_pty_free user m named free = rw named (rw (free, register_pty) refl)

id_full :
    (user : Text) (m : Manager)
    → (user == []) ≡ false
    → ((next_pty_session_id user m).1 == []) ≡ false
unfolding next_pty_session_id
id_full user m named = append-full user _ named

granted :
    (user id : Text) (m after : Manager)
    → register_pty user m ≡ (after, ok id)
    → Granted user id m after
granted user id m after h =
    let was_free : (not (user == []) && is_free (Assoc.lookup user m.active_pty)) ≡ true =
      sym (accepted_lem user m) ∙ ap (λ r. accepted r.1) h in
    let named : (user == []) ≡ false = ground arith in
    elim (Option-cases (Assoc.lookup user m.active_pty)) [
      | inr (busy, e) ↦ absurd (ground arith)
      | inl free ↦
          let same = sym (register_pty_free user m named free) ∙ h in
          let at : (next_pty_session_id user m).1 ≡ id = id_of (ap (λ r. r.1) same) in
          record {
            named = named;
            free = free;
            full = rw (← at) (id_full user m named);
            stored =
                sym (ap (λ r. r.0.active_pty) same) ∙ ap (λ i. Assoc.insert user i m.active_pty) at;
          }
    ]
  where
    id_of : {a b : Text} → ◌≡◌ {A = Result ManagerError Text} (ok a) (ok b) → a ≡ b
    id_of e = cc

-- UnregisterPTY while the user's PTY is `id`.
module _ (user id : Text) (m : Manager) (named : (user == []) ≡ false)
    (busy : Assoc.lookup user m.active_pty ≡ some id) where
  unregister_other :
      (wrong : Text) → (wrong == id) ≡ false → unregister_pty user wrong m ≡ (m, false)
  unfolding unregister_pty
  unregister_other wrong h =
      rw (busy, unregister_pty) (ground (arith, text_beq_iff id wrong, text_beq_iff wrong id))

  unregister_own :
      (id == []) ≡ false
      → unregister_pty user id m ≡ (record m { active_pty = Assoc.remove user m.active_pty }, true)
  unfolding unregister_pty
  unregister_own full = rw (busy, unregister_pty) (rw named (rw full (rw (beq_refl id) refl)))

-- After RegisterPTY gave an id, the user is refused until UnregisterPTY is called with that id; a
-- call with another id changes nothing; the other users are accepted or refused as before.
pub register_pty_lem :
    (user id wrong other : Text) (m after : Manager)
    → register_pty user m ≡ (after, ok id)
    → (accepted (register_pty other after).1
        ≡ (if user == other then false else accepted (register_pty other m).1))
      × ((wrong == id) ≡ false → unregister_pty user wrong after ≡ (after, false))
      × ((unregister_pty user id after).1 ≡ true)
      × (accepted (register_pty other (unregister_pty user id after).0).1
          ≡ accepted (register_pty other m).1)
register_pty_lem user id wrong other m after h =
    let g = granted user id m after h in
    let stored_at : Assoc.lookup other after.active_pty
        ≡ (if user == other then some id else Assoc.lookup other m.active_pty) =
      ap (Assoc.lookup other) g.stored ∙ Assoc.lookup-insert user other id m.active_pty in
    let busy : Assoc.lookup user after.active_pty ≡ some id =
      ap (Assoc.lookup user) g.stored
      ∙ (Assoc.lookup-insert user user id m.active_pty ∙ rw (beq_refl user) refl) in
    let own = unregister_own user id after g.named busy g.full in
    let freed = record after { active_pty = Assoc.remove user after.active_pty } in
    (
      ground (arith, accepted_lem other after, accepted_lem other m, stored_at),
      unregister_other user id after g.named busy wrong,
      ap (λ r. r.1) own,
      ap (λ r. accepted (register_pty other r.0).1) own
          ∙ ground (
            arith,
            accepted_lem other freed,
            accepted_lem other m,
            stored_at,
            Assoc.lookup-remove user other after.active_pty,
            text_beq_iff user other,
            g.free,
            ap (λ u. Assoc.lookup u m.active_pty),
          ),
    )
