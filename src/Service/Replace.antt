-- ===== src/Service/Replace.antt =====
-- A new connection takes its user's place and closes the session that was there.
use rclaude.Prelude.{
  ℕ, ◌≡◌, refl, ◌≢◌, Option, none, some, Text, text_eq, nat_eq, nat_beq_iff, if◌then◌else◌, arith,
  ap, ◌∙◌, sym, Option-cases, inl, inr, beq_refl, Result, ok, err, [],
}
use rclaude.Prelude.Assoc
use rclaude.Prelude.Assoc.{NodupKeys}
use rclaude.SafePath
use rclaude.FsTree
use rclaude.FsTree.{Tree, TreeError}
use rclaude.Session.{
  Session, SessionError, session_replaced, DaemonMessage, file_tree, change, response, heartbeat,
  empty, build_tree, files_of, bootstrap, bootstrap_tree, finish_bootstrap, replace_tree,
  keep_built, touch_heartbeat, clear_content_cache, close_with_error, FileTree, new_session,
}
use rclaude.Manager
use rclaude.Manager.{ManagerError, is_pointer, Manager, Heap, new_session_for, user_of}
use rclaude.Manager.Expiry.{live}
use rclaude.Manager.Sessions.{register_lem}
use rclaude.Service.{open_session, received, registered, close_previous, close_at}

keep_built-user_id :
    (s : Session) (r : Tree × Option TreeError) → (keep_built s r).0.user_id ≡ s.user_id
keep_built-user_id s (t, none) = refl
keep_built-user_id s (t, some e) = refl

replace_tree-user_id :
    (t : Option FileTree) (s : Session) → (replace_tree t s).0.user_id ≡ s.user_id
unfolding replace_tree
replace_tree-user_id t s = keep_built-user_id s (build_tree (files_of t) FsTree.new)

finish_bootstrap-user_id :
    (now : ℕ) (name : Text) (r : Session × Option SessionError)
    → (finish_bootstrap now name r).0.user_id ≡ r.0.user_id
unfolding touch_heartbeat clear_content_cache
finish_bootstrap-user_id now name (s, none) = refl
finish_bootstrap-user_id now name (s, some e) = refl

bootstrap_tree-user_id :
    (now : ℕ) (t : FileTree) (s : Session) (r : Result SafePath.SafeError Text)
    → (bootstrap_tree now t s r).0.user_id ≡ s.user_id
bootstrap_tree-user_id now t s (err e) = refl
bootstrap_tree-user_id now t s (ok name) =
    finish_bootstrap-user_id now name (replace_tree (some t) s) ∙ replace_tree-user_id (some t) s

bootstrap-user_id :
    (now : ℕ) (msg : Option DaemonMessage) (s : Session)
    → (bootstrap now msg s).0.user_id ≡ s.user_id
unfolding bootstrap
bootstrap-user_id now none s = refl
bootstrap-user_id now (some (file_tree (some t))) s =
    bootstrap_tree-user_id now t s (SafePath.clean_segment t.workspace_name)
bootstrap-user_id now (some (file_tree none)) s = refl
bootstrap-user_id now (some (change c)) s = refl
bootstrap-user_id now (some (response r)) s = refl
bootstrap-user_id now (some heartbeat) s = refl
bootstrap-user_id now (some empty) s = refl

-- The session at a pointer, once the previous session is closed.
abbrev pub closed_from : Option Session → Option Session
closed_from none = none
closed_from (some s) = some (close_with_error (some session_replaced) s)

lookup-close_previous :
    (prev : Option ℕ) (ptr : ℕ) (heap : Heap)
    → Assoc.lookup ptr (close_previous prev heap)
      ≡ (if is_pointer ptr prev then closed_from (Assoc.lookup ptr heap) else Assoc.lookup ptr heap)
unfolding close_previous
lookup-close_previous none ptr heap = refl
lookup-close_previous (some p) ptr heap = elim (Option-cases (Assoc.lookup p heap)) [
  | inl e ↦ rw (e, close_at) (ground (arith, ap (λ q. Assoc.lookup q heap)))
  | inr (s, e) ↦
      rw (e, close_at)
        (Assoc.lookup-insert p ptr (close_with_error (some session_replaced) s) heap
          ∙ ground (arith, nat_beq_iff p ptr, ap (λ q. Assoc.lookup q heap)))
]

ok_injective : {a b : Option ℕ} → ◌≡◌ {A = Result ManagerError (Option ℕ)} (ok a) (ok b) → a ≡ b
ok_injective h = cc

-- With each user once in the map of sessions, a user id that is not empty, and a first message
-- that Bootstrap accepts: the new session is that of the user from then on, and every other
-- session stays as it was, but for the live one that the user had, which is closed with the error
-- of a replaced session.
pub open_session_lem :
    (now ptr other : ℕ) (user : Text) (msg : Option DaemonMessage) (heap : Heap) (m : Manager)
    (s : Session)
    → NodupKeys m.sessions
    → user ≢ []
    → bootstrap now msg (new_session_for user m) ≡ (s, none)
    → ((open_session now ptr (some user) (ok msg) heap m).1 ≡ none)
      × (Assoc.lookup user (open_session now ptr (some user) (ok msg) heap m).0.0.sessions
          ≡ some ptr)
      × (Assoc.lookup other (open_session now ptr (some user) (ok msg) heap m).0.1 ≡ (
          if is_pointer other (live now (Assoc.insert ptr s heap) (Assoc.lookup user m.sessions))
          then closed_from (Assoc.lookup other (Assoc.insert ptr s heap))
          else Assoc.lookup other (Assoc.insert ptr s heap)))
unfolding open_session
open_session_lem now ptr other user msg heap m s n full e =
    rw (e, received) (opened (Manager.register now stored (some ptr) m) result.0 result.1)
  where
    stored : Heap
    stored = Assoc.insert ptr s heap

    self : Assoc.lookup ptr stored ≡ some s
    self = Assoc.lookup-insert ptr ptr s heap ∙ rw (beq_refl ptr) refl

    named : user_of (Assoc.lookup ptr stored) ≡ user
    named =
        ap (λ o. user_of o) self
        ∙ (ap (λ r. r.0.user_id) (sym e)
            ∙ (bootstrap-user_id now msg (new_session_for user m)
                ∙ unfold new_session_for new_session in refl))

    result :
        ((Manager.register now stored (some ptr) m).1
          ≡ ok (live now stored (Assoc.lookup user m.sessions)))
        × (Assoc.lookup user (Manager.register now stored (some ptr) m).0.sessions ≡ some ptr)
    result =
        let r = register_lem now stored ptr user m n (λ z. full (sym named ∙ z)) in
        (
          r.0 ∙ ap (λ u. ok (live now stored (Assoc.lookup u m.sessions))) named,
          r.1 ∙ rw named (rw (beq_refl user) refl),
        )

    opened :
        (r : Manager × Result ManagerError (Option ℕ))
        → r.1 ≡ ok (live now stored (Assoc.lookup user m.sessions))
        → Assoc.lookup user r.0.sessions ≡ some ptr
        → ((registered stored r).1 ≡ none)
          × (Assoc.lookup user (registered stored r).0.0.sessions ≡ some ptr)
          × (Assoc.lookup other (registered stored r).0.1 ≡ (
              if is_pointer other (live now stored (Assoc.lookup user m.sessions))
              then closed_from (Assoc.lookup other stored)
              else Assoc.lookup other stored))
    opened (next, err x) h k = absurd (ground arith)
    opened (next, ok prev) h k =
        let at : prev ≡ live now stored (Assoc.lookup user m.sessions) = ok_injective h in
        (refl, k, rw (← at) (lookup-close_previous prev other stored))
