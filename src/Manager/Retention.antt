-- ===== src/Manager/Retention.antt =====
-- What the retention of a session changes for the users (pkg/session/manager.go, session.go).
use rclaude.Prelude.{
  ℕ, not, ◌≡◌, ltb, refl, false, Option, none, some, ◌==◌, text_eq, nat_eq, if◌then◌else◌, arith,
  ◌∙◌, Bool-cases, inl, inr,
}
use rclaude.Prelude.Assoc
use rclaude.Prelude.Assoc.{Assoc, NodupKeys}
use rclaude.Session.{Session, is_replaced, retain_offline, is_expired}
use rclaude.Manager.{Heap, expired_at, expired_session, is_pointer}
use rclaude.Manager.Expiry.{live}

retained-expired :
    (t until : ℕ) (s : Session)
    → (until == 0) ≡ false
    → expired_session t (some (retain_offline until s).0)
      ≡ (if is_replaced s.close_err then expired_session t (some s) else not (ltb t until))
unfolding retain_offline is_expired
retained-expired t until s set = elim (Bool-cases (is_replaced s.close_err)) [
  | inl gone ↦ rw set (simp gone refl)
  | inr kept ↦ rw set (simp kept (ground arith))
]

-- What the retention of a session changes for the pointers.
pub retained-live :
    (t until ptr : ℕ) (s : Session) (heap : Heap) (o : Option ℕ)
    → Assoc.lookup ptr heap ≡ some s
    → (until == 0) ≡ false
    → live t (Assoc.insert ptr (retain_offline until s).0 heap) o ≡ (
        if is_pointer ptr o
        then (if is_replaced s.close_err
            then live t heap o
            else if ltb t until
            then some ptr
            else none)
        else live t heap o)
unfolding expired_at
retained-live t until ptr s heap none at set = refl
retained-live t until ptr s heap (some p) at set = elim (Bool-cases (p == ptr)) [
  | inl same ↦
      let found : Assoc.lookup p after ≡ some (retain_offline until s).0 =
        Assoc.lookup-insert ptr p (retain_offline until s).0 heap ∙ ground arith in
      let here : p ≡ ptr = ground arith in
      let old : Assoc.lookup p heap ≡ some s = rw here at in
      rw (same, found, old) (rw (retained-expired t until s set) (ground arith))
  | inr other ↦
      let found : Assoc.lookup p after ≡ Assoc.lookup p heap =
        Assoc.lookup-insert ptr p (retain_offline until s).0 heap ∙ ground arith in
      rw (other, found) refl
]
  where
    after : Heap
    after = Assoc.insert ptr (retain_offline until s).0 heap
