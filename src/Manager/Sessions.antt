-- ===== src/Manager/Sessions.antt =====
-- Which session a user has: expired ones go, and only the current one is replaced or removed.
use rclaude.Prelude.{
  ℕ, ◌+◌, ◌≤◌, ◌<◌, ◌≡◌, ltb, refl, ◌≢◌, Bool, true, false, ◌&&◌, ◌||◌, Option, none, some, [],
  Text, ◌==◌, text_eq, nat_eq, text_beq_iff, if◌then◌else◌, arith, ap, ◌∙◌, Bool-cases, inl, inr,
  ok,
}
use rclaude.Prelude.Int.{ℤ, pos, negsuc, pos_part, leb_ℤ}
use rclaude.Prelude.Assoc
use rclaude.Prelude.Assoc.{Assoc, NodupKeys}
use rclaude.Session.{Session, SessionError, is_replaced, retain_offline}
use rclaude.Manager.{
  Manager, Heap, expired_at, prune_expired_locked, user_of, register, same_expired, remove_expired,
  get, is_pointer, handle_disconnect,
}
use rclaude.Manager.Expiry.{live, prune_lem, live-live}
use rclaude.Manager.Retention.{retained-live}

-- Whether the second is the session that was read, and that had expired.
abbrev pub read_expired : ℕ → Heap → Option ℕ → Option ℕ → Bool
read_expired now heap none current = false
read_expired now heap (some s) current = expired_at now heap s && is_pointer s current

remove_expired-live :
    (now : ℕ) (heap : Heap) (user other : Text) (s : ℕ) (m : Manager)
    → Assoc.lookup other (remove_expired now heap user s m).sessions ≡ (
        if user == other
        then (if is_pointer s (Assoc.lookup other m.sessions)
            then live now heap (Assoc.lookup other m.sessions)
            else Assoc.lookup other m.sessions)
        else Assoc.lookup other m.sessions)
unfolding remove_expired
remove_expired-live now heap user other s m = at (Assoc.lookup user m.sessions) refl
  where
    here :
        (user == other) ≡ true
        → (o : Option ℕ) → Assoc.lookup user m.sessions ≡ o
        → Assoc.lookup other m.sessions ≡ o
    here same o e = rw ((text_beq_iff user other).0 same) at e

    at :
        (o : Option ℕ)
        → Assoc.lookup user m.sessions ≡ o
        → Assoc.lookup other
            (if same_expired now heap s o
              then record m { sessions = Assoc.remove user m.sessions }
              else m).sessions
          ≡ (if user == other
              then (if is_pointer s (Assoc.lookup other m.sessions)
                  then live now heap (Assoc.lookup other m.sessions)
                  else Assoc.lookup other m.sessions)
              else Assoc.lookup other m.sessions)
    at none e = elim (Bool-cases (user == other)) [
      | inl same ↦ rw same (rw (here same none e) refl)
      | inr differs ↦ rw differs refl
    ]
    at (some c) e = elim (Bool-cases (c == s && expired_at now heap c)) [
      | inl both ↦ rw both (
          Assoc.lookup-remove user other m.sessions ∙ elim (Bool-cases (user == other)) [
            | inl same ↦ rw same (rw (here same (some c) e) (ground arith))
            | inr differs ↦ rw differs refl
          ])
      | inr kept ↦ rw kept (elim (Bool-cases (user == other)) [
        | inl same ↦ rw same (rw (here same (some c) e) (ground arith))
        | inr differs ↦ rw differs refl
      ])
    ]

-- Get answers the session that it reads unless that one has expired. Whatever changes until the
-- second lock: it then takes away the session that it read, if that had expired, still is the
-- session of the user and still has expired, and no other; so that no session is lost that has not
-- expired by then, though it came in between.
pub get_lem :
    (now : ℕ) (heap : Heap) (user other : Text) (m : Manager) (later : ℕ) (then_heap : Heap)
    (then_m : Manager)
    → ((get now heap user m later then_heap then_m).1
        ≡ live now heap (Assoc.lookup user m.sessions))
      × (Assoc.lookup other (get now heap user m later then_heap then_m).0.sessions ≡ (
          if user == other
            && read_expired now heap
                (Assoc.lookup user m.sessions)
                (Assoc.lookup other then_m.sessions)
          then live later then_heap (Assoc.lookup other then_m.sessions)
          else Assoc.lookup other then_m.sessions))
      × (live later then_heap
            (Assoc.lookup other (get now heap user m later then_heap then_m).0.sessions)
          ≡ live later then_heap (Assoc.lookup other then_m.sessions))
unfolding get
get_lem now heap user other m later then_heap then_m = read (Assoc.lookup user m.sessions)
  where
    found : Option ℕ
    found = Assoc.lookup other then_m.sessions

    stays :
        (b : Bool)
        → live later then_heap (if b then live later then_heap found else found)
          ≡ live later then_heap found
    stays true = live-live later later then_heap found (omega arith)
    stays false = refl

    taken :
        (a b : Bool)
        → (if a then (if b then live later then_heap found else found) else found)
          ≡ (if a && (true && b) then live later then_heap found else found)
    taken true true = refl
    taken true false = refl
    taken false b = refl

    nothing : (a : Bool) → found ≡ (if a && false then live later then_heap found else found)
    nothing true = refl
    nothing false = refl

    finish : Option ℕ → Manager × Option ℕ
    finish o = elim o [
      | none ↦ (then_m, none)
      | some s ↦
          if expired_at now heap s
          then (remove_expired later then_heap user s then_m, none)
          else (then_m, some s)
    ]

    read :
        (o : Option ℕ)
        → ((finish o).1 ≡ live now heap o)
          × (Assoc.lookup other (finish o).0.sessions ≡ (
              if user == other && read_expired now heap o found
              then live later then_heap found
              else found))
          × (live later then_heap (Assoc.lookup other (finish o).0.sessions)
              ≡ live later then_heap found)
    read none = (refl, nothing (user == other), refl)
    read (some s) = elim (Bool-cases (expired_at now heap s)) [
      | inr kept ↦ rw kept (refl, nothing (user == other), refl)
      | inl gone ↦
          let at =
            remove_expired-live later then_heap user other s then_m
            ∙ taken (user == other) (is_pointer s found) in
          rw gone (
            refl,
            at,
            ap (live later then_heap) at ∙ stays (user == other && (true && is_pointer s found)),
          )
    ]

-- With each user once in the map of sessions, Register of a session of a named user makes it the
-- session of that user, answers the live session that it replaces, and otherwise only takes
-- expired sessions away.
pub register_lem :
    (now : ℕ) (heap : Heap) (ptr : ℕ) (other : Text) (m : Manager)
    → NodupKeys m.sessions
    → user_of (Assoc.lookup ptr heap) ≢ []
    → ((register now heap (some ptr) m).1
        ≡ ok (live now heap (Assoc.lookup (user_of (Assoc.lookup ptr heap)) m.sessions)))
      × (Assoc.lookup other (register now heap (some ptr) m).0.sessions ≡ (
          if user_of (Assoc.lookup ptr heap) == other
          then some ptr
          else live now heap (Assoc.lookup other m.sessions)))
unfolding register
register_lem now heap ptr other m n named =
    let user = user_of (Assoc.lookup ptr heap) in
    let full : (user == []) ≡ false = elim (Bool-cases (user == [])) [
      | inl e ↦ absurd (named ((text_beq_iff user []).0 e))
      | inr e ↦ e
    ] in
    rw full (
      ap (λ o. ok o) (prune_lem now heap user m n),
      Assoc.lookup-insert user other ptr (prune_expired_locked now heap m).sessions
          ∙ rw (prune_lem now heap other m n) refl,
    )

-- The session of the user that Get would answer at the time.
abbrev pub shown : ℕ → Heap → Manager → Text → Option ℕ
shown t heap m user = live t heap (Assoc.lookup user m.sessions)

-- Each session stands under the name of its user.
abbrev pub IsKeyed : Heap → Manager → Type 0
IsKeyed heap m =
    (user : Text) (p : ℕ)
    → Assoc.lookup user m.sessions ≡ some p
    → user_of (Assoc.lookup p heap) ≡ user

-- With each user once in the map of sessions, each session under the name of its user, and for a
-- session of a named user that ends: at each time from the pruning of HandleDisconnect on, every
-- user has the session that it would have had, but for the user whose session this is. That one
-- has no session any more if it was replaced or sessions are not retained; otherwise it keeps it
-- until the retention is over and has none then, unless the session itself was closed as replaced,
-- which changes nothing.
pub handle_disconnect_lem :
    (now later t ptr : ℕ) (e : Option SessionError) (heap : Heap) (s : Session) (other : Text)
    (m : Manager)
    → NodupKeys m.sessions
    → IsKeyed heap m
    → Assoc.lookup ptr heap ≡ some s
    → s.user_id ≢ []
    → later ≤ t
    → shown t
        (handle_disconnect now later (some ptr) e heap m).1
        (handle_disconnect now later (some ptr) e heap m).0
        other
      ≡ (if is_pointer ptr (Assoc.lookup other m.sessions)
          then (if is_replaced e || leb_ℤ m.options.offline_read_only_ttl (pos 0)
              then none
              else if is_replaced s.close_err
              then shown t heap m other
              else if ltb t (now + pos_part m.options.offline_read_only_ttl)
              then some ptr
              else none)
          else shown t heap m other)
unfolding handle_disconnect
handle_disconnect_lem now later t ptr e heap s other m n keyed at named order = rw at (
    rw full (elim (Bool-cases (is_pointer ptr (Assoc.lookup s.user_id m.sessions))) [
      | inr stale ↦ rw stale (rw (elsewhere stale) refl)
      | inl current ↦ rw current (elim (Bool-cases (is_replaced e || leb_ℤ ttl (pos 0))) [
        | inl gone ↦ rw gone (
            ap (live t heap) (Assoc.lookup-remove s.user_id other m.sessions)
            ∙ rw (whose current) (removed (s.user_id == other)))
        | inr kept ↦ rw kept (
            ap (live t after) (prune_lem later after other m n)
            ∙ live-live later t after (Assoc.lookup other m.sessions) order
            ∙ retained-live t (now + pos_part ttl) ptr s heap (Assoc.lookup other m.sessions) at
                (lasts kept))
      ])
    ]))
  where
    full : (s.user_id == []) ≡ false
    full = elim (Bool-cases (s.user_id == [])) [
      | inl e ↦ absurd (named ((text_beq_iff s.user_id []).0 e))
      | inr e ↦ e
    ]

    -- The pointer stands under the name of its user only.
    pointed : (o : Option ℕ) → is_pointer ptr o ≡ true → o ≡ some ptr
    pointed none h = cc
    pointed (some p) h = ap (λ q. some q) (ground arith)

    own : is_pointer ptr (Assoc.lookup other m.sessions) ≡ true → s.user_id ≡ other
    own h = rw at at (keyed other ptr (pointed (Assoc.lookup other m.sessions) h))

    elsewhere :
        is_pointer ptr (Assoc.lookup s.user_id m.sessions) ≡ false
        → is_pointer ptr (Assoc.lookup other m.sessions) ≡ false
    elsewhere stale = elim (Bool-cases (is_pointer ptr (Assoc.lookup other m.sessions))) [
      | inl h ↦ let k = rw (own h) at stale in cc
      | inr h ↦ h
    ]

    whose :
        is_pointer ptr (Assoc.lookup s.user_id m.sessions) ≡ true
        → is_pointer ptr (Assoc.lookup other m.sessions) ≡ (s.user_id == other)
    whose current = elim (Bool-cases (s.user_id == other)) [
      | inl same ↦ rw same (rw ((text_beq_iff s.user_id other).0 same) at current)
      | inr differs ↦ elim (Bool-cases (is_pointer ptr (Assoc.lookup other m.sessions))) [
        | inl h ↦ let k = (text_beq_iff s.user_id other).1 (own h) in cc
        | inr h ↦ rw differs h
      ]
    ]

    ttl : ℤ
    ttl = m.options.offline_read_only_ttl

    after : Heap
    after = Assoc.insert ptr (retain_offline (now + pos_part ttl) s).0 heap

    removed :
        (b : Bool)
        → live t heap (if b then none else Assoc.lookup other m.sessions)
          ≡ (if b then none else shown t heap m other)
    removed true = refl
    removed false = refl

    positive : (k : ℤ) → leb_ℤ k (pos 0) ≡ false → 0 < pos_part k
    positive (pos n) h = ground arith
    positive (negsuc n) h = ground arith

    lasts : (is_replaced e || leb_ℤ ttl (pos 0)) ≡ false → ((now + pos_part ttl) == 0) ≡ false
    lasts h =
        let long : leb_ℤ ttl (pos 0) ≡ false = ground arith in
        let k = positive ttl long in ground arith
