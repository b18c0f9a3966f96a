-- ===== src/Manager.antt =====
-- pkg/session/manager.go: the sessions by user and the one PTY of each. A session is a pointer
-- into a heap, so that "the same session" is the same pointer; each region under the lock is one
-- step, and `now` is what time.Now() returns in it.
pub mod Expiry
pub mod Retention
pub mod Sessions
pub mod Pty
pub mod Users
use rclaude.Prelude.{
  ℕ, zero, suc, ◌+◌, ◌%◌, ◌^◌, Bool, true, false, not, ◌&&◌, ◌||◌, Option, none, some, List, [],
  ◌∷◌, ◌++◌, Text, codes, ltb, ◌==◌, text_eq, nat_eq, if◌then◌else◌, Result, ok, err,
}
use rclaude.Prelude.Int.{ℤ, pos, leb_ℤ, pos_part}
use rclaude.Prelude.Assoc
use rclaude.Prelude.Assoc.{Assoc}
use rclaude.Session
use rclaude.Sorting.{sort_texts}
use rclaude.Session.{Session, SessionError, is_replaced, is_expired, retain_offline, decimal}

pub data ManagerError : Type 0 where
  nil_session : ManagerError
  empty_user_id : ManagerError
  pty_busy : ManagerError

pub record ManagerOptions : Type 0 where
  pub request_timeout : ℤ
  pub cache_max_bytes : ℤ
  pub offline_read_only_ttl : ℤ
  pub prefetch_enabled : Bool
  pub prefetch_max_file_bytes : ℤ
  pub prefetch_max_files_per_dir : ℤ

pub record Manager : Type 0 where
  pub sessions : Assoc Text ℕ
  pub active_pty : Assoc Text Text
  pub next_pty_id : ℕ
  pub options : ManagerOptions

abbrev pub Heap : Type 0
Heap = Assoc ℕ Session

-- NewManager
unfoldable pub new_manager : ManagerOptions → Manager
new_manager options = record { sessions = []; active_pty = []; next_pty_id = 0; options = options }

-- Manager.NewSession
unfoldable pub new_session_for : Text → Manager → Session
new_session_for user m = Session.new_session user m.options.cache_max_bytes

-- s.IsExpired(now) of a pointer
abbrev pub expired_session : ℕ → Option Session → Bool
expired_session now none = false
expired_session now (some s) = is_expired now now s

unfoldable pub expired_at : ℕ → Heap → ℕ → Bool
expired_at now heap ptr = expired_session now (Assoc.lookup ptr heap)

-- The loop of pruneExpiredLocked over the map as it stands at the start.
unfoldable pub prune_each : ℕ → Heap → Assoc Text ℕ → Assoc Text ℕ → Assoc Text ℕ
prune_each now heap [] sessions = sessions
prune_each now heap ((user, current) ∷ rest) sessions =
    prune_each now heap rest
      (if expired_at now heap current then Assoc.remove user sessions else sessions)

-- pruneExpiredLocked
unfoldable pub prune_expired_locked : ℕ → Heap → Manager → Manager
prune_expired_locked now heap m = record m { sessions = prune_each now heap m.sessions m.sessions }

-- UserID
abbrev pub user_of : Option Session → Text
user_of none = []
user_of (some s) = s.user_id

-- Register: the manager, and the session that was replaced
unfoldable pub register : ℕ → Heap → Option ℕ → Manager → Manager × Result ManagerError (Option ℕ)
register now heap none m = (m, err nil_session)
register now heap (some ptr) m =
    let user = user_of (Assoc.lookup ptr heap) in
    if user == []
    then (m, err empty_user_id)
    else (let pruned = prune_expired_locked now heap m in
        (
          record pruned { sessions = Assoc.insert user ptr pruned.sessions },
          ok (Assoc.lookup user pruned.sessions),
        ))

-- removeExpired
abbrev pub same_expired : ℕ → Heap → ℕ → Option ℕ → Bool
same_expired now heap expired none = false
same_expired now heap expired (some current) = current == expired && expired_at now heap current

unfoldable pub remove_expired : ℕ → Heap → Text → ℕ → Manager → Manager
remove_expired now heap user expired m =
    if same_expired now heap expired (Assoc.lookup user m.sessions)
    then record m { sessions = Assoc.remove user m.sessions }
    else m

-- Get: it reads `m` under the first lock; it looks whether that session has expired by `now` in
-- `heap`; and where it has, the second lock finds what `later`, `then_heap` and `then_m` are, which
-- other calls may have changed in between.
unfoldable pub get :
    (now : ℕ) (heap : Heap) (user : Text) (m : Manager) (later : ℕ) (then_heap : Heap)
    (then_m : Manager)
    → Manager × Option ℕ
get now heap user m later then_heap then_m = elim (Assoc.lookup user m.sessions) [
  | none ↦ (then_m, none)
  | some s ↦
      if expired_at now heap s
      then (remove_expired later then_heap user s then_m, none)
      else (then_m, some s)
]

-- sessionClosed of a pointer
abbrev pub closed_session : Option Session → Bool
closed_session none = true
closed_session (some s) = s.closed

-- LookupDaemon
unfoldable pub lookup_daemon : ℕ → Heap → Text → Manager → Manager × Option ℕ
lookup_daemon now heap user m =
    if user == []
    then (m, none)
    else (let pruned = prune_expired_locked now heap m in
        elim (Assoc.lookup user pruned.sessions) [
          | none ↦ (pruned, none)
          | some s ↦
              if closed_session (Assoc.lookup s heap) then (pruned, none) else (pruned, some s)
        ])

-- nextPTYSessionIDLocked
unfoldable pub next_pty_session_id : Text → Manager → Manager × Text
next_pty_session_id user m =
    let id = (m.next_pty_id + 1) % 2 ^ 64 in
    (record m { next_pty_id = id }, user ++ (codes "-pty-" ++ decimal id))

-- RegisterPTY
unfoldable pub register_pty : Text → Manager → Manager × Result ManagerError Text
register_pty user m =
    if user == [] then (m, err empty_user_id) else elim (Assoc.lookup user m.active_pty) [
      | some _ ↦ (m, err pty_busy)
      | none ↦
          let (next, id) = next_pty_session_id user m in
          (record next { active_pty = Assoc.insert user id next.active_pty }, ok id)
    ]

-- UnregisterPTY
unfoldable pub unregister_pty : Text → Text → Manager → Manager × Bool
unregister_pty user id m =
    if user == [] || id == [] then (m, false) else elim (Assoc.lookup user m.active_pty) [
      | none ↦ (m, false)
      | some current ↦
          if current == id
          then (record m { active_pty = Assoc.remove user m.active_pty }, true)
          else (m, false)
    ]

-- Remove
abbrev pub is_pointer : ℕ → Option ℕ → Bool
is_pointer s none = false
is_pointer s (some current) = current == s

unfoldable pub remove : Heap → Option ℕ → Manager → Manager
remove heap none m = m
remove heap (some s) m =
    let user = user_of (Assoc.lookup s heap) in
    if user == []
    then m
    else if is_pointer s (Assoc.lookup user m.sessions)
    then record m { sessions = Assoc.remove user m.sessions }
    else m

-- UserIDs
abbrev pub keys : Assoc Text ℕ → List Text
keys [] = []
keys ((user, _) ∷ rest) = user ∷ keys rest

unfoldable pub user_ids : ℕ → Heap → Manager → Manager × List Text
user_ids now heap m =
    let pruned = prune_expired_locked now heap m in (pruned, sort_texts (keys pruned.sessions))

-- current.RetainOffline(time.Now().Add(ttl)), in the heap
abbrev pub retain_at : ℕ → ℕ → Option Session → Heap → Heap
retain_at until ptr none heap = heap
retain_at until ptr (some s) heap = Assoc.insert ptr (retain_offline until s).0 heap

-- HandleDisconnect, with the times of the retention and of the pruning after it
unfoldable pub handle_disconnect :
    (now later : ℕ) → Option ℕ → Option SessionError → Heap → Manager → Manager × Heap
handle_disconnect now later none serve_err heap m = (m, heap)
handle_disconnect now later (some current) serve_err heap m =
    let user = user_of (Assoc.lookup current heap) in
    let ttl = m.options.offline_read_only_ttl in
    if user == []
    then (m, heap)
    else if not (is_pointer current (Assoc.lookup user m.sessions))
    then (m, heap)
    else if is_replaced serve_err || leb_ℤ ttl (pos 0)
    then (record m { sessions = Assoc.remove user m.sessions }, heap)
    else (let retained = retain_at (now + pos_part ttl) current (Assoc.lookup current heap) heap in
        (prune_expired_locked later retained m, retained))
