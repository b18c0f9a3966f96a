-- ===== src/Tests/Manager.antt =====
-- A manager with one session.
use rclaude.Prelude.{
  ◌&&◌, ◌+◌, Bool-cases, inl, inr, ltb, text_beq_iff, some, arith, ℕ, ◌≡◌, refl, ◌≢◌, none, some,
  [], ◌∷◌, codes, true, false, ◌||◌, text_beq, ◌==◌, text_eq, nat_eq, if◌then◌else◌, ok,
}
use rclaude.Prelude.Int.{pos, pos_part, leb_ℤ}
use rclaude.Prelude.Assoc
use rclaude.Session.{Session, is_replaced, new_session, decimal, decimal_digits}
use rclaude.Manager.{
  user_ids, Manager, ManagerOptions, Heap, user_of, register, get, is_pointer, handle_disconnect,
  register_pty, unregister_pty, next_pty_session_id,
}
use rclaude.Sorting.{IsAscending, member}
use rclaude.Manager.Users.{is_there, user_ids_lem}
use rclaude.Manager.Pty.{accepted, register_pty_lem}
use rclaude.Manager.Expiry.{live}
use rclaude.Manager.Sessions.{
  read_expired, shown, IsKeyed, get_lem, register_lem, handle_disconnect_lem,
}

abbrev options : ManagerOptions
options = record {
  request_timeout = pos 5;
  cache_max_bytes = pos 4;
  offline_read_only_ttl = pos 60;
  prefetch_enabled = true;
  prefetch_max_file_bytes = pos 1;
  prefetch_max_files_per_dir = pos 1;
}

abbrev heap : Heap
heap = (0, new_session (codes "u") (pos 4)) ∷ []

abbrev manager : Manager
manager = record {
  sessions = (codes "u", 0) ∷ [];
  active_pty = [];
  next_pty_id = 0;
  options = options;
}

abbrev busy : Manager
busy = record manager { active_pty = (codes "u", codes "u-pty-1") ∷ []; next_pty_id = 1 }

register_pty_test : register_pty (codes "u") manager ≡ (busy, ok (codes "u-pty-1"))
unfolding register_pty next_pty_session_id decimal decimal_digits text_beq Assoc.lookup Assoc.insert
register_pty_test = refl

user_full : user_of (Assoc.lookup 0 heap) ≢ []
unfolding Assoc.lookup new_session
user_full = λ e. cc

register_pty_lem_example :
    (accepted (register_pty (codes "v") busy).1
      ≡ (if codes "u" == codes "v" then false else accepted (register_pty (codes "v") manager).1))
    × ((codes "x" == codes "u-pty-1") ≡ false
        → unregister_pty (codes "u") (codes "x") busy ≡ (busy, false))
    × ((unregister_pty (codes "u") (codes "u-pty-1") busy).1 ≡ true)
    × (accepted (register_pty (codes "v") (unregister_pty (codes "u") (codes "u-pty-1") busy).0).1
        ≡ accepted (register_pty (codes "v") manager).1)
register_pty_lem_example =
    register_pty_lem (codes "u") (codes "u-pty-1") (codes "x") (codes "v") manager busy
      register_pty_test

-- The session that was read had expired by 3; another one came before the second lock.
abbrev ended : Session
ended = record (new_session (codes "u") (pos 4)) { offline_until = 2 }

abbrev two : Heap
two = (0, ended) ∷ (1, new_session (codes "u") (pos 4)) ∷ []

abbrev renewed : Manager
renewed = record manager { sessions = (codes "u", 1) ∷ [] }

get_lem_example :
    ((get 3 two (codes "u") manager 4 two renewed).1
      ≡ live 3 two (Assoc.lookup (codes "u") manager.sessions))
    × (Assoc.lookup (codes "u") (get 3 two (codes "u") manager 4 two renewed).0.sessions ≡ (
        if codes "u" == codes "u"
          && read_expired 3 two
              (Assoc.lookup (codes "u") manager.sessions)
              (Assoc.lookup (codes "u") renewed.sessions)
        then live 4 two (Assoc.lookup (codes "u") renewed.sessions)
        else Assoc.lookup (codes "u") renewed.sessions))
    × (live 4 two
          (Assoc.lookup (codes "u") (get 3 two (codes "u") manager 4 two renewed).0.sessions)
        ≡ live 4 two (Assoc.lookup (codes "u") renewed.sessions))
get_lem_example = get_lem 3 two (codes "u") (codes "u") manager 4 two renewed

nodup : Assoc.NodupKeys manager.sessions
nodup = (Assoc.lookup-nil {V = ℕ} (codes "u"), tt)

register_lem_example :
    ((register 3 heap (some 0) manager).1
      ≡ ok (live 3 heap (Assoc.lookup (user_of (Assoc.lookup 0 heap)) manager.sessions)))
    × (Assoc.lookup (codes "u") (register 3 heap (some 0) manager).0.sessions ≡ (
        if user_of (Assoc.lookup 0 heap) == codes "u"
        then some 0
        else live 3 heap (Assoc.lookup (codes "u") manager.sessions)))
register_lem_example = register_lem 3 heap 0 (codes "u") manager nodup user_full

keyed : IsKeyed heap manager
unfolding Assoc.lookup new_session
keyed user p h = elim (Bool-cases (codes "u" == user)) [
  | inl same ↦
      let k : some 0 ≡ some p = rw same at h in
      let first : 0 ≡ p = cc k in rw (← first) ((text_beq_iff (codes "u") user).0 same)
  | inr other ↦ cc (rw other at h)
]

handle_disconnect_lem_example :
    shown 70
      (handle_disconnect 3 4 (some 0) none heap manager).1
      (handle_disconnect 3 4 (some 0) none heap manager).0
      (codes "u")
    ≡ (if is_pointer 0 (Assoc.lookup (codes "u") manager.sessions)
        then (if is_replaced none || leb_ℤ manager.options.offline_read_only_ttl (pos 0)
            then none
            else if is_replaced (new_session (codes "u") (pos 4)).close_err
            then shown 70 heap manager (codes "u")
            else if ltb 70 (3 + pos_part manager.options.offline_read_only_ttl)
            then some 0
            else none)
        else shown 70 heap manager (codes "u"))
handle_disconnect_lem_example =
    handle_disconnect_lem 3 4 70 0 none heap (new_session (codes "u") (pos 4)) (codes "u") manager
      nodup keyed (unfold Assoc.lookup in refl) (unfold new_session in λ e. cc) (omega arith)

user_ids_lem_example :
    IsAscending (user_ids 3 heap manager).1
    × (member (codes "u") (user_ids 3 heap manager).1
        ≡ is_there (live 3 heap (Assoc.lookup (codes "u") manager.sessions)))
user_ids_lem_example = user_ids_lem 3 heap (codes "u") manager nodup
