-- ===== src/Tests/Service.antt =====
-- A second daemon of a user takes the place of the first.
use rclaude.Prelude.{
  ℕ, ◌≡◌, refl, ◌≢◌, Option, none, some, [], ◌∷◌, codes, true, text_beq, text_eq, nat_eq,
  if◌then◌else◌, ok, is_space, trim_space, trim_left, contains_any, replace_all,
}
use rclaude.Prelude.Int.{pos}
use rclaude.Prelude.Assoc
use rclaude.Paths.{paths_run}
use rclaude.SafePath.{safe_path_run}
use rclaude.Session.{
  Session, DaemonMessage, file_tree, new_session, bootstrap, replace_tree, build_tree,
  touch_heartbeat, clear_content_cache,
}
use rclaude.Manager.{Manager, ManagerOptions, Heap, new_session_for, is_pointer}
use rclaude.Manager.Expiry.{live}
use rclaude.Service.{open_session}
use rclaude.Service.Replace.{closed_from, open_session_lem}

session : Unit {0}
unfolding bootstrap replace_tree build_tree touch_heartbeat clear_content_cache safe_path_run
    paths_run is_space trim_space trim_left contains_any replace_all text_beq
session = tt

abbrev options : ManagerOptions
options = record {
  request_timeout = pos 5;
  cache_max_bytes = pos 4;
  offline_read_only_ttl = pos 60;
  prefetch_enabled = true;
  prefetch_max_file_bytes = pos 1;
  prefetch_max_files_per_dir = pos 1;
}

abbrev heap : Heap
heap = (0, new_session (codes "u") (pos 4)) ∷ []

abbrev manager : Manager
manager = record {
  sessions = (codes "u", 0) ∷ [];
  active_pty = [];
  next_pty_id = 0;
  options = options;
}

abbrev first : Option DaemonMessage
first = some (file_tree (some (record { files = []; workspace_name = codes " work " })))

abbrev opened : Session
opened = (bootstrap 3 first (new_session_for (codes "u") manager)).0

accepted : bootstrap 3 first (new_session_for (codes "u") manager) ≡ (opened, none)
unfolding session
accepted = refl

named : opened.workspace_name ≡ codes "work"
unfolding session
named = refl

user_full : codes "u" ≢ []
user_full = λ e. cc

nodup : Assoc.NodupKeys manager.sessions
nodup = (Assoc.lookup-nil {V = ℕ} (codes "u"), tt)

open_session_lem_example :
    ((open_session 3 1 (some (codes "u")) (ok first) heap manager).1 ≡ none)
    × (Assoc.lookup
          (codes "u")
          (open_session 3 1 (some (codes "u")) (ok first) heap manager).0.0.sessions
        ≡ some 1)
    × (Assoc.lookup 0 (open_session 3 1 (some (codes "u")) (ok first) heap manager).0.1 ≡ (
        if is_pointer 0
          (live 3 (Assoc.insert 1 opened heap) (Assoc.lookup (codes "u") manager.sessions))
        then closed_from (Assoc.lookup 0 (Assoc.insert 1 opened heap))
        else Assoc.lookup 0 (Assoc.insert 1 opened heap)))
open_session_lem_example =
    open_session_lem 3 1 0 (codes "u") first heap manager opened nodup user_full accepted
