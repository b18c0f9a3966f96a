-- ===== src/Tests/Disk.antt =====
-- A daemon whose disk is a table of files: requests, the first scan, and events.
use rclaude.Prelude.{
  ℕ, ◌^◌, ◌<◌, ◌≡◌, refl, inl, inr, Bool, true, false, Option, none, some, List, [], ◌∷◌, Text,
  codes, text_beq, starts_with, text_eq, ◌==◌, arith, Result, ok, err, length, All, Bool-cases,
  if◌then◌else◌, contains_text, replace_all,
}
use rclaude.Prelude.Int.{pos}
use rclaude.Prelude.Assoc
use rclaude.Prelude.Assoc.{Assoc}
use rclaude.Paths.{paths_run}
use rclaude.SafePath.{safe_path_run, to_slash}
use rclaude.Normalize.{normalize, relative_form}
use rclaude.FsTree.{Info}
use rclaude.Syncer.Files.{join_rel_path}
use rclaude.Syncer.Sensitive.{
  SensitiveFilter, climb, path_candidates, match_path, match_any_candidate, match_any_pattern,
  match_sensitive_pattern, is_sensitive_path,
}
use rclaude.Syncer.Locker.{lock_keys, dedup_keys}
use rclaude.Sorting.{sort_texts, insert_sorted, text_lt}
use rclaude.Syncer.Locker.Entries.{new_path_locker, enter_lock, set_locked, leave_lock}
use rclaude.Syncer.Locker.Threads.{idle}
use rclaude.Syncer.Locker.Kept.{start-IsSound}
use rclaude.Syncer.Os.{
  Os, IoError, not_exist, FileStat, regular, directory, DirEntry, Walk, visited, no_more, more,
}
use rclaude.Syncer.Resolution.{
  resolve_workspace_path, join_all, split_abs_path, lstat_action_path, should_follow_symlink,
  expand_symlink_target, resolve_parts, resolve_action_target_pass, resolve_rounds,
  resolve_action_target_abs, resolve_action_target_rel, blocks_sensitive_path,
}
use rclaude.Syncer.Messages.{
  Operation, write, FileRequest, FileResponse, err_response, success_response, file_info_from_fs,
}
use rclaude.Syncer.Audit.{audit_request}
use rclaude.Syncer.Handle.{HandleOptions, check_path, handle_read}
use rclaude.Syncer.Handle.Mutating.{
  Daemon, handle_write, with_locks, lock_all, unlock_all, default_write_mode, open_write_target,
  write_content, close_after_write, finish_with_info,
}
use rclaude.Syncer.Handle.Dispatch.{Handled, handle, handle_operation}
use rclaude.Syncer.Handle.Hidden.{IsRefused, handle_operation-IsRefused}
use rclaude.Syncer.Handle.Unlocks.{IsFree}
use rclaude.Syncer.Handle.Ends.{Answers}
use rclaude.Syncer.Handle.Answers.{handle-Answers}
use rclaude.Syncer.Scan.{
  scan, scan_walk, scan_entry, match_exclude, validate_scan_root, scan_relative_path,
  dir_entry_to_file_info,
}

abbrev Disk : Type 0
Disk = Assoc Text (List ℕ)

abbrev file_stat : FileStat
file_stat = record { size = pos 1; mod_time = pos 0; kind = regular; perm = 0x1a4 }

abbrev folder_stat : FileStat
folder_stat = record { size = pos 0; mod_time = pos 0; kind = directory; perm = 0x1ed }

abbrev stat_of : Option (List ℕ) → Result IoError FileStat
stat_of none = err not_exist
stat_of (some bytes) = ok file_stat

abbrev bytes_of : Option (List ℕ) → Result IoError (List ℕ)
bytes_of none = err not_exist
bytes_of (some bytes) = ok bytes

abbrev root : Text
root = codes "/w"

abbrev look : Text → Disk → Result IoError FileStat
look path disk = if path == root then ok folder_stat else stat_of (Assoc.lookup path disk)

abbrev entry : Text → Bool → FileStat → DirEntry
entry name is_dir found = record { name = name; is_dir = is_dir; info = ok found }

abbrev file_walk : Text → Text → Walk
file_walk path name =
    visited (record { path = path; entry = entry name false file_stat; failed = none }) no_more

abbrev root_walk : Walk
root_walk =
    visited (record { path = root; entry = entry (codes "w") true folder_stat; failed = none })
      (more (file_walk (codes "/w/a") (codes "a"))
        (more (file_walk (codes "/w/.env") (codes ".env")) no_more))

-- A file is written whole, and its handle is its path.
abbrev memory : Os Disk Text
memory = record {
  lstat = look;
  stat = look;
  read_link = λ path disk. err not_exist;
  eval_symlinks = λ path disk. ok path;
  read_file = λ path disk. bytes_of (Assoc.lookup path disk);
  read_dir = λ path disk. ok [];
  walk_dir = λ path disk. root_walk;
  open_file = λ path mode perm disk. (disk, ok path);
  write = λ file bytes disk. (Assoc.insert file bytes disk, none);
  write_at = λ file bytes offset disk. (Assoc.insert file bytes disk, none);
  close = λ file disk. (disk, none);
  mkdir = λ path perm disk. (disk, none);
  mkdir_all = λ path perm disk. (disk, none);
  remove = λ path disk. (Assoc.remove path disk, none);
  rename_file = λ old new disk. (disk, none);
  truncate = λ path size disk. (disk, none);
}

abbrev exactly : Text → Text → Bool
exactly pattern target = pattern == target

abbrev hide_env : Option SensitiveFilter
hide_env = some (record { patterns = codes ".env" ∷ [] })

abbrev opts : HandleOptions
opts = record { root = root; max_read_size = pos 0; sensitive_filter = hide_env }

abbrev disk : Disk
disk = (codes "/w/a", 7 ∷ []) ∷ (codes "/w/.env", 9 ∷ []) ∷ []

abbrev daemon : Daemon Disk
daemon = record { disk = disk; locker = some new_path_locker; self_writes = none }

abbrev write_a : Operation
write_a = write (
    some
      (record { path = codes "a"; content = 1 ∷ 2 ∷ []; offset = pos 0; append = false; mode = 0 }))

abbrev write_env : Operation
write_env = write (
    some
      (record { path = codes ".env"; content = 1 ∷ []; offset = pos 0; append = false; mode = 0 }))

disk_run : Unit {0}
unfolding match_path match_any_candidate match_any_pattern match_sensitive_pattern path_candidates
    climb is_sensitive_path normalize relative_form replace_all paths_run safe_path_run
    contains_text starts_with text_beq to_slash join_rel_path Assoc.lookup Assoc.insert Assoc.remove
    lock_keys dedup_keys sort_texts insert_sorted text_lt enter_lock set_locked leave_lock
    new_path_locker resolve_workspace_path join_all split_abs_path lstat_action_path
    should_follow_symlink expand_symlink_target resolve_parts resolve_action_target_pass
    resolve_rounds resolve_action_target_abs resolve_action_target_rel blocks_sensitive_path
    err_response success_response file_info_from_fs audit_request check_path handle_read
    handle_write with_locks lock_all unlock_all default_write_mode open_write_target write_content
    close_after_write finish_with_info handle_operation handle scan scan_walk scan_entry
    match_exclude validate_scan_root scan_relative_path dir_entry_to_file_info
disk_run = tt

abbrev written : Option (Daemon Disk × FileResponse) → Option (List ℕ)
written none = none
written (some (d, resp)) = Assoc.lookup (codes "/w/a") d.disk

write_test :
    written (handle_operation memory exactly 3 (codes "1") write_a opts daemon) ≡ some (1 ∷ 2 ∷ [])
unfolding disk_run
write_test = refl

handle_operation-IsRefused_example :
    IsRefused memory exactly daemon
      (handle_operation memory exactly 3 (codes "1") write_env opts daemon)
handle_operation-IsRefused_example =
    handle_operation-IsRefused memory exactly 3 (codes "1") write_env opts daemon (inl env_hidden)
  where
    env_hidden : is_sensitive_path exactly hide_env (codes ".env") ≡ true
    env_hidden = unfold disk_run in refl

abbrev request : FileRequest
request = record { request_id = codes "1"; operation = write_a }

small_entries :
    (n : ℕ) (path : Text) (bytes : List ℕ) (d : Disk)
    → All (λ e. length e.1 < n) d
    → bytes_of (Assoc.lookup path d) ≡ ok bytes
    → length bytes < n
unfolding Assoc.lookup
small_entries n path bytes [] small h = cc
small_entries n path bytes ((name, kept) ∷ d) (first, small) h = elim (Bool-cases (name == path)) [
  | inl here ↦ let e : kept ≡ bytes = ground (arith, (rw here at h)) in rw (← e) first
  | inr other ↦ small_entries n path bytes d small (rw other at h)
]

small_files :
    (path : Text) (bytes : List ℕ) → memory.read_file path disk ≡ ok bytes → length bytes < 2 ^ 63
small_files path bytes h = small_entries (2 ^ 63) path bytes disk (omega arith) h

handle-Answers_example :
    (h : Handled memory exactly) × (handle memory exactly 3 true (some request) opts daemon
      ≡ some h)
    × Answers (codes "1") h.response
    × IsFree h.daemon.locker
    × (h.audited ≡ audit_request 3 request h.response ∷ [])
handle-Answers_example =
    handle-Answers memory exactly 3 true request opts daemon small_files
      (start-IsSound (idle ∷ []) (refl, tt))

abbrev file_a : Info
file_a = record { path = codes "a"; size = pos 1; mod_time = pos 0; is_dir = false; mode = 0x1a4 }
