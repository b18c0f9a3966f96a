-- ===== src/Syncer/Handle.antt =====
-- pkg/syncer/handle.go: the requests that read. A result of `none` is a panic.
pub mod Mutating
pub mod Dispatch
pub mod Hidden
pub mod Unlocks
pub mod Ends
pub mod Answers
use rclaude.Prelude.{
  ℕ, Bool, true, false, not, ◌&&◌, Option, none, some, List, [], ◌∷◌, Text, codes, take, length,
  if◌then◌else◌, Result, ok, err,
}
use rclaude.Prelude.Int.{ℤ, pos, pos_part, ltb_ℤ}
use rclaude.FsTree.{Info}
use rclaude.Syncer.Files.{join_rel_path}
use rclaude.Syncer.Slices.{slice_content}
use rclaude.Syncer.Sensitive.{SensitiveFilter, is_sensitive_path}
use rclaude.Syncer.Os.{Os, IoError, FileStat, DirEntry}
use rclaude.Syncer.Resolution.{
  ResolveError, ResolveOptions, is_not_exist, resolve_workspace_path, blocks_sensitive_path,
}
use rclaude.Syncer.Messages.{
  ReadFileReq, PathReq, Operation, read, stat, list_dir, Cause, resolve, system, no_entry, Failure,
  nil_operation, unsafe_path, failed, content, info, entries, FileResponse, err_response,
  success_response, file_info_from_fs,
}

-- HandleOptions without the locker, the filter of own writes and the auditor, which are state
pub record HandleOptions : Type 0 where
  pub root : Text
  pub max_read_size : ℤ
  pub sensitive_filter : Option SensitiveFilter

abbrev pub follow : ResolveOptions
follow = record { allow_missing_leaf = false; follow_final_symlink = true }

abbrev pub plain : ResolveOptions
plain = record { allow_missing_leaf = false; follow_final_symlink = false }

-- What the check of a path ends in: a response, or the path on the disk.
pub data Checked : Type 0 where
  refused : Failure → Checked
  allowed : Text → Checked

-- The start of every handler, with the cause by which it refuses a sensitive path.
abbrev judge : Text → Text → Cause → Text → Result ResolveError Bool → Checked
judge op path cause abs (err e) =
    if not (is_not_exist e) then refused (failed op path (resolve e)) else allowed abs
judge op path cause abs (ok blocked) =
    if blocked then refused (failed op path cause) else allowed abs

module _ {Disk File : Type 0} (os : Os Disk File) (matches : Text → Text → Bool) where
  abbrev check_resolved :
      Text
      → Text
      → Cause
      → HandleOptions
      → ResolveOptions
      → Disk
      → Result ResolveError Text
      → Checked
  check_resolved op path cause opts how disk (err e) = refused (unsafe_path e)
  check_resolved op path cause opts how disk (ok abs) =
      judge op path cause abs
        (blocks_sensitive_path os matches opts.root path opts.sensitive_filter how disk)

  unfoldable pub check_path : Text → Text → Cause → HandleOptions → ResolveOptions → Disk → Checked
  check_path op path cause opts how disk =
      check_resolved op path cause opts how disk (resolve_workspace_path opts.root path)

  -- handleRead
  abbrev pub limit_read : ℤ → List ℕ → List ℕ
  limit_read max bytes =
      if ltb_ℤ (pos 0) max && ltb_ℤ max (pos (length bytes))
      then take (pos_part max) bytes
      else bytes

  abbrev pub read_sliced : Text → HandleOptions → Option (List ℕ) → Option FileResponse
  read_sliced id opts none = none
  read_sliced id opts (some sliced) =
      some (success_response id (content (limit_read opts.max_read_size sliced)))

  abbrev pub read_bytes :
      Text → ReadFileReq → HandleOptions → Result IoError (List ℕ) → Option FileResponse
  read_bytes id r opts (err e) = some (err_response id (failed (codes "read") r.path (system e)))
  read_bytes id r opts (ok bytes) = read_sliced id opts (slice_content bytes r.offset r.length)

  abbrev pub read_checked :
      Text → ReadFileReq → HandleOptions → Disk → Checked → Option FileResponse
  read_checked id r opts disk (refused failure) = some (err_response id failure)
  read_checked id r opts disk (allowed abs) = read_bytes id r opts (os.read_file abs disk)

  unfoldable pub handle_read :
      Text → Option ReadFileReq → HandleOptions → Disk → Option FileResponse
  handle_read id none opts disk = some (err_response id (nil_operation (codes "read")))
  handle_read id (some r) opts disk =
      read_checked id r opts disk (check_path (codes "read") r.path no_entry opts follow disk)

  -- handleStat
  abbrev pub stat_found : Text → PathReq → Result IoError FileStat → FileResponse
  stat_found id r (err e) = err_response id (failed (codes "stat") r.path (system e))
  stat_found id r (ok found) = success_response id (info (file_info_from_fs r.path found))

  abbrev pub stat_checked : Text → PathReq → Disk → Checked → FileResponse
  stat_checked id r disk (refused failure) = err_response id failure
  stat_checked id r disk (allowed abs) = stat_found id r (os.lstat abs disk)

  unfoldable pub handle_stat : Text → Option PathReq → HandleOptions → Disk → FileResponse
  handle_stat id none opts disk = err_response id (nil_operation (codes "stat"))
  handle_stat id (some r) opts disk =
      stat_checked id r disk (check_path (codes "stat") r.path no_entry opts plain disk)

  -- The loop of handleListDir over the entries.
  abbrev pub list_entry :
      Text → Option SensitiveFilter → Text → Result IoError FileStat → List Info → List Info
  list_entry path filter name (err e) rest = rest
  list_entry path filter name (ok found) rest =
      let entry_path = join_rel_path path name in
      if is_sensitive_path matches filter entry_path
      then rest
      else file_info_from_fs entry_path found ∷ rest

  unfoldable pub list_entries : Text → Option SensitiveFilter → List DirEntry → List Info
  list_entries path filter [] = []
  list_entries path filter (entry ∷ rest) =
      list_entry path filter entry.name entry.info (list_entries path filter rest)

  -- handleListDir
  abbrev pub list_found :
      Text → PathReq → HandleOptions → Result IoError (List DirEntry) → FileResponse
  list_found id r opts (err e) = err_response id (failed (codes "list") r.path (system e))
  list_found id r opts (ok found) =
      success_response id (entries (list_entries r.path opts.sensitive_filter found))

  abbrev pub list_checked : Text → PathReq → HandleOptions → Disk → Checked → FileResponse
  list_checked id r opts disk (refused failure) = err_response id failure
  list_checked id r opts disk (allowed abs) = list_found id r opts (os.read_dir abs disk)

  unfoldable pub handle_list_dir : Text → Option PathReq → HandleOptions → Disk → FileResponse
  handle_list_dir id none opts disk = err_response id (nil_operation (codes "list_dir"))
  handle_list_dir id (some r) opts disk =
      list_checked id r opts disk (check_path (codes "list") r.path no_entry opts follow disk)
