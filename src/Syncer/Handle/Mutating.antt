-- ===== src/Syncer/Handle/Mutating.antt =====
-- pkg/syncer/handle_write.go: the requests that change the workspace, and Handle of handle.go over
-- all of them. The locks are those of Syncer/Locker; a handler that waits for one is not modelled
-- here, so that each request runs by itself, as runRecvLoop calls Handle.
use rclaude.Prelude.{
  ℕ, Bool, true, false, not, ◌&&◌, Option, none, some, List, [], ◌∷◌, Text, codes, ◌==◌, nat_eq,
  if◌then◌else◌, Result, ok, err,
}
use rclaude.Prelude.Int.{ℤ, pos, ltb_ℤ}
use rclaude.Syncer.Locker.{lock_keys}
use rclaude.Syncer.Locker.Entries.{PathLocker, enter_lock, set_locked, leave_lock}
use rclaude.Syncer.Locker.Threads.{Held}
use rclaude.Syncer.SelfWrite.{SelfWriteFilter, remember}
use rclaude.Syncer.Os.{Os, IoError, FileStat, append_create, write_create}
use rclaude.Syncer.Resolution.{ResolveError, ResolveOptions, is_not_exist, has_sensitive_descendant}
use rclaude.Syncer.Messages.{
  PathReq, WriteFileReq, MkdirReq, RenameReq, TruncateReq, resolve, system, permission,
  invalid_argument, Failure, nil_operation, failed, failed_rename, no_result, info, FileResponse,
  err_response, success_response, file_info_from_fs,
}
use rclaude.Syncer.Handle.{HandleOptions, Checked, refused, allowed, plain, follow, check_path}

abbrev pub leaf : ResolveOptions
leaf = record { allow_missing_leaf = true; follow_final_symlink = false }

abbrev pub follow_leaf : ResolveOptions
follow_leaf = record { allow_missing_leaf = true; follow_final_symlink = true }

-- What the handlers share and change.
pub record Daemon (Disk : Type 0) : Type 0 where
  pub disk : Disk
  pub locker : Option PathLocker
  pub self_writes : Option SelfWriteFilter

-- LockMany, with the locks that it returns the release of, the latest first.
abbrev lock_one : Text → PathLocker → PathLocker × ℕ
lock_one key l = let (entered, id) = enter_lock key l in (set_locked true id entered, id)

unfoldable pub lock_all : List Text → PathLocker → List Held → PathLocker × List Held
lock_all [] l held = (l, held)
lock_all (key ∷ keys) l held =
    let (locked, id) = lock_one key l in lock_all keys locked ((key, id) ∷ held)

unfoldable pub unlock_all : List Held → PathLocker → PathLocker
unlock_all [] l = l
unlock_all ((key, id) ∷ held) l = unlock_all held (leave_lock key id (set_locked false id l))

-- Remember, on a filter that may be nil
abbrev pub remember_paths : ℕ → List Text → Option SelfWriteFilter → Option SelfWriteFilter
remember_paths now paths none = none
remember_paths now paths (some f) = some (remember now paths f)

-- defaultWriteMode
unfoldable pub default_write_mode : ℕ → ℕ
default_write_mode mode = if mode == 0 then 0x1a4 else mode

module _ {Disk File : Type 0} (os : Os Disk File) (matches : Text → Text → Bool) where
  -- A step of a handler on the disk, behind its locks: the disk, and the response.
  abbrev pub Work : Type 0
  Work = Disk → Disk × FileResponse

  -- The frame of every handler: it locks the paths, remembers them as its own, works, and unlocks.
  abbrev pub locked_work :
      PathLocker → List Held → Daemon Disk → Disk × FileResponse → Daemon Disk × FileResponse
  locked_work l held d (disk, response) =
      (record d { disk = disk; locker = some (unlock_all held l) }, response)

  abbrev pub frame_locked :
      List Text → Work → Daemon Disk → Option PathLocker → Daemon Disk × FileResponse
  frame_locked paths work d none =
      let (disk, response) = work d.disk in (record d { disk = disk }, response)
  frame_locked paths work d (some l) =
      let (locked, held) = lock_all (lock_keys paths) l [] in
      locked_work locked held d (work d.disk)

  unfoldable pub with_locks : ℕ → List Text → Work → Daemon Disk → Daemon Disk × FileResponse
  with_locks now paths work d =
      let next : Daemon Disk = record d { self_writes = remember_paths now paths d.self_writes } in
      frame_locked paths work next next.locker

  -- lstatToFileInfo, and the response of a handler that has done its work
  abbrev pub stat_result :
      Text → (IoError → Failure) → Text → Disk → Result IoError FileStat → Disk × FileResponse
  stat_result id fail path disk (ok found) =
      (disk, success_response id (info (file_info_from_fs path found)))
  stat_result id fail path disk (err e) = (disk, err_response id (fail e))

  unfoldable pub finish_with_info :
      Text → (IoError → Failure) → Text → Text → Disk × Option IoError → Disk × FileResponse
  finish_with_info id fail abs path (disk, some e) = (disk, err_response id (fail e))
  finish_with_info id fail abs path (disk, none) = stat_result id fail path disk (os.lstat abs disk)

  -- writeContent and closeAfterWrite: the error of the write comes before that of the close
  abbrev close_error : Option IoError → Disk × Option IoError → Disk × Option IoError
  close_error (some e) (disk, _) = (disk, some e)
  close_error none closed = closed

  unfoldable pub write_content : File → List ℕ → ℤ → Bool → Disk → Disk × Option IoError
  write_content file bytes offset append disk =
      if append then os.write file bytes disk else os.write_at file bytes offset disk

  unfoldable pub close_after_write : File → Disk × Option IoError → Disk × Option IoError
  close_after_write file (disk, failure) = close_error failure (os.close file disk)

  -- openWriteTarget
  unfoldable pub open_write_target : Text → ℕ → Bool → Disk → Disk × Result IoError File
  open_write_target abs mode append disk =
      os.open_file abs (if append then append_create else write_create) mode disk

  -- handleWrite
  abbrev pub write_opened : WriteFileReq → Disk × Result IoError File → Disk × Option IoError
  write_opened r (disk, err e) = (disk, some e)
  write_opened r (disk, ok file) =
      close_after_write file (write_content file r.content r.offset r.append disk)

  abbrev pub write_work : Text → WriteFileReq → Text → Work
  write_work id r abs disk =
      finish_with_info id (λ e. failed (codes "write") r.path (system e)) abs r.path
        (write_opened r (open_write_target abs (default_write_mode r.mode) r.append disk))

  abbrev pub write_checked :
      ℕ → Text → WriteFileReq → Daemon Disk → Checked → Daemon Disk × FileResponse
  write_checked now id r d (refused failure) = (d, err_response id failure)
  write_checked now id r d (allowed abs) = with_locks now (r.path ∷ []) (write_work id r abs) d

  unfoldable pub handle_write :
      ℕ → Text → Option WriteFileReq → HandleOptions → Daemon Disk → Daemon Disk × FileResponse
  handle_write now id none opts d = (d, err_response id (nil_operation (codes "write")))
  handle_write now id (some r) opts d =
      if not r.append && ltb_ℤ r.offset (pos 0)
      then (d, err_response id (failed (codes "write") r.path invalid_argument))
      else write_checked now id r d
          (check_path os matches (codes "write") r.path permission opts follow_leaf d.disk)

  -- handleMkdir
  abbrev pub mkdir_work : Text → MkdirReq → Text → Work
  mkdir_work id r abs disk =
      finish_with_info id (λ e. failed (codes "mkdir") r.path (system e)) abs r.path
        (if r.recursive then os.mkdir_all abs 0x1ed disk else os.mkdir abs 0x1ed disk)

  abbrev pub mkdir_checked :
      ℕ → Text → MkdirReq → Daemon Disk → Checked → Daemon Disk × FileResponse
  mkdir_checked now id r d (refused failure) = (d, err_response id failure)
  mkdir_checked now id r d (allowed abs) = with_locks now (r.path ∷ []) (mkdir_work id r abs) d

  unfoldable pub handle_mkdir :
      ℕ → Text → Option MkdirReq → HandleOptions → Daemon Disk → Daemon Disk × FileResponse
  handle_mkdir now id none opts d = (d, err_response id (nil_operation (codes "mkdir")))
  handle_mkdir now id (some r) opts d =
      mkdir_checked now id r d
        (check_path os matches (codes "mkdir") r.path permission opts leaf d.disk)

  -- handleDelete
  abbrev pub removed : Text → PathReq → Disk × Option IoError → Disk × FileResponse
  removed id r (disk, some e) = (disk, err_response id (failed (codes "delete") r.path (system e)))
  removed id r (disk, none) = (disk, success_response id no_result)

  abbrev pub delete_checked :
      ℕ → Text → PathReq → Daemon Disk → Checked → Daemon Disk × FileResponse
  delete_checked now id r d (refused failure) = (d, err_response id failure)
  delete_checked now id r d (allowed abs) =
      with_locks now (r.path ∷ []) (λ disk. removed id r (os.remove abs disk)) d

  unfoldable pub handle_delete :
      ℕ → Text → Option PathReq → HandleOptions → Daemon Disk → Daemon Disk × FileResponse
  handle_delete now id none opts d = (d, err_response id (nil_operation (codes "delete")))
  handle_delete now id (some r) opts d =
      delete_checked now id r d
        (check_path os matches (codes "delete") r.path permission opts plain d.disk)

  -- resolveRenamePaths: both paths on the disk, or the failure
  abbrev judge_descendants :
      RenameReq → Text → Text → Result ResolveError Bool → Result Failure (Text × Text)
  judge_descendants r old_abs new_abs (err e) =
      if not (is_not_exist e)
      then err (failed (codes "rename") r.old_path (resolve e))
      else ok (old_abs, new_abs)
  judge_descendants r old_abs new_abs (ok sensitive) =
      if sensitive
      then err (failed_rename r.old_path r.new_path permission)
      else ok (old_abs, new_abs)

  abbrev rename_new_checked :
      RenameReq → HandleOptions → Disk → Text → Checked → Result Failure (Text × Text)
  rename_new_checked r opts disk old_abs (refused failure) = err failure
  rename_new_checked r opts disk old_abs (allowed new_abs) =
      judge_descendants r old_abs new_abs
        (has_sensitive_descendant os matches opts.root r.old_path opts.sensitive_filter disk)

  abbrev rename_old_checked :
      RenameReq → HandleOptions → Disk → Checked → Result Failure (Text × Text)
  rename_old_checked r opts disk (refused failure) = err failure
  rename_old_checked r opts disk (allowed old_abs) =
      rename_new_checked r opts disk old_abs
        (check_path os matches (codes "rename") r.new_path permission opts leaf disk)

  unfoldable pub resolve_rename_paths :
      RenameReq → HandleOptions → Disk → Result Failure (Text × Text)
  resolve_rename_paths r opts disk =
      rename_old_checked r opts disk
        (check_path os matches (codes "rename") r.old_path permission opts plain disk)

  -- handleRename
  abbrev pub rename_work : Text → RenameReq → Text → Text → Work
  rename_work id r old_abs new_abs disk =
      finish_with_info id (λ e. failed_rename r.old_path r.new_path (system e)) new_abs r.new_path
        (os.rename_file old_abs new_abs disk)

  abbrev pub rename_checked :
      ℕ → Text → RenameReq → Daemon Disk → Result Failure (Text × Text) → Daemon Disk × FileResponse
  rename_checked now id r d (err failure) = (d, err_response id failure)
  rename_checked now id r d (ok (old_abs, new_abs)) =
      with_locks now (r.old_path ∷ r.new_path ∷ []) (rename_work id r old_abs new_abs) d

  unfoldable pub handle_rename :
      ℕ → Text → Option RenameReq → HandleOptions → Daemon Disk → Daemon Disk × FileResponse
  handle_rename now id none opts d = (d, err_response id (nil_operation (codes "rename")))
  handle_rename now id (some r) opts d =
      rename_checked now id r d (resolve_rename_paths r opts d.disk)

  -- handleTruncate
  abbrev pub truncate_work : Text → TruncateReq → Text → Work
  truncate_work id r abs disk =
      finish_with_info id (λ e. failed (codes "truncate") r.path (system e)) abs r.path
        (os.truncate abs r.size disk)

  abbrev pub truncate_checked :
      ℕ → Text → TruncateReq → Daemon Disk → Checked → Daemon Disk × FileResponse
  truncate_checked now id r d (refused failure) = (d, err_response id failure)
  truncate_checked now id r d (allowed abs) =
      with_locks now (r.path ∷ []) (truncate_work id r abs) d

  unfoldable pub handle_truncate :
      ℕ → Text → Option TruncateReq → HandleOptions → Daemon Disk → Daemon Disk × FileResponse
  handle_truncate now id none opts d = (d, err_response id (nil_operation (codes "truncate")))
  handle_truncate now id (some r) opts d =
      if ltb_ℤ r.size (pos 0)
      then (d, err_response id (failed (codes "truncate") r.path invalid_argument))
      else truncate_checked now id r d
          (check_path os matches (codes "truncate") r.path permission opts follow d.disk)
