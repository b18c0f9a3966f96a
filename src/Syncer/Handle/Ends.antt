-- ===== src/Syncer/Handle/Ends.antt =====
-- Each handler that changes the workspace answers its request, and leaves no path locked.
use rclaude.Prelude.{
  ℕ, ◌≡◌, refl, ◌↔◌, inl, inr, Bool, true, not, ◌&&◌, Option, none, some, List, [], ◌∷◌, Text,
  codes, Bool-cases, Result, ok, err, if◌then◌else◌,
}
use rclaude.Prelude.Int.{pos, ltb_ℤ}
use rclaude.Syncer.Locker.Entries.{PathLocker}
use rclaude.Syncer.Os.{Os, IoError, FileStat}
use rclaude.Syncer.Messages.{
  PathReq, WriteFileReq, MkdirReq, RenameReq, TruncateReq, no_result, info, system, permission,
  invalid_argument, nil_operation, failed, failed_rename, file_info_from_fs, Failure, Answer,
  FileResponse, err_response, success_response,
}
use rclaude.Syncer.Handle.{plain, follow, HandleOptions, Checked, refused, allowed, check_path}
use rclaude.Syncer.Handle.Mutating.{
  leaf, follow_leaf, stat_result, frame_locked, remember_paths, write_checked, write_work,
  write_opened, open_write_target, default_write_mode, mkdir_checked, mkdir_work, removed,
  delete_checked, rename_checked, rename_work, truncate_checked, truncate_work, Daemon, with_locks,
  finish_with_info, resolve_rename_paths, handle_write, handle_delete, handle_mkdir, handle_rename,
  handle_truncate,
}
use rclaude.Syncer.Handle.Unlocks.{IsFree, unlock_all-lock_all}

-- A response to the request of the id, with an error just if it is no success.
abbrev pub Answers : Text → FileResponse → Type 0
Answers id resp = (resp.request_id ≡ id) × ((resp.success ≡ true) ↔ (resp.error ≡ none))

pub err_response-Answers : (id : Text) (failure : Failure) → Answers id (err_response id failure)
unfolding err_response
err_response-Answers id failure = (refl, (λ e. cc, λ e. cc))

pub success_response-Answers :
    (id : Text) (answer : Answer) → Answers id (success_response id answer)
unfolding success_response
success_response-Answers id answer = (refl, (λ e. refl, λ e. refl))

module _ {Disk File : Type 0} (os : Os Disk File) (matches : Text → Text → Bool) where
  -- What a handler that changes the workspace ends in.
  abbrev pub Ends : Text → Daemon Disk × FileResponse → Type 0
  Ends id (d, resp) = Answers id resp × IsFree d.locker

  pub refused-Ends :
      (id : Text) (d : Daemon Disk) (failure : Failure)
      → IsFree d.locker
      → Ends id (d, err_response id failure)
  refused-Ends id d failure free = (err_response-Answers id failure, free)

  frame_locked-Ends :
      (id : Text) (paths : List Text) (work : Disk → Disk × FileResponse) (d : Daemon Disk)
      → ((disk : Disk) → Answers id (work disk).1)
      → (l : Option PathLocker) → d.locker ≡ l
      → IsFree l
      → Ends id (frame_locked os matches paths work d l)
  frame_locked-Ends id paths work d answers none e free = (answers d.disk, rw e tt)
  frame_locked-Ends id paths work d answers (some l) e free =
      (answers d.disk, unlock_all-lock_all paths l free)

  with_locks-Ends :
      (now : ℕ) (id : Text) (paths : List Text) (work : Disk → Disk × FileResponse)
      (d : Daemon Disk)
      → ((disk : Disk) → Answers id (work disk).1)
      → IsFree d.locker
      → Ends id (with_locks os matches now paths work d)
  unfolding with_locks
  with_locks-Ends now id paths work d answers free =
      frame_locked-Ends id paths work
        (record d { self_writes = remember_paths now paths d.self_writes }) answers d.locker refl
        free

  finish_with_info-Answers :
      (id : Text) (fail : IoError → Failure) (abs path : Text) (done : Disk × Option IoError)
      → Answers id (finish_with_info os matches id fail abs path done).1
  unfolding finish_with_info
  finish_with_info-Answers id fail abs path (disk, some e) = err_response-Answers id (fail e)
  finish_with_info-Answers id fail abs path (disk, none) = told (os.lstat abs disk)
    where
      told :
          (found : Result IoError FileStat)
          → Answers id (stat_result os matches id fail path disk found).1
      told (ok found) = success_response-Answers id (info (file_info_from_fs path found))
      told (err e) = err_response-Answers id (fail e)

  module _ (now : ℕ) (id : Text) (opts : HandleOptions) (d : Daemon Disk)
      (free : IsFree d.locker) where
    pub handle_write-Ends :
        (r : Option WriteFileReq) → Ends id (handle_write os matches now id r opts d)
    unfolding handle_write
    handle_write-Ends none = refused-Ends id d (nil_operation (codes "write")) free
    handle_write-Ends (some r) = elim (Bool-cases (not r.append && ltb_ℤ r.offset (pos 0))) [
      | inl bad ↦ rw bad (refused-Ends id d (failed (codes "write") r.path invalid_argument) free)
      | inr good ↦ rw good (
          checked (check_path os matches (codes "write") r.path permission opts follow_leaf d.disk))
    ]
      where
        checked : (c : Checked) → Ends id (write_checked os matches now id r d c)
        checked (refused failure) = refused-Ends id d failure free
        checked (allowed abs) =
            with_locks-Ends now id (r.path ∷ []) (write_work os matches id r abs) d
              (λ disk.
                finish_with_info-Answers id (λ e. failed (codes "write") r.path (system e)) abs
                  r.path
                  (write_opened os matches r
                    (open_write_target os matches abs (default_write_mode r.mode) r.append disk)))
              free

    pub handle_mkdir-Ends :
        (r : Option MkdirReq) → Ends id (handle_mkdir os matches now id r opts d)
    unfolding handle_mkdir
    handle_mkdir-Ends none = refused-Ends id d (nil_operation (codes "mkdir")) free
    handle_mkdir-Ends (some r) =
        checked (check_path os matches (codes "mkdir") r.path permission opts leaf d.disk)
      where
        checked : (c : Checked) → Ends id (mkdir_checked os matches now id r d c)
        checked (refused failure) = refused-Ends id d failure free
        checked (allowed abs) =
            with_locks-Ends now id (r.path ∷ []) (mkdir_work os matches id r abs) d
              (λ disk.
                finish_with_info-Answers id (λ e. failed (codes "mkdir") r.path (system e)) abs
                  r.path
                  (if r.recursive then os.mkdir_all abs 0x1ed disk else os.mkdir abs 0x1ed disk))
              free

    pub handle_delete-Ends :
        (r : Option PathReq) → Ends id (handle_delete os matches now id r opts d)
    unfolding handle_delete
    handle_delete-Ends none = refused-Ends id d (nil_operation (codes "delete")) free
    handle_delete-Ends (some r) =
        checked (check_path os matches (codes "delete") r.path permission opts plain d.disk)
      where
        done : (result : Disk × Option IoError) → Answers id (removed os matches id r result).1
        done (disk, some e) = err_response-Answers id (failed (codes "delete") r.path (system e))
        done (disk, none) = success_response-Answers id no_result

        checked : (c : Checked) → Ends id (delete_checked os matches now id r d c)
        checked (refused failure) = refused-Ends id d failure free
        checked (allowed abs) =
            with_locks-Ends now id (r.path ∷ [])
              (λ disk. removed os matches id r (os.remove abs disk)) d
              (λ disk. done (os.remove abs disk)) free

    pub handle_rename-Ends :
        (r : Option RenameReq) → Ends id (handle_rename os matches now id r opts d)
    unfolding handle_rename
    handle_rename-Ends none = refused-Ends id d (nil_operation (codes "rename")) free
    handle_rename-Ends (some r) = checked (resolve_rename_paths os matches r opts d.disk)
      where
        checked :
            (c : Result Failure (Text × Text)) → Ends id (rename_checked os matches now id r d c)
        checked (err failure) = refused-Ends id d failure free
        checked (ok (old_abs, new_abs)) =
            with_locks-Ends now id (r.old_path ∷ r.new_path ∷ [])
              (rename_work os matches id r old_abs new_abs) d
              (λ disk.
                finish_with_info-Answers id (λ e. failed_rename r.old_path r.new_path (system e))
                  new_abs r.new_path (os.rename_file old_abs new_abs disk))
              free

    pub handle_truncate-Ends :
        (r : Option TruncateReq) → Ends id (handle_truncate os matches now id r opts d)
    unfolding handle_truncate
    handle_truncate-Ends none = refused-Ends id d (nil_operation (codes "truncate")) free
    handle_truncate-Ends (some r) = elim (Bool-cases (ltb_ℤ r.size (pos 0))) [
      | inl bad ↦
          rw bad (refused-Ends id d (failed (codes "truncate") r.path invalid_argument) free)
      | inr good ↦
          rw good (
            checked (check_path os matches (codes "truncate") r.path permission opts follow d.disk))
    ]
      where
        checked : (c : Checked) → Ends id (truncate_checked os matches now id r d c)
        checked (refused failure) = refused-Ends id d failure free
        checked (allowed abs) =
            with_locks-Ends now id (r.path ∷ []) (truncate_work os matches id r abs) d
              (λ disk.
                finish_with_info-Answers id (λ e. failed (codes "truncate") r.path (system e)) abs
                  r.path (os.truncate abs r.size disk))
              free
