-- ===== src/Syncer/Handle/Answers.antt =====
-- Every request is answered, and leaves no path locked.
use rclaude.Prelude.{
  ℕ, ◌^◌, ◌<◌, ◌≡◌, refl, Bool, Option, none, some, List, [], ◌∷◌, Text, codes, Result, ok, err,
  length, if◌then◌else◌,
}
use rclaude.Syncer.Slices.{slice_content_lem, window}
use rclaude.Syncer.Os.{Os, IoError, FileStat, DirEntry}
use rclaude.Syncer.Messages.{
  ReadFileReq, PathReq, info, content, entries, system, no_entry, nil_operation, failed,
  file_info_from_fs, Operation, read, stat, list_dir, write, delete, mkdir, rename, truncate, unset,
  FileRequest, FileResponse, success_response, unknown_operation,
}
use rclaude.Syncer.Handle.{
  plain, follow, limit_read, read_bytes, read_checked, stat_found, stat_checked, list_found,
  list_checked, list_entries, HandleOptions, Checked, refused, allowed, check_path, handle_read,
  handle_stat, handle_list_dir,
}
use rclaude.Syncer.Handle.Mutating.{Daemon}
use rclaude.Syncer.Handle.Dispatch.{Handled, handle_operation, handle}
use rclaude.Syncer.Handle.Unlocks.{IsFree}
use rclaude.Syncer.Handle.Ends.{
  Answers, err_response-Answers, success_response-Answers, Ends, handle_write-Ends,
  handle_mkdir-Ends, handle_delete-Ends, handle_rename-Ends, handle_truncate-Ends,
}
use rclaude.Syncer.Audit.{audit_request}

module _ {Disk File : Type 0} (os : Os Disk File) (matches : Text → Text → Bool) where
  handle_stat-Answers :
      (id : Text) (r : Option PathReq) (opts : HandleOptions) (disk : Disk)
      → Answers id (handle_stat os matches id r opts disk)
  unfolding handle_stat
  handle_stat-Answers id none opts disk = err_response-Answers id (nil_operation (codes "stat"))
  handle_stat-Answers id (some r) opts disk =
      checked (check_path os matches (codes "stat") r.path no_entry opts plain disk)
    where
      told : (found : Result IoError FileStat) → Answers id (stat_found os matches id r found)
      told (err e) = err_response-Answers id (failed (codes "stat") r.path (system e))
      told (ok found) = success_response-Answers id (info (file_info_from_fs r.path found))

      checked : (c : Checked) → Answers id (stat_checked os matches id r disk c)
      checked (refused failure) = err_response-Answers id failure
      checked (allowed abs) = told (os.lstat abs disk)

  handle_list_dir-Answers :
      (id : Text) (r : Option PathReq) (opts : HandleOptions) (disk : Disk)
      → Answers id (handle_list_dir os matches id r opts disk)
  unfolding handle_list_dir
  handle_list_dir-Answers id none opts disk =
      err_response-Answers id (nil_operation (codes "list_dir"))
  handle_list_dir-Answers id (some r) opts disk =
      checked (check_path os matches (codes "list") r.path no_entry opts follow disk)
    where
      told :
          (found : Result IoError (List DirEntry))
          → Answers id (list_found os matches id r opts found)
      told (err e) = err_response-Answers id (failed (codes "list") r.path (system e))
      told (ok found) =
          success_response-Answers id
            (entries (list_entries os matches r.path opts.sensitive_filter found))

      checked : (c : Checked) → Answers id (list_checked os matches id r opts disk c)
      checked (refused failure) = err_response-Answers id failure
      checked (allowed abs) = told (os.read_dir abs disk)

  handle_read-Answers :
      (id : Text) (r : Option ReadFileReq) (opts : HandleOptions) (disk : Disk)
      → ((path : Text) (bytes : List ℕ) → os.read_file path disk ≡ ok bytes → length bytes < 2 ^ 63)
      → (resp : FileResponse) × (handle_read os matches id r opts disk ≡ some resp)
        × Answers id resp
  unfolding handle_read
  handle_read-Answers id none opts disk small =
      (_, refl, err_response-Answers id (nil_operation (codes "read")))
  handle_read-Answers id (some r) opts disk small =
      checked (check_path os matches (codes "read") r.path no_entry opts follow disk)
    where
      told :
          (abs : Text) (found : Result IoError (List ℕ))
          → os.read_file abs disk ≡ found
          → (resp : FileResponse) × (read_bytes os matches id r opts found ≡ some resp)
            × Answers id resp
      told abs (err e) eq =
          (_, refl, err_response-Answers id (failed (codes "read") r.path (system e)))
      told abs (ok bytes) eq = (
        success_response id
            (content (limit_read os matches opts.max_read_size (window bytes r.offset r.length))),
        rw (slice_content_lem bytes r.offset r.length (small abs bytes eq)).0 refl,
        success_response-Answers id
            (content (limit_read os matches opts.max_read_size (window bytes r.offset r.length))),
      )

      checked :
          (c : Checked)
          → (resp : FileResponse) × (read_checked os matches id r opts disk c ≡ some resp)
            × Answers id resp
      checked (refused failure) = (_, refl, err_response-Answers id failure)
      checked (allowed abs) = told abs (os.read_file abs disk) refl

  handle_operation-Ends :
      (now : ℕ) (id : Text) (op : Operation) (opts : HandleOptions) (d : Daemon Disk)
      → ((path : Text) (bytes : List ℕ)
          → os.read_file path d.disk ≡ ok bytes
          → length bytes < 2 ^ 63)
      → IsFree d.locker
      → (result : Daemon Disk × FileResponse) × (handle_operation os matches now id op opts d
          ≡ some result)
        × Ends os matches id result
  unfolding handle_operation
  handle_operation-Ends now id (read r) opts d small free =
      let (resp, e, answers) = handle_read-Answers id r opts d.disk small in
      ((d, resp), rw e refl, (answers, free))
  handle_operation-Ends now id (stat r) opts d small free =
      (_, refl, (handle_stat-Answers id r opts d.disk, free))
  handle_operation-Ends now id (list_dir r) opts d small free =
      (_, refl, (handle_list_dir-Answers id r opts d.disk, free))
  handle_operation-Ends now id (write r) opts d small free =
      (_, refl, handle_write-Ends os matches now id opts d free r)
  handle_operation-Ends now id (delete r) opts d small free =
      (_, refl, handle_delete-Ends os matches now id opts d free r)
  handle_operation-Ends now id (mkdir r) opts d small free =
      (_, refl, handle_mkdir-Ends os matches now id opts d free r)
  handle_operation-Ends now id (rename r) opts d small free =
      (_, refl, handle_rename-Ends os matches now id opts d free r)
  handle_operation-Ends now id (truncate r) opts d small free =
      (_, refl, handle_truncate-Ends os matches now id opts d free r)
  handle_operation-Ends now id unset opts d small free =
      (_, refl, (err_response-Answers id unknown_operation, free))

  -- When the files on the disk are shorter than 2 ^ 63 bytes and the locker of the daemon is free,
  -- Handle does not panic on any request; its response has the request's id, and an error exactly
  -- when it is no success; the locker is free again; and an auditor gets one record, that of the
  -- request and this response.
  pub handle-Answers :
      (now : ℕ) (has_auditor : Bool) (req : FileRequest) (opts : HandleOptions) (d : Daemon Disk)
      → ((path : Text) (bytes : List ℕ)
          → os.read_file path d.disk ≡ ok bytes
          → length bytes < 2 ^ 63)
      → IsFree d.locker
      → (h : Handled os matches) × (handle os matches now has_auditor (some req) opts d ≡ some h)
        × Answers req.request_id h.response
        × IsFree h.daemon.locker
        × (h.audited ≡ (if has_auditor then audit_request now req h.response ∷ [] else []))
  unfolding handle
  handle-Answers now has_auditor req opts d small free =
      let ((next, resp), e, (answers, kept)) =
        handle_operation-Ends now req.request_id req.operation opts d small free in
      (
        record {
          daemon = next;
          response = resp;
          audited = if has_auditor then audit_request now req resp ∷ [] else [];
        },
        rw e refl,
        answers,
        kept,
        refl,
      )
