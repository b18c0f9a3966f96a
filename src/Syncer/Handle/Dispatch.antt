-- ===== src/Syncer/Handle/Dispatch.antt =====
-- Handle of pkg/syncer/handle.go: every request, and its audit.
use rclaude.Prelude.{ℕ, Bool, Option, none, some, List, [], ◌∷◌, Text, if◌then◌else◌}
use rclaude.Syncer.Os.{Os}
use rclaude.Syncer.Messages.{
  Operation, read, stat, list_dir, write, delete, mkdir, rename, truncate, unset, FileRequest,
  FileResponse, nil_request, unknown_operation, err_response,
}
use rclaude.Syncer.Audit.{AuditRecord, audit_request}
use rclaude.Syncer.Handle.{HandleOptions, handle_read, handle_stat, handle_list_dir}
use rclaude.Syncer.Handle.Mutating.{
  Daemon, handle_write, handle_delete, handle_mkdir, handle_rename, handle_truncate,
}

module _ {Disk File : Type 0} (os : Os Disk File) (matches : Text → Text → Bool) where
  abbrev unchanged : Daemon Disk → Option FileResponse → Option (Daemon Disk × FileResponse)
  unchanged d none = none
  unchanged d (some response) = some (d, response)

  -- handleReadLike and handleMutating
  unfoldable pub handle_operation :
      ℕ → Text → Operation → HandleOptions → Daemon Disk → Option (Daemon Disk × FileResponse)
  handle_operation now id (read r) opts d = unchanged d (handle_read os matches id r opts d.disk)
  handle_operation now id (stat r) opts d = some (d, handle_stat os matches id r opts d.disk)
  handle_operation now id (list_dir r) opts d =
      some (d, handle_list_dir os matches id r opts d.disk)
  handle_operation now id (write r) opts d = some (handle_write os matches now id r opts d)
  handle_operation now id (delete r) opts d = some (handle_delete os matches now id r opts d)
  handle_operation now id (mkdir r) opts d = some (handle_mkdir os matches now id r opts d)
  handle_operation now id (rename r) opts d = some (handle_rename os matches now id r opts d)
  handle_operation now id (truncate r) opts d = some (handle_truncate os matches now id r opts d)
  handle_operation now id unset opts d = some (d, err_response id unknown_operation)

  -- The daemon after a request, its response, and what was recorded.
  pub record Handled : Type 0 where
    pub daemon : Daemon Disk
    pub response : FileResponse
    pub audited : List AuditRecord

  abbrev audit_handled :
      ℕ → Bool → FileRequest → Option (Daemon Disk × FileResponse) → Option Handled
  audit_handled now has_auditor req none = none
  audit_handled now has_auditor req (some (d, response)) = some record {
    daemon = d;
    response = response;
    audited = if has_auditor then audit_request now req response ∷ [] else [];
  }

  -- Handle
  unfoldable pub handle :
      ℕ → Bool → Option FileRequest → HandleOptions → Daemon Disk → Option Handled
  handle now has_auditor none opts d =
      some record { daemon = d; response = err_response [] nil_request; audited = [] }
  handle now has_auditor (some req) opts d =
      audit_handled now has_auditor req (handle_operation now req.request_id req.operation opts d)
