-- ===== src/Syncer/Audit.antt =====
-- pkg/syncer/audit.go: the record of a request that was handled (pkg/audit/audit.go).
use rclaude.Prelude.{ℕ, Bool, Option, none, some, List, [], Text, codes, length}
use rclaude.Prelude.Int.{ℤ, pos}
use rclaude.Syncer.Messages.{
  WriteFileReq, TruncateReq, Operation, read, stat, list_dir, write, delete, mkdir, rename,
  truncate, unset, FileRequest, FileResponse, Failure, Answer, content,
}

-- audit.Record
pub record AuditRecord : Type 0 where
  pub time : ℕ
  pub request_id : Text
  pub operation : Text
  pub path : Text
  pub target : Text
  pub bytes : ℤ
  pub success : Bool
  pub error : Option Failure

-- GetPath and the like, on a pointer that may be nil
abbrev pub or_empty : {A : Type 0} → (A → Text) → Option A → Text
or_empty field none = []
or_empty field (some r) = field r

-- GetContent
abbrev content_of : Answer → List ℕ
content_of (content bytes) = bytes
content_of _ = []

abbrev size_of : Option TruncateReq → ℤ
size_of none = pos 0
size_of (some r) = r.size

abbrev sent_by : Option WriteFileReq → List ℕ
sent_by none = []
sent_by (some r) = r.content

-- fillReadLikeAudit and fillMutatingAudit
unfoldable pub fill_audit : Operation → FileResponse → AuditRecord → AuditRecord
fill_audit (read r) resp rec = record rec {
  operation = codes "read";
  path = or_empty (λ q. q.path) r;
  bytes = pos (length (content_of resp.result));
}
fill_audit (stat r) resp rec = record rec {
  operation = codes "stat";
  path = or_empty (λ q. q.path) r;
}
fill_audit (list_dir r) resp rec = record rec {
  operation = codes "list_dir";
  path = or_empty (λ q. q.path) r;
}
fill_audit (write r) resp rec = record rec {
  operation = codes "write";
  path = or_empty (λ q. q.path) r;
  bytes = pos (length (sent_by r));
}
fill_audit (delete r) resp rec = record rec {
  operation = codes "delete";
  path = or_empty (λ q. q.path) r;
}
fill_audit (mkdir r) resp rec = record rec {
  operation = codes "mkdir";
  path = or_empty (λ q. q.path) r;
}
fill_audit (rename r) resp rec = record rec {
  operation = codes "rename";
  path = or_empty (λ q. q.old_path) r;
  target = or_empty (λ q. q.new_path) r;
}
fill_audit (truncate r) resp rec = record rec {
  operation = codes "truncate";
  path = or_empty (λ q. q.path) r;
  bytes = size_of r;
}
fill_audit unset resp rec = record rec { operation = codes "unknown" }

-- auditRequest, where there is an auditor
unfoldable pub audit_request : ℕ → FileRequest → FileResponse → AuditRecord
audit_request now req resp = fill_audit req.operation resp record {
  time = now;
  request_id = req.request_id;
  operation = [];
  path = [];
  target = [];
  bytes = pos 0;
  success = resp.success;
  error = resp.error;
}
