-- ===== src/Syncer/Messages.antt =====
-- The requests and responses of the protocol as the daemon handles them, and its answers: parts of
-- pkg/syncer/handle.go and handle_write.go. An error's text is kept as what it tells.
use rclaude.Prelude.{ℕ, Bool, true, false, Option, none, some, List, Text}
use rclaude.Prelude.Int.{ℤ}
use rclaude.FsTree.{Info}
use rclaude.SafePath.{to_slash}
use rclaude.Syncer.Os.{IoError, FileStat, is_directory}
use rclaude.Syncer.Resolution.{ResolveError}

pub record ReadFileReq : Type 0 where
  pub path : Text
  pub offset : ℤ
  pub length : ℤ

pub record WriteFileReq : Type 0 where
  pub path : Text
  pub content : List ℕ
  pub offset : ℤ
  pub append : Bool
  pub mode : ℕ

-- StatReq, ListDirReq and DeleteReq
pub record PathReq : Type 0 where
  pub path : Text

pub record MkdirReq : Type 0 where
  pub path : Text
  pub recursive : Bool

pub record RenameReq : Type 0 where
  pub old_path : Text
  pub new_path : Text

pub record TruncateReq : Type 0 where
  pub path : Text
  pub size : ℤ

-- The oneof of remotefsv1.FileRequest, each case with a pointer; `unset` has none.
pub data Operation : Type 0 where
  read : Option ReadFileReq → Operation
  stat : Option PathReq → Operation
  list_dir : Option PathReq → Operation
  write : Option WriteFileReq → Operation
  delete : Option PathReq → Operation
  mkdir : Option MkdirReq → Operation
  rename : Option RenameReq → Operation
  truncate : Option TruncateReq → Operation
  unset : Operation

-- remotefsv1.FileRequest
pub record FileRequest : Type 0 where
  pub request_id : Text
  pub operation : Operation

-- What a failure tells: of a path, or of a call of the system.
pub data Cause : Type 0 where
  resolve : ResolveError → Cause
  system : IoError → Cause
  -- syscall.ENOENT, fs.ErrPermission and "invalid argument"
  no_entry permission invalid_argument : Cause

pub data Failure : Type 0 where
  nil_request unknown_operation : Failure
  -- "syncer: nil read request" and the like
  nil_operation : Text → Failure
  unsafe_path : ResolveError → Failure
  -- formatErr
  failed : Text → Text → Cause → Failure
  -- formatRenameErr
  failed_rename : Text → Text → Cause → Failure

pub data Answer : Type 0 where
  no_result : Answer
  content : List ℕ → Answer
  info : Info → Answer
  entries : List Info → Answer

-- remotefsv1.FileResponse
pub record FileResponse : Type 0 where
  pub request_id : Text
  pub success : Bool
  pub error : Option Failure
  pub result : Answer

-- errResponse
unfoldable pub err_response : Text → Failure → FileResponse
err_response id failure = record {
  request_id = id;
  success = false;
  error = some failure;
  result = no_result;
}

-- &remotefsv1.FileResponse{RequestId: reqID, Success: true, Result: ...}, successWithInfo and
-- successNoResult
unfoldable pub success_response : Text → Answer → FileResponse
success_response id answer = record {
  request_id = id;
  success = true;
  error = none;
  result = answer;
}

-- fileInfoFromFS
unfoldable pub file_info_from_fs : Text → FileStat → Info
file_info_from_fs path found = record {
  path = to_slash path;
  size = found.size;
  mod_time = found.mod_time;
  is_dir = is_directory found;
  mode = found.perm;
}
