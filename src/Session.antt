-- ===== src/Session.antt =====
-- pkg/session/session.go: the server's state for one daemon. Each region under a lock is one
-- step; a time is a number of nanoseconds, and 0 is the zero time.
pub mod Changes
pub mod Forgets
pub mod Lifecycle
use rclaude.Prelude.{
  ℕ, zero, suc, ◌+◌, ◌-◌, ◌/◌, ◌%◌, ◌^◌, Bool, true, false, not, Option, none, some, List, [], ◌∷◌,
  ◌++◌, Text, codes, ltb, ◌==◌, text_eq, nat_eq, if◌then◌else◌, Result, ok, err,
}
use rclaude.Prelude.Int.{ℤ, pos}
use rclaude.Prelude.Assoc
use rclaude.SafePath
use rclaude.ContentCache
use rclaude.ContentCache.{Cache, Signature}
use rclaude.FsTree
use rclaude.FsTree.{
  Info, Tree, TreeError, nil_change, unknown_change_type, Change, ChangeType, create, modify,
  delete_file, rename, unspecified, Names,
}
use rclaude.Pending
use rclaude.Pending.{Response, Hub}

pub data SessionError : Type 0 where
  nil_request : SessionError
  nil_daemon_message : SessionError
  missing_initial_file_tree : SessionError
  invalid_workspace_name : SessionError
  duplicate_request_id : SessionError
  session_closed : SessionError
  session_replaced : SessionError
  session_offline : SessionError
  -- "session: build file tree: %w" and "session: apply change: %w"
  build_failed : TreeError → SessionError
  apply_failed : TreeError → SessionError
  -- "session: stream recv: %w", of an error of the stream
  stream_recv : ℕ → SessionError

-- remotefsv1.FileTree
pub record FileTree : Type 0 where
  pub files : List (Option Info)
  pub workspace_name : Text

-- remotefsv1.DaemonMessage: the cases of its oneof, each with a pointer; `empty` has none
pub data DaemonMessage : Type 0 where
  file_tree : Option FileTree → DaemonMessage
  change : Option Change → DaemonMessage
  response : Option Response → DaemonMessage
  heartbeat : DaemonMessage
  empty : DaemonMessage

-- remotefsv1.FileRequest: its id, and the operation
pub record Request : Type 0 where
  pub request_id : Text
  pub operation : List ℕ

pub record Session : Type 0 where
  pub user_id : Text
  pub workspace_name : Text
  pub tree : Tree
  pub cache : Cache
  pub prefetching : Names
  pub hub : Hub
  -- the channel `closed`
  pub closed : Bool
  pub close_err : Option SessionError
  pub offline_until : ℕ
  pub req_seq : ℕ
  pub last_heartbeat : ℕ

-- NewSession
unfoldable pub new_session : Text → ℤ → Session
new_session user_id cache_max_bytes = record {
  user_id = user_id;
  workspace_name = [];
  tree = FsTree.new;
  cache = ContentCache.new cache_max_bytes;
  prefetching = [];
  hub = Pending.empty_hub;
  closed = false;
  close_err = none;
  offline_until = 0;
  req_seq = 0;
  last_heartbeat = 0;
}

-- replaceTree
unfoldable pub build_tree : List (Option Info) → Tree → Tree × Option TreeError
build_tree [] t = (t, none)
build_tree (info ∷ infos) t =
    let (next, failed) = FsTree.insert info t in
    elim failed [ none ↦ build_tree infos next | some e ↦ (next, some e) ]

abbrev pub files_of : Option FileTree → List (Option Info)
files_of none = []
files_of (some t) = t.files

abbrev pub keep_built : Session → Tree × Option TreeError → Session × Option SessionError
keep_built s (next, none) = (record s { tree = next }, none)
keep_built s (next, some e) = (s, some (build_failed e))

unfoldable pub replace_tree : Option FileTree → Session → Session × Option SessionError
replace_tree t s = keep_built s (build_tree (files_of t) FsTree.new)

-- touchHeartbeat
unfoldable pub touch_heartbeat : ℕ → Session → Session
touch_heartbeat now s = record s { last_heartbeat = now }

-- clearContentCache
unfoldable pub clear_content_cache : Session → Session
clear_content_cache s = record s { cache = ContentCache.clear s.cache }

-- Bootstrap
abbrev pub finish_bootstrap :
    ℕ → Text → Session × Option SessionError → Session × Option SessionError
finish_bootstrap now name (s, none) =
    (touch_heartbeat now (clear_content_cache (record s { workspace_name = name })), none)
finish_bootstrap now name (s, some e) = (s, some e)

abbrev pub bootstrap_tree :
    ℕ → FileTree → Session → Result SafePath.SafeError Text → Session × Option SessionError
bootstrap_tree now t s (err e) = (s, some invalid_workspace_name)
bootstrap_tree now t s (ok name) = finish_bootstrap now name (replace_tree (some t) s)

unfoldable pub bootstrap : ℕ → Option DaemonMessage → Session → Session × Option SessionError
bootstrap now none s = (s, some nil_daemon_message)
bootstrap now (some (file_tree (some t))) s =
    bootstrap_tree now t s (SafePath.clean_segment t.workspace_name)
bootstrap now (some _) s = (s, some missing_initial_file_tree)

-- InvalidateContent, InvalidateContentPrefix and invalidatePath
unfoldable pub invalidate_path : Text → Bool → Session → Session
invalidate_path p recursive s =
    if recursive
    then record s { cache = ContentCache.invalidate_prefix s.cache p }
    else record s { cache = ContentCache.invalidate s.cache p }

-- invalidateForInfo
unfoldable pub invalidate_for_info : Option Info → Session → Session
invalidate_for_info none s = s
invalidate_for_info (some info) s = invalidate_path info.path info.is_dir s

-- isDirectory
abbrev pub is_directory : Option Info → Bool
is_directory none = false
is_directory (some info) = info.is_dir

-- f.GetPath() of a pointer that may be nil
abbrev pub path_of : Option Info → Text
path_of none = []
path_of (some info) = info.path

-- applyChange: the part that inserts
abbrev pub after_insert :
    (Session → Session) → Session → Tree × Option TreeError → Session × Option SessionError
after_insert invalidate s (t, none) = (invalidate (record s { tree = t }), none)
after_insert invalidate s (t, some e) = (record s { tree = t }, some (apply_failed e))

unfoldable pub apply_insert : Change → Session → Session × Option SessionError
apply_insert c s = after_insert (invalidate_for_info c.file) s (FsTree.insert c.file s.tree)

unfoldable pub delete_path : Text → Session → Session
delete_path p s =
    let old = FsTree.lookup p s.tree in
    invalidate_path p (is_directory old) (record s { tree = FsTree.delete p s.tree })

unfoldable pub apply_rename_change : Change → Session → Session × Option SessionError
apply_rename_change c s =
    let old = FsTree.lookup c.old_path s.tree in
    after_insert (λ t. invalidate_for_info c.file (invalidate_path c.old_path (is_directory old) t))
      s (FsTree.insert c.file (FsTree.delete c.old_path s.tree))

-- applyChange
unfoldable pub change_by_type : ChangeType → Change → Session → Session × Option SessionError
change_by_type create c s = apply_insert c s
change_by_type modify c s = apply_insert c s
change_by_type delete_file c s = (delete_path (path_of c.file) s, none)
change_by_type rename c s = apply_rename_change c s
change_by_type unspecified c s = (s, some (apply_failed unknown_change_type))

unfoldable pub apply_change : Option Change → Session → Session × Option SessionError
apply_change none s = (s, some (apply_failed nil_change))
apply_change (some c) s = change_by_type c.type c s

-- handleDaemonMessage
unfoldable pub handle_body : DaemonMessage → Session → Session × Option SessionError
handle_body (file_tree t) s = replace_tree t s
handle_body (change c) s = apply_change c s
handle_body (response r) s = (record s { hub = Pending.resolve_pending r s.hub }, none)
handle_body heartbeat s = (s, none)
handle_body empty s = (s, none)

unfoldable pub handle_daemon_message :
    ℕ → Option DaemonMessage → Session → Session × Option SessionError
handle_daemon_message now none s = (s, some nil_daemon_message)
handle_daemon_message now (some body) s = handle_body body (touch_heartbeat now s)

-- ApplyWriteResult
unfoldable pub apply_write_result : Option Info → Session → Session
apply_write_result none s = s
apply_write_result (some info) s =
    (after_insert (invalidate_for_info (some info)) s (FsTree.insert (some info) s.tree)).0

-- ApplyDelete
unfoldable pub apply_delete : Text → Session → Session
apply_delete p s = delete_path p s

-- ApplyRename
abbrev rename_to : Text → Bool → Option Info → Session → Session
rename_to old_rel old_dir none s = invalidate_path old_rel old_dir s
rename_to old_rel old_dir (some info) s =
    (after_insert (λ t. invalidate_for_info (some info) (invalidate_path old_rel old_dir t)) s
      (FsTree.insert (some info) s.tree)).0

unfoldable pub apply_rename : Text → Option Info → Session → Session
apply_rename old_rel info s =
    let old = FsTree.lookup old_rel s.tree in
    rename_to old_rel (is_directory old) info (record s { tree = FsTree.delete old_rel s.tree })

-- signatureFromInfo
unfoldable pub signature_from_info : Info → Signature
signature_from_info info = record { size = info.size; mod_time = info.mod_time }

-- GetCachedContent and PutCachedContent
unfoldable pub get_cached_content : Text → Option Info → Session → Session × Option (List ℕ)
get_cached_content p none s = (s, none)
get_cached_content p (some info) s =
    let (cache, content) = ContentCache.get s.cache p (signature_from_info info) in
    (record s { cache = cache }, content)

unfoldable pub put_cached_content : Text → Option Info → List ℕ → Session → Session × Bool
put_cached_content p none content s = (s, false)
put_cached_content p (some info) content s =
    let (cache, stored) = ContentCache.put s.cache p (signature_from_info info) content in
    (record s { cache = cache }, stored)

-- TryStartPrefetch and FinishPrefetch
unfoldable pub try_start_prefetch : Text → Session → Session × Bool
try_start_prefetch p s = if p == [] then (s, false) else elim (Assoc.lookup p s.prefetching) [
  | some _ ↦ (s, false)
  | none ↦ (record s { prefetching = Assoc.insert p tt s.prefetching }, true)
]

unfoldable pub finish_prefetch : Text → Session → Session
finish_prefetch p s = if p == [] then s else record s { prefetching = Assoc.remove p s.prefetching }

-- %d of a uint64, which has twenty digits at most
unfoldable pub decimal_digits : ℕ → ℕ → Text
decimal_digits zero n = []
decimal_digits (suc fuel) n =
    let more = decimal_digits fuel (n / 10) ++ (b'0' + n % 10) ∷ [] in
    if ltb n 10 then (b'0' + n) ∷ [] else more

unfoldable pub decimal : ℕ → Text
decimal n = decimal_digits 20 n

-- nextRequestID
unfoldable pub next_request_id : Session → Session × Text
next_request_id s =
    let seq = (s.req_seq + 1) % 2 ^ 64 in
    (record s { req_seq = seq }, s.user_id ++ (b'-' ∷ decimal seq))

-- prepareRequest
unfoldable pub prepare_request : Option Request → Session → Session × Result SessionError Request
prepare_request none s = (s, err nil_request)
prepare_request (some r) s =
    if r.request_id == []
    then (let (next, id) = next_request_id s in (next, ok (record r { request_id = id })))
    else (s, ok r)

-- closeErrValue
abbrev pub or_closed : Option SessionError → SessionError
or_closed none = session_closed
or_closed (some e) = e

unfoldable pub close_err_value : Session → SessionError
close_err_value s = or_closed s.close_err

-- registerPending
abbrev registered : Session → Hub × Option ℕ → Session × Result SessionError ℕ
registered s (hub, none) = (record s { hub = hub }, err duplicate_request_id)
registered s (hub, some c) = (record s { hub = hub }, ok c)

unfoldable pub register_pending : Text → Session → Session × Result SessionError ℕ
register_pending id s =
    if s.closed
    then (s, err (close_err_value s))
    else registered s (Pending.register_pending id s.hub)

-- closeWithError
unfoldable pub close_with_error : Option SessionError → Session → Session
close_with_error e s = if s.closed then s else record s {
  close_err = some (or_closed e);
  closed = true;
  hub = Pending.close_pending s.hub;
}

-- errors.Is(s.closeErr, ErrSessionReplaced)
abbrev pub is_replaced : Option SessionError → Bool
is_replaced (some session_replaced) = true
is_replaced _ = false

-- RetainOffline
unfoldable pub retain_offline : ℕ → Session → Session × Bool
retain_offline until s =
    if until == 0
    then (s, false)
    else if is_replaced s.close_err
    then (s, false)
    else (record s { offline_until = until; close_err = some session_offline }, true)

-- IsOfflineReadonly and IsExpired, with the clock for a zero time
abbrev pub or_now : ℕ → ℕ → ℕ
or_now clock now = if now == 0 then clock else now

unfoldable pub is_offline_readonly : ℕ → ℕ → Session → Bool
is_offline_readonly clock now s =
    if s.offline_until == 0 then false else ltb (or_now clock now) s.offline_until

unfoldable pub is_expired : ℕ → ℕ → Session → Bool
is_expired clock now s =
    if s.offline_until == 0 then false else not (ltb (or_now clock now) s.offline_until)

-- The front of Request: its channel and the request to send, before it waits
abbrev with_chan :
    Request → Session × Result SessionError ℕ → Session × Result SessionError (Request × ℕ)
with_chan r (s, err e) = (s, err e)
with_chan r (s, ok c) = (s, ok (r, c))

abbrev register_request :
    Session × Result SessionError Request → Session × Result SessionError (Request × ℕ)
register_request (s, err e) = (s, err e)
register_request (s, ok r) = with_chan r (register_pending r.request_id s)

unfoldable pub begin_request :
    ℕ → Option Request → Session → Session × Result SessionError (Request × ℕ)
begin_request clock r s =
    if is_offline_readonly clock 0 s
    then (s, err session_offline)
    else register_request (prepare_request r s)

-- firstNonNil and nilOrWrapped
pub data StreamError : Type 0 where
  canceled : StreamError
  eof : StreamError
  other : ℕ → StreamError

unfoldable pub nil_or_wrapped : Option StreamError → Option SessionError
nil_or_wrapped (some (other e)) = some (stream_recv e)
nil_or_wrapped _ = none

unfoldable pub first_non_nil : List (Option SessionError) → Option SessionError
first_non_nil [] = none
first_non_nil (none ∷ errs) = first_non_nil errs
first_non_nil (some e ∷ errs) = some e
