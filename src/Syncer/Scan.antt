-- ===== src/Syncer/Scan.antt =====
-- pkg/syncer/scan.go and the part of pkg/syncer/workspace.go that checks a workspace root: the list
-- of files that the daemon sends at the start.
pub mod Reported
use rclaude.Prelude.{
  ℕ, ◌≡◌, Bool, true, false, not, ◌||◌, Option, none, some, List, [], ◌∷◌, ◌++◌, Text,
  contains_text, ◌==◌, text_eq, if◌then◌else◌, Result, ok, err, ◌>>=◌,
}
use rclaude.Paths
use rclaude.Paths.{slash, is_abs, rel}
use rclaude.FsTree.{Info}
use rclaude.SafePath
use rclaude.SafePath.{to_slash, clean_segment, SafeError}
use rclaude.Syncer.Sensitive.{SensitiveFilter, is_sensitive_path}
use rclaude.Syncer.Os.{
  Os, IoError, FileStat, DirEntry, Visit, Walk, visited, Walks, no_more, more, is_directory,
}

pub data ScanError : Type 0 where
  root_not_absolute : ScanError
  root_not_directory : ScanError
  -- "syncer: stat root %q: %w"
  stat_root : IoError → ScanError

-- dirEntryToFileInfo
unfoldable pub dir_entry_to_file_info : Text → FileStat → Info
dir_entry_to_file_info path found = record {
  path = path;
  size = found.size;
  mod_time = found.mod_time;
  is_dir = is_directory found;
  mode = found.perm;
}

-- scanRelativePath
abbrev slash_form : Option Text → Option Text
slash_form none = none
slash_form (some path) = some (to_slash path)

unfoldable pub scan_relative_path : Text → Text → Option Text
scan_relative_path root path = slash_form (rel root path)

-- `glob` is doublestar.Match, which may answer an error.
module _ (matches : Text → Text → Bool) (glob : Text → Text → Option Bool) where
  -- err == nil && ok
  abbrev is_match : Option Bool → Bool
  is_match none = false
  is_match (some answer) = answer

  -- matchExclude
  unfoldable pub match_exclude : Text → List Text → Bool
  match_exclude path [] = false
  match_exclude path (pattern ∷ patterns) =
      let target = if not (contains_text pattern (slash ∷ [])) then Paths.base path else path in
      is_match (glob pattern target) || match_exclude path patterns

  -- scanEntry, from where the relative path is known: the entry, and whether to skip a directory
  abbrev pub entry_info : Text → Result IoError FileStat → Option Info × Bool
  entry_info path (err e) = (none, false)
  entry_info path (ok found) = (some (dir_entry_to_file_info path found), false)

  abbrev pub scan_named :
      DirEntry → List Text → Option SensitiveFilter → Option Text → Option Info × Bool
  scan_named entry excludes filter none = (none, false)
  scan_named entry excludes filter (some path) =
      if is_sensitive_path matches filter path
      then (none, entry.is_dir)
      else if match_exclude path excludes
      then (none, entry.is_dir)
      else entry_info path entry.info

  abbrev pub has_failed : Option IoError → Bool
  has_failed none = false
  has_failed (some e) = true

  unfoldable pub scan_entry : Text → Visit → List Text → Option SensitiveFilter → Option Info × Bool
  scan_entry root visit excludes filter =
      if has_failed visit.failed || visit.path == root
      then (none, false)
      else scan_named visit.entry excludes filter (scan_relative_path root visit.path)

  module _ (root : Text) (excludes : List Text) (filter : Option SensitiveFilter) where
    abbrev pub keep_entry : Option Info × Bool → List Info → List Info
    keep_entry (_, true) inside = []
    keep_entry (none, false) inside = inside
    keep_entry (some entry, false) inside = entry ∷ inside

    -- scanWalkFn, over what WalkDir finds
    unfoldable mutual
      pub scan_walk : Walk → List Info
      scan_walk (visited visit inside) =
          keep_entry (scan_entry root visit excludes filter) (scan_walks inside)

      pub scan_walks : Walks → List Info
      scan_walks no_more = []
      scan_walks (more walk walks) = scan_walk walk ++ scan_walks walks

  module _ {Disk File : Type 0} (os : Os Disk File) where
    -- validateScanRoot
    abbrev root_checked : Result IoError FileStat → Option ScanError
    root_checked (err e) = some (stat_root e)
    root_checked (ok found) = if not (is_directory found) then some root_not_directory else none

    unfoldable pub validate_scan_root : Text → Disk → Option ScanError
    validate_scan_root root disk =
        if not (is_abs root) then some root_not_absolute else root_checked (os.stat root disk)

    -- Scan
    abbrev pub scan_from :
        Text
        → List Text
        → Option SensitiveFilter
        → Disk
        → Option ScanError
        → Result ScanError (List Info)
    scan_from root excludes filter disk (some e) = err e
    scan_from root excludes filter disk none =
        ok (scan_walk root excludes filter (os.walk_dir root disk))

    unfoldable pub scan :
        Text → List Text → Option SensitiveFilter → Disk → Result ScanError (List Info)
    scan root excludes filter disk =
        scan_from root excludes filter disk (validate_scan_root root disk)

pub data WorkspaceError : Type 0 where
  workspace_root_required workspace_root_not_abs workspace_root_not_dir : WorkspaceError
  workspace_name_unsafe workspace_root_unscoped : WorkspaceError
  -- "syncer: resolve working directory: %w"
  working_directory : IoError → WorkspaceError

module _ {Disk File : Type 0} (os : Os Disk File) where
  abbrev name_checked : Result SafeError Text → Result WorkspaceError Text
  name_checked (ok name) = ok name
  name_checked (err e) = err workspace_name_unsafe

  abbrev stat_checked : Text → Result IoError FileStat → Result WorkspaceError Text
  stat_checked root (err e) = err workspace_root_not_dir
  stat_checked root (ok found) =
      if not (is_directory found)
      then err workspace_root_not_dir
      else name_checked (clean_segment (Paths.base (Paths.clean root)))

  -- ValidateWorkspaceRoot
  unfoldable pub validate_workspace_root : Text → Disk → Result WorkspaceError Text
  validate_workspace_root root disk =
      if root == []
      then err workspace_root_required
      else if not (is_abs root)
      then err workspace_root_not_abs
      else stat_checked root (os.stat root disk)

  -- guardWorkspaceRoot, where os.UserHomeDir may fail and there are no volume names
  abbrev is_home : Text → Option Text → Bool
  is_home cleaned none = false
  is_home cleaned (some home) = Paths.clean home == cleaned

  unfoldable pub guard_workspace_root : Option Text → Text → Option WorkspaceError
  guard_workspace_root home root =
      let cleaned = Paths.clean root in
      if cleaned == slash ∷ []
      then some workspace_root_unscoped
      else if is_home cleaned home
      then some workspace_root_unscoped
      else none

  -- ResolveWorkspaceRoot, of what os.Getwd answers
  abbrev validated_root : Text → Result WorkspaceError Text → Result WorkspaceError Text
  validated_root cwd (err e) = err e
  validated_root cwd (ok name) = ok cwd

  abbrev guarded_root : Text → Disk → Option WorkspaceError → Result WorkspaceError Text
  guarded_root cwd disk (some e) = err e
  guarded_root cwd disk none = validated_root cwd (validate_workspace_root cwd disk)

  unfoldable pub resolve_workspace_root :
      Result IoError Text → Option Text → Disk → Result WorkspaceError Text
  resolve_workspace_root (err e) home disk = err (working_directory e)
  resolve_workspace_root (ok cwd) home disk = guarded_root cwd disk (guard_workspace_root home cwd)
