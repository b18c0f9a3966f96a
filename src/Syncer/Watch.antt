-- ===== src/Syncer/Watch.antt =====
-- pkg/syncer/watch.go: the directories that the daemon watches, and the changes that it reports for
-- the events of the file system. The watcher is a parameter.
pub mod Reported
use rclaude.Prelude.{
  ℕ, ◌≡◌, Bool, true, false, not, ◌&&◌, ◌||◌, Option, none, some, List, [], ◌∷◌, ◌++◌, Text, ◌==◌,
  text_eq, if◌then◌else◌, Result, ok, err, ◌>>=◌,
}
use rclaude.Prelude.Int.{pos}
use rclaude.Paths.{dot, rel}
use rclaude.SafePath
use rclaude.SafePath.{to_slash, SafeError}
use rclaude.FsTree.{Info, Change, ChangeType, create, modify, delete_file, unspecified}
use rclaude.Syncer.Sensitive.{SensitiveFilter, is_sensitive_path}
use rclaude.Syncer.SelfWrite.{SelfWriteFilter, should_suppress}
use rclaude.Syncer.Os.{Os, IoError, FileStat, Visit, Walk, visited, Walks, no_more, more}
use rclaude.Syncer.Scan.{match_exclude, scan_relative_path, dir_entry_to_file_info}

-- fsnotify.Op: the bits that are set
pub record Op : Type 0 where
  pub created : Bool
  pub written : Bool
  pub removed : Bool
  pub renamed : Bool

-- fsnotify.Event
pub record Event : Type 0 where
  pub name : Text
  pub op : Op

-- toChangeType
unfoldable pub to_change_type : Op → ChangeType
to_change_type op =
    if op.created
    then create
    else if op.written
    then modify
    else if op.removed
    then delete_file
    else if op.renamed
    then delete_file
    else unspecified

abbrev pub is_delete : ChangeType → Bool
is_delete delete_file = true
is_delete _ = false

abbrev pub is_create : ChangeType → Bool
is_create create = true
is_create _ = false

abbrev pub is_unspecified : ChangeType → Bool
is_unspecified unspecified = true
is_unspecified _ = false

-- watchRelativePath
abbrev not_root : Option Text → Option Text
not_root none = none
not_root (some path) = if path == [] || path == dot then none else some path

unfoldable pub watch_relative_path : Text → Text → Option Text
watch_relative_path root name = not_root (scan_relative_path root name)

-- &remotefsv1.FileInfo{Path: rel}
abbrev pub bare_info : Text → Info
bare_info path = record { path = path; size = pos 0; mod_time = pos 0; is_dir = false; mode = 0 }

module _ {Disk File : Type 0} (os : Os Disk File) where
  -- lookupChangedInfo
  abbrev pub stat_info : Text → Result IoError FileStat → Info
  stat_info path (err e) = bare_info path
  stat_info path (ok found) = dir_entry_to_file_info path found

  abbrev pub joined_info : Text → Disk → Result SafeError Text → Info
  joined_info path disk (err e) = bare_info path
  joined_info path disk (ok abs) = stat_info path (os.lstat abs disk)

  unfoldable pub lookup_changed_info : Text → Text → ChangeType → Disk → Info
  lookup_changed_info root path type disk =
      if is_delete type then bare_info path else joined_info path disk (SafePath.join root path)

module _ (matches : Text → Text → Bool) (glob : Text → Text → Option Bool) where
  -- WatchOptions without the filter of own writes, which is state
  pub record WatchOptions : Type 0 where
    pub root : Text
    pub excludes : List Text
    pub sensitive_filter : Option SensitiveFilter

  -- shouldSkipWatchedDir
  abbrev pub skip_named : List Text → Option SensitiveFilter → Option Text → Bool
  skip_named excludes filter none = false
  skip_named excludes filter (some path) =
      if is_sensitive_path matches filter path
      then true
      else match_exclude matches glob path excludes

  unfoldable pub should_skip_watched_dir : Text → Text → List Text → Option SensitiveFilter → Bool
  should_skip_watched_dir root path excludes filter =
      if path == root then false else skip_named excludes filter (scan_relative_path root path)

  -- addTreeRecursively: the directories that are added, or the error of the watcher
  abbrev pub added :
      Text → Result IoError (Unit {0}) → Result IoError (List Text) → Result IoError (List Text)
  added path (err e) inside = err e
  added path (ok _) inside = do paths ← inside; ok (path ∷ paths)

  abbrev pub then_more :
      Result IoError (List Text) → Result IoError (List Text) → Result IoError (List Text)
  then_more first rest = do paths ← first; others ← rest; ok (paths ++ others)

  module _ (add : Text → Result IoError (Unit {0})) (opts : WatchOptions) where
    -- The function that WalkDir calls
    abbrev pub visit_dir :
        Visit → Option IoError → Result IoError (List Text) → Result IoError (List Text)
    visit_dir visit (some e) inside = inside
    visit_dir visit none inside =
        if not visit.entry.is_dir
        then inside
        else if should_skip_watched_dir opts.root visit.path opts.excludes opts.sensitive_filter
        then ok []
        else added visit.path (add visit.path) inside

    unfoldable mutual
      pub add_tree : Walk → Result IoError (List Text)
      add_tree (visited visit inside) = visit_dir visit visit.failed (add_trees inside)

      pub add_trees : Walks → Result IoError (List Text)
      add_trees no_more = ok []
      add_trees (more walk walks) = then_more (add_tree walk) (add_trees walks)

  module _ {Disk File : Type 0} (os : Os Disk File) (opts : WatchOptions) where
    -- opts.SelfWrites != nil && opts.SelfWrites.ShouldSuppress(rel)
    abbrev pub suppressed : ℕ → Text → Option SelfWriteFilter → Option SelfWriteFilter × Bool
    suppressed now path none = (none, false)
    suppressed now path (some f) =
        let (next, answer) = should_suppress now path f in (some next, answer)

    abbrev pub changed : Text → ChangeType → Disk → Option (Change × Bool)
    changed path type disk =
        if is_unspecified type
        then none
        else (let found = lookup_changed_info os opts.root path type disk in
            some (
              record { type = type; file = some found; old_path = [] },
              is_create type && found.is_dir,
            ))

    abbrev pub unless_suppressed :
        Text
        → ChangeType
        → Disk
        → Option SelfWriteFilter × Bool
        → Option SelfWriteFilter × Option (Change × Bool)
    unless_suppressed path type disk (filter, true) = (filter, none)
    unless_suppressed path type disk (filter, false) = (filter, changed path type disk)

    abbrev pub named_change :
        ℕ
        → ChangeType
        → Disk
        → Option SelfWriteFilter
        → Option Text
        → Option SelfWriteFilter × Option (Change × Bool)
    named_change now type disk filter none = (filter, none)
    named_change now type disk filter (some path) =
        if match_exclude matches glob path opts.excludes
        then (filter, none)
        else if is_sensitive_path matches opts.sensitive_filter path
        then (filter, none)
        else unless_suppressed path type disk (suppressed now path filter)

    -- watchChangeFromEvent: the filter of own writes, and the change with whether to watch its path
    unfoldable pub watch_change_from_event :
        ℕ → Event → Disk → Option SelfWriteFilter → Option SelfWriteFilter × Option (Change × Bool)
    watch_change_from_event now ev disk filter =
        named_change now (to_change_type ev.op) disk filter (watch_relative_path opts.root ev.name)

    -- handleWatchEvent: the path that the watcher is told to add, and the change that is sent
    abbrev effects : Text → Option (Change × Bool) → Option Text × Option Change
    effects name none = (none, none)
    effects name (some (change, watch_dir)) = (if watch_dir then some name else none, some change)

    unfoldable pub handle_watch_event :
        ℕ
        → Event
        → Disk
        → Option SelfWriteFilter
        → Option SelfWriteFilter × Option Text × Option Change
    handle_watch_event now ev disk filter =
        let (next, change) = watch_change_from_event now ev disk filter in
        let (path, sent) = effects ev.name change in (next, path, sent)
