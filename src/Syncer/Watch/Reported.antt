-- ===== src/Syncer/Watch/Reported.antt =====
-- What the watcher reports, and that it skips the directories that Scan skips.
use rclaude.Prelude.{
  ℕ, ◌≡◌, refl, inl, inr, Bool, true, false, Option, none, some, List, Text, ◌==◌, text_eq,
  Bool-cases, ◌≢◌, ap, Result, ok, err,
}
use rclaude.FsTree.{Info, Change, ChangeType, unspecified}
use rclaude.SafePath
use rclaude.SafePath.{SafeError}
use rclaude.Syncer.Sensitive.{SensitiveFilter, is_sensitive_path}
use rclaude.Syncer.SelfWrite.{SelfWriteFilter}
use rclaude.Syncer.Os.{Os, IoError, FileStat, DirEntry, Visit}
use rclaude.Syncer.Scan.{
  match_exclude, scan_entry, scan_named, entry_info, scan_relative_path, dir_entry_to_file_info,
}
use rclaude.Syncer.Watch.{
  skip_named, stat_info, joined_info, Event, to_change_type, is_unspecified, is_delete,
  watch_relative_path, lookup_changed_info, WatchOptions, should_skip_watched_dir, suppressed,
  changed, unless_suppressed, named_change, watch_change_from_event,
}

module _ (matches : Text → Text → Bool) (glob : Text → Text → Option Bool) where
  skip_named-scan_named :
      (entry : DirEntry) (excludes : List Text) (filter : Option SensitiveFilter)
      (path : Option Text)
      → entry.is_dir ≡ true
      → skip_named matches glob excludes filter path
        ≡ (scan_named matches glob entry excludes filter path).1
  skip_named-scan_named entry excludes filter none dir = refl
  skip_named-scan_named entry excludes filter (some path) dir =
      elim (Bool-cases (is_sensitive_path matches filter path)) [
        | inl hidden ↦ rw (hidden, dir) refl
        | inr shown ↦ elim (Bool-cases (match_exclude matches glob path excludes)) [
          | inl excluded ↦ rw (shown, excluded, dir) refl
          | inr kept ↦ rw (shown, kept) (entered path entry.info)
        ]
      ]
    where
      entered :
          (path : Text) (found : Result IoError FileStat)
          → false ≡ (entry_info matches glob path found).1
      entered path (err e) = refl
      entered path (ok found) = refl

  -- The watcher leaves a directory out exactly when Scan skips it, for every directory that WalkDir
  -- visits with no error, under the same options.
  pub should_skip_watched_dir-scan_entry :
      (root : Text) (visit : Visit) (excludes : List Text) (filter : Option SensitiveFilter)
      → visit.entry.is_dir ≡ true
      → visit.failed ≡ none
      → should_skip_watched_dir matches glob root visit.path excludes filter
        ≡ (scan_entry matches glob root visit excludes filter).1
  unfolding should_skip_watched_dir scan_entry
  should_skip_watched_dir-scan_entry root visit excludes filter dir fine =
      rw fine (elim (Bool-cases (visit.path == root)) [
        | inl top ↦ rw top refl
        | inr below ↦ rw below (
            skip_named-scan_named visit.entry excludes filter (scan_relative_path root visit.path)
              dir)
      ])

  module _ {Disk File : Type 0} (os : Os Disk File) (opts : WatchOptions matches glob) where
    -- A change of a file that the options show.
    abbrev pub IsShownChange : Change → Type 0
    IsShownChange change =
        (entry : Info) × (change.file ≡ some entry)
        × (is_sensitive_path matches opts.sensitive_filter entry.path ≡ false)
        × (match_exclude matches glob entry.path opts.excludes ≡ false)
        × (change.type ≢ unspecified)

    lookup_changed_info-path :
        (path : Text) (type : ChangeType) (disk : Disk)
        → (lookup_changed_info os opts.root path type disk).path ≡ path
    unfolding lookup_changed_info dir_entry_to_file_info
    lookup_changed_info-path path type disk = elim (Bool-cases (is_delete type)) [
      | inl gone ↦ rw gone refl
      | inr there ↦ rw there (joined (SafePath.join opts.root path))
    ]
      where
        found : (stat : Result IoError FileStat) → (stat_info os path stat).path ≡ path
        found (err e) = refl
        found (ok stat) = refl

        joined : (abs : Result SafeError Text) → (joined_info os path disk abs).path ≡ path
        joined (err e) = refl
        joined (ok abs) = found (os.lstat abs disk)

    -- Nothing is reported, or a change that the options show.
    abbrev pub Shows : Option (Change × Bool) → Type 0
    Shows none = Unit
    Shows (some (change, watch_dir)) = IsShownChange change

    changed-Shows :
        (path : Text) (type : ChangeType) (disk : Disk)
        → is_sensitive_path matches opts.sensitive_filter path ≡ false
        → match_exclude matches glob path opts.excludes ≡ false
        → Shows (changed matches glob os opts path type disk)
    changed-Shows path type disk shown kept = elim (Bool-cases (is_unspecified type)) [
      | inl bad ↦ rw bad tt
      | inr good ↦
          let same = lookup_changed_info-path path type disk in
          rw good (
            lookup_changed_info os opts.root path type disk,
            refl,
            rw same shown,
            rw same kept,
            λ e. cc (ap is_unspecified e, good),
          )
    ]

    unless_suppressed-Shows :
        (path : Text) (type : ChangeType) (disk : Disk) (result : Option SelfWriteFilter × Bool)
        → is_sensitive_path matches opts.sensitive_filter path ≡ false
        → match_exclude matches glob path opts.excludes ≡ false
        → Shows (unless_suppressed matches glob os opts path type disk result).1
    unless_suppressed-Shows path type disk (filter, true) shown kept = tt
    unless_suppressed-Shows path type disk (filter, false) shown kept =
        changed-Shows path type disk shown kept

    named_change-Shows :
        (now : ℕ) (type : ChangeType) (disk : Disk) (filter : Option SelfWriteFilter)
        (path : Option Text)
        → Shows (named_change matches glob os opts now type disk filter path).1
    named_change-Shows now type disk filter none = tt
    named_change-Shows now type disk filter (some path) =
        elim (Bool-cases (match_exclude matches glob path opts.excludes)) [
          | inl excluded ↦ rw excluded tt
          | inr kept ↦ elim (Bool-cases (is_sensitive_path matches opts.sensitive_filter path)) [
            | inl hidden ↦ rw (kept, hidden) tt
            | inr shown ↦
                rw (kept, shown)
                  (unless_suppressed-Shows path type disk
                    (suppressed matches glob os opts now path filter) shown kept)
          ]
        ]

    -- For every event, the watcher reports nothing, or a change of a file whose path the filter does
    -- not hide and no exclude pattern matches, with a type that is specified.
    pub watch_change_from_event-Shows :
        (now : ℕ) (ev : Event) (disk : Disk) (filter : Option SelfWriteFilter)
        → Shows (watch_change_from_event matches glob os opts now ev disk filter).1
    unfolding watch_change_from_event
    watch_change_from_event-Shows now ev disk filter =
        named_change-Shows now (to_change_type ev.op) disk filter
          (watch_relative_path opts.root ev.name)
