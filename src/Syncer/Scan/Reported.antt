-- ===== src/Syncer/Scan/Reported.antt =====
-- What Scan and a listing report: no file that the filter hides, and in Scan no excluded one.
use rclaude.Prelude.{
  ◌≡◌, refl, ◌∙◌, inl, inr, Bool, true, false, ◌||◌, Option, none, some, List, [], ◌∷◌, Text, ◌==◌,
  text_eq, Bool-cases, All, All-append, Result, ok, err,
}
use rclaude.FsTree.{Info}
use rclaude.Syncer.Files.{join_rel_path}
use rclaude.Syncer.Sensitive.{SensitiveFilter, is_sensitive_path, match_path, match_patterns}
use rclaude.Syncer.Sensitive.Hidden.{normalize-to_slash}
use rclaude.SafePath.{to_slash}
use rclaude.Syncer.Os.{Os, IoError, FileStat, DirEntry, Visit, Walk, visited, Walks, no_more, more}
use rclaude.Syncer.Messages.{file_info_from_fs}
use rclaude.Syncer.Handle.{list_entries, list_entry}
use rclaude.Syncer.Scan.{
  has_failed, match_exclude, scan_entry, scan_named, entry_info, keep_entry, scan_walk, scan_walks,
  scan_relative_path, dir_entry_to_file_info,
}

module _ (matches : Text → Text → Bool) (glob : Text → Text → Option Bool) where
  -- Neither hidden nor excluded.
  abbrev pub IsShown : List Text → Option SensitiveFilter → Info → Type 0
  IsShown excludes filter entry =
      (is_sensitive_path matches filter entry.path ≡ false)
      × (match_exclude matches glob entry.path excludes ≡ false)

  module _ (root : Text) (excludes : List Text) (filter : Option SensitiveFilter) where
    abbrev ShowsEntry : Option Info → Type 0
    ShowsEntry none = Unit
    ShowsEntry (some entry) = IsShown excludes filter entry

    entry_info-ShowsEntry :
        (path : Text) (found : Result IoError FileStat)
        → is_sensitive_path matches filter path ≡ false
        → match_exclude matches glob path excludes ≡ false
        → ShowsEntry (entry_info matches glob path found).0
    entry_info-ShowsEntry path (err e) h k = tt
    entry_info-ShowsEntry path (ok found) h k = unfold dir_entry_to_file_info in (h, k)

    scan_named-ShowsEntry :
        (entry : DirEntry) (path : Option Text)
        → ShowsEntry (scan_named matches glob entry excludes filter path).0
    scan_named-ShowsEntry entry none = tt
    scan_named-ShowsEntry entry (some path) =
        elim (Bool-cases (is_sensitive_path matches filter path)) [
          | inl hidden ↦ rw hidden tt
          | inr shown ↦ elim (Bool-cases (match_exclude matches glob path excludes)) [
            | inl excluded ↦ rw (shown, excluded) tt
            | inr kept ↦ rw (shown, kept) (entry_info-ShowsEntry path entry.info shown kept)
          ]
        ]

    scan_entry-ShowsEntry :
        (visit : Visit) → ShowsEntry (scan_entry matches glob root visit excludes filter).0
    unfolding scan_entry
    scan_entry-ShowsEntry visit =
        elim (Bool-cases (has_failed matches glob visit.failed || visit.path == root)) [
          | inl none_here ↦ rw none_here tt
          | inr named ↦
              rw named (scan_named-ShowsEntry visit.entry (scan_relative_path root visit.path))
        ]

    keep_entry-IsShown :
        (entry : Option Info × Bool) (inside : List Info)
        → ShowsEntry entry.0
        → All (IsShown excludes filter) inside
        → All (IsShown excludes filter) (keep_entry matches glob root excludes filter entry inside)
    keep_entry-IsShown (_, true) inside h hs = tt
    keep_entry-IsShown (none, false) inside h hs = hs
    keep_entry-IsShown (some entry, false) inside h hs = (h, hs)

    mutual
      unfolding scan_walk

      scan_walk-IsShown :
          (walk : Walk)
          → All (IsShown excludes filter) (scan_walk matches glob root excludes filter walk)
      scan_walk-IsShown (visited visit inside) =
          keep_entry-IsShown (scan_entry matches glob root visit excludes filter)
            (scan_walks matches glob root excludes filter inside) (scan_entry-ShowsEntry visit)
            (scan_walks-IsShown inside)

      scan_walks-IsShown :
          (walks : Walks)
          → All (IsShown excludes filter) (scan_walks matches glob root excludes filter walks)
      scan_walks-IsShown no_more = tt
      scan_walks-IsShown (more walk walks) =
          All-append (IsShown excludes filter) (scan_walk matches glob root excludes filter walk)
            (scan_walks matches glob root excludes filter walks) (scan_walk-IsShown walk)
            (scan_walks-IsShown walks)

is_sensitive_path-to_slash :
    (matches : Text → Text → Bool) (filter : Option SensitiveFilter) (path : Text)
    → is_sensitive_path matches filter (to_slash path) ≡ is_sensitive_path matches filter path
unfolding is_sensitive_path match_path
is_sensitive_path-to_slash matches none path = refl
is_sensitive_path-to_slash matches (some f) path = patterns f.patterns
  where
    patterns :
        (ps : List Text)
        → match_patterns matches ps (to_slash path) ≡ match_patterns matches ps path
    patterns [] = refl
    patterns (p ∷ ps) = rw (normalize-to_slash path) refl

-- Every entry that handleListDir answers for a directory has a path which the filter does not hide.
pub list_entries-shown :
    {Disk File : Type 0} (os : Os Disk File) (matches : Text → Text → Bool) (path : Text)
    (filter : Option SensitiveFilter) (found : List DirEntry)
    → All
        (λ entry. is_sensitive_path matches filter entry.path ≡ false)
        (list_entries os matches path filter found)
unfolding list_entries
list_entries-shown os matches path filter [] = tt
list_entries-shown os matches path filter (entry ∷ found) =
    onto entry.info (list_entries os matches path filter found)
      (list_entries-shown os matches path filter found)
  where
    onto :
        (info : Result IoError FileStat) (rest : List Info)
        → All (λ e. is_sensitive_path matches filter e.path ≡ false) rest
        → All
            (λ e. is_sensitive_path matches filter e.path ≡ false)
            (list_entry os matches path filter entry.name info rest)
    onto (err e) rest hs = hs
    onto (ok stat) rest hs =
        let name = join_rel_path path entry.name in
        elim (Bool-cases (is_sensitive_path matches filter name)) [
          | inl hidden ↦ rw hidden hs
          | inr shown ↦ rw shown (
              unfold file_info_from_fs in
              (is_sensitive_path-to_slash matches filter name ∙ shown, hs))
        ]
