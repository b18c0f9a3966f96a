-- ===== src/Syncer/Resolution.antt =====
-- pkg/syncer/path_resolution.go, and resolveWorkspacePath of handle.go: where a path of the
-- workspace leads through symbolic links, and whether that is a sensitive file.
use rclaude.Prelude.{
  ℕ, zero, suc, Bool, true, false, not, ◌&&◌, ◌||◌, Option, none, some, List, [], ◌∷◌, Text, ◌==◌,
  text_eq, nat_eq, if◌then◌else◌, Result, ok, err, ◌>>=◌,
}
use rclaude.Paths
use rclaude.Paths.{
  slash, dot, is_abs, dir, join_two, join_slash, split_slash, trim_slash, rel, file_to_slash,
}
use rclaude.SafePath
use rclaude.SafePath.{SafeError}
use rclaude.Normalize.{normalize}
use rclaude.Syncer.Files.{join_rel_path}
use rclaude.Syncer.Sensitive.{SensitiveFilter, is_sensitive_path}
use rclaude.Syncer.Os.{
  Os, IoError, not_exist, FileStat, is_symlink, is_directory, Visit, all_visits,
}

pub data ResolveError : Type 0 where
  unsafe : SafeError → ResolveError
  io : IoError → ResolveError
  too_many_symlinks : ResolveError
  -- the error of filepath.Rel
  no_relative_path : ResolveError

-- errors.Is(err, fs.ErrNotExist)
abbrev pub is_not_exist : ResolveError → Bool
is_not_exist (io not_exist) = true
is_not_exist _ = false

-- pathResolutionOptions
pub record ResolveOptions : Type 0 where
  pub allow_missing_leaf : Bool
  pub follow_final_symlink : Bool

-- maxSymlinkResolveDepth
abbrev pub max_symlink_resolve_depth : ℕ
max_symlink_resolve_depth = 40

abbrev pub wrap {ℓ} : {A : Type ℓ} → Result IoError A → Result ResolveError A
wrap (ok a) = ok a
wrap (err e) = err (io e)

abbrev pub wrap_unsafe {ℓ} : {A : Type ℓ} → Result SafeError A → Result ResolveError A
wrap_unsafe (ok a) = ok a
wrap_unsafe (err e) = err (unsafe e)

-- resolveWorkspacePath
unfoldable pub resolve_workspace_path : Text → Text → Result ResolveError Text
resolve_workspace_path root path =
    if path == [] || path == dot || path == slash ∷ []
    then ok root
    else wrap_unsafe (SafePath.join root path)

-- filepath.Join of a list
unfoldable pub join_all : List Text → Text
join_all [] = []
join_all (part ∷ parts) =
    let rest = join_all parts in
    if part == [] then rest else Paths.clean (join_slash (part ∷ parts))

-- splitAbsPath, where there are no volume names
unfoldable pub split_abs_path : Text → Text × List Text
split_abs_path abs =
    let rest = trim_slash (Paths.clean abs) in
    (slash ∷ [], if rest == [] then [] else split_slash rest)

-- What a pass over the components ends in: a path, or a path to start again from.
pub data Pass : Type 0 where
  resolved : Text → Pass
  restarted : Text → Pass

-- What lstatActionPath answers
pub data Leaf : Type 0 where
  found : FileStat → Leaf
  missing : Leaf

-- shouldFollowSymlink, for a component that others follow or not
unfoldable pub should_follow_symlink : FileStat → Bool → Bool → Bool
should_follow_symlink info is_last follow_final = is_symlink info && (follow_final || not is_last)

abbrev pub is_nil : List Text → Bool
is_nil [] = true
is_nil (_ ∷ _) = false

module _ {Disk File : Type 0} (os : Os Disk File) (matches : Text → Text → Bool) where
  -- lstatActionPath
  abbrev leaf_of : Bool → Result IoError FileStat → Result ResolveError Leaf
  leaf_of may_miss (ok info) = ok (found info)
  leaf_of may_miss (err not_exist) = if may_miss then ok missing else err (io not_exist)
  leaf_of may_miss (err e) = err (io e)

  unfoldable pub lstat_action_path : Text → Bool → Bool → Disk → Result ResolveError Leaf
  lstat_action_path path is_leaf allow_missing_leaf disk =
      leaf_of (allow_missing_leaf && is_leaf) (os.lstat path disk)

  -- expandSymlinkTarget
  unfoldable pub expand_symlink_target : Text → List Text → Disk → Result ResolveError Text
  expand_symlink_target path remaining disk = do
    link ← wrap (os.read_link path disk)
    let target = if not (is_abs link) then join_two (dir path) link else link
    ok (if is_nil remaining then target else join_two target (join_all remaining))

  -- The loop of resolveActionTargetPass, with what is resolved so far.
  unfoldable pub resolve_parts : ResolveOptions → Text → List Text → Disk → Result ResolveError Pass
  resolve_parts opts so_far [] disk = ok (resolved so_far)
  resolve_parts opts so_far (part ∷ parts) disk =
      let next = join_two so_far part in
      let rest = resolve_parts opts next parts disk in
      elim (lstat_action_path next (is_nil parts) opts.allow_missing_leaf disk) [
        | err e ↦ err e
        | ok missing ↦ ok (resolved next)
        | ok (found info) ↦
            if not (should_follow_symlink info (is_nil parts) opts.follow_final_symlink)
            then rest
            else do
              target ← expand_symlink_target next parts disk
              ok (restarted (Paths.clean target))
      ]

  -- resolveActionTargetPass
  unfoldable pub resolve_action_target_pass :
      ResolveOptions → Text → Disk → Result ResolveError Pass
  resolve_action_target_pass opts current disk =
      let (prefix, parts) = split_abs_path current in resolve_parts opts prefix parts disk

  -- The loop of resolveActionTargetAbs, with the rounds that are left.
  unfoldable pub resolve_rounds : ℕ → ResolveOptions → Text → Disk → Result ResolveError Text
  resolve_rounds zero opts current disk = err too_many_symlinks
  resolve_rounds (suc rounds) opts current disk =
      elim (resolve_action_target_pass opts current disk) [
        | err e ↦ err e
        | ok (resolved path) ↦ ok path
        | ok (restarted next) ↦ resolve_rounds rounds opts next disk
      ]

  -- resolveActionTargetAbs
  unfoldable pub resolve_action_target_abs : ResolveOptions → Text → Disk → Result ResolveError Text
  resolve_action_target_abs opts abs disk =
      resolve_rounds max_symlink_resolve_depth opts (Paths.clean abs) disk

  abbrev relative_target : Option Text → Result ResolveError (Option Text)
  relative_target none = err no_relative_path
  relative_target (some target) = ok (some (normalize target))

  -- resolveActionTargetRel: none where the target is not in the workspace
  unfoldable pub resolve_action_target_rel :
      Text → Text → ResolveOptions → Disk → Result ResolveError (Option Text)
  resolve_action_target_rel root path opts disk = do
    abs ← resolve_workspace_path root path
    canonical_root ← wrap (os.eval_symlinks root disk)
    resolved_abs ← resolve_action_target_abs opts abs disk
    within ← wrap_unsafe (SafePath.is_within canonical_root resolved_abs)
    if not within then ok none else relative_target (rel canonical_root resolved_abs)

  abbrev blocked_by :
      Option SensitiveFilter → Result ResolveError (Option Text) → Result ResolveError Bool
  blocked_by filter (err e) = if is_not_exist e then ok false else err e
  blocked_by filter (ok none) = ok false
  blocked_by filter (ok (some target)) = ok (is_sensitive_path matches filter target)

  -- blocksSensitivePath
  unfoldable pub blocks_sensitive_path :
      Text → Text → Option SensitiveFilter → ResolveOptions → Disk → Result ResolveError Bool
  blocks_sensitive_path root path filter opts disk =
      let target = blocked_by filter (resolve_action_target_rel root path opts disk) in
      if is_sensitive_path matches filter path then ok true else target

  -- The function that hasSensitiveDescendant gives to WalkDir, over the visits in turn: it ends the
  -- walk at the first error.
  unfoldable pub walk_descendants :
      Text → Text → Option SensitiveFilter → List Visit → Result ResolveError Bool
  walk_descendants abs path filter [] = ok false
  walk_descendants abs path filter (visit ∷ visits) =
      let rest = walk_descendants abs path filter visits in
      elim visit.failed [
        | some e ↦ err (io e)
        | none ↦ if visit.path == abs then rest else elim (rel abs visit.path) [
          | none ↦ err no_relative_path
          | some descendant ↦
              if is_sensitive_path matches filter (join_rel_path path (file_to_slash descendant))
              then ok true
              else rest
        ]
      ]

  abbrev directory_descendants :
      Text → Text → Option SensitiveFilter → Disk → FileStat → Result ResolveError Bool
  directory_descendants abs path filter disk info =
      if not (is_directory info)
      then ok false
      else walk_descendants abs path filter (all_visits (os.walk_dir abs disk))

  -- hasSensitiveDescendant
  unfoldable pub has_sensitive_descendant :
      Text → Text → Option SensitiveFilter → Disk → Result ResolveError Bool
  has_sensitive_descendant root path none disk = ok false
  has_sensitive_descendant root path (some f) disk = do
    abs ← resolve_workspace_path root path
    info ← wrap (os.lstat abs disk)
    directory_descendants abs path (some f) disk info
