-- ===== src/Syncer/Files.antt =====
-- pkg/syncer/handle.go: paths of entries and the file information of the protocol.
use rclaude.Prelude.{◌||◌, [], ◌∷◌, ◌++◌, Text, ◌==◌, text_eq, if◌then◌else◌}
use rclaude.Paths.{slash, dot}
use rclaude.SafePath.{to_slash}

-- joinRelPath
unfoldable pub join_rel_path : Text → Text → Text
join_rel_path parent base =
    let folder = to_slash parent in
    if folder == [] || folder == dot then base else folder ++ (slash ∷ base)
