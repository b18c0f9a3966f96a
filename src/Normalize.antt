-- ===== src/Normalize.antt =====
-- The relative form of a path: pkg/fstree/fstree.go, pkg/contentcache/cache.go and
-- pkg/syncer/sensitive_filter.go each have a function with this body.
pub mod Forms
pub mod Child
use rclaude.Prelude.{Bool, ◌||◌, [], ◌∷◌, Text, replace_all, ◌==◌, text_eq, if◌then◌else◌}
use rclaude.Paths
use rclaude.Paths.{slash, dot, trim_slash}

-- The part of the function behind strings.ReplaceAll(p, "\\", "/").
unfoldable pub relative_form : Text → Text
relative_form p =
    if p == [] || p == dot || p == slash ∷ []
    then []
    else (let cleaned = trim_slash (Paths.clean p) in if cleaned == dot then [] else cleaned)

unfoldable pub normalize : Text → Text
normalize p = relative_form (replace_all 0x5c slash p)
