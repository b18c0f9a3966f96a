-- ===== src/Tests/SafePath.antt =====
-- pkg/safepath on the paths of its tests, and its theorems at concrete paths.
use rclaude.Prelude.{
  ◌≡◌, refl, ◌↔◌, List, [], ◌++◌, Text, codes, All, true, false, ok, err, trim_space, trim_left,
  is_space, contains_any, replace_all,
}
use rclaude.Paths.{paths_run, is_abs, segments, split_slash, join_slash}
use rclaude.Paths.Resolve.{IsName}
use rclaude.SafePath.{
  to_slash, clean, join, is_within, clean_segment, escape, unsafe_segment, absolute_rel,
  safe_path_run,
}
use rclaude.SafePath.Names.{clean-names, clean_idempotent}
use rclaude.SafePath.Escape.{climbs, clean-eq-escape_iff}
use rclaude.SafePath.Within.{is_within_iff}
use rclaude.SafePath.Joined.{IsBelow, join-IsBelow}
use rclaude.SafePath.Segment.{IsSegment, clean_segment_iff}

run : Unit {0}
unfolding paths_run safe_path_run replace_all contains_any trim_space trim_left is_space
run = tt

clean_tests :
    (clean (codes "a/./b//../c") ≡ ok (codes "a/c"))
    × (clean (codes "a\\b") ≡ ok (codes "a/b"))
    × (clean (codes "/x") ≡ ok (codes "x"))
    × (clean (codes "a/../..") ≡ err escape)
    × (clean (codes ".") ≡ ok [])
unfolding run
clean_tests = (refl, refl, refl, refl, refl)

join_tests :
    (join (codes "/base") (codes "a/../b") ≡ ok (codes "/base/b"))
    × (join (codes "/") (codes "etc") ≡ ok (codes "/etc"))
    × (join (codes "/base") (codes "../x") ≡ err escape)
    × (join (codes "/base") (codes "C:\\x") ≡ err absolute_rel)
unfolding run
join_tests = (refl, refl, refl, refl)

segment_tests :
    (clean_segment (codes "  proj ") ≡ ok (codes "proj"))
    × (clean_segment (codes "..") ≡ err unsafe_segment)
    × (clean_segment (codes "a/b") ≡ err unsafe_segment)
unfolding run
segment_tests = (refl, refl, refl)

clean-names_example :
    All IsName (segments (to_slash (codes "a/./b//../c")))
    × (codes "a/c" ≡ join_slash (segments (to_slash (codes "a/./b//../c"))))
clean-names_example = clean-names (codes "a/./b//../c") clean_tests.0

clean_idempotent_example : clean (codes "a/c") ≡ ok (codes "a/c")
clean_idempotent_example = clean_idempotent (codes "a/./b//../c") clean_tests.0 (λ e. cc)

clean-eq-escape_iff_example : (clean (codes "a/../..") ≡ err escape) ↔ (
    (codes "a/../.." ≡ [] → ⊥)
    × (is_abs (to_slash (codes "a/../..")) ≡ false)
    × (climbs 0 (split_slash (to_slash (codes "a/../.."))) ≡ true))
clean-eq-escape_iff_example = clean-eq-escape_iff (codes "a/../..")

is_within_iff_example :
    (is_within (codes "/w") (codes "/w/a") ≡ ok true)
    ↔ ((below : List Text) × (segments (codes "/w/a") ≡ segments (codes "/w") ++ below))
unfolding run
is_within_iff_example = is_within_iff (codes "/w") (codes "/w/a") refl refl

join-IsBelow_example :
    (j : Text) × (join (codes "/base") (codes "a/../b") ≡ ok j)
    × IsBelow (codes "/base") (codes "b") j
unfolding run
join-IsBelow_example = join-IsBelow (codes "/base") (codes "a/../b") refl refl refl

clean_segment_iff_example :
    (clean_segment (codes "  proj ") ≡ ok (codes "proj"))
    ↔ ((codes "proj" ≡ trim_space (codes "  proj ")) × IsSegment (codes "proj"))
clean_segment_iff_example = clean_segment_iff (codes "  proj ") (codes "proj")
