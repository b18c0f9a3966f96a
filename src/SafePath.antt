-- ===== src/SafePath.antt =====
-- pkg/safepath/safepath.go: cleaning a path, and joining one below a base, on Unix.
pub mod Names
pub mod Escape
pub mod Within
pub mod Joined
pub mod Segment
use rclaude.Prelude.{
  ◌≡◌, Bool, true, false, not, ◌&&◌, ◌||◌, none, some, [], ◌∷◌, ◌++◌, ◌+◌, ℕ, Text, leb, ltb,
  starts_with, replace_all, contains_any, trim_space, ◌==◌, text_eq, nat_eq, if◌then◌else◌, Result,
  ok, err, ◌>>=◌, List,
}
use rclaude.Paths
use rclaude.Paths.{
  slash, dot, dotdot, is_abs, trim_slash, join_two, rel, file_to_slash, file_from_slash,
}

pub data SafeError : Type 0 where
  empty_path absolute_rel escape base_not_abs unsafe_segment : SafeError

abbrev pub backslash : ℕ
backslash = 0x5c

-- ToSlash
unfoldable pub to_slash : Text → Text
to_slash = replace_all backslash slash

-- FromSlash
unfoldable pub from_slash : Text → Text
from_slash = file_from_slash

-- p == ".." || strings.HasPrefix(p, "../")
unfoldable pub goes_up : Text → Bool
goes_up p = p == dotdot || starts_with p (dotdot ++ slash ∷ [])

-- Clean
unfoldable pub clean : Text → Result SafeError Text
clean p =
    if p == []
    then err empty_path
    else (let cleaned = Paths.clean (to_slash p) in
        if goes_up cleaned
        then err escape
        else (let relative = trim_slash cleaned in if relative == dot then ok [] else ok relative))

-- IsWithin
unfoldable pub is_within : Text → Text → Result SafeError Bool
is_within base target =
    if base == [] || target == []
    then err empty_path
    else if not (is_abs base) || not (is_abs target)
    then err base_not_abs
    else (let clean_base = Paths.clean base in
        let clean_target = Paths.clean target in
        if clean_base == clean_target then ok true else elim (rel clean_base clean_target) [
          | none ↦ ok false
          | some between ↦ if goes_up (file_to_slash between) then ok false else ok true
        ])

-- isDriveLetter
unfoldable pub is_drive_letter : ℕ → Bool
is_drive_letter b = (leb b'a' b && leb b b'z') || (leb b'A' b && leb b b'Z')

abbrev pub has_drive : Text → Bool
has_drive (a ∷ b ∷ c ∷ s) = is_drive_letter a && b == b':' && (c == slash || c == backslash)
has_drive _ = false

-- isAbsLike
unfoldable pub is_abs_like : Text → Bool
is_abs_like p =
    if p == []
    then false
    else if starts_with p (slash ∷ []) || starts_with p (backslash ∷ [])
    then true
    else has_drive p

-- The recheck of Join after the two paths are joined.
unfoldable pub recheck : Text → Text → Result SafeError Text
recheck base joined = do
  within ← is_within base joined
  if not within then err escape else ok joined

-- Join
unfoldable pub join : Text → Text → Result SafeError Text
join base relative =
    if base == []
    then err empty_path
    else if not (is_abs base)
    then err base_not_abs
    else if is_abs_like relative
    then err absolute_rel
    else do
      cleaned ← clean relative
      if cleaned == []
          then ok (Paths.clean base)
          else recheck base (join_two base (from_slash cleaned))

-- r < 0x20 || r == 0x7f for some r of the name
unfoldable pub has_control : Text → Bool
has_control [] = false
has_control (c ∷ s) = ltb c 0x20 || c == 0x7f || has_control s

-- CleanSegment
abbrev same_segment : Text → Result SafeError Text → Result SafeError Text
same_segment trimmed (ok cleaned) = if cleaned == trimmed then ok cleaned else err unsafe_segment
same_segment trimmed (err e) = err unsafe_segment

unfoldable pub clean_segment : Text → Result SafeError Text
clean_segment name =
    let trimmed = trim_space name in
    if trimmed == []
    then err unsafe_segment
    else if contains_any (slash ∷ backslash ∷ []) trimmed
    then err unsafe_segment
    else if has_control trimmed
    then err unsafe_segment
    else same_segment trimmed (clean trimmed)

-- Opens the functions of this module for a run on concrete paths.
unfoldable pub safe_path_run : Unit {0}
unfolding to_slash from_slash goes_up clean is_within is_drive_letter is_abs_like recheck join
    has_control clean_segment
safe_path_run = tt
