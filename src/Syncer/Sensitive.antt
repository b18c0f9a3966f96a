-- ===== src/Syncer/Sensitive.antt =====
-- pkg/syncer/sensitive_filter.go: the patterns that hide files of the workspace. The glob library
-- is a parameter: which patterns it takes, and which texts a pattern matches.
pub mod Climb
pub mod Hidden
use mathlib.Core.List.{reverse}
use mathlib.Core.Option
use rclaude.Prelude.{
  ℕ, zero, suc, ◌+◌, ◌≡◌, Bool, true, false, not, ◌&&◌, ◌||◌, Option, none, some, List, [], ◌∷◌,
  ◌++◌, Text, codes, starts_with, contains_text, trim_space, replace_all, length, ◌==◌, text_eq,
  if◌then◌else◌, Result, ok, err, ◌>>=◌,
}
use rclaude.Paths
use rclaude.Paths.{slash, dot, dir}
use rclaude.SafePath.{backslash}
use rclaude.Normalize.{normalize}

-- strings.HasSuffix and strings.TrimSuffix
abbrev has_suffix : Text → Text → Bool
has_suffix s suffix = starts_with (reverse s) (reverse suffix)

abbrev drop_prefix : Text → Text → Text
drop_prefix (_ ∷ s) (_ ∷ prefix) = drop_prefix s prefix
drop_prefix s _ = s

abbrev trim_suffix : Text → Text → Text
trim_suffix s suffix =
    if has_suffix s suffix then reverse (drop_prefix (reverse s) (reverse suffix)) else s

abbrev below_any : Text
below_any = codes "/**"

-- defaultSensitivePatterns
abbrev pub default_sensitive_patterns : List Text
default_sensitive_patterns =
    codes ".env"
    ∷ codes ".env.*"
    ∷ codes "*.pem"
    ∷ codes "*.key"
    ∷ codes "*.p12"
    ∷ codes "*.pfx"
    ∷ codes "*.crt"
    ∷ codes "*.cer"
    ∷ codes "*.p8"
    ∷ codes "id_rsa"
    ∷ codes "id_dsa"
    ∷ codes "id_ecdsa"
    ∷ codes "id_ed25519"
    ∷ codes "*_secret"
    ∷ codes "*_secret.*"
    ∷ []

pub record SensitiveFilter : Type 0 where
  pub patterns : List Text

-- ErrInvalidSensitivePattern, with the pattern as it was written
pub data PatternError : Type 0 where
  invalid_sensitive_pattern : Text → PatternError

-- normalizePattern
unfoldable pub normalize_pattern : Text → Text
normalize_pattern pattern = replace_all backslash slash (trim_space pattern)

-- The condition of the loop in pathCandidates fails.
abbrev pub at_top : Text → Text → Bool
at_top path parent = parent == dot || parent == slash ∷ [] || parent == path

-- The loop of pathCandidates, from `parent` on; `none` means that the fuel ran out.
unfoldable pub climb : ℕ → Text → Text → Option (List Text)
climb zero path parent = none
climb (suc fuel) path parent =
    let rest = Option.map (◌∷◌ parent) (climb fuel path (dir parent)) in
    if at_top path parent then some [] else rest

abbrev pub or_nil : Option (List Text) → List Text
or_nil none = []
or_nil (some parents) = parents

-- pathCandidates
unfoldable pub path_candidates : Text → List Text
path_candidates path = path ∷ or_nil (climb (length path + 2) path (dir path))

module _ (validate_pattern : Text → Bool) where
  -- The loop of NewSensitiveFilter over the extra patterns.
  unfoldable pub add_patterns : List Text → List Text → Result PatternError (List Text)
  add_patterns patterns [] = ok patterns
  add_patterns patterns (raw ∷ extra) =
      let pattern = normalize_pattern raw in
      let rest = add_patterns (patterns ++ pattern ∷ []) extra in
      if pattern == [] || not (validate_pattern pattern)
      then err (invalid_sensitive_pattern raw)
      else rest

  -- NewSensitiveFilter
  unfoldable pub new_sensitive_filter : List Text → Result PatternError SensitiveFilter
  new_sensitive_filter extra = do
    patterns ← add_patterns default_sensitive_patterns extra
    ok (record { patterns = patterns })

module _ (match_unvalidated : Text → Text → Bool) where
  -- matchSensitivePattern
  unfoldable pub match_sensitive_pattern : Text → Text → Bool
  match_sensitive_pattern candidate pattern =
      let target =
        if not (contains_text pattern (slash ∷ [])) then Paths.base candidate else candidate in
      if match_unvalidated pattern target
      then true
      else if contains_text pattern (slash ∷ []) && has_suffix pattern below_any
      then candidate == trim_suffix pattern below_any
      else false

  -- The inner loop of Match, and the outer one.
  unfoldable pub match_any_pattern : Text → List Text → Bool
  match_any_pattern candidate [] = false
  match_any_pattern candidate (pattern ∷ patterns) =
      match_sensitive_pattern candidate pattern || match_any_pattern candidate patterns

  unfoldable pub match_any_candidate : List Text → List Text → Bool
  match_any_candidate [] patterns = false
  match_any_candidate (candidate ∷ candidates) patterns =
      match_any_pattern candidate patterns || match_any_candidate candidates patterns

  abbrev pub match_patterns : List Text → Text → Bool
  match_patterns [] path = false
  match_patterns (pattern ∷ patterns) path =
      let relative = normalize path in
      if relative == []
      then false
      else match_any_candidate (path_candidates relative) (pattern ∷ patterns)

  -- Match, on a filter that is not nil
  unfoldable pub match_path : SensitiveFilter → Text → Bool
  match_path f path = match_patterns f.patterns path

  -- isSensitivePath
  unfoldable pub is_sensitive_path : Option SensitiveFilter → Text → Bool
  is_sensitive_path none path = false
  is_sensitive_path (some f) path = match_path f path
