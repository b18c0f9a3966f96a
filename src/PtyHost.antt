-- ===== src/PtyHost.antt =====
-- pkg/ptyhost/policy.go: the directory, the environment and the program of a terminal. The tables of
-- package unicode, path.Match and exec.LookPath are parameters.
pub mod Policy
use rclaude.Prelude.{
  ℕ, ◌+◌, Bool, true, false, not, ◌&&◌, ◌||◌, Option, none, some, List, [], ◌∷◌, ◌++◌, Text, codes,
  starts_with, contains_any, trim_space, ◌==◌, text_eq, nat_eq, if◌then◌else◌, Result, ok, err,
  ◌>>=◌,
}
use rclaude.Prelude.Int.{ℤ}
use rclaude.Prelude.Assoc.{Assoc}
use rclaude.Paths.{slash, is_abs}
use rclaude.SafePath.{SafeError, backslash, clean_segment, is_drive_letter, has_drive}
use rclaude.SafePath
use rclaude.Sorting.{member, sort_texts}

pub data HostError : Type 0 where
  unsafe_user_id unsafe_workspace workspace_root_not_abs : HostError
  binary_empty binary_not_found binary_unsafe : HostError

-- WindowSize, ExitInfo, and SpawnReq without its arguments, which are never set
pub record WindowSize : Type 0 where
  pub cols : ℕ
  pub rows : ℕ
  pub x_pixel : ℕ
  pub y_pixel : ℕ

pub record ExitInfo : Type 0 where
  pub code : ℤ
  pub signal : ℕ

pub record SpawnReq : Type 0 where
  pub binary : Text
  pub cwd : Text
  pub env : List Text
  pub init_size : WindowSize
  pub graceful_timeout : ℤ

abbrev pub or_error : HostError → Result SafeError Text → Result HostError Text
or_error e (ok s) = ok s
or_error e (err _) = err e

abbrev pub of_join : Result SafeError Text → Result HostError Text
of_join (ok cwd) = ok cwd
of_join (err SafeError.base_not_abs) = err workspace_root_not_abs
of_join (err SafeError.empty_path) = err workspace_root_not_abs
of_join (err _) = err unsafe_user_id

-- ResolveCwd
unfoldable pub resolve_cwd : Text → Text → Text → Result HostError Text
resolve_cwd root user workspace = if root == [] then err workspace_root_not_abs else do
  cleaned_user ← or_error unsafe_user_id (clean_segment user)
  cleaned_workspace ← or_error unsafe_workspace (clean_segment workspace)
  of_join (SafePath.join root (cleaned_user ++ slash ∷ cleaned_workspace))

-- compileEnvAllowlist: the exact keys, and the patterns
unfoldable pub compile_env_allowlist : List Text → List Text × List Text
compile_env_allowlist [] = ([], [])
compile_env_allowlist (entry ∷ rest) =
    let (exact, patterns) = compile_env_allowlist rest in
    let key = trim_space entry in
    if key == []
    then (exact, patterns)
    else if contains_any (codes "*?[") key
    then (exact, key ∷ patterns)
    else (key ∷ exact, patterns)

abbrev matched : Option Bool → Bool
matched none = false
matched (some b) = b

abbrev pub term_key : Text
term_key = codes "TERM"

unfoldable pub without_term : List Text → List Text
without_term [] = []
without_term (pair ∷ pairs) =
    let rest = without_term pairs in if starts_with pair (codes "TERM=") then rest else pair ∷ rest

-- unicode.IsLetter and unicode.IsDigit
module _ (is_letter is_digit : ℕ → Bool) where
  abbrev term_chars : Text → Bool
  term_chars [] = true
  term_chars (c ∷ s) =
      (is_letter c || is_digit c || c == b'-' || c == b'_' || c == b'.') && term_chars s

  -- isSafeTerm
  unfoldable pub is_safe_term : Text → Bool
  is_safe_term term = if term == [] then false else term_chars term

-- path.Match, with none for an error
module _ (path_match : Text → Text → Option Bool) where
  abbrev any_pattern : Text → List Text → Bool
  any_pattern key [] = false
  any_pattern key (pattern ∷ patterns) =
      matched (path_match pattern key) || any_pattern key patterns

  -- envKeyAllowed
  unfoldable pub env_key_allowed : Text → List Text × List Text → Bool
  env_key_allowed key (exact, patterns) = member key exact || any_pattern key patterns

  -- The loop of BuildEnv over the environment of the server.
  unfoldable pub allowed_pairs : List Text × List Text → Assoc Text Text → List Text
  allowed_pairs allowed [] = []
  allowed_pairs allowed ((key, value) ∷ source) =
      let rest = allowed_pairs allowed source in
      if not (env_key_allowed key allowed) then rest else (key ++ codes "=" ++ value) ∷ rest

  module _ (is_letter is_digit : ℕ → Bool) where
    -- BuildEnv
    unfoldable pub build_env : Assoc Text Text → List Text → Text → List Text
    build_env source whitelist client_term =
        let allowed = compile_env_allowlist whitelist in
        let out = allowed_pairs allowed source in
        sort_texts (
          if env_key_allowed term_key allowed && is_safe_term is_letter is_digit client_term
          then without_term out ++ (codes "TERM=" ++ client_term) ∷ []
          else out)

-- isAbsoluteBinaryPath, with hasWindowsDrivePrefix
unfoldable pub is_absolute_binary_path : Text → Bool
is_absolute_binary_path binary =
    is_abs binary || starts_with binary (backslash ∷ []) || has_drive binary

abbrev pub of_look_path : Option Text → Result HostError Text
of_look_path none = err binary_not_found
of_look_path (some path) = ok path

-- ResolveBinary, over exec.LookPath
unfoldable pub resolve_binary : (Text → Option Text) → Text → Result HostError Text
resolve_binary look_path name =
    let trimmed = trim_space name in
    if trimmed == []
    then err binary_empty
    else if is_absolute_binary_path trimmed
    then ok trimmed
    else if contains_any (slash ∷ backslash ∷ []) trimmed
    then err binary_unsafe
    else of_look_path (look_path trimmed)
