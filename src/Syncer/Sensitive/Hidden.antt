-- ===== src/Syncer/Sensitive/Hidden.antt =====
-- What the filter of sensitive files promises: what lies in a hidden directory is hidden, and
-- further patterns hide more.
use mathlib.Core.List.{append_assoc, append-nil}
use rclaude.Prelude.{
  ◌≡◌, refl, ◌≢◌, inl, inr, Bool, true, false, not, ◌||◌, List, [], ◌∷◌, ◌++◌, Text, ◌==◌, text_eq,
  text_beq, text_beq_iff, arith, ap, sym, ◌∙◌, Bool-cases, ok, err, ◌>>=◌, Result, replace_all, map,
  All,
}
use rclaude.Paths.{slash, dot}
use rclaude.Paths.Resolve.{IsName}
use rclaude.SafePath.{to_slash}
use rclaude.Normalize.{normalize, relative_form}
use rclaude.Normalize.Forms.{NoBackslash}
use rclaude.Normalize.Child.{normalize-child}
use rclaude.Syncer.Files.{join_rel_path}
use rclaude.Syncer.Sensitive.{
  SensitiveFilter, PatternError, match_any_pattern, match_any_candidate, match_path,
  path_candidates, default_sensitive_patterns, new_sensitive_filter, add_patterns,
  normalize_pattern,
}
use rclaude.Syncer.Sensitive.Climb.{path_candidates-child}

replace_all-replace_all :
    (s : Text) → replace_all 0x5c slash (replace_all 0x5c slash s) ≡ replace_all 0x5c slash s
unfolding replace_all
replace_all-replace_all [] = refl
replace_all-replace_all (c ∷ s) = ground (arith, replace_all-replace_all s)

pub normalize-to_slash : (p : Text) → normalize (to_slash p) ≡ normalize p
unfolding normalize to_slash
normalize-to_slash p = ap relative_form (replace_all-replace_all p)

normalize-nil : normalize [] ≡ []
unfolding normalize relative_form replace_all text_beq
normalize-nil = refl

normalize-dot : normalize dot ≡ []
unfolding normalize relative_form replace_all text_beq
normalize-dot = refl

normalize-join_rel_path :
    (p name : Text)
    → normalize p ≢ []
    → IsName name
    → NoBackslash name
    → normalize (join_rel_path p name) ≡ normalize p ++ slash ∷ name
unfolding join_rel_path
normalize-join_rel_path p name h n b =
    let folder = to_slash p in
    let same = normalize-to_slash p in
    let plain : (folder == [] || folder == dot) ≡ false = ground (
      arith,
      text_beq_iff folder [],
      text_beq_iff folder dot,
      ap normalize {x = folder} {y = []},
      ap normalize {x = folder} {y = dot},
      normalize-nil,
      normalize-dot,
    ) in
    rw plain
      (normalize-child folder name (λ e. h (sym same ∙ e)) n b ∙ ap (λ t. t ++ slash ∷ name) same)

module _ (matches : Text → Text → Bool) where
  match_any_pattern-append :
      (candidate : Text) (patterns more : List Text)
      → match_any_pattern matches candidate (patterns ++ more)
        ≡ (match_any_pattern matches candidate patterns || match_any_pattern matches candidate more)
  unfolding match_any_pattern
  match_any_pattern-append candidate [] more = refl
  match_any_pattern-append candidate (pattern ∷ patterns) more =
      ground (arith, match_any_pattern-append candidate patterns more)

  match_any_candidate-append :
      (candidates patterns more : List Text)
      → match_any_candidate matches candidates patterns ≡ true
      → match_any_candidate matches candidates (patterns ++ more) ≡ true
  unfolding match_any_candidate
  match_any_candidate-append [] patterns more h = h
  match_any_candidate-append (candidate ∷ candidates) patterns more h = ground (
    arith,
    match_any_pattern-append candidate patterns more,
    match_any_candidate-append candidates patterns more,
  )

  no-pattern : (candidates : List Text) → match_any_candidate matches candidates [] ≡ false
  unfolding match_any_candidate match_any_pattern
  no-pattern [] = refl
  no-pattern (candidate ∷ candidates) = no-pattern candidates

  match_path_lem :
      (patterns : List Text) (p : Text)
      → match_path matches (record { patterns = patterns }) p ≡ true
      → (normalize p ≢ [])
        × (match_any_candidate matches (path_candidates (normalize p)) patterns ≡ true)
  unfolding match_path
  match_path_lem [] p h = cc
  match_path_lem (pattern ∷ patterns) p h = elim (Bool-cases (normalize p == [])) [
    | inl e ↦ cc
    | inr full ↦ (λ e. ground (arith, text_beq_iff (normalize p) []), ground arith)
  ]

  match_path_of_candidate :
      (patterns : List Text) (p : Text)
      → normalize p ≢ []
      → match_any_candidate matches (path_candidates (normalize p)) patterns ≡ true
      → match_path matches (record { patterns = patterns }) p ≡ true
  unfolding match_path
  match_path_of_candidate [] p h k = cc (no-pattern (path_candidates (normalize p)))
  match_path_of_candidate (pattern ∷ patterns) p h k = ground (arith, text_beq_iff (normalize p) [])

  -- The entry of a directory that the filter hides is hidden, under the path by which handleListDir
  -- joins the two, for every name that is a single component without a backslash.
  pub match_path-join_rel_path :
      (f : SensitiveFilter) (p name : Text)
      → IsName name
      → NoBackslash name
      → match_path matches f p ≡ true
      → match_path matches f (join_rel_path p name) ≡ true
  match_path-join_rel_path f p name n b h =
      let (full, found) = match_path_lem f.patterns p h in
      let e = normalize-join_rel_path p name full n b in
      let under : normalize (join_rel_path p name) ≢ [] =
        λ nil. absurd (append-ne-nil (normalize p) name (sym e ∙ nil)) in
      match_path_of_candidate f.patterns (join_rel_path p name) under (
        rw e (
          rw (path_candidates-child p name full n.1)
            (later (normalize p ++ slash ∷ name) (path_candidates (normalize p)) found)))
    where
      append-ne-nil : (p name : Text) → (p ++ slash ∷ name) ≢ []
      append-ne-nil [] name = cc
      append-ne-nil (c ∷ p) name = cc

      later :
          (candidate : Text) (candidates : List Text)
          → match_any_candidate matches candidates f.patterns ≡ true
          → match_any_candidate matches (candidate ∷ candidates) f.patterns ≡ true
      later candidate candidates h = unfold match_any_candidate in ground arith

  match_path-append :
      (patterns more : List Text) (p : Text)
      → match_path matches (record { patterns = patterns }) p ≡ true
      → match_path matches (record { patterns = patterns ++ more }) p ≡ true
  match_path-append patterns more p h =
      let (full, found) = match_path_lem patterns p h in
      match_path_of_candidate (patterns ++ more) p full
        (match_any_candidate-append (path_candidates (normalize p)) patterns more found)

module _ (validate : Text → Bool) where
  -- A pattern that NewSensitiveFilter takes.
  abbrev pub IsAccepted : Text → Type 0
  IsAccepted raw = (normalize_pattern raw ≢ []) × (validate (normalize_pattern raw) ≡ true)

  add_patterns_lem :
      (patterns extra : List Text) {all : List Text}
      → add_patterns validate patterns extra ≡ ok all
      → (all ≡ patterns ++ map normalize_pattern extra) × All IsAccepted extra
  unfolding add_patterns
  add_patterns_lem patterns [] h = (ground (arith, append-nil patterns), tt)
  add_patterns_lem patterns (raw ∷ extra) h =
      let pattern = normalize_pattern raw in
      elim (Bool-cases (pattern == [] || not (validate pattern))) [
        | inl bad ↦ cc (rw bad at h)
        | inr good ↦
            let (e, rest) = add_patterns_lem (patterns ++ pattern ∷ []) extra (rw good at h) in
            (
              e ∙ append_assoc patterns (pattern ∷ []) (map normalize_pattern extra),
              ((λ e. ground (arith, text_beq_iff pattern []), ground arith), rest),
            )
      ]

  add_patterns_of_accepted :
      (patterns extra : List Text)
      → All IsAccepted extra
      → add_patterns validate patterns extra ≡ ok (patterns ++ map normalize_pattern extra)
  unfolding add_patterns
  add_patterns_of_accepted patterns [] h = ground (arith, append-nil patterns)
  add_patterns_of_accepted patterns (raw ∷ extra) h =
      let pattern = normalize_pattern raw in
      let good : (pattern == [] || not (validate pattern)) ≡ false =
        ground (arith, text_beq_iff pattern []) in
      rw good (
        add_patterns_of_accepted (patterns ++ pattern ∷ []) extra h.1
        ∙ ap ok (append_assoc patterns (pattern ∷ []) (map normalize_pattern extra)))

  -- NewSensitiveFilter fails when an extra pattern is not accepted.
  pub new_sensitive_filter-IsAccepted :
      (extra : List Text) {f : SensitiveFilter}
      → new_sensitive_filter validate extra ≡ ok f
      → All IsAccepted extra
  unfolding new_sensitive_filter
  new_sensitive_filter-IsAccepted extra h =
      built (add_patterns validate default_sensitive_patterns extra) refl h
    where
      built :
          (patterns : Result PatternError (List Text)) {filter : SensitiveFilter}
          → add_patterns validate default_sensitive_patterns extra ≡ patterns
          → (patterns >>= λ all. ok (record { patterns = all })) ≡ ok filter
          → All IsAccepted extra
      built (ok all) e k = (add_patterns_lem default_sensitive_patterns extra e).1
      built (err failure) e k = cc

  -- When every extra pattern, normalised, is not empty and valid, NewSensitiveFilter succeeds, and
  -- its filter hides each path that the default patterns hide.
  pub new_sensitive_filter-hides :
      (matches : Text → Text → Bool) (extra : List Text) (p : Text)
      → All IsAccepted extra
      → match_path matches (record { patterns = default_sensitive_patterns }) p ≡ true
      → (f : SensitiveFilter) × (new_sensitive_filter validate extra ≡ ok f)
        × (match_path matches f p ≡ true)
  unfolding new_sensitive_filter
  new_sensitive_filter-hides matches extra p accepted h = (
    record { patterns = default_sensitive_patterns ++ map normalize_pattern extra },
    rw (add_patterns_of_accepted default_sensitive_patterns extra accepted) refl,
    match_path-append matches default_sensitive_patterns (map normalize_pattern extra) p h,
  )
