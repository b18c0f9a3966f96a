-- ===== src/SafePath/Segment.antt =====
-- CleanSegment accepts exactly the names that are one directory level.
use rclaude.Prelude.{
  ◌≡◌, refl, sym, ap, ◌∙◌, ◌≢◌, ◌↔◌, ◌≤◌, List, [], ◌∷◌, arith, Text, text_beq_iff, contains_any,
  trim_space, All, ◌==◌, nat_eq, text_eq, Bool-cases, inl, inr, true, false, Result, ok, err,
}
use rclaude.Paths.{slash, segments, join_slash, split_slash}
use rclaude.Paths.Split.{NoSlash, split_slash-join_slash, split_slash_of_NoSlash}
use rclaude.Paths.Resolve.{IsName}
use rclaude.Paths.Clean.{IsNormal-NoSlash}
use rclaude.SafePath.{
  SafeError, to_slash, clean, clean_segment, same_segment, has_control, backslash,
}
use rclaude.SafePath.Names.{clean-names, clean-join_slash}

-- A printable name of one level: no separator, no control character, neither "." nor "..".
pub record IsSegment (s : Text) : Type 0 where
  pub name : IsName s
  pub no_backslash : All (λ c. c ≢ backslash) s
  pub printable : All (λ c. (0x20 ≤ c) × (c ≢ 0x7f)) s

contains_any-separators :
    (s : Text)
    → (contains_any (slash ∷ backslash ∷ []) s ≡ false) ↔ (NoSlash s × All (λ c. c ≢ backslash) s)
unfolding contains_any
contains_any-separators [] = (λ _. (tt, tt), λ _. refl)
contains_any-separators (c ∷ s) = ground (arith, contains_any-separators s)

has_control_iff : (s : Text) → (has_control s ≡ false) ↔ All (λ c. (0x20 ≤ c) × (c ≢ 0x7f)) s
unfolding has_control
has_control_iff [] = (λ _. tt, λ _. refl)
has_control_iff (c ∷ s) = ground (arith, has_control_iff s)

-- A path of names without a slash is one name.
single :
    (names : List Text) (s : Text)
    → All IsName names
    → s ≡ join_slash names
    → NoSlash s
    → s ≢ []
    → IsName s
single [] s h e n full = absurd (full (e ∙ unfold join_slash in refl))
single (part ∷ parts) s h e n full =
    let split : s ∷ [] ≡ part ∷ parts =
      sym (split_slash_of_NoSlash s n)
      ∙ ap split_slash e
      ∙ split_slash-join_slash part parts (IsNormal-NoSlash true (part ∷ parts) (inl h)) in
    let same : s ≡ part = cc in rw same h.0

accepted :
    (trimmed : Text) {s : Text}
    → trimmed ≢ []
    → NoSlash trimmed
    → same_segment trimmed (clean trimmed) ≡ ok s
    → (s ≡ trimmed) × IsName trimmed
accepted trimmed {s} full n e = go (clean trimmed) refl e
  where
    go :
        (r : Result SafeError Text)
        → clean trimmed ≡ r
        → same_segment trimmed r ≡ ok s
        → (s ≡ trimmed) × IsName trimmed
    go (err f) p e = cc
    go (ok cleaned) p e =
        let same : cleaned ≡ trimmed = ground (arith, text_beq_iff cleaned trimmed) in
        let (names, made) = clean-names trimmed p in
        (
          ground (arith, text_beq_iff cleaned trimmed),
          single (segments (to_slash trimmed)) trimmed names (sym same ∙ made) n full,
        )

clean_segment_sound :
    (name : Text) {s : Text} → clean_segment name ≡ ok s → (s ≡ trim_space name) × IsSegment s
unfolding clean_segment
clean_segment_sound name e =
    let t = trim_space name in
    elim (Bool-cases (t == [])) [
      | inl h ↦ absurd (ground arith)
      | inr full ↦ elim (Bool-cases (contains_any (slash ∷ backslash ∷ []) t)) [
        | inl h ↦ absurd (ground arith)
        | inr plain ↦ elim (Bool-cases (has_control t)) [
          | inl h ↦ absurd (ground arith)
          | inr printable ↦
              let (no_slash, no_backslash) = (contains_any-separators t).0 plain in
              let (same, name) =
                accepted t (λ z. ground (arith, text_beq_iff t [])) no_slash (ground arith) in
              (
                same,
                rw same (record {
                  name = name;
                  no_backslash = no_backslash;
                  printable = (has_control_iff t).0 printable;
                }),
              )
        ]
      ]
    ]

not_empty : (t : Text) → t ≢ [] → (t == []) ≡ false
not_empty t h = ground (arith, text_beq_iff t [])

clean_of_segment : (t : Text) → IsSegment t → clean t ≡ ok t
unfolding join_slash
clean_of_segment t h = clean-join_slash (t ∷ []) (h.name, tt) h.name.0.0 h.no_backslash

clean_segment_complete :
    (name : Text) → IsSegment (trim_space name) → clean_segment name ≡ ok (trim_space name)
unfolding clean_segment
clean_segment_complete name h =
    let t = trim_space name in
    rw (not_empty t h.name.0.0) (
      rw ((contains_any-separators t).1 (h.name.1, h.no_backslash)) (
        rw ((has_control_iff t).1 h.printable)
          (rw (clean_of_segment t h) (rw ((text_beq_iff t t).1 refl)))))

-- CleanSegment returns the trimmed name exactly when that is a segment, and nothing else.
pub clean_segment_iff :
    (name s : Text) → (clean_segment name ≡ ok s) ↔ ((s ≡ trim_space name) × IsSegment s)
clean_segment_iff name s =
    (clean_segment_sound name, λ (same, h). rw same (clean_segment_complete name (rw same at h)))
