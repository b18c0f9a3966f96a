-- ===== src/SafePath/Names.antt =====
-- Clean returns names only, and accepts its own results.
use rclaude.Prelude.{
  ◌≡◌, refl, sym, ◌∙◌, ◌≢◌, List, [], ◌∷◌, arith, Text, text_beq, text_beq_iff, starts_with,
  replace_all, All, ◌==◌, nat_eq, text_eq, if◌then◌else◌, Bool-cases, inl, inr, Bool, true, false,
  Result, ok, err,
}
use rclaude.Paths
use rclaude.Paths.{slash, dot, dotdot, is_abs, segments, join_slash, dot_of_empty, trim_slash}
use rclaude.Paths.Split.{NoSlash}
use rclaude.Paths.Resolve.{IsName, IsNormal, IsNormal-rooted}
use rclaude.Paths.Chars.{join_slash-All, segments-All}
use rclaude.Paths.Clean.{segments_of_normal, segments-IsNormal, IsNormal-NoSlash}
use rclaude.SafePath.{SafeError, to_slash, goes_up, clean, escape, backslash}

pub goes_up-join_slash :
    (part : Text) (parts : List Text)
    → NoSlash part
    → goes_up (join_slash (part ∷ parts)) ≡ (part == dotdot)
unfolding goes_up join_slash starts_with text_beq
goes_up-join_slash [] [] n = refl
goes_up-join_slash (a ∷ []) [] n = ground arith
goes_up-join_slash (a ∷ b ∷ []) [] n = ground arith
goes_up-join_slash (a ∷ b ∷ c ∷ part) [] n = ground arith
goes_up-join_slash [] (next ∷ parts) n = refl
goes_up-join_slash (a ∷ []) (next ∷ parts) n = ground arith
goes_up-join_slash (a ∷ b ∷ []) (next ∷ parts) n = ground arith
goes_up-join_slash (a ∷ b ∷ c ∷ part) (next ∷ parts) n = ground arith

-- The first component that is left is "..".
abbrev pub up_first : List Text → Bool
up_first [] = false
up_first (part ∷ parts) = part == dotdot

names_of_normal :
    (rooted : Bool) (parts : List Text)
    → IsNormal rooted parts
    → up_first parts ≡ false
    → All IsName parts
names_of_normal rooted [] n h = tt
names_of_normal rooted (part ∷ parts) (inl names) h = names
names_of_normal rooted (part ∷ parts) (inr (up, _, _)) h = ground (arith, text_beq_iff part dotdot)

pub not-up_first : (parts : List Text) → All IsName parts → up_first parts ≡ false
not-up_first [] names = refl
not-up_first (part ∷ parts) names = ground (arith, text_beq_iff part dotdot)

trim_slash-join_slash :
    (parts : List Text) → All IsName parts → trim_slash (join_slash parts) ≡ join_slash parts
unfolding trim_slash join_slash
trim_slash-join_slash [] names = refl
trim_slash-join_slash ([] ∷ parts) names = absurd (names.0.0.0 refl)
trim_slash-join_slash ((c ∷ part) ∷ []) names = ground arith
trim_slash-join_slash ((c ∷ part) ∷ next ∷ parts) names = ground arith

join_slash-ne-dot : (parts : List Text) → All IsName parts → (join_slash parts == dot) ≡ false
unfolding join_slash
join_slash-ne-dot [] names = unfold text_beq in refl
join_slash-ne-dot (part ∷ []) names = ground (arith, text_beq_iff part dot)
join_slash-ne-dot ([] ∷ next ∷ parts) names = absurd (names.0.0.0 refl)
join_slash-ne-dot ((c ∷ []) ∷ next ∷ parts) names = unfold text_beq in ground arith
join_slash-ne-dot ((c ∷ d ∷ part) ∷ next ∷ parts) names = unfold text_beq in ground arith

-- The tail of Clean, from the result of path.Clean on.
abbrev finish : Text → Result SafeError Text
finish cleaned =
    if goes_up cleaned
    then err escape
    else (let relative = trim_slash cleaned in if relative == dot then ok [] else ok relative)

abbrev pub outcome : List Text → Result SafeError Text
outcome parts = if up_first parts then err escape else ok (join_slash parts)

finish_rooted :
    (parts : List Text) → All IsName parts → finish (slash ∷ join_slash parts) ≡ outcome parts
unfolding goes_up starts_with text_beq trim_slash
finish_rooted parts names = rw (not-up_first parts names) (rw (join_slash-ne-dot parts names))

finish_relative :
    (parts : List Text) → IsNormal false parts → finish (dot_of_empty parts) ≡ outcome parts
finish_relative [] n = unfold goes_up starts_with text_beq trim_slash join_slash in refl
finish_relative (part ∷ parts) n = elim (Bool-cases (part == dotdot)) [
  | inl up ↦ rw (goes_up-join_slash part parts (IsNormal-NoSlash false (part ∷ parts) n).0) (rw up)
  | inr other ↦
      let names = names_of_normal false (part ∷ parts) n other in
      rw (goes_up-join_slash part parts (IsNormal-NoSlash false (part ∷ parts) n).0) (
        rw other (
          rw (trim_slash-join_slash (part ∷ parts) names)
            (rw (join_slash-ne-dot (part ∷ parts) names))))
]

-- Clean of a text that is not empty, by the components that the lexical walk leaves.
pub clean_lem : (p : Text) → p ≢ [] → clean p ≡ outcome (segments (to_slash p))
unfolding clean
clean_lem p h =
    let q = to_slash p in
    rw (the_rest p h) (elim (Bool-cases (is_abs q)) [
      | inl rooted ↦
          unfold Paths.clean in
          rw rooted
            (finish_rooted (segments q) (IsNormal-rooted _ (rw rooted at (segments-IsNormal q))))
      | inr relative ↦
          unfold Paths.clean in
          rw relative (finish_relative (segments q) (rw relative at (segments-IsNormal q)))
    ])
  where
    the_rest : (p : Text) → p ≢ [] → (p == []) ≡ false
    the_rest p h = ground (arith, text_beq_iff p [])

clean-empty : (p : Text) {r : Text} → (p == []) ≡ true → clean p ≢ ok r
unfolding clean
clean-empty p h = rw h (cc)

outcome-names :
    (rooted : Bool) (parts : List Text) {r : Text}
    → IsNormal rooted parts
    → outcome parts ≡ ok r
    → All IsName parts × (r ≡ join_slash parts)
outcome-names rooted parts n e = elim (Bool-cases (up_first parts)) [
  | inl up ↦ absurd (ground arith)
  | inr down ↦ (names_of_normal rooted parts n down, ground arith)
]

-- A result of Clean is a path of names, below the directory that it is joined to.
pub clean-names :
    (p : Text) {r : Text}
    → clean p ≡ ok r
    → All IsName (segments (to_slash p)) × (r ≡ join_slash (segments (to_slash p)))
clean-names p e = elim (Bool-cases (p == [])) [
  | inl empty ↦ absurd (clean-empty p empty e)
  | inr full ↦
      outcome-names (is_abs (to_slash p)) (segments (to_slash p)) (segments-IsNormal (to_slash p))
        (sym (clean_lem p (λ z. ground (arith, text_beq_iff p []))) ∙ e)
]

NoBackslash-to_slash : (s : Text) → All (λ c. c ≢ backslash) (to_slash s)
unfolding to_slash replace_all
NoBackslash-to_slash [] = tt
NoBackslash-to_slash (c ∷ s) = (ground arith, NoBackslash-to_slash s)

pub to_slash_of_NoBackslash : (s : Text) → All (λ c. c ≢ backslash) s → to_slash s ≡ s
unfolding to_slash replace_all
to_slash_of_NoBackslash [] h = refl
to_slash_of_NoBackslash (c ∷ s) h = ground (arith, to_slash_of_NoBackslash s h.1)

pub clean-NoBackslash : (p : Text) {r : Text} → clean p ≡ ok r → All (λ c. c ≢ backslash) r
clean-NoBackslash p e = rw (clean-names p e).1 (
    join_slash-All (λ c. c ≢ backslash) (segments (to_slash p)) (omega arith)
      (segments-All (λ c. c ≢ backslash) (to_slash p) (omega arith) (NoBackslash-to_slash p)))

outcome_of_names : (parts : List Text) → All IsName parts → outcome parts ≡ ok (join_slash parts)
outcome_of_names parts names = rw (not-up_first parts names)

pub clean-join_slash :
    (parts : List Text)
    → All IsName parts
    → join_slash parts ≢ []
    → All (λ c. c ≢ backslash) (join_slash parts)
    → clean (join_slash parts) ≡ ok (join_slash parts)
clean-join_slash [] names h n = absurd (h (unfold join_slash in refl))
clean-join_slash (part ∷ parts) names h n =
    clean_lem (join_slash (part ∷ parts)) h
    ∙ rw (to_slash_of_NoBackslash (join_slash (part ∷ parts)) n)
        (rw (segments_of_normal part parts (inl names)) (outcome_of_names (part ∷ parts) names))

-- Clean accepts its own result and returns it unchanged, unless it is the empty text.
pub clean_idempotent : (p : Text) {r : Text} → clean p ≡ ok r → r ≢ [] → clean r ≡ ok r
clean_idempotent p {r} e h =
    let (names, same) = clean-names p e in
    rw same (
      clean-join_slash (segments (to_slash p)) names (λ z. h (same ∙ z))
        (rw same at (clean-NoBackslash p e)))
