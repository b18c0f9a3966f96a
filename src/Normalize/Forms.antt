-- ===== src/Normalize/Forms.antt =====
-- The relative form of a path, by the components that its lexical walk leaves.
use rclaude.Prelude.{
  ◌≡◌, refl, ◌∙◌, ◌≢◌, List, [], ◌∷◌, arith, Text, text_beq, text_beq_iff, starts_with, replace_all,
  nat_beq_iff, ℕ, All, ◌==◌, nat_eq, text_eq, if◌then◌else◌, Bool-cases, inl, inr, Bool, true,
  false, ◌||◌,
}
use rclaude.Paths
use rclaude.Paths.{
  slash, dot, dotdot, is_abs, segments, join_slash, dot_of_empty, trim_slash, split_slash, resolve,
  enter,
}
use rclaude.Paths.Split.{NoSlash}
use rclaude.Paths.Resolve.{IsNormal}
use rclaude.Paths.Clean.{segments-IsNormal, IsNormal-NoSlash, segments_of_normal}
use rclaude.Paths.Chars.{join_slash-All, segments-All}
use rclaude.Normalize.{relative_form, normalize}

pub IsNormal-relative :
    (rooted : Bool) (parts : List Text) → IsNormal rooted parts → IsNormal false parts
IsNormal-relative rooted [] n = tt
IsNormal-relative rooted (part ∷ parts) (inl names) = inl names
IsNormal-relative true (part ∷ parts) (inr (up, relative, n)) = cc
IsNormal-relative false (part ∷ parts) (inr (up, relative, n)) = inr (up, refl, n)

head-full :
    (part : Text) (parts : List Text) → IsNormal false (part ∷ parts) → (part ≢ []) × (part ≢ dot)
head-full part parts (inl names) = (names.0.0.0, names.0.0.1)
head-full part parts (inr (up, _, _)) = (rw up (λ e. cc), rw up (λ e. cc))

trim_slash_of_normal :
    (parts : List Text) → IsNormal false parts → trim_slash (join_slash parts) ≡ join_slash parts
trim_slash_of_normal [] n = unfold trim_slash join_slash in refl
trim_slash_of_normal (part ∷ parts) n =
    trimmed part parts (head-full part parts n).0 (IsNormal-NoSlash false (part ∷ parts) n).0
  where
    trimmed :
        (part : Text) (parts : List Text)
        → part ≢ []
        → NoSlash part
        → trim_slash (join_slash (part ∷ parts)) ≡ join_slash (part ∷ parts)
    trimmed [] parts h n = absurd (h refl)
    trimmed (c ∷ part) [] h n = unfold trim_slash join_slash in ground arith
    trimmed (c ∷ part) (next ∷ parts) h n = unfold trim_slash join_slash in ground arith

pub not-dot : (parts : List Text) → IsNormal false parts → (join_slash parts == dot) ≡ false
not-dot [] n = unfold join_slash text_beq in refl
not-dot (part ∷ parts) n = plain part parts (head-full part parts n)
  where
    plain :
        (part : Text) (parts : List Text)
        → (part ≢ []) × (part ≢ dot)
        → (join_slash (part ∷ parts) == dot) ≡ false
    plain part [] h = unfold join_slash in ground (arith, text_beq_iff part dot)
    plain [] (next ∷ parts) h = absurd (h.0 refl)
    plain (c ∷ []) (next ∷ parts) h = unfold join_slash text_beq in ground arith
    plain (c ∷ d ∷ part) (next ∷ parts) h = unfold join_slash text_beq in ground arith

abbrev finish : Text → Text
finish cleaned = let relative = trim_slash cleaned in if relative == dot then [] else relative

finish-join_slash :
    (parts : List Text) → IsNormal false parts → finish (join_slash parts) ≡ join_slash parts
finish-join_slash parts n = rw (trim_slash_of_normal parts n) (rw (not-dot parts n))

finish-slash :
    (parts : List Text)
    → IsNormal false parts
    → finish (slash ∷ join_slash parts) ≡ join_slash parts
finish-slash parts n = rw (trimmed parts) (rw (not-dot parts n))
  where
    trimmed : (parts : List Text) → trim_slash (slash ∷ join_slash parts) ≡ join_slash parts
    trimmed parts = unfold trim_slash in refl

finish-clean : (p : Text) → finish (Paths.clean p) ≡ join_slash (segments p)
finish-clean p =
    let n = IsNormal-relative (is_abs p) (segments p) (segments-IsNormal p) in
    elim (Bool-cases (is_abs p)) [
      | inl rooted ↦ unfold Paths.clean in rw rooted (finish-slash (segments p) n)
      | inr relative ↦ unfold Paths.clean in rw relative (from_empty (segments p) n)
    ]
  where
    from_empty :
        (parts : List Text) → IsNormal false parts → finish (dot_of_empty parts) ≡ join_slash parts
    from_empty [] n = unfold trim_slash text_beq join_slash in refl
    from_empty (part ∷ parts) n = finish-join_slash (part ∷ parts) n

short_form :
    (p : Text) → (p == [] || p == dot || p == slash ∷ []) ≡ true → [] ≡ join_slash (segments p)
unfolding segments is_abs starts_with split_slash resolve enter join_slash text_beq
short_form [] h = refl
short_form (c ∷ []) h = elim (Bool-cases (c == slash)) [
  | inl rooted ↦ rw ((nat_beq_iff c slash).0 rooted)
  | inr named ↦ rw (dot_of_test c named h)
]
  where
    dot_of_test :
        (c : ℕ)
        → (c == slash) ≡ false
        → ((c ∷ []) == [] || (c ∷ []) == dot || (c ∷ []) == slash ∷ []) ≡ true
        → c ≡ b'.'
    dot_of_test c named h = ground arith
short_form (c ∷ d ∷ p) h = absurd (ground arith)

-- The relative form joins the components that the lexical walk leaves, whatever the path.
pub relative_form_lem : (p : Text) → relative_form p ≡ join_slash (segments p)
unfolding relative_form
relative_form_lem p = elim (Bool-cases (p == [] || p == dot || p == slash ∷ [])) [
  | inl short ↦ rw short (short_form p short)
  | inr long ↦ rw long (finish-clean p)
]

abbrev pub NoBackslash : Text → Type 0
NoBackslash = All (λ c. c ≢ 0x5c)

replace_all-NoBackslash : (s : Text) → NoBackslash (replace_all 0x5c slash s)
unfolding replace_all
replace_all-NoBackslash [] = tt
replace_all-NoBackslash (c ∷ s) = (ground arith, replace_all-NoBackslash s)

pub replace_all_of_NoBackslash : (s : Text) → NoBackslash s → replace_all 0x5c slash s ≡ s
unfolding replace_all
replace_all_of_NoBackslash [] h = refl
replace_all_of_NoBackslash (c ∷ s) h = ground (arith, replace_all_of_NoBackslash s h.1)

-- What is left of any path: ".." first, then names.
pub normalize_lem : (p : Text) → normalize p ≡ join_slash (segments (replace_all 0x5c slash p))
unfolding normalize
normalize_lem p = relative_form_lem (replace_all 0x5c slash p)

pub segments-join_slash :
    (parts : List Text) → IsNormal false parts → segments (join_slash parts) ≡ parts
segments-join_slash [] n =
    unfold segments is_abs starts_with split_slash resolve enter join_slash text_beq in refl
segments-join_slash (part ∷ parts) n = segments_of_normal part parts n

-- A normal form is its own normal form.
pub normalize_idempotent : (p : Text) → normalize (normalize p) ≡ normalize p
normalize_idempotent p =
    let q = replace_all 0x5c slash p in
    let parts = segments q in
    let plain : NoBackslash (join_slash parts) =
      join_slash-All (λ c. c ≢ 0x5c) parts (omega arith)
        (segments-All (λ c. c ≢ 0x5c) q (omega arith) (replace_all-NoBackslash p)) in
    normalize_lem (normalize p)
    ∙ rw (normalize_lem p) (
        rw (replace_all_of_NoBackslash (join_slash parts) plain) (
          rw
            (segments-join_slash parts (IsNormal-relative (is_abs q) parts (segments-IsNormal q)))))

pub is_abs-join_slash :
    (parts : List Text) → IsNormal false parts → is_abs (join_slash parts) ≡ false
unfolding is_abs starts_with join_slash
is_abs-join_slash [] n = refl
is_abs-join_slash (part ∷ parts) n =
    headed part parts (head-full part parts n).0 (IsNormal-NoSlash false (part ∷ parts) n).0
  where
    headed :
        (part : Text) (parts : List Text)
        → part ≢ []
        → NoSlash part
        → is_abs (join_slash (part ∷ parts)) ≡ false
    headed [] parts h n = absurd (h refl)
    headed (c ∷ part) [] h n = ground arith
    headed (c ∷ part) (next ∷ parts) h n = ground arith

-- No normal form starts with a slash.
pub is_abs-normalize : (p : Text) → is_abs (normalize p) ≡ false
is_abs-normalize p =
    let q = replace_all 0x5c slash p in
    rw (normalize_lem p) (
      is_abs-join_slash (segments q)
        (IsNormal-relative (is_abs q) (segments q) (segments-IsNormal q)))
