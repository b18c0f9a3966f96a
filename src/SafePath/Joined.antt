-- ===== src/SafePath/Joined.antt =====
-- Join adds the components of the relative path below the base, and its recheck never refuses.
use mathlib.Core.List.{
  reverse, reverse_aux, reverse_aux-eq, append-nil, reverse_aux-reverse_aux-nil,
}
use rclaude.Prelude.{
  ◌≡◌, refl, sym, ap, ◌∙◌, ◌≢◌, List, [], ◌∷◌, ◌++◌, arith, Text, text_beq, text_beq_iff,
  starts_with, All, ◌==◌, text_eq, if◌then◌else◌, Bool-cases, inl, inr, Bool, true, false, ok,
}
use rclaude.Paths
use rclaude.Paths.{
  slash, is_abs, segments, join_slash, split_slash, resolve, join_two, file_from_slash,
}
use rclaude.Paths.Split.{split_slash-append, split_slash-join_slash}
use rclaude.Paths.Resolve.{IsName, resolve_names}
use rclaude.Paths.Clean.{IsNormal-NoSlash, is_abs-clean, segments-clean, segments_of_normal}
use rclaude.SafePath.{to_slash, from_slash, clean, is_within, is_abs_like, recheck, join}
use rclaude.SafePath.Names.{clean-names}
use rclaude.SafePath.Within.{is_within_iff, is_abs-ne-nil}

resolve-append :
    (rooted : Bool) (xs ys stack : List Text)
    → resolve rooted stack (xs ++ ys) ≡ resolve rooted (resolve rooted stack xs) ys
unfolding resolve
resolve-append rooted [] ys stack = refl
resolve-append rooted (x ∷ xs) ys stack = resolve-append rooted xs ys (Paths.enter rooted x stack)

is_abs-append : (base s : Text) → is_abs base ≡ true → is_abs (base ++ s) ≡ true
unfolding is_abs starts_with
is_abs-append [] s h = cc
is_abs-append (c ∷ base) s h = h

reverse_of_names :
    (names stack : List Text) → reverse (reverse_aux names stack) ≡ reverse stack ++ names
reverse_of_names names stack = reverse_aux-reverse_aux-nil names stack ∙ reverse_aux-eq stack names

segments-append :
    (base : Text) (part : Text) (parts : List Text)
    → is_abs base ≡ true
    → All IsName (part ∷ parts)
    → segments (base ++ slash ∷ join_slash (part ∷ parts)) ≡ segments base ++ part ∷ parts
unfolding segments
segments-append base part parts b names =
    rw (is_abs-append base (slash ∷ join_slash (part ∷ parts)) b) (
      rw b (
        rw (split_slash-append base (join_slash (part ∷ parts))) (
          rw (split_slash-join_slash part parts (IsNormal-NoSlash true (part ∷ parts) (inl names)))
            (rw (resolve-append true (split_slash base) (part ∷ parts) []) (
              rw (resolve_names true (resolve true [] (split_slash base)) (part ∷ parts) names)
                (reverse_of_names (part ∷ parts) (resolve true [] (split_slash base))))))))

-- Join puts the components of the relative path under those of the base.
abbrev pub IsBelow : Text → Text → Text → Type 0
IsBelow base r j = (is_abs j ≡ true) × (segments j ≡ segments base ++ segments r)

recheck_ok :
    (base joined : Text) → is_within base joined ≡ ok true → recheck base joined ≡ ok joined
unfolding recheck
recheck_ok base joined h = rw h

join_two_full :
    (base r : Text)
    → is_abs base ≡ true
    → r ≢ []
    → join_two base r ≡ Paths.clean (base ++ slash ∷ r)
unfolding join_two is_abs starts_with
join_two_full [] r b h = cc
join_two_full (c ∷ base) [] b h = absurd (h refl)
join_two_full (c ∷ base) (d ∷ r) b h = refl

join_names :
    (base : Text) (names : List Text)
    → is_abs base ≡ true
    → All IsName names
    → join_slash names ≢ []
    → (j : Text) × (recheck base (join_two base (from_slash (join_slash names))) ≡ ok j)
      × IsBelow base (join_slash names) j
unfolding from_slash file_from_slash
join_names base [] b names h = absurd (h (unfold join_slash in refl))
join_names base (part ∷ parts) b names h =
    let r = join_slash (part ∷ parts) in
    let j = join_two base r in
    let made : j ≡ Paths.clean (base ++ slash ∷ r) = join_two_full base r b h in
    let rooted : is_abs j ≡ true =
      ap is_abs made ∙ is_abs-clean (base ++ slash ∷ r) ∙ is_abs-append base (slash ∷ r) b in
    let below : segments j ≡ segments base ++ part ∷ parts =
      ap segments made
      ∙ segments-clean (base ++ slash ∷ r)
      ∙ segments-append base part parts b names in
    (
      j,
      recheck_ok base j ((is_within_iff base j b rooted).1 (part ∷ parts, below)),
      (rooted, below ∙ ap (◌++◌ (segments base)) (sym (segments_of_normal part parts (inl names)))),
    )

join_cleaned :
    (base relative r : Text)
    → is_abs base ≡ true
    → is_abs_like relative ≡ false
    → clean relative ≡ ok r
    → join base relative
      ≡ (if r == [] then ok (Paths.clean base) else recheck base (join_two base (from_slash r)))
unfolding join
join_cleaned base relative r b a e = rw (is_abs-ne-nil base b) (rw b (rw a (rw e)))

-- For an absolute base, Join answers whenever Clean accepts the relative path and that path does
-- not look absolute: the joined path is absolute, and its components are those of the base, then
-- those of the cleaned path. So the second check, against leaving the base, never refuses.
pub join-IsBelow :
    (base relative : Text) {r : Text}
    → is_abs base ≡ true
    → is_abs_like relative ≡ false
    → clean relative ≡ ok r
    → (j : Text) × (join base relative ≡ ok j) × IsBelow base r j
join-IsBelow base relative {r} b a e = elim (Bool-cases (r == [])) [
  | inl empty ↦ (
    Paths.clean base,
    join_cleaned base relative r b a e ∙ rw empty,
    (is_abs-clean base ∙ b, segments-clean base ∙ at_base ((text_beq_iff r []).0 empty)),
  )
  | inr full ↦
      let (names, same) = clean-names relative e in
      let (j, done, below) =
        join_names base (segments (to_slash relative)) b names
          (λ z. ground (arith, text_beq_iff r [])) in
      (j, join_cleaned base relative r b a e ∙ rw full (rw same done), rw same below)
]
  where
    at_base : r ≡ [] → segments base ≡ segments base ++ segments r
    at_base z = rw z (
        unfold segments is_abs starts_with split_slash resolve Paths.enter text_beq in
        sym (append-nil (segments base)))
