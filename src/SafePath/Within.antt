-- ===== src/SafePath/Within.antt =====
-- IsWithin decides that one path has the other's components first; Join adds components below its
-- base, and its recheck never refuses.
use mathlib.Core.List.{append-nil}
use rclaude.Prelude.{
  ◌≡◌, refl, sym, ap, ◌∙◌, ◌↔◌, List, [], ◌∷◌, ◌++◌, map, arith, Text, text_beq, text_beq_iff,
  starts_with, All, ◌==◌, nat_eq, text_eq, if◌then◌else◌, Bool-cases, inl, inr, Bool, true, false,
  some, Result, ok, not,
}
use rclaude.Paths
use rclaude.Paths.{
  slash, dot, dotdot, is_abs, segments, join_slash, split_slash, resolve, dot_of_empty, join_two,
  rel, diverge, file_to_slash, file_from_slash,
}
use rclaude.Paths.Resolve.{IsName, IsNormal-rooted}
use rclaude.Paths.Clean.{segments-IsNormal, is_abs-clean, segments-clean}
use rclaude.SafePath.{SafeError, goes_up, is_within}
use rclaude.SafePath.Names.{goes_up-join_slash}

cons_eq : (x y : Text) (ys zs : List Text) → x ≡ y → ys ≡ zs → y ∷ ys ≡ x ∷ zs
cons_eq x y ys zs p q = cc

diverge-prefix : (xs ys : List Text) → (diverge xs ys).0 ≡ [] → ys ≡ xs ++ (diverge xs ys).1
diverge-prefix [] [] h = refl
diverge-prefix [] (y ∷ ys) h = refl
diverge-prefix (x ∷ xs) [] h = cc
diverge-prefix (x ∷ xs) (y ∷ ys) h = elim (Bool-cases (x == y)) [
  | inl same ↦ rw same (
      cons_eq x y ys (xs ++ (diverge xs ys).1) ((text_beq_iff x y).0 same)
        (diverge-prefix xs ys (rw same at h)))
  | inr other ↦ absurd (ground arith)
]

diverge-append : (xs ys : List Text) → (diverge xs (xs ++ ys)).0 ≡ []
diverge-append [] [] = refl
diverge-append [] (y ∷ ys) = refl
diverge-append (x ∷ xs) ys = rw ((text_beq_iff x x).1 refl) (diverge-append xs ys)

diverge-names : (xs ys : List Text) → All IsName ys → All IsName (diverge xs ys).1
diverge-names [] [] h = tt
diverge-names [] (y ∷ ys) h = h
diverge-names (x ∷ xs) [] h = tt
diverge-names (x ∷ xs) (y ∷ ys) h = elim (Bool-cases (x == y)) [
  | inl same ↦ rw same (diverge-names xs ys h.1)
  | inr other ↦ rw other h
]

abbrev is_nil : List Text → Bool
is_nil [] = true
is_nil (x ∷ xs) = false

-- The way from the base to the target goes up first if anything of the base is left.
goes_up-between :
    (up down : List Text)
    → All IsName down
    → goes_up (dot_of_empty (map (λ _. dotdot) up ++ down)) ≡ not (is_nil up)
goes_up-between [] [] names = unfold goes_up starts_with text_beq in refl
goes_up-between [] (part ∷ down) names =
    goes_up-join_slash part down names.0.1 ∙ ground (arith, text_beq_iff part dotdot)
goes_up-between (x ∷ up) down names =
    goes_up-join_slash dotdot (map (λ _. dotdot) up ++ down) (omega arith) ∙ unfold text_beq in refl

segments-names : (p : Text) → is_abs p ≡ true → All IsName (segments p)
segments-names p h = IsNormal-rooted (segments p) (rw h at (segments-IsNormal p))

pub is_abs-ne-nil : (p : Text) → is_abs p ≡ true → (p == []) ≡ false
unfolding is_abs starts_with text_beq
is_abs-ne-nil [] h = cc
is_abs-ne-nil (c ∷ p) h = refl

clean_eq-segments : (p q : Text) → (Paths.clean p == Paths.clean q) ≡ true → segments p ≡ segments q
clean_eq-segments p q h =
    sym (segments-clean p) ∙ ap segments ((text_beq_iff _ _).0 h) ∙ segments-clean q

diverge_self : (xs : List Text) → (diverge xs xs).0 ≡ []
diverge_self xs = rw (append-nil xs) at (diverge-append xs [])

-- filepath.Rel, between the clean forms of two absolute paths.
between : List Text → List Text → Text
between xs ys = dot_of_empty (map (λ _. dotdot) (diverge xs ys).0 ++ (diverge xs ys).1)

rel-clean :
    (base target : Text)
    → is_abs base ≡ true
    → is_abs target ≡ true
    → rel (Paths.clean base) (Paths.clean target) ≡ some (between (segments base) (segments target))
unfolding rel between
rel-clean base target b t =
    rw (is_abs-clean base ∙ b)
      (rw (is_abs-clean target ∙ t) (rw (segments-clean base) (rw (segments-clean target))))

goes_up-rel :
    (base target : Text)
    → is_abs target ≡ true
    → goes_up (file_to_slash (between (segments base) (segments target)))
      ≡ not (is_nil (diverge (segments base) (segments target)).0)
unfolding file_to_slash between
goes_up-rel base target t =
    goes_up-between (diverge (segments base) (segments target)).0
      (diverge (segments base) (segments target)).1
      (diverge-names (segments base) (segments target) (segments-names target t))

verdict :
    (up : List Text)
    → ◌≡◌ {A = Result SafeError Bool}
        (if not (is_nil up) then ok false else ok true)
        (ok (is_nil up))
verdict [] = refl
verdict (x ∷ up) = refl

-- IsWithin of two absolute paths, by their components.
is_within_lem :
    (base target : Text)
    → is_abs base ≡ true
    → is_abs target ≡ true
    → is_within base target ≡ ok (is_nil (diverge (segments base) (segments target)).0)
unfolding is_within
is_within_lem base target b t = rw (is_abs-ne-nil base b) (
    rw (is_abs-ne-nil target t) (
      rw b (
        rw t (elim (Bool-cases (Paths.clean base == Paths.clean target)) [
          | inl same ↦
              rw same
                (rw (clean_eq-segments base target same) (rw (diverge_self (segments target))))
          | inr other ↦ rw other (
              rw (rel-clean base target b t) (
                rw (goes_up-rel base target t)
                  (verdict (diverge (segments base) (segments target)).0)))
        ]))))

nil_of_verdict :
    (up : List Text) → ◌≡◌ {A = Result SafeError Bool} (ok (is_nil up)) (ok true) → up ≡ []
nil_of_verdict [] e = refl
nil_of_verdict (x ∷ up) e = cc

-- Two absolute paths: IsWithin accepts the target exactly when its components, after the lexical
-- walk, are those of the base followed by others.
pub is_within_iff :
    (base target : Text)
    → is_abs base ≡ true
    → is_abs target ≡ true
    → (is_within base target ≡ ok true)
      ↔ ((below : List Text) × (segments target ≡ segments base ++ below))
is_within_iff base target b t = (to, from)
  where
    to :
        is_within base target ≡ ok true
        → (below : List Text) × (segments target ≡ segments base ++ below)
    to e = (
      (diverge (segments base) (segments target)).1,
      diverge-prefix (segments base) (segments target)
          (nil_of_verdict _ (sym (is_within_lem base target b t) ∙ e)),
    )

    from :
        (below : List Text) × (segments target ≡ segments base ++ below)
        → is_within base target ≡ ok true
    from (below, e) =
        is_within_lem base target b t ∙ rw e (rw (diverge-append (segments base) below))
