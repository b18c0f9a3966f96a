-- ===== src/Normalize/Child.antt =====
-- The relative form of a path with a name behind it.
use mathlib.Core.List.{reverse-append, append_assoc}
use rclaude.Prelude.{
  ◌≡◌, refl, ◌≢◌, ◌∙◌, ap, List, [], ◌∷◌, ◌++◌, arith, Text, text_beq, text_beq_iff, replace_all,
  nat_eq, text_eq, Bool, false, starts_with, sym,
}
use rclaude.Paths
use rclaude.Paths.{
  slash, dot, dotdot, is_abs, segments, join_slash, dot_of_empty, split_slash, resolve, enter,
}
use rclaude.Paths.Split.{split_slash-append, split_slash_of_NoSlash}
use rclaude.Paths.Resolve.{IsName, IsNormal}
use rclaude.Paths.Parent.{resolve-append}
use rclaude.Paths.Clean.{segments-IsNormal}
use rclaude.Normalize.{normalize, relative_form}
use rclaude.Normalize.Forms.{
  NoBackslash, normalize_lem, IsNormal-relative, segments-join_slash, is_abs-join_slash,
  replace_all_of_NoBackslash,
}

replace_all-append :
    (s t : Text)
    → replace_all 0x5c slash (s ++ t) ≡ replace_all 0x5c slash s ++ replace_all 0x5c slash t
unfolding replace_all
replace_all-append [] t = refl
replace_all-append (c ∷ s) t = rw (replace_all-append s t) refl

is_abs-append : (p t : Text) → p ≢ [] → is_abs (p ++ t) ≡ is_abs p
unfolding is_abs starts_with
is_abs-append [] t h = absurd (h refl)
is_abs-append (c ∷ p) t h = refl

resolve_one :
    (rooted : Bool) (stack : List Text) (name : Text)
    → IsName name
    → resolve rooted stack (name ∷ []) ≡ name ∷ stack
unfolding resolve enter
resolve_one rooted stack name n =
    ground (arith, text_beq_iff name [], text_beq_iff name dot, text_beq_iff name dotdot)

-- A name behind a path is one more component.
pub segments-child :
    (p name : Text) → p ≢ [] → IsName name → segments (p ++ slash ∷ name) ≡ segments p ++ name ∷ []
unfolding segments
segments-child p name h n = rw (is_abs-append p (slash ∷ name) h) (
    rw (split_slash-append p name) (
      rw (split_slash_of_NoSlash name n.1) (
        rw (resolve-append (is_abs p) [] (split_slash p) (name ∷ [])) (
          rw (resolve_one (is_abs p) (resolve (is_abs p) [] (split_slash p)) name n)
            (reverse-append (name ∷ []) (resolve (is_abs p) [] (split_slash p)))))))

join_slash-child :
    (parts : List Text) (name : Text)
    → join_slash parts ≢ []
    → join_slash (parts ++ name ∷ []) ≡ join_slash parts ++ slash ∷ name
unfolding join_slash
join_slash-child [] name h = absurd (h refl)
join_slash-child (part ∷ parts) name h = onto part parts
  where
    onto :
        (part : Text) (parts : List Text)
        → join_slash ((part ∷ parts) ++ name ∷ []) ≡ join_slash (part ∷ parts) ++ slash ∷ name
    onto part [] = refl
    onto part (next ∷ parts) =
        ap (λ more. part ++ slash ∷ more) (onto next parts)
        ∙ sym (append_assoc part (slash ∷ join_slash (next ∷ parts)) (slash ∷ name))

-- The form of a child is that of its parent with the name behind it.
pub normalize-child :
    (p name : Text)
    → normalize p ≢ []
    → IsName name
    → NoBackslash name
    → normalize (p ++ slash ∷ name) ≡ normalize p ++ slash ∷ name
normalize-child p name h n b =
    let q = replace_all 0x5c slash p in
    let slashed : replace_all 0x5c slash (p ++ slash ∷ name) ≡ q ++ slash ∷ name =
      replace_all-append p (slash ∷ name)
      ∙ ap (◌++◌ q) (replace_all_of_NoBackslash (slash ∷ name) (omega arith, b)) in
    normalize_lem (p ++ slash ∷ name)
    ∙ rw slashed (
        rw (segments-child q name (full p h) n) (
          rw (normalize_lem p) (join_slash-child (segments q) name (λ e. h (normalize_lem p ∙ e)))))
  where
    full : (p : Text) → normalize p ≢ [] → replace_all 0x5c slash p ≢ []
    full [] h = absurd (h (unfold normalize relative_form replace_all text_beq in refl))
    full (c ∷ p) h = unfold replace_all in λ e. cc

-- A normal form that is not empty is clean.
pub clean-normalize : (p : Text) → normalize p ≢ [] → Paths.clean (normalize p) ≡ normalize p
clean-normalize p h =
    let q = replace_all 0x5c slash p in
    rw (normalize_lem p) (
      clean-join_slash (segments q)
        (IsNormal-relative (is_abs q) (segments q) (segments-IsNormal q))
        (λ e. h (normalize_lem p ∙ e)))
  where
    clean-join_slash :
        (parts : List Text)
        → IsNormal false parts
        → join_slash parts ≢ []
        → Paths.clean (join_slash parts) ≡ join_slash parts
    clean-join_slash [] n h = absurd (h (unfold join_slash in refl))
    clean-join_slash (part ∷ parts) n h =
        unfold Paths.clean in
        rw (is_abs-join_slash (part ∷ parts) n, segments-join_slash (part ∷ parts) n) refl
