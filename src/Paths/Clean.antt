-- ===== src/Paths/Clean.antt =====
-- path.Clean: the components that it keeps, and that it changes nothing the second time.
use mathlib.Core.List.{reverse, reverse-reverse}
use rclaude.Prelude.{
  ◌≡◌, refl, ◌≢◌, List, [], ◌∷◌, arith, Text, text_beq, All, nat_eq, text_eq, Bool-cases, inl, inr,
  Bool, true, false, starts_with,
}
use rclaude.Paths.{
  slash, enter, resolve, is_abs, segments, split_slash, join_slash, dot_of_empty, clean,
}
use rclaude.Paths.Split.{NoSlash, split_slash-NoSlash, split_slash-join_slash}
use rclaude.Paths.Resolve.{
  IsName, IsNormal, reverse-IsNormal, resolve-IsStack, resolve_normal, resolve_names,
  IsNormal-rooted,
}

-- Up-steps come first in what is left of a path, and only in a relative one.
pub segments-IsNormal : (p : Text) → IsNormal (is_abs p) (segments p)
unfolding segments
segments-IsNormal p =
    reverse-IsNormal (is_abs p) _
      (resolve-IsStack (is_abs p) [] (split_slash p) (split_slash-NoSlash p) tt)

pub IsNormal-NoSlash :
    (rooted : Bool) (parts : List Text) → IsNormal rooted parts → All NoSlash parts
IsNormal-NoSlash rooted [] h = tt
IsNormal-NoSlash rooted (part ∷ parts) (inl h) = (h.0.1, names parts h.1)
  where
    names : (parts : List Text) → All IsName parts → All NoSlash parts
    names [] h = tt
    names (part ∷ parts) h = (h.0.1, names parts h.1)
IsNormal-NoSlash rooted (part ∷ parts) (inr (up, relative, h)) =
    (rw up (omega arith), IsNormal-NoSlash rooted parts h)

is_abs-join_slash :
    (part : Text) (parts : List Text)
    → part ≢ []
    → NoSlash part
    → is_abs (join_slash (part ∷ parts)) ≡ false
unfolding is_abs starts_with join_slash
is_abs-join_slash [] parts h n = absurd (h refl)
is_abs-join_slash (c ∷ part) [] h n = ground arith
is_abs-join_slash (c ∷ part) (next ∷ parts) h n = ground arith

pub is_abs_of_normal :
    (rooted : Bool) (part : Text) (parts : List Text)
    → IsNormal rooted (part ∷ parts)
    → is_abs (join_slash (part ∷ parts)) ≡ false
is_abs_of_normal rooted part parts (inl h) = is_abs-join_slash part parts h.0.0.0 h.0.1
is_abs_of_normal rooted part parts (inr (up, relative, h)) =
    is_abs-join_slash part parts (rw up (λ e. cc)) (rw up (omega arith))

-- Walking a normal path again.
pub segments_of_normal :
    (part : Text) (parts : List Text)
    → IsNormal false (part ∷ parts)
    → segments (join_slash (part ∷ parts)) ≡ part ∷ parts
unfolding segments
segments_of_normal part parts h = rw (is_abs_of_normal false part parts h) (
    rw (split_slash-join_slash part parts (IsNormal-NoSlash false (part ∷ parts) h))
      (rw (resolve_normal false [] (part ∷ parts) tt h) (reverse-reverse (part ∷ parts))))

resolved : (parts : List Text) → All IsName parts → reverse (resolve true [] parts) ≡ parts
resolved parts h = rw (resolve_names true [] parts h) (reverse-reverse parts)

segments-slash :
    (parts : List Text) → All IsName parts → segments (slash ∷ join_slash parts) ≡ parts
unfolding segments is_abs starts_with split_slash resolve enter text_beq
segments-slash [] h = unfold join_slash in refl
segments-slash (part ∷ parts) h =
    rw (split_slash-join_slash part parts (IsNormal-NoSlash true (part ∷ parts) (inl h)))
      (resolved (part ∷ parts) h)

-- path.Clean keeps a path absolute or relative.
pub is_abs-clean : (p : Text) → is_abs (clean p) ≡ is_abs p
unfolding clean
is_abs-clean p = elim (Bool-cases (is_abs p)) [
  | inl h ↦ rw h (unfold is_abs starts_with in refl)
  | inr h ↦ rw h (relative (segments p) (rw h at (segments-IsNormal p)))
]
  where
    relative : (parts : List Text) → IsNormal false parts → is_abs (dot_of_empty parts) ≡ false
    relative [] n = unfold is_abs starts_with in refl
    relative (part ∷ parts) n = is_abs_of_normal false part parts n

-- path.Clean keeps the components that the lexical walk leaves.
pub segments-clean : (p : Text) → segments (clean p) ≡ segments p
unfolding clean
segments-clean p = elim (Bool-cases (is_abs p)) [
  | inl h ↦
      rw h
        (segments-slash (segments p) (IsNormal-rooted (segments p) (rw h at (segments-IsNormal p))))
  | inr h ↦ rw h (relative (segments p) (rw h at (segments-IsNormal p)))
]
  where
    relative : (parts : List Text) → IsNormal false parts → segments (dot_of_empty parts) ≡ parts
    relative [] n = unfold segments is_abs starts_with split_slash resolve enter text_beq in refl
    relative (part ∷ parts) n = segments_of_normal part parts n

-- path.Clean is idempotent.
pub clean-clean : (p : Text) → clean (clean p) ≡ clean p
clean-clean p = unfold clean in cc (is_abs-clean p, segments-clean p)

-- A path of names only is its own clean form.
pub clean_of_names :
    (part : Text) (parts : List Text)
    → All IsName (part ∷ parts)
    → clean (join_slash (part ∷ parts)) ≡ join_slash (part ∷ parts)
unfolding clean
clean_of_names part parts h =
    rw (is_abs_of_normal false part parts (inl h)) (rw (segments_of_normal part parts (inl h)))
