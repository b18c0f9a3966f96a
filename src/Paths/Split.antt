-- ===== src/Paths/Split.antt =====
-- Splitting a text at its slashes and joining it again.
use rclaude.Prelude.{
  ℕ, ◌≡◌, refl, ap, ◌∙◌, ◌≢◌, List, [], ◌∷◌, ◌++◌, arith, Text, All, ◌==◌, nat_eq, Bool-cases, inl,
  inr,
}
use rclaude.Paths.{slash, onto_head, split_slash, join_slash}

-- No slash in the text.
abbrev pub NoSlash : Text → Type 0
NoSlash = All (λ c. c ≢ slash)

onto_head-NoSlash :
    (c : ℕ) (parts : List Text) → c ≢ slash → All NoSlash parts → All NoSlash (onto_head c parts)
onto_head-NoSlash c [] h k = ((h, tt), tt)
onto_head-NoSlash c (part ∷ parts) h k = ((h, k.0), k.1)

pub split_slash-NoSlash : (s : Text) → All NoSlash (split_slash s)
unfolding split_slash
split_slash-NoSlash [] = (tt, tt)
split_slash-NoSlash (c ∷ s) = elim (Bool-cases (c == slash)) [
  | inl here ↦ rw here (tt, split_slash-NoSlash s)
  | inr other ↦
      rw other (onto_head-NoSlash c (split_slash s) (ground arith) (split_slash-NoSlash s))
]

split_slash-ne-nil : (s : Text) → split_slash s ≢ []
unfolding split_slash
split_slash-ne-nil [] = cc
split_slash-ne-nil (c ∷ s) = elim (Bool-cases (c == slash)) [
  | inl here ↦ rw here (cc)
  | inr other ↦ rw other (onto_head-ne-nil c (split_slash s))
]
  where
    onto_head-ne-nil : (c : ℕ) (parts : List Text) → onto_head c parts ≢ []
    onto_head-ne-nil c [] = cc
    onto_head-ne-nil c (part ∷ parts) = cc

join_slash-onto_head :
    (c : ℕ) (parts : List Text) → join_slash (onto_head c parts) ≡ c ∷ join_slash parts
unfolding join_slash
join_slash-onto_head c [] = refl
join_slash-onto_head c (part ∷ []) = refl
join_slash-onto_head c (part ∷ next ∷ parts) = refl

join_slash-nil :
    (parts : List Text) → parts ≢ [] → join_slash ([] ∷ parts) ≡ slash ∷ join_slash parts
unfolding join_slash
join_slash-nil [] h = absurd (h refl)
join_slash-nil (part ∷ parts) h = refl

-- Joining undoes splitting.
pub join_slash-split_slash : (s : Text) → join_slash (split_slash s) ≡ s
unfolding split_slash
join_slash-split_slash [] = unfold join_slash in refl
join_slash-split_slash (c ∷ s) = elim (Bool-cases (c == slash)) [
  | inl here ↦
      ground
        (arith, join_slash-nil (split_slash s) (split_slash-ne-nil s), join_slash-split_slash s)
  | inr other ↦ ground (arith, join_slash-onto_head c (split_slash s), join_slash-split_slash s)
]

split_slash-NoSlash_append :
    (part s : Text) → NoSlash part → split_slash (part ++ slash ∷ s) ≡ part ∷ split_slash s
unfolding split_slash
split_slash-NoSlash_append [] s h = refl
split_slash-NoSlash_append (c ∷ part) s h = ground (arith, split_slash-NoSlash_append part s h.1)

pub split_slash_of_NoSlash : (part : Text) → NoSlash part → split_slash part ≡ part ∷ []
unfolding split_slash
split_slash_of_NoSlash [] h = refl
split_slash_of_NoSlash (c ∷ part) h = ground (arith, split_slash_of_NoSlash part h.1)

-- Splitting undoes joining, for components that hold no slash.
pub split_slash-join_slash :
    (part : Text) (parts : List Text)
    → All NoSlash (part ∷ parts)
    → split_slash (join_slash (part ∷ parts)) ≡ part ∷ parts
unfolding join_slash
split_slash-join_slash part [] h = split_slash_of_NoSlash part h.0
split_slash-join_slash part (next ∷ parts) h =
    split_slash-NoSlash_append part (join_slash (next ∷ parts)) h.0
    ∙ ap (◌∷◌ part) (split_slash-join_slash next parts h.1)

onto_head-append :
    (c : ℕ) (xs ys : List Text) → xs ≢ [] → onto_head c (xs ++ ys) ≡ onto_head c xs ++ ys
onto_head-append c [] ys h = absurd (h refl)
onto_head-append c (x ∷ xs) ys h = refl

-- A slash ends a component, whatever stands before it.
pub split_slash-append :
    (s t : Text) → split_slash (s ++ slash ∷ t) ≡ split_slash s ++ split_slash t
unfolding split_slash
split_slash-append [] t = refl
split_slash-append (c ∷ s) t = elim (Bool-cases (c == slash)) [
  | inl here ↦ rw here (ap (◌∷◌ []) (split_slash-append s t))
  | inr other ↦ rw other (
      ap (onto_head c) (split_slash-append s t)
      ∙ onto_head-append c (split_slash s) (split_slash t) (split_slash-ne-nil s))
]
