-- ===== src/Paths/Chars.antt =====
-- What holds of every code point of a path holds of every code point that is left of it.
use mathlib.Core.List.{reverse_aux}
use rclaude.Prelude.{
  ℕ, List, [], ◌∷◌, Text, All, All-append, ◌==◌, nat_eq, Bool-cases, inl, inr, Bool, true, false,
  text_eq,
}
use rclaude.Paths.{
  slash, dot, dotdot, onto_head, split_slash, join_slash, leave, enter, resolve, segments, is_abs,
}

module _ (P : ℕ → Type 0) where
  onto_head-All :
      (c : ℕ) (parts : List Text) → P c → All (All P) parts → All (All P) (onto_head c parts)
  onto_head-All c [] h k = ((h, tt), tt)
  onto_head-All c (part ∷ parts) h k = ((h, k.0), k.1)

  pub split_slash-All : (s : Text) → All P s → All (All P) (split_slash s)
  unfolding split_slash
  split_slash-All [] h = (tt, tt)
  split_slash-All (c ∷ s) h = elim (Bool-cases (c == slash)) [
    | inl here ↦ rw here (tt, split_slash-All s h.1)
    | inr other ↦ rw other (onto_head-All c (split_slash s) h.0 (split_slash-All s h.1))
  ]

  pub join_slash-All : (parts : List Text) → P slash → All (All P) parts → All P (join_slash parts)
  unfolding join_slash
  join_slash-All [] k h = tt
  join_slash-All (part ∷ []) k h = h.0
  join_slash-All (part ∷ next ∷ parts) k h =
      All-append P part _ h.0 (k, join_slash-All (next ∷ parts) k h.1)

  leave-All :
      (rooted : Bool) (stack : List Text)
      → P b'.'
      → All (All P) stack
      → All (All P) (leave rooted stack)
  unfolding leave
  leave-All true [] d h = tt
  leave-All false [] d h = ((d, (d, tt)), tt)
  leave-All rooted (top ∷ stack) d h = elim (Bool-cases (top == dotdot)) [
    | inl up ↦ rw up ((d, (d, tt)), h)
    | inr other ↦ rw other h.1
  ]

  enter-All :
      (rooted : Bool) (part : Text) (stack : List Text)
      → P b'.'
      → All P part
      → All (All P) stack
      → All (All P) (enter rooted part stack)
  unfolding enter
  enter-All rooted part stack d k h = elim (Bool-cases (part == [])) [
    | inl empty ↦ rw empty h
    | inr full ↦ elim (Bool-cases (part == dot)) [
      | inl same ↦ rw (full, same) h
      | inr other ↦ elim (Bool-cases (part == dotdot)) [
        | inl up ↦ rw (full, other, up) (leave-All rooted stack d h)
        | inr plain ↦ rw (full, other, plain) (k, h)
      ]
    ]
  ]

  resolve-All :
      (rooted : Bool) (stack parts : List Text)
      → P b'.'
      → All (All P) parts
      → All (All P) stack
      → All (All P) (resolve rooted stack parts)
  unfolding resolve
  resolve-All rooted stack [] d k h = h
  resolve-All rooted stack (part ∷ parts) d k h =
      resolve-All rooted (enter rooted part stack) parts d k.1 (enter-All rooted part stack d k.0 h)

  reverse_aux-All :
      (stack parts : List Text)
      → All (All P) stack
      → All (All P) parts
      → All (All P) (reverse_aux stack parts)
  reverse_aux-All [] parts h k = k
  reverse_aux-All (top ∷ stack) parts h k = reverse_aux-All stack (top ∷ parts) h.1 (h.0, k)

  pub segments-All : (p : Text) → P b'.' → All P p → All (All P) (segments p)
  unfolding segments
  segments-All p d h =
      reverse_aux-All (resolve (is_abs p) [] (split_slash p)) []
        (resolve-All (is_abs p) [] (split_slash p) d (split_slash-All p h) tt) tt
