-- ===== src/Paths/Parent.antt =====
-- path.Dir: it shortens a path until it is "." or "/", and it takes a name off a clean path.
use mathlib.Core.List.{reverse_aux}
use rclaude.Prelude.{
  ℕ, ◌+◌, ◌≤◌, ◌<◌, ◌≡◌, refl, ap, ◌≢◌, List, [], ◌∷◌, ◌++◌, arith, Text, text_beq, text_beq_iff,
  length, length-append, ◌==◌, nat_eq, text_eq, Bool-cases, inl, inr, Bool, true, ◌⊎◌, starts_with,
  none, some, Option-cases,
}
use rclaude.Paths.Split.{NoSlash, split_slash-append}
use rclaude.Paths.{
  slash, dot, dotdot, onto_head, leave, enter, resolve, is_abs, segments, split_slash, join_slash,
  dot_of_empty, clean, split_last, dir,
}

-- The length of the components with a slash behind each.
abbrev total : List Text → ℕ
total [] = 0
total (part ∷ parts) = length part + 1 + total parts

abbrev cost : Text → ℕ
cost [] = 0
cost (c ∷ part) = length part + 2

abbrev costs : List Text → ℕ
costs [] = 0
costs (part ∷ parts) = cost part + costs parts

abbrev gap : List Text → ℕ
gap [] = 0
gap ([] ∷ parts) = 1
gap ((c ∷ part) ∷ parts) = 0

leave-total : (rooted : Bool) (stack : List Text) → total (leave rooted stack) ≤ total stack + 3
unfolding leave
leave-total rooted [] = ground arith
leave-total rooted (top ∷ stack) = ground (arith, text_beq_iff top dotdot)

enter-total :
    (rooted : Bool) (part : Text) (stack : List Text)
    → total (enter rooted part stack) ≤ total stack + cost part
unfolding enter
enter-total rooted [] stack = ground (arith, text_beq_iff [] [])
enter-total rooted (c ∷ part) stack = ground (
  arith,
  leave-total rooted stack,
  text_beq_iff (c ∷ part) dotdot,
  ap length {x = c ∷ part} {y = dotdot},
  text_beq_iff (c ∷ part) [],
)

resolve-total :
    (rooted : Bool) (stack parts : List Text)
    → total (resolve rooted stack parts) ≤ total stack + costs parts
unfolding resolve
resolve-total rooted stack [] = omega arith
resolve-total rooted stack (part ∷ parts) =
    omega
      (arith, enter-total rooted part stack, resolve-total rooted (enter rooted part stack) parts)

reverse_aux-total : (xs ys : List Text) → total (reverse_aux xs ys) ≡ total xs + total ys
reverse_aux-total [] ys = omega arith
reverse_aux-total (x ∷ xs) ys = omega (arith, reverse_aux-total xs (x ∷ ys))

join_slash-total :
    (part : Text) (parts : List Text)
    → length (join_slash (part ∷ parts)) + 1 ≡ total (part ∷ parts)
unfolding join_slash
join_slash-total part [] = omega arith
join_slash-total part (next ∷ parts) =
    omega (
      arith,
      length-append {0} part (slash ∷ join_slash (next ∷ parts)),
      join_slash-total next parts,
    )

-- A slash at the end leaves room for one component less.
costs-split_slash :
    (s : Text)
    → costs (split_slash (s ++ slash ∷ [])) + gap (split_slash (s ++ slash ∷ [])) ≤ length s + 1
unfolding split_slash
costs-split_slash [] = omega arith
costs-split_slash (c ∷ s) = elim (Bool-cases (c == slash)) [
  | inl here ↦ rw here (omega (arith, costs-split_slash s))
  | inr other ↦ rw other (headed (split_slash (s ++ slash ∷ [])) (costs-split_slash s))
]
  where
    headed :
        (parts : List Text)
        → costs parts + gap parts ≤ length s + 1
        → costs (onto_head c parts) + gap (onto_head c parts) ≤ length (c ∷ s) + 1
    headed [] h = omega arith
    headed ([] ∷ parts) h = omega arith
    headed ((d ∷ part) ∷ parts) h = omega arith

gap-rooted : (s : Text) → is_abs (s ++ slash ∷ []) ≡ true → gap (split_slash (s ++ slash ∷ [])) ≡ 1
unfolding is_abs starts_with split_slash
gap-rooted [] h = refl
gap-rooted (c ∷ s) h = let e : (c == slash) ≡ true = ground arith in rw e refl

segments-total : (p : Text) → total (segments p) ≤ costs (split_slash p)
unfolding segments
segments-total p = omega (
  arith,
  reverse_aux-total (resolve (is_abs p) [] (split_slash p)) [],
  resolve-total (is_abs p) [] (split_slash p),
)

clean_of_rooted :
    (parts : List Text) (n : ℕ)
    → total parts ≤ n
    → ((slash ∷ join_slash parts) ≡ slash ∷ []) ⊎ (length (slash ∷ join_slash parts) ≤ n)
clean_of_rooted [] n h = inl (unfold join_slash in refl)
clean_of_rooted (part ∷ parts) n h = inr (omega (arith, join_slash-total part parts))

clean_of_relative :
    (parts : List Text) (n : ℕ)
    → total parts ≤ n + 1
    → (dot_of_empty parts ≡ dot) ⊎ (length (dot_of_empty parts) ≤ n)
clean_of_relative [] n h = inl refl
clean_of_relative (part ∷ parts) n h = inr (omega (arith, join_slash-total part parts))

-- Where the loop over the parents ends.
abbrev pub IsTop : Text → Type 0
IsTop p = (p ≡ dot) ⊎ (p ≡ slash ∷ [])

clean-parent :
    (s : Text) → IsTop (clean (s ++ slash ∷ [])) ⊎ (length (clean (s ++ slash ∷ [])) ≤ length s)
unfolding clean
clean-parent s =
    let p = s ++ slash ∷ [] in
    let small = segments-total p in
    let bound = costs-split_slash s in
    elim (Bool-cases (is_abs p)) [
      | inl rooted ↦
          rw rooted
            (elim (clean_of_rooted (segments p) (length s)
              (omega (arith, small, bound, gap-rooted s rooted))) [
                | inl e ↦ inl (inr e)
                | inr h ↦ inr h
              ])
      | inr relative ↦
          rw relative
            (elim (clean_of_relative (segments p) (length s) (omega (arith, small, bound))) [
              | inl e ↦ inl (inl e)
              | inr h ↦ inr h
            ])
    ]

split_last-length :
    (p : Text) {parent base : Text}
    → split_last p ≡ some (parent, base)
    → length parent + 1 + length base ≡ length p
unfolding split_last
split_last-length [] h = cc
split_last-length (c ∷ p) h = elim (Option-cases (split_last p)) [
  | inl e ↦ ground (arith, e)
  | inr ((parent, base), e) ↦ ground (arith, e, split_last-length p e)
]

-- A parent is "." or "/", or shorter.
pub dir-shorter : (p : Text) → IsTop (dir p) ⊎ (length (dir p) < length p)
unfolding dir text_beq
dir-shorter p = elim (Option-cases (split_last p)) [
  | inl e ↦
      rw (e, dir)
        (inl (inl (unfold clean segments split_slash is_abs starts_with resolve enter in refl)))
  | inr ((parent, base), e) ↦
      rw (e, dir)
        (elim (clean-parent parent) [
          | inl top ↦ inl top
          | inr short ↦ inr (omega (arith, short, split_last-length p e))
        ])
]

pub resolve-append :
    (rooted : Bool) (stack parts more : List Text)
    → resolve rooted stack (parts ++ more) ≡ resolve rooted (resolve rooted stack parts) more
unfolding resolve
resolve-append rooted stack [] more = refl
resolve-append rooted stack (part ∷ parts) more =
    resolve-append rooted (enter rooted part stack) parts more

is_abs_of_more : (p : Text) → p ≢ [] → is_abs (p ++ slash ∷ []) ≡ is_abs p
unfolding is_abs starts_with
is_abs_of_more [] h = absurd (h refl)
is_abs_of_more (c ∷ p) h = refl

segments_of_more : (p : Text) → p ≢ [] → segments (p ++ slash ∷ []) ≡ segments p
unfolding segments text_beq
segments_of_more p h = rw (is_abs_of_more p h) (
    rw (split_slash-append p []) (
      rw (resolve-append (is_abs p) [] (split_slash p) (split_slash []))
        (unfold split_slash resolve enter in refl)))

-- A slash at the end of a path makes no difference to path.Clean.
pub clean_of_more : (p : Text) → p ≢ [] → clean (p ++ slash ∷ []) ≡ clean p
unfolding clean
clean_of_more p h = rw (is_abs_of_more p h, segments_of_more p h)

split_last_of_name : (name : Text) → NoSlash name → split_last name ≡ none
unfolding split_last
split_last_of_name [] h = refl
split_last_of_name (c ∷ name) h = ground (arith, split_last_of_name name h.1)

split_last-child : (p name : Text) → NoSlash name → split_last (p ++ slash ∷ name) ≡ some (p, name)
unfolding split_last
split_last-child [] name h = rw (split_last_of_name name h) refl
split_last-child (c ∷ p) name h = rw (split_last-child p name h) refl

-- The parent of a path with a name behind it.
pub dir-child : (p name : Text) → p ≢ [] → NoSlash name → dir (p ++ slash ∷ name) ≡ clean p
unfolding dir
dir-child p name h k = rw (split_last-child p name k, dir) (clean_of_more p h)
