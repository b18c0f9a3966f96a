-- ===== src/SafePath/Escape.antt =====
-- When Clean refuses a path: the steps of the path, counted one by one, leave the base.
use mathlib.Core.List.{reverse, reverse_aux}
use rclaude.Prelude.{
  ℕ, zero, suc, ◌≡◌, refl, sym, ◌∙◌, ◌≢◌, ◌↔◌, List, [], ◌∷◌, arith, Text, length, text_beq,
  text_beq_iff, All, ◌==◌, text_eq, if◌then◌else◌, Bool-cases, inl, inr, Bool, true, false, Option,
  none, some, err, ◌||◌,
}
use rclaude.Paths.{dot, dotdot, is_abs, segments, split_slash, leave, enter, resolve}
use rclaude.Paths.Resolve.{IsNormal-rooted}
use rclaude.Paths.Clean.{segments-IsNormal}
use rclaude.SafePath.{to_slash, clean, escape}
use rclaude.SafePath.Names.{up_first, outcome, clean_lem, not-up_first}

-- The depth below the base after one component; `none` is a step out of the base.
abbrev next_up : ℕ → Option ℕ
next_up zero = none
next_up (suc d) = some d

abbrev next_depth : Text → ℕ → Option ℕ
next_depth part depth =
    if part == [] || part == dot
    then some depth
    else if part == dotdot
    then next_up depth
    else some (suc depth)

unfoldable pub climbs : ℕ → List Text → Bool
climbs depth [] = false
climbs depth (part ∷ parts) = elim (next_depth part depth) [ none ↦ true | some d ↦ climbs d parts ]

abbrev bottom_up : List Text → Bool
bottom_up [] = false
bottom_up (top ∷ []) = top == dotdot
bottom_up (top ∷ next ∷ stack) = bottom_up (next ∷ stack)

up_first-reverse_aux :
    (top : Text) (stack parts : List Text)
    → up_first (reverse_aux (top ∷ stack) parts) ≡ bottom_up (top ∷ stack)
up_first-reverse_aux top [] parts = refl
up_first-reverse_aux top (next ∷ stack) parts = up_first-reverse_aux next stack (top ∷ parts)

up_first-reverse : (stack : List Text) → up_first (reverse stack) ≡ bottom_up stack
up_first-reverse [] = refl
up_first-reverse (top ∷ stack) = up_first-reverse_aux top stack []

enter-bottom_up :
    (part : Text) (stack : List Text)
    → bottom_up stack ≡ true
    → bottom_up (enter false part stack) ≡ true
unfolding enter leave
enter-bottom_up part [] h = cc
enter-bottom_up part (top ∷ []) h = ground arith
enter-bottom_up part (top ∷ next ∷ stack) h = ground arith

resolve-bottom_up :
    (stack parts : List Text)
    → bottom_up stack ≡ true
    → bottom_up (resolve false stack parts) ≡ true
unfolding resolve
resolve-bottom_up stack [] h = h
resolve-bottom_up stack (part ∷ parts) h =
    resolve-bottom_up (enter false part stack) parts (enter-bottom_up part stack h)

bottom_up_of_below : (stack : List Text) → All (λ t. t ≢ dotdot) stack → bottom_up stack ≡ false
bottom_up_of_below [] h = refl
bottom_up_of_below (top ∷ []) h = ground (arith, text_beq_iff top dotdot)
bottom_up_of_below (top ∷ next ∷ stack) h = bottom_up_of_below (next ∷ stack) h.1

enter_stays :
    (part : Text) (stack : List Text)
    → (part == [] || part == dot) ≡ true
    → enter false part stack ≡ stack
unfolding enter
enter_stays part stack h = rw h

enter_moves :
    (part : Text) (stack : List Text)
    → (part == [] || part == dot) ≡ false
    → enter false part stack ≡ (if part == dotdot then leave false stack else part ∷ stack)
unfolding enter
enter_moves part stack h = rw h

not_dotdot : (part : Text) → part ≢ dotdot → (part == dotdot) ≡ false
not_dotdot part h = ground (arith, text_beq_iff part dotdot)

up_from :
    (stack parts : List Text)
    → All (λ t. t ≢ dotdot) stack
    → ((s : List Text)
        → All (λ t. t ≢ dotdot) s
        → bottom_up (resolve false s parts) ≡ climbs (length s) parts)
    → bottom_up (resolve false (leave false stack) parts)
      ≡ elim (next_up (length stack)) [ none ↦ true | some d ↦ climbs d parts ]
unfolding leave
up_from [] parts h ih = resolve-bottom_up (dotdot ∷ []) parts (unfold text_beq in refl)
up_from (top ∷ stack) parts h ih = rw (not_dotdot top h.0) (ih stack h.1)

bottom_up-resolve :
    (stack parts : List Text)
    → All (λ t. t ≢ dotdot) stack
    → bottom_up (resolve false stack parts) ≡ climbs (length stack) parts
unfolding resolve climbs
bottom_up-resolve stack [] h = bottom_up_of_below stack h
bottom_up-resolve stack (part ∷ parts) h = elim (Bool-cases (part == [] || part == dot)) [
  | inl stays ↦
      rw (enter_stays part stack stays) (rw (stays, climbs) (bottom_up-resolve stack parts h))
  | inr moves ↦ elim (Bool-cases (part == dotdot)) [
    | inl up ↦
        rw (enter_moves part stack moves)
          (rw (moves, climbs) (rw up (up_from stack parts h (λ s k. bottom_up-resolve s parts k))))
    | inr down ↦ rw (enter_moves part stack moves) (
        rw (moves, climbs)
          (rw down
            (bottom_up-resolve (part ∷ stack) parts (ground (arith, text_beq_iff part dotdot), h))))
  ]
]

escape-outcome : (parts : List Text) → (outcome parts ≡ err escape) ↔ (up_first parts ≡ true)
escape-outcome parts = ground arith

up_first-segments : (p : Text) → is_abs p ≡ false → up_first (segments p) ≡ climbs 0 (split_slash p)
unfolding segments
up_first-segments p h =
    rw h (
      up_first-reverse (resolve false [] (split_slash p)) ∙ bottom_up-resolve [] (split_slash p) tt)

clean-full : (p : Text) → clean p ≡ err escape → p ≢ []
unfolding clean text_beq
clean-full [] e = cc
clean-full (c ∷ p) e = λ h. cc

relative_of_up : (p : Text) → up_first (segments p) ≡ true → is_abs p ≡ false
relative_of_up p h = elim (Bool-cases (is_abs p)) [
  | inl rooted ↦
      let names = IsNormal-rooted (segments p) (rw rooted at (segments-IsNormal p)) in
      absurd (ground (arith, not-up_first (segments p) names))
  | inr relative ↦ relative
]

-- Clean refuses a path as an escape exactly when the path, its backslashes turned, is relative and
-- one of its steps leaves the base; an absolute path never escapes.
pub clean-eq-escape_iff :
    (p : Text)
    → (clean p ≡ err escape)
      ↔ ((p ≢ []) × (is_abs (to_slash p) ≡ false) × (climbs 0 (split_slash (to_slash p)) ≡ true))
clean-eq-escape_iff p = (to, from)
  where
    to :
        clean p ≡ err escape
        → (p ≢ []) × (is_abs (to_slash p) ≡ false) × (climbs 0 (split_slash (to_slash p)) ≡ true)
    to e =
        let full = clean-full p e in
        let refused = (escape-outcome (segments (to_slash p))).0 (sym (clean_lem p full) ∙ e) in
        let relative = relative_of_up (to_slash p) refused in
        (full, relative, sym (up_first-segments (to_slash p) relative) ∙ refused)

    from :
        (p ≢ []) × (is_abs (to_slash p) ≡ false) × (climbs 0 (split_slash (to_slash p)) ≡ true)
        → clean p ≡ err escape
    from (full, relative, h) =
        clean_lem p full
        ∙ (escape-outcome (segments (to_slash p))).1 (up_first-segments (to_slash p) relative ∙ h)
