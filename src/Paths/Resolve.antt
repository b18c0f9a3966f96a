-- ===== src/Paths/Resolve.antt =====
-- The lexical walk over the components of a path: what its stack holds.
use mathlib.Core.List.{reverse, reverse_aux}
use rclaude.Prelude.{
  ◌≡◌, refl, ◌≢◌, List, [], ◌∷◌, arith, Text, text_beq, text_beq_iff, All, ◌==◌, nat_eq, text_eq,
  Bool-cases, inl, inr, Bool, true, false, ◌⊎◌,
}
use rclaude.Paths.{dot, dotdot, leave, enter, resolve}
use rclaude.Paths.Split.{NoSlash}

-- A component that names something: not empty, not "." and not "..".
abbrev pub IsPlain : Text → Type 0
IsPlain part = (part ≢ []) × (part ≢ dot) × (part ≢ dotdot)

abbrev pub IsName : Text → Type 0
IsName part = IsPlain part × NoSlash part

abbrev pub IsUp : Text → Type 0
IsUp part = part ≡ dotdot

-- A stack has names above "..", and the latter only in a relative path.
abbrev pub IsStack : Bool → List Text → Type 0
IsStack rooted [] = Unit
IsStack rooted (top ∷ stack) =
    (IsName top × IsStack rooted stack) ⊎ (IsUp top × (rooted ≡ false) × All IsUp stack)

-- The same from the front: ".." first, then names.
abbrev pub IsNormal : Bool → List Text → Type 0
IsNormal rooted [] = Unit
IsNormal rooted (part ∷ parts) =
    All IsName (part ∷ parts) ⊎ (IsUp part × (rooted ≡ false) × IsNormal rooted parts)

IsStack-of_All-IsUp : (stack : List Text) → All IsUp stack → IsStack false stack
IsStack-of_All-IsUp [] h = tt
IsStack-of_All-IsUp (top ∷ stack) h = inr (h.0, refl, h.1)

leave-IsStack :
    (rooted : Bool) (stack : List Text) → IsStack rooted stack → IsStack rooted (leave rooted stack)
unfolding leave
leave-IsStack true [] h = tt
leave-IsStack false [] h = inr (refl, refl, tt)
leave-IsStack rooted (top ∷ stack) (inl (name, h)) = ground (arith, text_beq_iff top dotdot)
leave-IsStack rooted (top ∷ stack) (inr (up, relative, h)) =
    rw ((text_beq_iff top dotdot).1 up) (inr (refl, relative, (up, h)))

enter-IsStack :
    (rooted : Bool) (part : Text) (stack : List Text)
    → NoSlash part
    → IsStack rooted stack
    → IsStack rooted (enter rooted part stack)
unfolding enter
enter-IsStack rooted part stack n h = elim (Bool-cases (part == [])) [
  | inl empty ↦ rw empty h
  | inr full ↦ elim (Bool-cases (part == dot)) [
    | inl same ↦ rw (full, same) h
    | inr other ↦ elim (Bool-cases (part == dotdot)) [
      | inl up ↦ rw (full, other, up) (leave-IsStack rooted stack h)
      | inr plain ↦
          rw (full, other, plain)
            (inl (
              (
                (
                  ground (arith, text_beq_iff part []),
                  ground (arith, text_beq_iff part dot),
                  ground (arith, text_beq_iff part dotdot),
                ),
                n,
              ),
              h,
            ))
    ]
  ]
]

pub resolve-IsStack :
    (rooted : Bool) (stack parts : List Text)
    → All NoSlash parts
    → IsStack rooted stack
    → IsStack rooted (resolve rooted stack parts)
unfolding resolve
resolve-IsStack rooted stack [] n h = h
resolve-IsStack rooted stack (part ∷ parts) n h =
    resolve-IsStack rooted (enter rooted part stack) parts n.1
      (enter-IsStack rooted part stack n.0 h)

reverse_aux-IsNormal_up :
    (stack parts : List Text)
    → All IsUp stack
    → IsNormal false parts
    → IsNormal false (reverse_aux stack parts)
reverse_aux-IsNormal_up [] parts u h = h
reverse_aux-IsNormal_up (top ∷ stack) parts u h =
    reverse_aux-IsNormal_up stack (top ∷ parts) u.1 (inr (u.0, refl, h))

IsNormal-of_All : (rooted : Bool) (parts : List Text) → All IsName parts → IsNormal rooted parts
IsNormal-of_All rooted [] h = tt
IsNormal-of_All rooted (part ∷ parts) h = inl h

reverse_aux-IsNormal :
    (rooted : Bool) (stack parts : List Text)
    → IsStack rooted stack
    → All IsName parts
    → IsNormal rooted (reverse_aux stack parts)
reverse_aux-IsNormal rooted [] parts s h = IsNormal-of_All rooted parts h
reverse_aux-IsNormal rooted (top ∷ stack) parts (inl (name, s)) h =
    reverse_aux-IsNormal rooted stack (top ∷ parts) s (name, h)
reverse_aux-IsNormal true (top ∷ stack) parts (inr (up, relative, s)) h = cc
reverse_aux-IsNormal false (top ∷ stack) parts (inr (up, relative, s)) h =
    reverse_aux-IsNormal_up stack (top ∷ parts) s (inr (up, refl, IsNormal-of_All false parts h))

pub reverse-IsNormal :
    (rooted : Bool) (stack : List Text) → IsStack rooted stack → IsNormal rooted (reverse stack)
reverse-IsNormal rooted stack s = reverse_aux-IsNormal rooted stack [] s tt

-- A rooted walk keeps names only.
pub IsNormal-rooted : (parts : List Text) → IsNormal true parts → All IsName parts
IsNormal-rooted [] h = tt
IsNormal-rooted (part ∷ parts) (inl h) = h
IsNormal-rooted (part ∷ parts) (inr (up, relative, h)) = cc

pub enter_name :
    (rooted : Bool) (part : Text) (stack : List Text)
    → IsName part
    → enter rooted part stack ≡ part ∷ stack
unfolding enter
enter_name rooted part stack ((a, b, c), _) =
    ground (arith, text_beq_iff part [], text_beq_iff part dot, text_beq_iff part dotdot)

-- Names are pushed as they come.
pub resolve_names :
    (rooted : Bool) (stack parts : List Text)
    → All IsName parts
    → resolve rooted stack parts ≡ reverse_aux parts stack
unfolding resolve
resolve_names rooted stack [] h = refl
resolve_names rooted stack (part ∷ parts) h =
    rw (enter_name rooted part stack h.0) (resolve_names rooted (part ∷ stack) parts h.1)

enter_up : (stack : List Text) → All IsUp stack → enter false dotdot stack ≡ dotdot ∷ stack
unfolding enter leave text_beq
enter_up [] h = refl
enter_up (top ∷ stack) h = rw ((text_beq_iff top dotdot).1 h.0)

-- A walk over what a walk has left changes nothing.
pub resolve_normal :
    (rooted : Bool) (stack parts : List Text)
    → All IsUp stack
    → IsNormal rooted parts
    → resolve rooted stack parts ≡ reverse_aux parts stack
unfolding resolve
resolve_normal rooted stack [] u h = refl
resolve_normal rooted stack (part ∷ parts) u (inl h) = resolve_names rooted stack (part ∷ parts) h
resolve_normal true stack (part ∷ parts) u (inr (up, relative, h)) = cc
resolve_normal false stack (part ∷ parts) u (inr (up, relative, h)) =
    rw (up, enter_up stack u) (resolve_normal false (dotdot ∷ stack) parts (refl, u) h)
