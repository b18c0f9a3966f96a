-- ===== src/Paths.antt =====
-- Go's packages path and, on Unix, path/filepath: the functions that the code calls, over texts.
pub mod Split
pub mod Resolve
pub mod Clean
pub mod Chars
pub mod Parent
use mathlib.Core.List.{reverse}
use rclaude.Prelude.{
  Bool, ◌&&◌, ◌||◌, map, Option, none, some, List, [], ◌∷◌, ◌++◌, ℕ, Text, codes, starts_with,
  text_beq, ◌==◌, text_eq, nat_eq, if◌then◌else◌,
}

abbrev pub slash : ℕ
slash = b'/'

abbrev pub dot : Text
dot = b'.' ∷ []

abbrev pub dotdot : Text
dotdot = b'.' ∷ b'.' ∷ []

abbrev pub onto_head : ℕ → List Text → List Text
onto_head c [] = (c ∷ []) ∷ []
onto_head c (part ∷ parts) = (c ∷ part) ∷ parts

-- strings.Split(s, "/")
unfoldable pub split_slash : Text → List Text
split_slash [] = [] ∷ []
split_slash (c ∷ s) =
    let parts = split_slash s in if c == slash then [] ∷ parts else onto_head c parts

-- strings.Join(parts, "/")
unfoldable pub join_slash : List Text → Text
join_slash [] = []
join_slash (part ∷ []) = part
join_slash (part ∷ next ∷ parts) = part ++ (slash ∷ join_slash (next ∷ parts))

-- One component of a lexical walk; the stack has its top at the head.
unfoldable pub leave : Bool → List Text → List Text
leave rooted [] = if rooted then [] else dotdot ∷ []
leave rooted (top ∷ stack) = if top == dotdot then dotdot ∷ top ∷ stack else stack

unfoldable pub enter : Bool → Text → List Text → List Text
enter rooted part stack =
    if part == [] || part == dot
    then stack
    else if part == dotdot
    then leave rooted stack
    else part ∷ stack

unfoldable pub resolve : Bool → List Text → List Text → List Text
resolve rooted stack [] = stack
resolve rooted stack (part ∷ parts) = resolve rooted (enter rooted part stack) parts

-- path.IsAbs
unfoldable pub is_abs : Text → Bool
is_abs p = starts_with p (slash ∷ [])

-- The components that are left of a path after its lexical walk.
unfoldable pub segments : Text → List Text
segments p = reverse (resolve (is_abs p) [] (split_slash p))

abbrev pub dot_of_empty : List Text → Text
dot_of_empty [] = dot
dot_of_empty (part ∷ parts) = join_slash (part ∷ parts)

-- path.Clean
unfoldable pub clean : Text → Text
clean p = if is_abs p then slash ∷ join_slash (segments p) else dot_of_empty (segments p)

-- strings.TrimPrefix(p, "/")
unfoldable pub trim_slash : Text → Text
trim_slash [] = []
trim_slash (c ∷ s) = if c == slash then s else c ∷ s

-- p[:i] and p[i+1:] at the last slash, where there is one
unfoldable pub split_last : Text → Option (Text × Text)
split_last [] = none
split_last (c ∷ s) = elim (split_last s) [
  | some (parent, base) ↦ some (c ∷ parent, base)
  | none ↦ if c == slash then some ([], s) else none
]

-- path.Dir
unfoldable pub dir : Text → Text
dir p = elim (split_last p) [ some (parent, _) ↦ clean (parent ++ slash ∷ []) | none ↦ clean [] ]

-- strings.TrimRight(p, "/")
abbrev snoc_unless_slash : ℕ → Text → Text
snoc_unless_slash c [] = if c == slash then [] else c ∷ []
snoc_unless_slash c (d ∷ s) = c ∷ d ∷ s

trim_right_slash : Text → Text
trim_right_slash [] = []
trim_right_slash (c ∷ s) = snoc_unless_slash c (trim_right_slash s)

-- path.Base of a path that is not empty, with its trailing slashes off
base_of : Text → Text
base_of [] = slash ∷ []
base_of (c ∷ s) = elim (split_last (c ∷ s)) [ some (_, base) ↦ base | none ↦ c ∷ s ]

-- path.Base
unfoldable pub base : Text → Text
unfolding trim_right_slash base_of split_last
base [] = dot
base (c ∷ s) = base_of (trim_right_slash (c ∷ s))

-- filepath.Join(a, b)
unfoldable pub join_two : Text → Text → Text
join_two [] [] = []
join_two [] (c ∷ b) = clean (c ∷ b)
join_two (c ∷ a) [] = clean (c ∷ a)
join_two (c ∷ a) (d ∷ b) = clean ((c ∷ a) ++ (slash ∷ d ∷ b))

-- What is left of two lists of components behind their common start.
abbrev pub diverge : List Text → List Text → List Text × List Text
diverge (x ∷ xs) (y ∷ ys) = if x == y then diverge xs ys else (x ∷ xs, y ∷ ys)
diverge xs ys = (xs, ys)

-- filepath.Rel of two absolute paths
unfoldable pub rel : Text → Text → Option Text
rel base_path target =
    if is_abs base_path && is_abs target
    then (let (up, down) = diverge (segments base_path) (segments target) in
        some (dot_of_empty (map (λ _. dotdot) up ++ down)))
    else none

-- filepath.ToSlash and filepath.FromSlash, where the separator is the slash
unfoldable pub file_to_slash : Text → Text
file_to_slash p = p

unfoldable pub file_from_slash : Text → Text
file_from_slash p = p

-- Opens the functions of this module for a run on a concrete path.
unfoldable pub paths_run : Unit {0}
unfolding split_slash join_slash leave enter resolve is_abs segments clean trim_slash split_last dir
    base join_two rel file_to_slash file_from_slash starts_with text_beq
paths_run = tt
