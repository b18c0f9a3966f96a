-- ===== src/Syncer/Sensitive/Climb.antt =====
-- The loop of pathCandidates: it ends, and what it finds for a child of a path.
use mathlib.Core.Option
use rclaude.Prelude.{
  ℕ, zero, suc, ◌+◌, ◌<◌, ◌≡◌, refl, ◌≢◌, ◌⊎◌, inl, inr, true, false, Option, some, List, [], ◌∷◌,
  ◌++◌, Text, text_eq, text_beq_iff, length, length-append, replace_all, starts_with, arith, ap,
  sym, ◌∙◌, Bool-cases,
}
use rclaude.Paths.{slash, dot, dir, segments, is_abs, join_slash}
use rclaude.Paths.Clean.{segments-IsNormal}
use rclaude.Paths.Parent.{IsTop, dir-shorter, dir-child}
use rclaude.Paths.Split.{NoSlash}
use rclaude.Normalize.{normalize}
use rclaude.Normalize.Forms.{not-dot, IsNormal-relative, normalize_lem, is_abs-normalize}
use rclaude.Normalize.Child.{clean-normalize}
use rclaude.Syncer.Sensitive.{at_top, climb, or_nil, path_candidates}

-- The fuel is enough for a climb from `parent` on.
abbrev Suffices : ℕ → Text → Text → Type 0
Suffices fuel path parent =
    (0 < fuel) × (IsTop parent ⊎ ((length parent + 1 < fuel) × (length parent < length path)))

at_top-IsTop : (path parent : Text) → IsTop parent → at_top path parent ≡ true
at_top-IsTop path parent (inl e) = ground (arith, text_beq_iff parent dot)
at_top-IsTop path parent (inr e) =
    ground (arith, text_beq_iff parent dot, text_beq_iff parent (slash ∷ []))

Suffices-dir :
    (fuel : ℕ) (path parent : Text)
    → Suffices (suc fuel) path parent
    → at_top path parent ≡ false
    → Suffices fuel path (dir parent)
Suffices-dir fuel path parent (_, inl top) h = absurd (cc (at_top-IsTop path parent top))
Suffices-dir fuel path parent (_, inr (small, short)) h = elim (dir-shorter parent) [
  | inl top ↦ (omega arith, inl top)
  | inr shorter ↦ (omega arith, inr (omega arith, omega arith))
]

Suffices-start : (path : Text) → Suffices (length path + 2) path (dir path)
Suffices-start path = elim (dir-shorter path) [
  | inl top ↦ (omega arith, inl top)
  | inr shorter ↦ (omega arith, inr (omega arith, shorter))
]

climb_total :
    (fuel : ℕ) (path parent : Text)
    → Suffices fuel path parent
    → (parents : List Text) × (climb fuel path parent ≡ some parents)
unfolding climb
climb_total zero path parent s = absurd (omega (arith, s.0))
climb_total (suc fuel) path parent s = elim (Bool-cases (at_top path parent)) [
  | inl top ↦ ([], rw top)
  | inr more ↦ rw more (
      onto (climb fuel path (dir parent))
        (climb_total fuel path (dir parent) (Suffices-dir fuel path parent s more)))
]
  where
    onto :
        (found : Option (List Text))
        → ((parents : List Text) × (found ≡ some parents))
        → (parents : List Text) × (Option.map (◌∷◌ parent) found ≡ some parents)
    onto found (parents, e) = (parent ∷ parents, rw e)

-- For every path, the loop over its parents ends within the fuel that is given.
pub climb-ends :
    (path : Text) → (parents : List Text) × (climb (length path + 2) path (dir path) ≡ some parents)
climb-ends path = climb_total (length path + 2) path (dir path) (Suffices-start path)

at_top-eq :
    (path other parent : Text)
    → (IsTop parent ⊎ ((length parent < length path) × (length parent < length other)))
    → at_top path parent ≡ at_top other parent
at_top-eq path other parent (inl top) =
    at_top-IsTop path parent top ∙ sym (at_top-IsTop other parent top)
at_top-eq path other parent (inr (h, k)) = ground (
  arith,
  text_beq_iff parent path,
  text_beq_iff parent other,
  ap length {x = parent} {y = path},
  ap length {x = parent} {y = other},
)

both :
    {fuel fuel' : ℕ} (path other parent : Text)
    → Suffices fuel path parent
    → Suffices fuel' other parent
    → IsTop parent ⊎ ((length parent < length path) × (length parent < length other))
both path other parent (_, inl top) _ = inl top
both path other parent _ (_, inl top) = inl top
both path other parent (_, inr (_, h)) (_, inr (_, k)) = inr (h, k)

-- What a climb finds depends on where it starts alone.
climb-eq :
    (fuel fuel' : ℕ) (path other parent : Text)
    → Suffices fuel path parent
    → Suffices fuel' other parent
    → climb fuel path parent ≡ climb fuel' other parent
unfolding climb
climb-eq zero fuel' path other parent s s' = absurd (omega (arith, s.0))
climb-eq (suc fuel) zero path other parent s s' = absurd (omega (arith, s'.0))
climb-eq (suc fuel) (suc fuel') path other parent s s' =
    let same = at_top-eq path other parent (both path other parent s s') in
    elim (Bool-cases (at_top path parent)) [
      | inl top ↦ rw (← same) (rw top refl)
      | inr more ↦ rw (← same) (
          rw more (
            ap (Option.map (◌∷◌ parent)) (
              climb-eq fuel fuel' path other (dir parent) (Suffices-dir fuel path parent s more)
                (Suffices-dir fuel' other parent s' (sym same ∙ more)))))
    ]

normalize-ne-dot : (p : Text) → normalize p ≢ dot
normalize-ne-dot p e =
    let q = replace_all 0x5c slash p in
    let h =
      not-dot (segments q) (IsNormal-relative (is_abs q) (segments q) (segments-IsNormal q)) in
    cc (h, (text_beq_iff (join_slash (segments q)) dot).1 (sym (normalize_lem p) ∙ e))

normalize-ne-slash : (p : Text) → normalize p ≢ slash ∷ []
unfolding is_abs starts_with
normalize-ne-slash p e =
    let h = is_abs-normalize p in let k : is_abs (normalize p) ≡ true = rw e refl in cc

not-top : (p name : Text) → at_top (normalize p ++ slash ∷ name) (normalize p) ≡ false
not-top p name =
    let parent = normalize p in
    let child = parent ++ slash ∷ name in
    ground (
      arith,
      normalize-ne-dot p,
      normalize-ne-slash p,
      text_beq_iff parent dot,
      text_beq_iff parent (slash ∷ []),
      text_beq_iff parent child,
      ap length {x = parent} {y = child},
      length-append {0} parent (slash ∷ name),
    )

or_nil-climb :
    (fuel : ℕ) (path parent : Text)
    → Suffices (suc fuel) path parent
    → at_top path parent ≡ false
    → or_nil (climb (suc fuel) path parent) ≡ parent ∷ or_nil (climb fuel path (dir parent))
unfolding climb
or_nil-climb fuel path parent s more =
    let (parents, e) = climb_total fuel path (dir parent) (Suffices-dir fuel path parent s more) in
    rw more (rw e refl)

-- The candidates of a child are the child and those of its parent.
pub path_candidates-child :
    (p name : Text)
    → normalize p ≢ []
    → NoSlash name
    → path_candidates (normalize p ++ slash ∷ name)
      ≡ (normalize p ++ slash ∷ name) ∷ path_candidates (normalize p)
unfolding path_candidates
path_candidates-child p name h n =
    let parent = normalize p in
    let child = parent ++ slash ∷ name in
    let longer = length-append {0} parent (slash ∷ name) in
    let up : dir child ≡ parent = dir-child parent name h n ∙ clean-normalize p h in
    let fuel : length child + 2 ≡ suc (length child + 1) = omega arith in
    let start : Suffices (suc (length child + 1)) child parent =
      (omega arith, inr (omega (arith, longer), omega (arith, longer))) in
    let same =
      climb-eq (length child + 1) (length parent + 2) child parent (dir parent)
        (Suffices-dir (length child + 1) child parent start (not-top p name))
        (Suffices-start parent) in
    ap (◌∷◌ child) (
      rw (up, fuel)
        (or_nil-climb (length child + 1) child parent start (not-top p name)
          ∙ ap (λ found. parent ∷ or_nil found) same))
