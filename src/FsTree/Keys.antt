-- ===== src/FsTree/Keys.antt =====
-- Which paths lie at or below another one, and how this meets splitParent and joinPath.
use rclaude.Prelude.{
  ℕ, zero, suc, ◌+◌, ◌<◌, ◌≤◌, ◌≡◌, refl, ◌≢◌, Bool, true, false, ◌||◌, none, some, [], ◌∷◌, ◌++◌,
  Text, length, starts_with, text_beq, text_beq_iff, ◌==◌, text_eq, nat_eq, arith, ap, ◌⊎◌, sym,
  ◌∙◌, Option-cases, Bool-cases, inl, inr, length-append,
}
use rclaude.Paths.{slash, split_last, is_abs}
use rclaude.Paths.Split.{NoSlash}
use rclaude.FsTree.{split_parent, parent, base, join_path}

pub beq-false : (a b : Text) → a ≢ b → (a == b) ≡ false
beq-false a b h = ground (arith, text_beq_iff a b)

pub length_pos : (q : Text) → q ≢ [] → 0 < length q
length_pos [] h = absurd (h refl)
length_pos (c ∷ q) h = omega arith

-- `q` is `p` or lies below it.
abbrev pub below : Text → Text → Bool
below p q = q == p || starts_with q (p ++ slash ∷ [])

pub split_last-none : (q : Text) → split_last q ≡ none → NoSlash q
unfolding split_last
split_last-none [] h = tt
split_last-none (c ∷ q) h = elim (Option-cases (split_last q)) [
  | inl e ↦ (ground arith, split_last-none q e)
  | inr (r, e) ↦ absurd (ground arith)
]

pub split_last-some :
    (q : Text) (a b : Text) → split_last q ≡ some (a, b) → (q ≡ a ++ slash ∷ b) × NoSlash b
unfolding split_last
split_last-some [] a b h = absurd (ground arith)
split_last-some (c ∷ q) a b h = elim (Option-cases (split_last q)) [
  | inl e ↦
      let plain = split_last-none q e in
      let at : (([] ≡ a) × (q ≡ b)) × (c ≡ slash) = ground arith in
      rw (← at.0.0) (rw (← at.0.1) (rw at.1 (refl, plain)))
  | inr ((front, back), e) ↦
      let ih = split_last-some q front back e in
      let at : (c ∷ front ≡ a) × (back ≡ b) = ground arith in
      rw (← at.0) (rw (← at.1) (ap (λ s. c ∷ s) ih.0, ih.1))
]

split_last_of_NoSlash : (q : Text) → NoSlash q → split_last q ≡ none
unfolding split_last
split_last_of_NoSlash [] h = refl
split_last_of_NoSlash (c ∷ q) h = rw (split_last_of_NoSlash q h.1) (ground arith)

pub below-NoSlash : (p q : Text) → NoSlash q → starts_with q (p ++ slash ∷ []) ≡ false
unfolding starts_with
below-NoSlash [] [] h = refl
below-NoSlash [] (d ∷ q) h = ground arith
below-NoSlash (c ∷ p) [] h = refl
below-NoSlash (c ∷ p) (d ∷ q) h = ground (arith, below-NoSlash p q h.1)

-- A path lies below `p/` exactly when its parent does or is `p`.
pub below-split :
    (p a b : Text)
    → NoSlash b
    → starts_with (a ++ slash ∷ b) (p ++ slash ∷ []) ≡ (a == p || starts_with a (p ++ slash ∷ []))
unfolding starts_with text_beq
below-split [] [] b h = ground arith
below-split [] (d ∷ a) b h = ground arith
below-split (c ∷ p) [] b h = ground (arith, below-NoSlash p b h)
below-split (c ∷ p) (d ∷ a) b h = ground (arith, below-split p a b h)

-- A path is its parent, a slash and a name; or it is a name below the root.
pub split_parent-cases :
    (q : Text)
    → ((parent q ≡ []) × (base q ≡ q) × NoSlash q)
      ⊎ ((q ≡ parent q ++ slash ∷ base q) × NoSlash (base q))
split_parent-cases q = elim (Option-cases (split_last q)) [
  | inl e ↦
      let at : split_parent q ≡ ([], q) = unfold split_parent in rw e in
      inl (ap (λ r. r.0) at, ap (λ r. r.1) at, split_last-none q e)
  | inr ((a, b), e) ↦
      let at : split_parent q ≡ (a, b) = unfold split_parent in rw e in
      let parts = split_last-some q a b e in
      inr (
        parts.0 ∙ sym (ap (λ (r : Text × Text). r.0 ++ slash ∷ r.1) at),
        rw (ap (λ r. r.1) at) parts.1,
      )
]

split_last-append : (a b : Text) → NoSlash b → split_last (a ++ slash ∷ b) ≡ some (a, b)
unfolding split_last
split_last-append [] b h = rw (split_last_of_NoSlash b h)
split_last-append (c ∷ a) b h = rw (split_last-append a b h)

is_abs-slash : (s : Text) → is_abs (slash ∷ s) ≡ true
unfolding is_abs starts_with
is_abs-slash s = ground arith

is_abs_front : (s t : Text) → is_abs (s ++ t) ≡ false → is_abs s ≡ false
unfolding is_abs starts_with
is_abs_front [] t h = refl
is_abs_front (c ∷ s) t h = h

pub base-NoSlash : (q : Text) → NoSlash (base q)
base-NoSlash q = elim (split_parent-cases q) [ inl h ↦ rw h.1 h.2 | inr h ↦ h.1 ]

pub below_nil : (p : Text) → p ≢ [] → below p [] ≡ false
unfolding text_beq starts_with
below_nil [] h = absurd (h refl)
below_nil (c ∷ p) h = refl

-- What lies at or below `p` is `p` and whatever has such a parent.
pub below-parent : (p q : Text) → p ≢ [] → below p q ≡ (q == p || below p (parent q))
below-parent p q h = elim (split_parent-cases q) [
  | inl (at, _, plain) ↦ rw (at, below_nil p h, below-NoSlash p q plain) refl
  | inr (at, plain) ↦
      ap (λ (s : Text). s == p || starts_with s (p ++ slash ∷ [])) at
      ∙ rw (below-split p (parent q) (base q) plain) (rw (← at))
]

pub below_refl : (p : Text) → below p p ≡ true
below_refl p = rw ((text_beq_iff p p).1 refl)

-- Joining a name to a path gives back both.
pub split_parent-join_path :
    (p name : Text) → NoSlash name → split_parent (join_path p name) ≡ (p, name)
unfolding split_parent join_path split_last text_beq
split_parent-join_path [] name h = rw (split_last_of_NoSlash name h) refl
split_parent-join_path (c ∷ p) name h = rw (split_last-append (c ∷ p) name h)

-- A relative path is its parent and its name joined, and its parent is relative.
pub join_path-parent : (q : Text) → is_abs q ≡ false → join_path (parent q) (base q) ≡ q
join_path-parent q h = elim (split_parent-cases q) [
  | inl (at, name, _) ↦ unfold join_path text_beq in rw at name
  | inr (at, _) ↦ elim (Bool-cases (parent q == [])) [
    | inl top ↦
        let root : parent q ≡ [] = (text_beq_iff (parent q) []).0 top in
        let rooted : q ≡ slash ∷ base q = at ∙ ap (λ a. a ++ slash ∷ base q) root in
        absurd (ground (arith, ap is_abs rooted, is_abs-slash (base q)))
    | inr deep ↦ unfold join_path in rw deep (sym at)
  ]
]

pub split_parent-injective :
    (p q : Text)
    → is_abs p ≡ false
    → is_abs q ≡ false
    → parent p ≡ parent q
    → base p ≡ base q
    → p ≡ q
split_parent-injective p q hp hq a b =
    sym (join_path-parent p hp)
    ∙ (ap (λ r. join_path r (base p)) a ∙ ap (join_path (parent q)) b)
    ∙ join_path-parent q hq

pub is_abs-parent : (q : Text) → is_abs q ≡ false → is_abs (parent q) ≡ false
is_abs-parent q h = elim (split_parent-cases q) [
  | inl (at, _, _) ↦ unfold is_abs starts_with in rw at
  | inr (at, _) ↦ is_abs_front (parent q) (slash ∷ base q) (ap is_abs (sym at) ∙ h)
]

pub length-parent : (q : Text) → q ≢ [] → length (parent q) < length q
length-parent q h = elim (split_parent-cases q) [
  | inl (at, _, _) ↦ rw at (length_pos q h)
  | inr (at, _) ↦ omega (arith, ap (λ s. length s) at, length-append (parent q) (slash ∷ base q))
]

pub length-join_path :
    (p name : Text) → p ≢ [] → length (join_path p name) ≡ length p + 1 + length name
unfolding join_path
length-join_path p name h = rw (beq-false p [] h) (omega (arith, length-append p (slash ∷ name)))

starts_with-length : (q s : Text) → starts_with q s ≡ true → length s ≤ length q
unfolding starts_with
starts_with-length q [] h = omega arith
starts_with-length [] (c ∷ s) h = absurd (ground arith)
starts_with-length (d ∷ q) (c ∷ s) h = ground (arith, starts_with-length q s)

pub below-length : (p q : Text) → below p q ≡ true → length p ≤ length q
below-length p q h = elim (Bool-cases (q == p)) [
  | inl same ↦ omega (arith, ap (λ s. length s) ((text_beq_iff q p).0 same))
  | inr other ↦
      omega
        (arith, length-append p (slash ∷ []), starts_with-length q (p ++ slash ∷ []) (ground arith))
]

pub join_path-full : (p name : Text) → p ≢ [] → join_path p name ≢ []
join_path-full p name h e = absurd (omega (arith, length-join_path p name h, ap (λ s. length s) e))

child_within :
    (p name : Text)
    → p ≢ []
    → NoSlash name
    → (n : ℕ) (q : Text) → length q < n
    → below (join_path p name) q ≡ true
    → below p q ≡ true
child_within p name full plain zero q l h = elim l [ ]
child_within p name full plain (suc n) q l h =
    let under = join_path-full p name full in
    elim (Bool-cases (q == join_path p name)) [
      | inl same ↦ rw ((text_beq_iff q (join_path p name)).0 same) (
          below-parent p (join_path p name) full
          ∙ ground
              (arith, below_refl p, ap (λ r. below p r.0) (split_parent-join_path p name plain)))
      | inr other ↦
          let up : below (join_path p name) (parent q) ≡ true =
            ground (arith, below-parent (join_path p name) q under) in
          let nonempty : q ≢ [] = λ e.
            absurd (
              ground
                (arith, ap (below (join_path p name)) e, below_nil (join_path p name) under)) in
          let higher : below p (parent q) ≡ true =
            child_within p name full plain n (parent q) (omega (arith, length-parent q nonempty))
              up in
          ground (arith, below-parent p q full)
    ]

-- A child lies below its parent, and so does what lies below the child.
pub below-child :
    (p name q : Text)
    → p ≢ []
    → NoSlash name
    → below (join_path p name) q ≡ true
    → (below p q ≡ true) × ((q == p) ≡ false)
below-child p name q full plain h =
    (child_within p name full plain (suc (length q)) q (omega arith) h, apart)
  where
    apart : (q == p) ≡ false
    apart = beq-false q p (λ e. absurd (
        omega (
          arith,
          below-length (join_path p name) q h,
          length-join_path p name full,
          ap (λ s. length s) e,
        )))
