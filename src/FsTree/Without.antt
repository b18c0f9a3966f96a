-- ===== src/FsTree/Without.antt =====
-- A tree without a path and what lies below it.
use rclaude.Prelude.{
  ℕ, ◌≡◌, ◌≢◌, true, false, ◌&&◌, Option, none, some, [], Text, length, ◌≤◌, ◌==◌, text_eq,
  text_beq_iff, if◌then◌else◌, arith, ap, ◌∙◌,
}
use rclaude.Prelude.Assoc
use rclaude.FsTree.{Node, Tree, parent, base, info_of}
use rclaude.FsTree.Keys.{below, below-parent, below_nil, split_parent-injective}
use rclaude.FsTree.Nodes.{
  find, is_some, has, dir_node, dir_at, child_node, child, IsTree, drop_at, child-drop_at,
}

-- No path of the tree is longer.
abbrev pub IsBounded : ℕ → Tree → Type 0
IsBounded bound t = (q : Text) → has q t ≡ true → length q ≤ bound

-- The node at `q` once `p` is deleted: what lies below goes, and the parent forgets the name.
abbrev pub without : Text → Tree → Text → Option Node
without p t q =
    if below p q
    then none
    else if parent p == q
    then drop_at (base p) (Assoc.lookup q t)
    else Assoc.lookup q t

-- A tree without some path and what is below it is a tree.
module _ (p : Text) (t u : Tree) (full : p ≢ []) (w : IsTree t) (present : has p t ≡ true)
    (at : (q : Text) → Assoc.lookup q u ≡ without p t q) where
  pub has-without : (q : Text) → has q u ≡ (if below p q then false else has q t)
  has-without q = ap is_some (at q) ∙ kept (Assoc.lookup q t)
    where
      kept :
          (o : Option Node)
          → is_some (if below p q then none else if parent p == q then drop_at (base p) o else o)
            ≡ (if below p q then false else is_some o)
      kept none = ground arith
      kept (some n) = ground arith

  pub find-without : (q : Text) → find q u ≡ (if below p q then none else find q t)
  find-without q = ap info_of (at q) ∙ kept (Assoc.lookup q t)
    where
      kept :
          (o : Option Node)
          → info_of (if below p q then none else if parent p == q then drop_at (base p) o else o)
            ≡ (if below p q then none else info_of o)
      kept none = ground arith
      kept (some n) = ground arith

  pub dir_at-without : (q : Text) → dir_at q u ≡ (if below p q then false else dir_at q t)
  dir_at-without q = ap dir_node (at q) ∙ kept (Assoc.lookup q t)
    where
      kept :
          (o : Option Node)
          → dir_node (if below p q then none else if parent p == q then drop_at (base p) o else o)
            ≡ (if below p q then false else dir_node o)
      kept none = ground arith
      kept (some n) = ground arith

  pub child-without :
      (q name : Text)
      → child q name u ≡ (
          if below p q
          then false
          else if parent p == q && base p == name
          then false
          else child q name t)
  child-without q name =
      ap (child_node name) (at q) ∙ ground (arith, child-drop_at (base p) name (Assoc.lookup q t))

  pub without-IsTree : IsTree u
  without-IsTree = record {
    root = dir_at-without [] ∙ rw (below_nil p full) w.root;
    linked = λ q nq e. linked_without q nq (kept_iff q e).0 (kept_iff q e).1;
    relative = λ q e. w.relative q (kept_iff q e).1;
    keyed = λ q i e. w.keyed q i (ground (arith, find-without q));
    plain = λ q name e. w.plain q name (ground (arith, child-without q name));
  }
    where
      kept_iff : (q : Text) → has q u ≡ true → (below p q ≡ false) × (has q t ≡ true)
      kept_iff q e = ground (arith, has-without q)

      linked_without :
          (q : Text)
          → q ≢ []
          → below p q ≡ false
          → has q t ≡ true
          → (dir_at (parent q) u ≡ true) × (child (parent q) (base q) u ≡ true)
      linked_without q nq b e = ground (
        arith,
        w.linked q nq e,
        below-parent p q full,
        dir_at-without (parent q),
        child-without (parent q) (base q),
        text_beq_iff (parent p) (parent q),
        text_beq_iff (base p) (base q),
        text_beq_iff q p,
        split_parent-injective p q (w.relative p present) (w.relative q e),
      )

  pub without-IsBounded : (bound : ℕ) → IsBounded bound t → IsBounded bound u
  without-IsBounded bound h q e = h q (ground (arith, has-without q))
