-- ===== src/FsTree/Attach.antt =====
-- A node that is stored and registered with its parent.
use rclaude.Prelude.{
  ◌≡◌, ◌≢◌, true, false, ◌&&◌, ◌||◌, Option, none, some, [], Text, length, ◌==◌, text_eq,
  text_beq_iff, if◌then◌else◌, arith, ap, ◌∙◌, Bool-cases, beq_refl, inl, inr,
}
use rclaude.Prelude.Assoc
use rclaude.Paths.{is_abs}
use rclaude.Paths.Split.{NoSlash}
use rclaude.FsTree.{Node, Tree, parent, base, put_child, info_of, clone_info}
use rclaude.FsTree.Keys.{length-parent, base-NoSlash}
use rclaude.FsTree.Nodes.{
  find, is_some, has, dir_node, dir_at, child_node, child, IsTree, put_at, child-put_at,
  lookup-put_child, has-dir_at,
}

abbrev pub attach : Text → Node → Tree → Tree
attach a n t = put_child (parent a) (base a) (Assoc.insert a n t)

-- The node that stands at `q` afterwards, before the name is added to the parent.
abbrev stored : Text → Node → Text → Option Node → Option Node
stored a n q o = if a == q then some n else o

parent-apart : (a : Text) → a ≢ [] → (parent a == a) ≡ false
parent-apart a h = elim (Bool-cases (parent a == a)) [
  | inl e ↦
      absurd
        (omega (arith, length-parent a h, ap (λ s. length s) ((text_beq_iff (parent a) a).0 e)))
  | inr e ↦ e
]

module _ (a : Text) (n : Node) (t : Tree) (full : a ≢ []) (rel : is_abs a ≡ false) (w : IsTree t)
    (dir : dir_at (parent a) t ≡ true) where
  lookup-attach :
      (q : Text)
      → Assoc.lookup q (attach a n t) ≡ (
          if parent a == q
          then put_at (base a) (stored a n q (Assoc.lookup q t))
          else stored a n q (Assoc.lookup q t))
  lookup-attach q =
      lookup-put_child (parent a) (base a) q (Assoc.insert a n t) ∙ rw (Assoc.lookup-insert a q n t)

  pub find-attach : (q : Text) → find q (attach a n t) ≡ (if a == q then some n.info else find q t)
  unfolding clone_info
  find-attach q = ap info_of (lookup-attach q) ∙ kept (Assoc.lookup q t)
    where
      kept :
          (o : Option Node)
          → info_of (if parent a == q then put_at (base a) (stored a n q o) else stored a n q o)
            ≡ (if a == q then some n.info else info_of o)
      kept none = ground arith
      kept (some m) = ground arith

  has-attach : (q : Text) → has q (attach a n t) ≡ (a == q || has q t)
  has-attach q = ap is_some (lookup-attach q) ∙ kept (Assoc.lookup q t)
    where
      kept :
          (o : Option Node)
          → is_some (if parent a == q then put_at (base a) (stored a n q o) else stored a n q o)
            ≡ (a == q || is_some o)
      kept none = ground arith
      kept (some m) = ground arith

  dir_at-attach :
      (q : Text) → dir_at q (attach a n t) ≡ (if a == q then n.info.is_dir else dir_at q t)
  dir_at-attach q = ap dir_node (lookup-attach q) ∙ kept (Assoc.lookup q t)
    where
      kept :
          (o : Option Node)
          → dir_node (if parent a == q then put_at (base a) (stored a n q o) else stored a n q o)
            ≡ (if a == q then n.info.is_dir else dir_node o)
      kept none = ground arith
      kept (some m) = ground arith

  child-attach :
      (q name : Text)
      → child q name (attach a n t) ≡ (
          if parent a == q && base a == name
          then true
          else if a == q
          then child_node name (some n)
          else child q name t)
  child-attach q name =
      ap (child_node name) (lookup-attach q)
      ∙ ground (
        arith,
        child-put_at (base a) name (stored a n q (Assoc.lookup q t)),
        parent-apart a full,
        has-dir_at (parent a) t dir,
        text_beq_iff (parent a) q,
        text_beq_iff a q,
        text_beq_iff (parent a) a,
      )

  -- The tree stays one if the node is keyed and keeps whatever stands below it.
  pub attach-IsTree :
      n.info.path ≡ a
      → ((name : Text) → child_node name (some n) ≡ true → NoSlash name)
      → ((q : Text)
          → q ≢ []
          → has q t ≡ true
          → parent q ≡ a
          → (n.info.is_dir ≡ true) × (child_node (base q) (some n) ≡ true))
      → IsTree (attach a n t)
  attach-IsTree keyed plain keeps = record {
    root = dir_at-attach [] ∙ ground (arith, text_beq_iff a [], w.root);
    linked = λ q nq e. elim (Bool-cases (a == q)) [
      | inl same ↦ rw (← (text_beq_iff a q).0 same) linked_self
      | inr other ↦ linked_other q nq other (ground (arith, has-attach q))
    ];
    relative = λ q e. elim (Bool-cases (a == q)) [
      | inl same ↦ rw (← (text_beq_iff a q).0 same) rel
      | inr other ↦ w.relative q (ground (arith, has-attach q))
    ];
    keyed = λ q i e. ground (arith, find-attach q, text_beq_iff a q, w.keyed q i);
    plain = λ q name e. elim (Bool-cases (base a == name)) [
      | inl same ↦ rw (← (text_beq_iff (base a) name).0 same) (base-NoSlash a)
      | inr other ↦ elim (Bool-cases (a == q)) [
        | inl here ↦ plain name (ground (arith, child-attach q name))
        | inr away ↦ w.plain q name (ground (arith, child-attach q name))
      ]
    ];
  }
    where
      linked_self :
          (dir_at (parent a) (attach a n t) ≡ true)
          × (child (parent a) (base a) (attach a n t) ≡ true)
      linked_self = ground (
        arith,
        dir_at-attach (parent a),
        child-attach (parent a) (base a),
        beq_refl (parent a),
        beq_refl (base a),
        parent-apart a full,
        text_beq_iff (parent a) a,
        text_beq_iff a (parent a),
        dir,
      )

      linked_other :
          (q : Text)
          → q ≢ []
          → (a == q) ≡ false
          → has q t ≡ true
          → (dir_at (parent q) (attach a n t) ≡ true)
            × (child (parent q) (base q) (attach a n t) ≡ true)
      linked_other q nq other e = ground (
        arith,
        dir_at-attach (parent q),
        child-attach (parent q) (base q),
        w.linked q nq e,
        keeps q nq e,
        text_beq_iff a (parent q),
      )
