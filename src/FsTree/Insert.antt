-- ===== src/FsTree/Insert.antt =====
-- Insertion: the new entry, directories above it, and nothing left below a file.
use rclaude.Prelude.{
  suc, ◌+◌, ◌≡◌, refl, ◌≢◌, Bool, true, false, ◌&&◌, not, Option, none, some, [], Text, length, ◌≤◌,
  ◌<◌, ◌==◌, text_eq, text_beq_iff, if◌then◌else◌, arith, ap, ◌∙◌, Option-cases, Bool-cases, inl,
  inr, ◌⊎◌,
}
use rclaude.Prelude.Assoc
use rclaude.Paths.{is_abs}
use rclaude.FsTree.{
  Info, Node, Tree, parent, base, names, info_of, clone_info, longest, delete_all, must_prune,
  prune_replaced, prune_children, children_map_for_info, set_node, ensure_ancestors, insert_locked,
}
use rclaude.FsTree.Keys.{
  below, below-parent, below-length, below_refl, length-parent, length_pos, beq-false,
}
use rclaude.FsTree.Nodes.{
  find, is_some, has, dir_node, dir_at, child_node, child, IsTree, above-dir,
}
use rclaude.FsTree.Children.{prune_children-Pruned}
use rclaude.FsTree.Delete.{delete_all-Deletes, longest_bound}
use rclaude.FsTree.Attach.{attach, find-attach, attach-IsTree}
use rclaude.FsTree.Ancestors.{above, as_dir, Ensured, has-find, ensure_ancestors-Ensured}

-- The tree that insertLocked has before it makes the ancestors.
record Cleared (p : Text) (info : Info) (t u : Tree) : Type 0 where
  pub tree : IsTree u
  pub self : find p u ≡ find p t
  pub at :
      (q : Text)
      → (q == p) ≡ false
      → Assoc.lookup q u ≡ (if not info.is_dir && below p q then none else Assoc.lookup q t)

module _ (p : Text) (info : Info) (t : Tree) (full : p ≢ []) (w : IsTree t) where
  kept-Cleared : (info.is_dir ≡ true) ⊎ (dir_at p t ≡ false) → Cleared p info t t
  kept-Cleared h = record { tree = w; self = refl; at = λ q ne. unchanged q ne h }
    where
      unchanged :
          (q : Text)
          → (q == p) ≡ false
          → (info.is_dir ≡ true) ⊎ (dir_at p t ≡ false)
          → Assoc.lookup q t ≡ (if not info.is_dir && below p q then none else Assoc.lookup q t)
      unchanged q ne (inl dir) = ground arith
      unchanged q ne (inr file) = elim (Option-cases (Assoc.lookup q t)) [
        | inl absent ↦ ground arith
        | inr (n, there) ↦ ground (arith, above-dir t p q w full, ap is_some there)
      ]

  kept_reason :
      (dir : Bool)
      → dir_at p t ≡ dir
      → (dir && not info.is_dir) ≡ false
      → (info.is_dir ≡ true) ⊎ (dir_at p t ≡ false)
  kept_reason true at keep = inl (ground arith)
  kept_reason false at keep = inr at

  pruned-Cleared :
      (n : Node)
      → Assoc.lookup p t ≡ some n
      → must_prune n info ≡ true
      → Cleared p info t (prune_children (delete_all t) p n t)
  pruned-Cleared n there must =
      let long : longest t < length p + suc (longest t) = omega (arith, length_pos p full) in
      let result =
        prune_children-Pruned (longest t) (longest t) (delete_all t) p t n
          (delete_all-Deletes t (longest t)) full long w (longest_bound t) there in
      record {
        tree = result.0.tree;
        self = result.0.self;
        at = λ q ne. result.1 q ne ∙ ground arith;
      }

  prune_replaced-Cleared : Cleared p info t (prune_replaced p info t)
  unfolding prune_replaced
  prune_replaced-Cleared = elim (Option-cases (Assoc.lookup p t)) [
    | inl absent ↦ rw (absent, prune_replaced) (kept-Cleared (inr (ap dir_node absent)))
    | inr (n, there) ↦
        rw (there, prune_replaced)
          (elim (Bool-cases (must_prune n info)) [
            | inl must ↦ rw must (pruned-Cleared n there must)
            | inr keep ↦ rw keep (kept-Cleared (kept_reason n.info.is_dir (ap dir_node there) keep))
          ])
  ]

-- Storing the node of `p` once the ancestors are there.
module _ (p : Text) (info : Info) (t u v : Tree) (full : p ≢ []) (rel : is_abs p ≡ false)
    (c : Cleared p info t u) (h : Ensured p u v) where
  abbrev node : Node
  node = record {
    info = record (clone_info info) { path = p };
    children = children_map_for_info (Assoc.lookup p v) (record (clone_info info) { path = p });
  }

  find-cleared :
      (q : Text)
      → (q == p) ≡ false
      → find q u ≡ (if not info.is_dir && below p q then none else find q t)
  find-cleared q ne = ap info_of (c.at q ne) ∙ ground arith

  -- What stands above does not lie below.
  above-not-below : (q : Text) → above q p ≡ true → length q < length p
  above-not-below q h =
      omega (arith, below-length q (parent p) (ground arith), length-parent p full)

  longer-not-above : (q : Text) → length p ≤ length q → above q p ≡ false
  longer-not-above q l = elim (Bool-cases (above q p)) [
    | inl e ↦ absurd (omega (arith, above-not-below q e))
    | inr e ↦ e
  ]

  -- A child that is still there stands below a directory.
  child_kept : (q : Text) → q ≢ [] → has q v ≡ true → parent q ≡ p → info.is_dir ≡ true
  child_kept q nq e up = elim (Bool-cases info.is_dir) [
    | inl dir ↦ dir
    | inr file ↦
        let shorter : length p < length q =
          omega (arith, length-parent q nq, ap (λ s. length s) up) in
        let ne : (q == p) ≡ false =
          beq-false q p (λ same. absurd (omega (arith, ap (λ s. length s) same))) in
        let lower : below p q ≡ true =
          below-parent p q full ∙ ground (arith, ap (below p) up, below_refl p) in
        let low : above q p ≡ false = longer-not-above q (omega arith) in
        absurd (ground (arith, h.at q, find-cleared q ne, has-find q v))
  ]

  children_at : (name : Text) → child_node name (some node) ≡ (info.is_dir && child p name v)
  unfolding children_map_for_info clone_info
  children_at name = read (Assoc.lookup p v)
    where
      read :
          (o : Option Node)
          → is_some (
              Assoc.lookup name
                (names (children_map_for_info o (record (clone_info info) { path = p }))))
            ≡ (info.is_dir && child_node name o)
      read none = ground (arith, Assoc.lookup-nil {V = Unit {0}} name)
      read (some n) = ground (arith, Assoc.lookup-nil {V = Unit {0}} name)

  stored-IsTree : IsTree (attach p node v)
  unfolding clone_info
  stored-IsTree =
      attach-IsTree p node v full rel h.tree h.dir refl
        (λ name e. h.tree.plain p name (ground (arith, children_at name)))
        (λ q nq e up. (
          child_kept q nq e up,
          ground (
            arith,
            children_at (base q),
            child_kept q nq e up,
            h.tree.linked q nq e,
            ap (λ r. child r (base q) v) up,
          ),
        ))

  stored-find :
      (q : Text)
      → find q (attach p node v) ≡ (
          if p == q
          then some (record info { path = p })
          else if above q p
          then some (as_dir q (find q t))
          else if not info.is_dir && below p q
          then none
          else find q t)
  unfolding clone_info
  stored-find q = find-attach p node v full rel h.tree h.dir q ∙ elim (Bool-cases (p == q)) [
    | inl same ↦ rw same
    | inr other ↦
        let ne : (q == p) ≡ false = ground (arith, text_beq_iff p q, text_beq_iff q p) in
        ground (arith, h.at q, find-cleared q ne, higher q)
  ]
    where
      higher : (q : Text) → above q p ≡ true → below p q ≡ false
      higher q a = elim (Bool-cases (below p q)) [
        | inl e ↦ absurd (omega (arith, above-not-below q a, below-length p q e))
        | inr e ↦ e
      ]

-- On a tree and at a relative path, insertLocked keeps the invariant.
pub insert_locked_lem :
    (p : Text) (info : Info) (t : Tree)
    → p ≢ []
    → is_abs p ≡ false
    → IsTree t
    → IsTree (insert_locked p info t)
      × ((q : Text)
          → find q (insert_locked p info t) ≡ (
              if p == q
              then some (record info { path = p })
              else if above q p
              then some (as_dir q (find q t))
              else if not info.is_dir && below p q
              then none
              else find q t))
unfolding insert_locked set_node
insert_locked_lem p info t full rel w =
    let u = prune_replaced p info t in
    let v = ensure_ancestors (length p) p u in
    let c = prune_replaced-Cleared p info t full w in
    let h = ensure_ancestors-Ensured (length p) p u (omega arith) rel c.tree in
    (stored-IsTree p info t u v full rel c h, stored-find p info t u v full rel c h)
