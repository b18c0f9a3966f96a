-- ===== src/FsTree/Ancestors.antt =====
-- ensureAncestors makes every path above the given one a directory and changes nothing else.
use rclaude.Prelude.{
  ℕ, zero, suc, ◌≡◌, refl, ◌≢◌, Bool, true, false, ◌&&◌, ◌||◌, not, Option, none, some, [], ◌∷◌,
  Text, length, ◌≤◌, ◌==◌, text_eq, text_beq_iff, if◌then◌else◌, arith, ap, ◌∙◌, sym, Option-cases,
  Bool-cases, beq_refl, inl, inr,
}
use rclaude.Prelude.Assoc
use rclaude.Paths.{is_abs, split_last}
use rclaude.FsTree.{
  Info, Node, Tree, parent, base, split_parent, placeholder, new_dir, info_of, clone_info,
  promote_to_dir, ensure_ancestors,
}
use rclaude.FsTree.Keys.{
  below, below-parent, below_nil, below-length, below_refl, length-parent, is_abs-parent,
}
use rclaude.FsTree.Nodes.{
  find, is_some, has, dir_node, dir_at, child_node, child, IsTree, has-dir_at, above-dir,
}
use rclaude.FsTree.Attach.{attach, find-attach, attach-IsTree}

-- `q` is a proper ancestor of `p`, the root aside.
abbrev pub above : Text → Text → Bool
above q p = not (q == []) && below q (parent p)

-- What an ancestor becomes.
abbrev pub as_dir : Text → Option Info → Info
as_dir q none = placeholder q
as_dir q (some i) = if i.is_dir then i else placeholder i.path

pub record Ensured (p : Text) (t u : Tree) : Type 0 where
  pub tree : IsTree u
  pub dir : dir_at (parent p) u ≡ true
  pub at : (q : Text) → find q u ≡ (if above q p then some (as_dir q (find q t)) else find q t)

pub dir_at-find : (q : Text) (t : Tree) (i : Info) → find q t ≡ some i → dir_at q t ≡ i.is_dir
dir_at-find q t i = read (Assoc.lookup q t)
  where
    read : (o : Option Node) → info_of o ≡ some i → dir_node o ≡ i.is_dir
    read none e = absurd (ground arith)
    read (some n) e = unfold clone_info in ground arith

pub has-find : (q : Text) (t : Tree) → has q t ≡ is_some (find q t)
has-find q t = read (Assoc.lookup q t)
  where
    read : (o : Option Node) → is_some o ≡ is_some (info_of o)
    read none = refl
    read (some n) = refl

-- A directory stays as it is.
pub as_dir_of_dir :
    (q : Text) (t : Tree) → dir_at q t ≡ true → some (as_dir q (find q t)) ≡ find q t
as_dir_of_dir q t = read (Assoc.lookup q t)
  where
    read : (o : Option Node) → dir_node o ≡ true → some (as_dir q (info_of o)) ≡ info_of o
    read none h = absurd (ground arith)
    read (some n) h = unfold clone_info in rw h

module _ (a : Text) (n : Node) (t : Tree) (full : a ≢ []) (w : IsTree t)
    (there : Assoc.lookup a t ≡ some n) where
  lookup-promote :
      (q : Text)
      → Assoc.lookup q (Assoc.insert a (promote_to_dir n) t)
        ≡ (if a == q then some (promote_to_dir n) else Assoc.lookup q t)
  lookup-promote q = Assoc.lookup-insert a q (promote_to_dir n) t

  has-promote : (q : Text) → has q (Assoc.insert a (promote_to_dir n) t) ≡ has q t
  has-promote q = ap is_some (lookup-promote q) ∙ ground (arith, text_beq_iff a q, ap is_some there)

  dir_at-promote :
      (q : Text) → dir_at q (Assoc.insert a (promote_to_dir n) t) ≡ (a == q || dir_at q t)
  unfolding promote_to_dir
  dir_at-promote q = elim (Bool-cases (a == q)) [
    | inl same ↦
        rw (← (text_beq_iff a q).0 same)
          (ap dir_node (lookup-promote a) ∙ rw (beq_refl a) (ground arith))
    | inr other ↦ ap dir_node (lookup-promote q) ∙ rw other
  ]

  child-promote :
      (q name : Text) → child q name (Assoc.insert a (promote_to_dir n) t) ≡ child q name t
  unfolding promote_to_dir
  child-promote q name = elim (Bool-cases (a == q)) [
    | inl same ↦ rw (← (text_beq_iff a q).0 same) (
        ap (child_node name) (lookup-promote a)
        ∙ rw (beq_refl a) (sym (ap (child_node name) there)))
    | inr other ↦ ap (child_node name) (lookup-promote q) ∙ rw other
  ]

  find-promote :
      (q : Text)
      → find q (Assoc.insert a (promote_to_dir n) t)
        ≡ (if a == q then some (as_dir q (find q t)) else find q t)
  unfolding promote_to_dir clone_info
  find-promote q = elim (Bool-cases (a == q)) [
    | inl same ↦ rw (← (text_beq_iff a q).0 same) (
        ap info_of (lookup-promote a)
        ∙ rw (beq_refl a) (ap (λ o. some (as_dir a (info_of o))) (sym there)))
    | inr other ↦ ap info_of (lookup-promote q) ∙ rw other
  ]

  promote-IsTree : IsTree (Assoc.insert a (promote_to_dir n) t)
  promote-IsTree = record {
    root = ground (arith, dir_at-promote [], w.root);
    linked = λ q nq e. ground (
      arith,
      w.linked q nq,
      has-promote q,
      dir_at-promote (parent q),
      child-promote (parent q) (base q),
    );
    relative = λ q e. w.relative q (sym (has-promote q) ∙ e);
    keyed = λ q i e. keyed_promote q i e;
    plain = λ q name e. w.plain q name (sym (child-promote q name) ∙ e);
  }
    where
      keyed_dir :
          (q : Text) (o : Option Info)
          → ((i : Info) → o ≡ some i → i.path ≡ q)
          → (as_dir q o).path ≡ q
      keyed_dir q none h = refl
      keyed_dir q (some i) h = ground (arith, h i refl)

      keyed_promote :
          (q : Text) (i : Info) → find q (Assoc.insert a (promote_to_dir n) t) ≡ some i → i.path ≡ q
      keyed_promote q i e =
          ground (arith, find-promote q, w.keyed q i, keyed_dir q (find q t) (w.keyed q))

as_dir-is_dir : (q : Text) (o : Option Info) → (as_dir q o).is_dir ≡ true
as_dir-is_dir q none = refl
as_dir-is_dir q (some i) = ground arith

above_root : (q p : Text) → parent p ≡ [] → above q p ≡ false
above_root q p top = elim (Bool-cases (q == [])) [
  | inl root ↦ rw root
  | inr full ↦
      rw full (ap (below q) top ∙ below_nil q (λ e. absurd (ground (arith, text_beq_iff q []))))
]

root-Ensured : (p : Text) (t : Tree) → parent p ≡ [] → IsTree t → Ensured p t t
root-Ensured p t top w = record { tree = w; dir = rw top w.root; at = λ q. rw (above_root q p top) }

found-Ensured :
    (p : Text) (t : Tree) (n : Node)
    → parent p ≢ []
    → IsTree t
    → Assoc.lookup (parent p) t ≡ some n
    → Ensured p t (Assoc.insert (parent p) (promote_to_dir n) t)
found-Ensured p t n deep w there = record {
  tree = promote-IsTree (parent p) n t deep w there;
  dir = dir_at-promote (parent p) n t deep w there (parent p) ∙ rw (beq_refl (parent p));
  at = λ q. find-promote (parent p) n t deep w there q ∙ split q;
}
  where
    split :
        (q : Text)
        → (if parent p == q then some (as_dir q (find q t)) else find q t)
          ≡ (if above q p then some (as_dir q (find q t)) else find q t)
    split q = elim (Bool-cases (parent p == q)) [
      | inl same ↦
          let at : parent p ≡ q = (text_beq_iff (parent p) q).0 same in
          ground (arith, text_beq_iff q [], below_refl (parent p), ap (λ r. below r (parent p)) at)
      | inr other ↦ elim (Bool-cases (above q p)) [
        | inl higher ↦
            let nonempty : q ≢ [] = λ e. absurd (ground (arith, text_beq_iff q [])) in
            let ne : (parent p == q) ≡ false = other in
            let same : some (as_dir q (find q t)) ≡ find q t =
              as_dir_of_dir q t
                (above-dir t q (parent p) w nonempty (ground arith) ne (ap is_some there)) in
            ground arith
        | inr apart ↦ ground arith
      ]
    ]

parent_nil : parent [] ≡ []
unfolding split_parent split_last
parent_nil = refl

not_nil : (p : Text) → parent p ≢ [] → p ≢ []
not_nil p deep e = deep (ap (λ q. parent q) e ∙ parent_nil)

module _ (a : Text) (t u : Tree) (full : a ≢ []) (rel : is_abs a ≡ false)
    (absent : Assoc.lookup a t ≡ none) (h : Ensured a t u) where
  not-above_self : above a a ≡ false
  not-above_self = elim (Bool-cases (below a (parent a))) [
    | inl e ↦ absurd (omega (arith, below-length a (parent a) e, length-parent a full))
    | inr e ↦ rw e (ground arith)
  ]

  still_absent : has a u ≡ false
  still_absent = has-find a u ∙ ground (arith, h.at a, not-above_self, ap info_of absent)

  orphan : (q : Text) → q ≢ [] → has q u ≡ true → parent q ≢ a
  orphan q nq e up = absurd (
      ground (
        arith,
        has-dir_at (parent q) u (h.tree.linked q nq e).0,
        still_absent,
        ap (λ r. has r u) up,
      ))

  attached-IsTree : IsTree (attach a (new_dir a) u)
  attached-IsTree =
      attach-IsTree a (new_dir a) u full rel h.tree h.dir refl
        (λ name e. absurd (ground (arith, Assoc.lookup-nil {V = Unit {0}} name)))
        (λ q nq e up. absurd (orphan q nq e up))

  attached-find :
      (q : Text)
      → find q (attach a (new_dir a) u) ≡ (if a == q then some (placeholder a) else find q u)
  attached-find = find-attach a (new_dir a) u full rel h.tree h.dir

absent-Ensured :
    (p : Text) (t u : Tree)
    → parent p ≢ []
    → is_abs p ≡ false
    → Assoc.lookup (parent p) t ≡ none
    → Ensured (parent p) t u
    → Ensured p t (attach (parent p) (new_dir (parent p)) u)
absent-Ensured p t u deep rel absent h =
    let a = parent p in
    let arel = is_abs-parent p rel in
    let find_after = attached-find a t u deep arel absent h in
    record {
      tree = attached-IsTree a t u deep arel absent h;
      dir = dir_at-find a (attach a (new_dir a) u) (placeholder a) (find_after a ∙ rw (beq_refl a));
      at = λ q. find_after q ∙ elim (Bool-cases (a == q)) [
        | inl same ↦
            let at : a ≡ q = (text_beq_iff a q).0 same in
            let gone : find q t ≡ none = ap (λ r. find r t) (sym at) ∙ ap info_of absent in
            let self : above a p ≡ true = ground (arith, below_refl a, text_beq_iff a []) in
            let up : above q p ≡ true = ap (λ r. above r p) (sym at) ∙ self in
            ground (arith, ap (λ r. placeholder r) at)
        | inr other ↦ ground (arith, h.at q, below-parent q a, text_beq_iff q [])
      ];
    }

pub ensure_ancestors-Ensured :
    (fuel : ℕ) (p : Text) (t : Tree)
    → length p ≤ fuel
    → is_abs p ≡ false
    → IsTree t
    → Ensured p t (ensure_ancestors fuel p t)
unfolding ensure_ancestors
ensure_ancestors-Ensured zero [] t l rel w = root-Ensured [] t parent_nil w
ensure_ancestors-Ensured zero (c ∷ p) t l rel w = elim l [ ]
ensure_ancestors-Ensured (suc fuel) p t l rel w = elim (Bool-cases (parent p == [])) [
  | inl top ↦ rw top (root-Ensured p t ((text_beq_iff (parent p) []).0 top) w)
  | inr deep ↦
      let inner : parent p ≢ [] = λ e. absurd (ground (arith, text_beq_iff (parent p) [])) in
      elim (Option-cases (Assoc.lookup (parent p) t)) [
        | inr (n, there) ↦
            rw (there, ensure_ancestors) (rw deep (found-Ensured p t n inner w there))
        | inl absent ↦
            rw (absent, ensure_ancestors)
              (rw deep (
                absent-Ensured p t (ensure_ancestors fuel (parent p) t) inner rel absent (
                  ensure_ancestors-Ensured fuel (parent p) t
                    (omega (arith, length-parent p (not_nil p inner))) (is_abs-parent p rel) w)))
      ]
]
