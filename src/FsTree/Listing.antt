-- ===== src/FsTree/Listing.antt =====
-- List answers the direct children of a directory.
use rclaude.Prelude.{
  ◌≡◌, ◌≢◌, true, false, none, some, List, [], ◌∷◌, Text, ◌==◌, text_eq, text_beq_iff, arith, ap,
  ◌∙◌, sym, Bool-cases, Option-cases, inl, inr, All, ◌⊎◌,
}
use rclaude.Prelude.Assoc
use rclaude.FsTree.{
  Info, Names, Tree, parent, base, join_path, names, normalize, list_names, list, info_of,
  clone_info,
}
use rclaude.FsTree.Keys.{join_path-parent, split_parent-join_path}
use rclaude.FsTree.Nodes.{find, is_some, has, dir_node, dir_at, child_node, child, IsTree}
use rclaude.FsTree.Ancestors.{has-find}
use rclaude.FsTree.Children.{AllPlain, plain_names}

abbrev pub In : Info → List Info → Type 0
In x [] = ⊥
In x (y ∷ ys) = (y ≡ x) ⊎ In x ys

-- Every listed entry stands in the tree at its path, directly below `dir`.
abbrev pub IsChildEntry : Text → Tree → Info → Type 0
IsChildEntry dir t i = (find i.path t ≡ some i) × (parent i.path ≡ dir)

module _ (dir : Text) (t : Tree) (w : IsTree t) where
  list_names_sound : (m : Names) → AllPlain m → All (IsChildEntry dir t) (list_names dir m t)
  unfolding list_names clone_info
  list_names_sound [] h = tt
  list_names_sound ((name, _) ∷ rest) (plain, plains) =
      elim (Option-cases (Assoc.lookup (join_path dir name) t)) [
        | inl absent ↦ rw (absent, list_names) (list_names_sound rest plains)
        | inr (c, there) ↦
            let at : c.info.path ≡ join_path dir name =
              w.keyed (join_path dir name) c.info (ap info_of there) in
            rw (there, list_names)
              (
                (
                  ap (λ r. find r t) at ∙ ap info_of there,
                  ap (λ r. parent r) at ∙ ap (λ r. r.0) (split_parent-join_path dir name plain),
                ),
                list_names_sound rest plains,
              )
      ]

  list_names_complete :
      (m : Names) (name : Text) (i : Info)
      → is_some (Assoc.lookup name m) ≡ true
      → find (join_path dir name) t ≡ some i
      → In i (list_names dir m t)
  unfolding list_names clone_info
  list_names_complete [] name i h e = absurd (ground (arith, Assoc.lookup-nil {V = Unit {0}} name))
  list_names_complete ((other, _) ∷ rest) name i h e =
      elim (Option-cases (Assoc.lookup (join_path dir other) t)) [
        | inl absent ↦ rw (absent, list_names) (list_names_complete rest name i (later absent) e)
        | inr (c, there) ↦
            rw (there, list_names)
              (elim (Bool-cases (other == name)) [
                | inl same ↦
                    let at : join_path dir name ≡ join_path dir other =
                      ap (join_path dir) (sym ((text_beq_iff other name).0 same)) in
                    inl (some-injective (sym (ap info_of there) ∙ ap (λ r. find r t) (sym at) ∙ e))
                | inr differs ↦ inr (list_names_complete rest name i (sym (next differs) ∙ h) e)
              ])
      ]
    where
      next :
          (other == name) ≡ false
          → is_some (Assoc.lookup name ((other, tt) ∷ rest)) ≡ is_some (Assoc.lookup name rest)
      next d = unfold Assoc.lookup in rw d

      some-injective : {a b : Info} → some a ≡ some b → a ≡ b
      some-injective h = cc

      later : Assoc.lookup (join_path dir other) t ≡ none → is_some (Assoc.lookup name rest) ≡ true
      later absent = elim (Bool-cases (other == name)) [
        | inl same ↦
            let at : find (join_path dir other) t ≡ some i =
              ap (λ r. find (join_path dir r) t) ((text_beq_iff other name).0 same) ∙ e in
            absurd (ground (arith, ap info_of absent))
        | inr differs ↦ sym (next differs) ∙ h
      ]

-- On a tree, List answers nothing unless the path is a directory; for a directory it answers
-- entries that stand directly below it, and every entry that does is among them.
pub list_lem :
    (p : Text) (t : Tree)
    → IsTree t
    → (dir_at (normalize p) t ≡ false → list p t ≡ none)
      × (dir_at (normalize p) t ≡ true
          → (infos : List Info) × (list p t ≡ some infos)
            × All (IsChildEntry (normalize p) t) infos
            × ((q : Text) (i : Info)
                → q ≢ []
                → parent q ≡ normalize p
                → find q t ≡ some i
                → In i infos))
unfolding list
list_lem p t w = elim (Option-cases (Assoc.lookup (normalize p) t)) [
  | inl absent ↦ (λ _. rw (absent, list), λ h. absurd (ground (arith, ap dir_node absent)))
  | inr (n, there) ↦ (
    λ file.
        let plain_file : n.info.is_dir ≡ false = sym (ap dir_node there) ∙ file in
        rw (there, list) (simp plain_file),
    λ dir.
        let is_dir : n.info.is_dir ≡ true = sym (ap dir_node there) ∙ dir in
        (
          list_names (normalize p) (names n.children) t,
          rw (there, list) (simp is_dir),
          list_names_sound (normalize p) t w (names n.children) (
              plain_names (names n.children)
                (λ name h. w.plain (normalize p) name (ap (child_node name) there ∙ h))),
          λ q i nq up e.
              let self : join_path (normalize p) (base q) ≡ q =
                ap (λ r. join_path r (base q)) (sym up)
                ∙ join_path-parent q (w.relative q (has-some q i e)) in
              let link = (w.linked q nq (has-some q i e)).1 in
              list_names_complete (normalize p) t w (names n.children) (base q) i
                (sym (ap (child_node (base q)) there)
                  ∙ (ap (λ r. child r (base q) t) (sym up) ∙ link))
                (ap (λ r. find r t) self ∙ e),
        ),
  )
]
  where
    has-some : (q : Text) (i : Info) → find q t ≡ some i → has q t ≡ true
    has-some q i e = has-find q t ∙ ap is_some e
