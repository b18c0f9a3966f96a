-- ===== src/Session/Changes.antt =====
-- Changes of the daemon's workspace: the tree, the errors, and what the cache forgets.
use rclaude.Prelude.{
  ◌≡◌, refl, Bool, true, false, Option, none, some, [], Text, text_eq, text_beq, replace_all, ◌∙◌,
}
use rclaude.Normalize
use rclaude.FsTree
use rclaude.FsTree.{
  Info, Node, Tree, TreeError, nil_change, unknown_change_type, Change, ChangeType, create, modify,
  delete_file, rename, unspecified, info_of, clone_info,
}
use rclaude.Session.{
  after_insert, Session, SessionError, apply_failed, apply_change, change_by_type, apply_insert,
  delete_path, apply_rename_change, invalidate_path, invalidate_for_info, is_directory, path_of,
}

abbrev pub failed_as : Option TreeError → Option SessionError
failed_as none = none
failed_as (some e) = some (apply_failed e)

invalidate_path-tree : (p : Text) (r : Bool) (s : Session) → (invalidate_path p r s).tree ≡ s.tree
unfolding invalidate_path
invalidate_path-tree p true s = refl
invalidate_path-tree p false s = refl

invalidate_for_info-tree : (i : Option Info) (s : Session) → (invalidate_for_info i s).tree ≡ s.tree
unfolding invalidate_for_info
invalidate_for_info-tree none s = refl
invalidate_for_info-tree (some i) s = invalidate_path-tree i.path i.is_dir s

delete_nil : (t : Tree) → FsTree.delete [] t ≡ t
unfolding FsTree.delete FsTree.normalize Normalize.normalize Normalize.relative_form replace_all
    text_beq
delete_nil t = refl

after_insert-agrees :
    (invalidate : Session → Session) (s : Session) (r : Tree × Option TreeError)
    → ((t : Session) → (invalidate t).tree ≡ t.tree)
    → ((after_insert invalidate s r).0.tree ≡ r.0)
      × ((after_insert invalidate s r).1 ≡ failed_as r.1)
after_insert-agrees invalidate s (t, none) h = (h (record s { tree = t }), refl)
after_insert-agrees invalidate s (t, some e) h = (refl, refl)

apply_insert-agrees :
    (c : Change) (s : Session)
    → ((apply_insert c s).0.tree ≡ (FsTree.insert c.file s.tree).0)
      × ((apply_insert c s).1 ≡ failed_as (FsTree.insert c.file s.tree).1)
unfolding apply_insert
apply_insert-agrees c s =
    after_insert-agrees (invalidate_for_info c.file) s (FsTree.insert c.file s.tree)
      (invalidate_for_info-tree c.file)

pub delete_path-tree : (p : Text) (s : Session) → (delete_path p s).tree ≡ FsTree.delete p s.tree
unfolding delete_path
delete_path-tree p s =
    invalidate_path-tree p (is_directory (FsTree.lookup p s.tree))
      (record s { tree = FsTree.delete p s.tree })

change_by_type-agrees :
    (type : ChangeType) (c : Change) (s : Session)
    → ((change_by_type type c s).0.tree ≡ (FsTree.apply_type type c s.tree).0)
      × ((change_by_type type c s).1 ≡ failed_as (FsTree.apply_type type c s.tree).1)
unfolding change_by_type FsTree.apply_type
change_by_type-agrees create c s = apply_insert-agrees c s
change_by_type-agrees modify c s = apply_insert-agrees c s
change_by_type-agrees delete_file c s = (named c.file, refl)
  where
    named : (f : Option Info) → (delete_path (path_of f) s).tree ≡ FsTree.delete_named f s.tree
    named none = delete_path-tree [] s ∙ delete_nil s.tree
    named (some f) = delete_path-tree f.path s
change_by_type-agrees rename c s =
    let old = is_directory (FsTree.lookup c.old_path s.tree) in
    unfold apply_rename_change in
    after_insert-agrees (λ t. invalidate_for_info c.file (invalidate_path c.old_path old t)) s
      (FsTree.insert c.file (FsTree.delete c.old_path s.tree))
      (λ t.
        invalidate_for_info-tree c.file (invalidate_path c.old_path old t)
        ∙ invalidate_path-tree c.old_path old t)
change_by_type-agrees unspecified c s = (refl, refl)

-- applyChange changes the tree of the session as Apply of the tree does, and fails when it does,
-- with its error wrapped.
pub apply_change-agrees :
    (c : Option Change) (s : Session)
    → ((apply_change c s).0.tree ≡ (FsTree.apply c s.tree).0)
      × ((apply_change c s).1 ≡ failed_as (FsTree.apply c s.tree).1)
unfolding apply_change FsTree.apply
apply_change-agrees none s = (refl, refl)
apply_change-agrees (some c) s = change_by_type-agrees c.type c s
