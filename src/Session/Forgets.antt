-- ===== src/Session/Forgets.antt =====
-- What is deleted is not answered from the cache either.
use rclaude.Prelude.{
  ℕ, ◌≡◌, refl, ◌≢◌, Bool, true, false, Option, none, some, List, [], ◌∷◌, Text, ◌==◌, text_eq,
  text_beq_iff, if◌then◌else◌, arith, ap, ◌∙◌, Bool-cases, inl, inr,
}
use rclaude.Prelude.Assoc
use rclaude.Normalize
use rclaude.ContentCache
use rclaude.ContentCache.{Cache, Signature, Entry}
use rclaude.ContentCache.Recency.{IsValid, view, find_entry, drop_entry, view_get}
use rclaude.ContentCache.Refines.{get-view, invalidate-view}
use rclaude.ContentCache.Prefix.{keep_outside, lies_under, continues_lem, invalidate_prefix-view}
use rclaude.FsTree
use rclaude.FsTree.{
  Info, Node, Tree, TreeError, nil_change, unknown_change_type, Change, ChangeType, create, modify,
  delete_file, rename, unspecified, info_of, clone_info,
}
use rclaude.FsTree.Keys.{below}
use rclaude.FsTree.Nodes.{is_some, has, dir_node, dir_at, IsTree, above-dir}
use rclaude.FsTree.Delete.{delete-find}
use rclaude.Session.Changes.{delete_path-tree}
use rclaude.Session.{Session, delete_path, invalidate_path, is_directory}

-- What the invalidation of a path leaves of the cache.
find_entry-drop :
    (p q : Text) (l : List Entry)
    → find_entry q (drop_entry p l) ≡ (if p == q then none else find_entry q l)
unfolding find_entry drop_entry
find_entry-drop p q [] = ground arith
find_entry-drop p q (e ∷ l) =
    ground
      (arith, find_entry-drop p q l, text_beq_iff e.path p, text_beq_iff e.path q, text_beq_iff p q)

find_entry-outside :
    (prefix q : Text) (l : List Entry)
    → find_entry q (keep_outside prefix l) ≡ (if lies_under prefix q then none else find_entry q l)
unfolding find_entry keep_outside
find_entry-outside prefix q [] = ground arith
find_entry-outside prefix q (e ∷ l) =
    ground
      (arith, find_entry-outside prefix q l, text_beq_iff e.path q, ap (λ r. lies_under prefix r))

get-miss :
    (m : ℕ) (c : Cache) (q : Text) (sig : Signature)
    → IsValid m c
    → find_entry (ContentCache.normalize q) (view c) ≡ none
    → (ContentCache.get c q sig).1 ≡ none
get-miss m c q sig v miss = (get-view m c v q sig).2 ∙ rw (miss, view_get) refl

abbrev norm : Text → Text
norm = Normalize.normalize

is_directory-dir_at : (p : Text) (t : Tree) → is_directory (FsTree.lookup p t) ≡ dir_at (norm p) t
unfolding FsTree.lookup FsTree.normalize
is_directory-dir_at p t = read (Assoc.lookup (norm p) t)
  where
    read : (o : Option Node) → is_directory (info_of o) ≡ dir_node o
    read none = refl
    read (some n) = unfold clone_info in refl

info_of-absent : (o : Option Node) → is_some o ≡ false → info_of o ≡ none
info_of-absent none h = refl
info_of-absent (some n) h = cc

-- At or below a directory, or at the path of a file.
miss_after :
    (m : ℕ) (p q : Text) (r : Bool) (sig : Signature) (s : Session)
    → IsValid m s.cache
    → (if r then below (norm p) (norm q) else norm p == norm q) ≡ true
    → (ContentCache.get (invalidate_path p r s).cache q sig).1 ≡ none
unfolding invalidate_path ContentCache.normalize
miss_after m p q true sig s v h =
    let (valid, same) = invalidate_prefix-view m s.cache p v in
    get-miss m (ContentCache.invalidate_prefix s.cache p) q sig valid (
      ap (find_entry (norm q)) same
      ∙ find_entry-outside (norm p) (norm q) (view s.cache)
      ∙ ground (arith, continues_lem (norm p) (norm q)))
miss_after m p q false sig s v h =
    let (valid, same) = invalidate-view m s.cache v p in
    get-miss m (ContentCache.invalidate s.cache p) q sig valid
      (ap (find_entry (norm q)) same ∙ find_entry-drop (norm p) (norm q) (view s.cache) ∙ rw h refl)

-- On a session whose tree and cache keep their invariants: what stood in the tree at or below the
-- deleted path, the root aside, is neither in the tree afterwards nor answered from the cache,
-- whatever the signature.
pub delete_path-forgets :
    (m : ℕ) (p q : Text) (sig : Signature) (s : Session)
    → IsTree s.tree
    → IsValid m s.cache
    → FsTree.normalize p ≢ []
    → below (FsTree.normalize p) (FsTree.normalize q) ≡ true
    → FsTree.lookup q s.tree ≢ none
    → (FsTree.lookup q (delete_path p s).tree ≡ none)
      × ((ContentCache.get (delete_path p s).cache q sig).1 ≡ none)
unfolding FsTree.normalize delete_path
delete_path-forgets m p q sig s w v full b stood = (gone, missed)
  where
    old : Bool
    old = is_directory (FsTree.lookup p s.tree)

    after : Session
    after = record s { tree = FsTree.delete p s.tree }

    gone : FsTree.lookup q (delete_path p s).tree ≡ none
    gone =
        ap (FsTree.lookup q) (delete_path-tree p s)
        ∙ unfold FsTree.lookup in
          ((delete-find p s.tree w).1 (norm q) ∙ ground (arith, text_beq_iff (norm p) []))

    present : has (norm q) s.tree ≡ true
    present = elim (Bool-cases (has (norm q) s.tree)) [
      | inl e ↦ e
      | inr e ↦
          absurd (stood (unfold FsTree.lookup in info_of-absent (Assoc.lookup (norm q) s.tree) e))
    ]

    missed : (ContentCache.get (delete_path p s).cache q sig).1 ≡ none
    missed = miss_after m p q old sig after v (elim (Bool-cases (norm q == norm p)) [
      | inl same ↦ ground (arith, text_beq_iff (norm q) (norm p), text_beq_iff (norm p) (norm q))
      | inr other ↦
          let dir : dir_at (norm p) s.tree ≡ true =
            above-dir s.tree (norm p) (norm q) w full b other present in
          let recursive : old ≡ true = is_directory-dir_at p s.tree ∙ dir in rw recursive b
    ])
