-- ===== src/Tests/FsTree.antt =====
-- A small tree: a deep insertion, a file over a directory, a rename, and the theorems there.
use rclaude.Prelude.{
  ◌≡◌, refl, ◌≢◌, List, [], ◌∷◌, Text, codes, Option, none, some, true, false, text_beq,
  replace_all, starts_with, ◌==◌, text_eq, if◌then◌else◌, All,
}
use rclaude.Prelude.Int.{pos}
use rclaude.Prelude.Assoc
use rclaude.Paths.{paths_run}
use rclaude.Normalize
use rclaude.FsTree.{
  Info, Change, create, rename, new, normalize, split_parent, parent, join_path, clone_info,
  put_child, drop_child, promote_to_dir, ensure_ancestors, delete_each, prune_children, unlink,
  delete_locked, longest, delete_all, delete, children_map_for_info, prune_replaced, set_node,
  insert_locked, insert, lookup, list_names, list, apply_type, apply, placeholder,
}
use rclaude.FsTree.Keys.{below}
use rclaude.FsTree.Nodes.{IsTree, find, dir_at}
use rclaude.FsTree.Delete.{delete-find}
use rclaude.FsTree.Listing.{IsChildEntry, In, list_lem}
use rclaude.FsTree.Views.{
  run, Shows, view_run, view_apply, apply_error, root_view, run-new-Shows, apply-Shows,
}

tree : Unit {0}
unfolding paths_run Normalize.relative_form Normalize.normalize normalize new split_parent join_path
    clone_info put_child drop_child promote_to_dir ensure_ancestors delete_each prune_children
    unlink delete_locked longest delete_all delete children_map_for_info prune_replaced set_node
    insert_locked insert lookup list_names list apply_type apply text_beq replace_all starts_with
    Assoc.lookup Assoc.insert Assoc.remove
tree = tt

abbrev file : Text → Info
file p = record { path = p; size = pos 3; mod_time = pos 9; is_dir = false; mode = 0x1a4 }

abbrev change_of : Info → Option Change
change_of i = some (record { type = create; file = some i; old_path = [] })

abbrev changes : List (Option Change)
changes = change_of (file (codes "a/b/c")) ∷ change_of (file (codes "./a\\d")) ∷ []

abbrev moved : Option Change
moved = some (record { type = rename; file = some (file (codes "e")); old_path = codes "a/b" })

lookup_test : lookup (codes "/a/d") (run changes new) ≡ some (file (codes "a/d"))
unfolding tree
lookup_test = refl

ancestor_test : lookup (codes "a") (run changes new) ≡ some (placeholder (codes "a"))
unfolding tree
ancestor_test = refl

rename_test : lookup (codes "a/b/c") (apply moved (run changes new)).0 ≡ none
unfolding tree
rename_test = refl

list_test :
    list (codes "a") (run changes new) ≡ some (placeholder (codes "a/b") ∷ file (codes "a/d") ∷ [])
unfolding tree
list_test = refl

-- A file over a directory takes the subtree away.
replace_test :
    lookup (codes "a/b/c") (apply (change_of (file (codes "a"))) (run changes new)).0 ≡ none
unfolding tree
replace_test = refl

filled-IsTree : IsTree (run changes new)
filled-IsTree = (run-new-Shows changes).tree

filled-Shows : Shows (run changes new) (view_run changes root_view)
filled-Shows = run-new-Shows changes

run-new-Shows_example : Shows (run changes new) (view_run changes root_view)
run-new-Shows_example = run-new-Shows changes

apply-Shows_example :
    Shows (apply moved (run changes new)).0 (view_apply moved (view_run changes root_view))
    × ((apply moved (run changes new)).1 ≡ apply_error moved)
apply-Shows_example = apply-Shows moved (run changes new) (view_run changes root_view) filled-Shows

delete-find_example :
    IsTree (delete (codes "a/b") (run changes new))
    × ((q : Text)
        → find q (delete (codes "a/b") (run changes new)) ≡ (
            if normalize (codes "a/b") == []
            then find q (run changes new)
            else if below (normalize (codes "a/b")) q
            then none
            else find q (run changes new)))
delete-find_example = delete-find (codes "a/b") (run changes new) filled-IsTree

list_lem_example :
    (dir_at (normalize (codes "a")) (run changes new) ≡ false
      → list (codes "a") (run changes new) ≡ none)
    × (dir_at (normalize (codes "a")) (run changes new) ≡ true
        → (infos : List Info) × (list (codes "a") (run changes new) ≡ some infos)
          × All (IsChildEntry (normalize (codes "a")) (run changes new)) infos
          × ((q : Text) (i : Info)
              → q ≢ []
              → parent q ≡ normalize (codes "a")
              → find q (run changes new) ≡ some i
              → In i infos))
list_lem_example = list_lem (codes "a") (run changes new) filled-IsTree
