-- ===== src/FsTree/Views.antt =====
-- The tree as a map from paths to entries: what each change does to it.
use rclaude.Prelude.{
  starts_with, ◌≡◌, refl, ◌≢◌, false, ◌&&◌, not, Option, none, some, List, [], ◌∷◌, Text, ◌==◌,
  text_eq, text_beq_iff, if◌then◌else◌, arith, ap, ◌∙◌, Bool-cases, inl, inr,
}
use rclaude.Prelude.Assoc
use rclaude.Paths.{is_abs}
use rclaude.Normalize.Forms.{is_abs-normalize}
use rclaude.FsTree.{
  Info, Tree, TreeError, nil_info, nil_change, unknown_change_type, Change, ChangeType, create,
  modify, delete_file, rename, unspecified, placeholder, new, normalize, delete, delete_named,
  insert, apply, apply_type, clone_info,
}
use rclaude.FsTree.Keys.{below}
use rclaude.FsTree.Nodes.{find, IsTree}
use rclaude.FsTree.Ancestors.{above, as_dir}
use rclaude.FsTree.Delete.{delete-find}
use rclaude.FsTree.Insert.{insert_locked_lem}

abbrev pub View : Type 0
View = Text → Option Info

abbrev pub view_delete : Text → View → View
view_delete p v q = if normalize p == [] then v q else if below (normalize p) q then none else v q

abbrev pub view_insert : Option Info → View → View
view_insert none v q = v q
view_insert (some info) v q =
    if normalize info.path == []
    then v q
    else if normalize info.path == q
    then some (record info { path = normalize info.path })
    else if above q (normalize info.path)
    then some (as_dir q (v q))
    else if not info.is_dir && below (normalize info.path) q
    then none
    else v q

abbrev pub insert_error : Option Info → Option TreeError
insert_error none = some nil_info
insert_error (some info) = none

abbrev pub view_delete_named : Option Info → View → View
view_delete_named none v = v
view_delete_named (some f) v = view_delete f.path v

abbrev pub view_change : ChangeType → Change → View → View
view_change create change v = view_insert change.file v
view_change modify change v = view_insert change.file v
view_change delete_file change v = view_delete_named change.file v
view_change rename change v = view_insert change.file (view_delete change.old_path v)
view_change unspecified change v = v

abbrev pub change_error : ChangeType → Change → Option TreeError
change_error create change = insert_error change.file
change_error modify change = insert_error change.file
change_error delete_file change = none
change_error rename change = insert_error change.file
change_error unspecified change = some unknown_change_type

abbrev pub view_apply : Option Change → View → View
view_apply none v = v
view_apply (some change) v = view_change change.type change v

abbrev pub apply_error : Option Change → Option TreeError
apply_error none = some nil_change
apply_error (some change) = change_error change.type change

-- A tree that stands for a view.
pub record Shows (t : Tree) (v : View) : Type 0 where
  pub tree : IsTree t
  pub same : (q : Text) → find q t ≡ v q

insert-Shows :
    (file : Option Info) (t : Tree) (v : View)
    → Shows t v
    → Shows (insert file t).0 (view_insert file v) × ((insert file t).1 ≡ insert_error file)
unfolding insert
insert-Shows none t v h = (h, refl)
insert-Shows (some info) t v h = elim (Bool-cases (normalize info.path == [])) [
  | inl root ↦ rw root (record { tree = h.tree; same = λ q. rw root (h.same q) }, refl)
  | inr inner ↦
      let c = normalize info.path in
      let full : c ≢ [] = λ e. absurd (ground (arith, text_beq_iff c [])) in
      let done = insert_locked_lem c info t full (relative info.path) h.tree in
      rw inner (
        record { tree = done.0; same = λ q. rw inner (done.1 q ∙ ap (placed info q) (h.same q)) },
        refl,
      )
]
  where
    relative : (p : Text) → is_abs (normalize p) ≡ false
    relative p = unfold normalize in is_abs-normalize p

    placed : Info → Text → Option Info → Option Info
    placed info q old =
        if normalize info.path == q
        then some (record info { path = normalize info.path })
        else if above q (normalize info.path)
        then some (as_dir q old)
        else if not info.is_dir && below (normalize info.path) q
        then none
        else old

delete-Shows : (p : Text) (t : Tree) (v : View) → Shows t v → Shows (delete p t) (view_delete p v)
delete-Shows p t v h =
    let done = delete-find p t h.tree in
    record { tree = done.0; same = λ q. done.1 q ∙ ground (arith, h.same q) }

apply_type-Shows :
    (type : ChangeType) (change : Change) (t : Tree) (v : View)
    → Shows t v
    → Shows (apply_type type change t).0 (view_change type change v)
      × ((apply_type type change t).1 ≡ change_error type change)
unfolding apply_type
apply_type-Shows create change t v h = insert-Shows change.file t v h
apply_type-Shows modify change t v h = insert-Shows change.file t v h
apply_type-Shows delete_file change t v h = (named change.file, refl)
  where
    named : (f : Option Info) → Shows (delete_named f t) (view_delete_named f v)
    named none = h
    named (some f) = delete-Shows f.path t v h
apply_type-Shows rename change t v h =
    insert-Shows change.file (delete change.old_path t) (view_delete change.old_path v)
      (delete-Shows change.old_path t v h)
apply_type-Shows unspecified change t v h = (h, refl)

-- On a tree that keeps the invariant and shows a view, Apply keeps the invariant, its tree shows
-- the view after the change, and it gives the error of a nil change, an unknown type or a nil
-- file.
pub apply-Shows :
    (change : Option Change) (t : Tree) (v : View)
    → Shows t v
    → Shows (apply change t).0 (view_apply change v) × ((apply change t).1 ≡ apply_error change)
unfolding apply
apply-Shows none t v h = (h, refl)
apply-Shows (some change) t v h = apply_type-Shows change.type change t v h

-- What a tree with no entry but the root's shows.
abbrev pub root_view : View
root_view q = if [] == q then some (placeholder []) else none

new-Shows : Shows new root_view
unfolding new clone_info Assoc.lookup
new-Shows = record {
  tree = record {
    root = ground (arith, text_beq_iff [] []);
    linked = λ q nq e. absurd (ground (arith, text_beq_iff [] q));
    relative = λ q e. rw (← (text_beq_iff [] q).0 (ground arith)) nil_relative;
    keyed = λ q i e. ground (arith, text_beq_iff [] q);
    plain = λ p name e. absurd (ground arith);
  };
  same = λ q. ground arith;
}
  where
    nil_relative : is_abs [] ≡ false
    nil_relative = unfold is_abs starts_with in refl

abbrev pub run : List (Option Change) → Tree → Tree
run [] t = t
run (change ∷ changes) t = run changes (apply change t).0

abbrev pub view_run : List (Option Change) → View → View
view_run [] v = v
view_run (change ∷ changes) v = view_run changes (view_apply change v)

run-Shows :
    (changes : List (Option Change)) (t : Tree) (v : View)
    → Shows t v
    → Shows (run changes t) (view_run changes v)
run-Shows [] t v h = h
run-Shows (change ∷ changes) t v h =
    run-Shows changes (apply change t).0 (view_apply change v) (apply-Shows change t v h).0

-- From the new tree, any run of Apply leaves a tree that keeps the invariant and whose entries
-- are those that the changes, one after the other, leave of the view with the root alone.
pub run-new-Shows :
    (changes : List (Option Change)) → Shows (run changes new) (view_run changes root_view)
run-new-Shows changes = run-Shows changes new root_view new-Shows
