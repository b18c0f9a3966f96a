-- ===== src/FsTree.antt =====
-- pkg/fstree/fstree.go: the in-memory file tree, a map from relative paths to nodes.
-- Each method holds the lock, so that it is one step on the map.
pub mod Keys
pub mod Nodes
pub mod Without
pub mod Children
pub mod Delete
pub mod Attach
pub mod Ancestors
pub mod Insert
pub mod Views
pub mod Listing
use rclaude.Prelude.{
  ℕ, zero, suc, ◌+◌, ◌-◌, Bool, true, false, not, ◌&&◌, Option, none, some, List, [], ◌∷◌, ◌++◌,
  Text, length, leb, ◌==◌, text_eq, if◌then◌else◌, Result, ok, err,
}
use rclaude.Prelude.Int.{ℤ, pos}
use rclaude.Prelude.Assoc
use rclaude.Prelude.Assoc.{Assoc}
use rclaude.Paths.{slash, split_last}
use rclaude.Normalize

-- ErrNilInfo, ErrNilChange and ErrUnknownChangeType
pub data TreeError : Type 0 where
  nil_info : TreeError
  nil_change : TreeError
  unknown_change_type : TreeError

-- remotefsv1.FileInfo
pub record Info : Type 0 where
  pub path : Text
  pub size : ℤ
  pub mod_time : ℤ
  pub is_dir : Bool
  pub mode : ℕ

-- remotefsv1.ChangeType; `unspecified` stands for every other number too
pub data ChangeType : Type 0 where
  create : ChangeType
  modify : ChangeType
  delete_file : ChangeType
  rename : ChangeType
  unspecified : ChangeType

-- remotefsv1.FileChange
pub record Change : Type 0 where
  pub type : ChangeType
  pub file : Option Info
  pub old_path : Text

-- map[string]struct{}
abbrev pub Names : Type 0
Names = Assoc Text (Unit {0})

pub record Node : Type 0 where
  pub info : Info
  pub children : Option Names

abbrev pub Tree : Type 0
Tree = Assoc Text Node

abbrev pub placeholder : Text → Info
placeholder p = record { path = p; size = pos 0; mod_time = pos 0; is_dir = true; mode = 0 }

abbrev pub new_dir : Text → Node
new_dir p = record { info = placeholder p; children = some [] }

-- New
unfoldable pub new : Tree
new = ([], new_dir []) ∷ []

-- normalize
unfoldable pub normalize : Text → Text
normalize = Normalize.normalize

-- splitParent
abbrev or_root : Text → Option (Text × Text) → Text × Text
or_root p none = ([], p)
or_root p (some parts) = parts

unfoldable pub split_parent : Text → Text × Text
split_parent p = or_root p (split_last p)

abbrev pub parent : Text → Text
parent p = (split_parent p).0

abbrev pub base : Text → Text
base p = (split_parent p).1

-- joinPath
unfoldable pub join_path : Text → Text → Text
join_path parent base = if parent == [] then base else parent ++ slash ∷ base

-- cloneInfo
unfoldable pub clone_info : Info → Info
clone_info i = i

-- The names under a node: a nil map has none.
abbrev pub names : Option Names → Names
names none = []
names (some m) = m

-- if pn, ok := t.nodes[parent]; ok { ... pn.children[base] = struct{}{} }
unfoldable pub put_child : Text → Text → Tree → Tree
put_child parent base t = elim (Assoc.lookup parent t) [
  | none ↦ t
  | some n ↦
      Assoc.insert parent (record n { children = some (Assoc.insert base tt (names n.children)) }) t
]

-- if pn, ok := t.nodes[parent]; ok { delete(pn.children, base) }
abbrev pub drop_name : Text → Option Names → Option Names
drop_name base none = none
drop_name base (some m) = some (Assoc.remove base m)

unfoldable pub drop_child : Text → Text → Tree → Tree
drop_child parent base t = elim (Assoc.lookup parent t) [
  | none ↦ t
  | some n ↦ Assoc.insert parent (record n { children = drop_name base n.children }) t
]

-- promoteToDir
unfoldable pub promote_to_dir : Node → Node
promote_to_dir n = record {
  info = if n.info.is_dir then n.info else placeholder n.info.path;
  children = some (names n.children);
}

-- ensureAncestors: a parent is shorter than its path, so that the length of the path is fuel enough.
unfoldable pub ensure_ancestors : ℕ → Text → Tree → Tree
ensure_ancestors zero p t = t
ensure_ancestors (suc fuel) p t =
    let above = parent p in
    if above == [] then t else elim (Assoc.lookup above t) [
      | some n ↦ Assoc.insert above (promote_to_dir n) t
      | none ↦
          put_child (parent above) (base above)
            (Assoc.insert above (new_dir above) (ensure_ancestors fuel above t))
    ]

-- The loop of pruneChildren and deleteLocked over the children as they stand at the start: a round
-- removes its own child from them and no other.
unfoldable pub delete_each : (Text → Tree → Tree) → Text → Names → Tree → Tree
delete_each delete p [] t = t
delete_each delete p ((child, _) ∷ rest) t =
    delete_each delete p rest (delete (join_path p child) t)

-- pruneChildren
unfoldable pub prune_children : (Text → Tree → Tree) → Text → Node → Tree → Tree
prune_children delete p n t = delete_each delete p (names n.children) t

-- delete(t.nodes, p), and out of the parent's children
unfoldable pub unlink : Text → Tree → Tree
unlink p t = drop_child (parent p) (base p) (Assoc.remove p t)

-- deleteLocked: the path grows with each call, and none is longer than the longest path of the tree.
unfoldable pub delete_locked : ℕ → Text → Tree → Tree
delete_locked zero p t = t
delete_locked (suc fuel) p t = elim (Assoc.lookup p t) [
  | none ↦ t
  | some n ↦ unlink p (if n.info.is_dir then prune_children (delete_locked fuel) p n t else t)
]

abbrev longer : ℕ → ℕ → ℕ
longer a b = if leb a b then b else a

unfoldable pub longest : Tree → ℕ
longest [] = 0
longest ((p, _) ∷ t) = longer (length p) (longest t)

unfoldable pub delete_all : Tree → Text → Tree → Tree
delete_all start = delete_locked (suc (longest start))

-- Delete
unfoldable pub delete : Text → Tree → Tree
delete p t = let cleaned = normalize p in if cleaned == [] then t else delete_all t cleaned t

-- childrenMapForInfo
unfoldable pub children_map_for_info : Option Node → Info → Option Names
children_map_for_info prev info =
    if not info.is_dir
    then none
    else elim prev [ none ↦ some [] | some n ↦ some (names n.children) ]

-- insertLocked
abbrev pub must_prune : Node → Info → Bool
must_prune prev info = prev.info.is_dir && not info.is_dir

unfoldable pub prune_replaced : Text → Info → Tree → Tree
prune_replaced p info t = elim (Assoc.lookup p t) [
  | none ↦ t
  | some prev ↦ if must_prune prev info then prune_children (delete_all t) p prev t else t
]

unfoldable pub set_node : Text → Info → Tree → Tree
set_node p info t =
    let stored = record (clone_info info) { path = p } in
    let children = children_map_for_info (Assoc.lookup p t) stored in
    put_child (parent p) (base p) (Assoc.insert p (record { info = stored; children = children }) t)

unfoldable pub insert_locked : Text → Info → Tree → Tree
insert_locked p info t = set_node p info (ensure_ancestors (length p) p (prune_replaced p info t))

-- Insert: the tree after it, and the error
unfoldable pub insert : Option Info → Tree → Tree × Option TreeError
insert none t = (t, some nil_info)
insert (some info) t =
    let cleaned = normalize info.path in
    if cleaned == [] then (t, none) else (insert_locked cleaned info t, none)

-- Lookup
abbrev pub info_of : Option Node → Option Info
info_of none = none
info_of (some n) = some (clone_info n.info)

unfoldable pub lookup : Text → Tree → Option Info
lookup p t = info_of (Assoc.lookup (normalize p) t)

-- List
unfoldable pub list_names : Text → Names → Tree → List Info
list_names dir [] t = []
list_names dir ((name, _) ∷ rest) t =
    let out = list_names dir rest t in
    elim (Assoc.lookup (join_path dir name) t) [ none ↦ out | some c ↦ clone_info c.info ∷ out ]

unfoldable pub list : Text → Tree → Option (List Info)
list p t =
    let cleaned = normalize p in
    elim (Assoc.lookup cleaned t) [
      | none ↦ none
      | some n ↦ if not n.info.is_dir then none else some (list_names cleaned (names n.children) t)
    ]

-- Apply
abbrev pub delete_named : Option Info → Tree → Tree
delete_named none t = t
delete_named (some f) t = delete f.path t

unfoldable pub apply_type : ChangeType → Change → Tree → Tree × Option TreeError
apply_type create change t = insert change.file t
apply_type modify change t = insert change.file t
apply_type delete_file change t = (delete_named change.file t, none)
apply_type rename change t = insert change.file (delete change.old_path t)
apply_type unspecified change t = (t, some unknown_change_type)

unfoldable pub apply : Option Change → Tree → Tree × Option TreeError
apply none t = (t, some nil_change)
apply (some change) t = apply_type change.type change t

-- Snapshot
unfoldable pub snapshot : Tree → List Info
snapshot [] = []
snapshot ((p, n) ∷ t) = let out = snapshot t in if p == [] then out else clone_info n.info ∷ out
