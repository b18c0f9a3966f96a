-- ===== src/FsTree/Nodes.antt =====
-- What the tree answers at a path, how each edit of the map changes it, and the invariant.
use rclaude.Prelude.{
  ℕ, ◌≡◌, refl, ◌≢◌, Bool, true, false, Option, none, some, [], Text, length, ◌<◌, ◌==◌, text_eq,
  text_beq_iff, if◌then◌else◌, arith, ap, ◌∙◌, Option-cases, Bool-cases, inl, inr, ◌⊎◌, suc, zero,
}
use rclaude.Prelude.Assoc
use rclaude.Paths.{is_abs}
use rclaude.Paths.Split.{NoSlash}
use rclaude.FsTree.{
  Info, Node, Names, Tree, parent, base, put_child, drop_child, drop_name, names, unlink, info_of,
}
use rclaude.FsTree.Keys.{below, below-parent, below_nil, length-parent}

-- The entry at a path of the map.
abbrev pub find : Text → Tree → Option Info
find p t = info_of (Assoc.lookup p t)

abbrev pub is_some {ℓ} : {A : Type ℓ} → Option A → Bool
is_some none = false
is_some (some _) = true

abbrev pub has : Text → Tree → Bool
has p t = is_some (Assoc.lookup p t)

abbrev pub dir_node : Option Node → Bool
dir_node none = false
dir_node (some n) = n.info.is_dir

abbrev pub dir_at : Text → Tree → Bool
dir_at p t = dir_node (Assoc.lookup p t)

abbrev pub child_node : Text → Option Node → Bool
child_node name none = false
child_node name (some n) = is_some (Assoc.lookup name (names n.children))

-- `name` is registered among the children of `p`.
abbrev pub child : Text → Text → Tree → Bool
child p name t = child_node name (Assoc.lookup p t)

-- Every path but the root's stands in a directory that has its name among its children.
pub record IsTree (t : Tree) : Type 0 where
  pub root : dir_at [] t ≡ true
  pub linked :
      (q : Text)
      → q ≢ []
      → has q t ≡ true
      → (dir_at (parent q) t ≡ true) × (child (parent q) (base q) t ≡ true)
  pub relative : (q : Text) → has q t ≡ true → is_abs q ≡ false
  pub keyed : (q : Text) (i : Info) → find q t ≡ some i → i.path ≡ q
  pub plain : (p name : Text) → child p name t ≡ true → NoSlash name

abbrev pub drop_at : Text → Option Node → Option Node
drop_at b none = none
drop_at b (some n) = some (record n { children = drop_name b n.children })

abbrev pub put_at : Text → Option Node → Option Node
put_at b none = none
put_at b (some n) = some (record n { children = some (Assoc.insert b tt (names n.children)) })

pub lookup-drop_child :
    (a b q : Text) (t : Tree)
    → Assoc.lookup q (drop_child a b t)
      ≡ (if a == q then drop_at b (Assoc.lookup q t) else Assoc.lookup q t)
unfolding drop_child
lookup-drop_child a b q t = elim (Option-cases (Assoc.lookup a t)) [
  | inl e ↦ rw (e, drop_child) (ground (arith, text_beq_iff a q))
  | inr (n, e) ↦
      rw (e, drop_child)
        (Assoc.lookup-insert a q (record n { children = drop_name b n.children }) t
          ∙ ground (arith, text_beq_iff a q))
]

pub lookup-put_child :
    (a b q : Text) (t : Tree)
    → Assoc.lookup q (put_child a b t)
      ≡ (if a == q then put_at b (Assoc.lookup q t) else Assoc.lookup q t)
unfolding put_child
lookup-put_child a b q t = elim (Option-cases (Assoc.lookup a t)) [
  | inl e ↦ rw (e, put_child) (ground (arith, text_beq_iff a q))
  | inr (n, e) ↦
      rw (e, put_child)
        (Assoc.lookup-insert a q
            (record n { children = some (Assoc.insert b tt (names n.children)) }) t
          ∙ ground (arith, text_beq_iff a q))
]

pub child-drop_at :
    (b c : Text) (o : Option Node)
    → child_node c (drop_at b o) ≡ (if b == c then false else child_node c o)
child-drop_at b c none = ground arith
child-drop_at b c (some n) = dropped n.children
  where
    dropped :
        (o : Option Names)
        → is_some (Assoc.lookup c (names (drop_name b o)))
          ≡ (if b == c then false else is_some (Assoc.lookup c (names o)))
    dropped none = ground (arith, Assoc.lookup-nil {V = Unit {0}} c)
    dropped (some m) = ground (arith, Assoc.lookup-remove b c m)

pub child-put_at :
    (b c : Text) (o : Option Node)
    → child_node c (put_at b o) ≡ (if b == c then is_some o else child_node c o)
child-put_at b c none = ground arith
child-put_at b c (some n) = ground (arith, Assoc.lookup-insert b c tt (names n.children))

-- Deletion of a node and of its name in the parent.
pub lookup-unlink :
    (p q : Text) (t : Tree)
    → Assoc.lookup q (unlink p t) ≡ (
        if p == q
        then none
        else if parent p == q
        then drop_at (base p) (Assoc.lookup q t)
        else Assoc.lookup q t)
unfolding unlink
lookup-unlink p q t =
    lookup-drop_child (parent p) (base p) q (Assoc.remove p t)
    ∙ ground (arith, Assoc.lookup-remove p q t)

pub has-dir_at : (p : Text) (t : Tree) → dir_at p t ≡ true → has p t ≡ true
has-dir_at p t h = from_node (Assoc.lookup p t) h
  where
    from_node : (o : Option Node) → dir_node o ≡ true → is_some o ≡ true
    from_node none h = h
    from_node (some n) h = refl

pub not-nil_below : (p q : Text) → p ≢ [] → below p q ≡ true → q ≢ []
not-nil_below p q h b e = absurd (ground (arith, ap (λ s. below p s) e, below_nil p h))

-- The parent of a path below another one is that one or lies below it.
pub parent-below :
    (p q : Text)
    → p ≢ []
    → below p q ≡ true
    → (q == p) ≡ false
    → (parent q ≡ p) ⊎ (((parent q == p) ≡ false) × (below p (parent q) ≡ true))
parent-below p q h b ne = elim (Bool-cases (parent q == p)) [
  | inl here ↦ inl ((text_beq_iff (parent q) p).0 here)
  | inr away ↦ inr (away, ground (arith, below-parent p q h))
]

-- Above a path of a tree there are directories only.
above-dir_bounded :
    (n : ℕ) (t : Tree) (p q : Text)
    → length q < n
    → IsTree t
    → p ≢ []
    → below p q ≡ true
    → (q == p) ≡ false
    → has q t ≡ true
    → dir_at p t ≡ true
above-dir_bounded zero t p q l w h b ne e = elim l [ ]
above-dir_bounded (suc n) t p q l w h b ne e =
    let full = not-nil_below p q h b in
    let up = w.linked q full e in
    elim (parent-below p q h b ne) [
      | inl here ↦ rw (← here) up.0
      | inr (away, lower) ↦
          above-dir_bounded n t p (parent q) (omega (arith, length-parent q full)) w h lower away
            (has-dir_at (parent q) t up.0)
    ]

pub above-dir :
    (t : Tree) (p q : Text)
    → IsTree t
    → p ≢ []
    → below p q ≡ true
    → (q == p) ≡ false
    → has q t ≡ true
    → dir_at p t ≡ true
above-dir t p q = above-dir_bounded (suc (length q)) t p q (omega arith)

-- Nothing lies below what is not there.
pub below-absent :
    (t : Tree) (p q : Text)
    → IsTree t
    → p ≢ []
    → has p t ≡ false
    → below p q ≡ true
    → Assoc.lookup q t ≡ none
below-absent t p q w h absent b = elim (Option-cases (Assoc.lookup q t)) [
  | inl e ↦ e
  | inr (n, e) ↦ elim (Bool-cases (q == p)) [
    | inl same ↦
        let at : q ≡ p = (text_beq_iff q p).0 same in absurd (ground (arith, ap (λ s. has s t) at))
    | inr ne ↦ absurd (ground (arith, has-dir_at p t (above-dir t p q w h b ne (ap is_some e))))
  ]
]
