-- ===== src/FsTree/Children.antt =====
-- The loop over the children of a directory takes away all that lies below it.
use rclaude.Prelude.{
  ℕ, zero, suc, ◌+◌, ◌≡◌, refl, ◌≢◌, Bool, true, false, ◌||◌, none, some, [], ◌∷◌, Text, length,
  ◌<◌, ◌==◌, text_eq, text_beq_iff, if◌then◌else◌, arith, ap, ◌∙◌, sym, Option-cases, Bool-cases,
  beq_refl, inl, inr, All,
}
use rclaude.Prelude.Assoc
use rclaude.Paths.Split.{NoSlash}
use rclaude.FsTree.{
  Node, Names, Tree, parent, base, join_path, names, unlink, delete_each, prune_children,
}
use rclaude.FsTree.Keys.{
  below, below-parent, join_path-parent, length-parent, below-child, join_path-full,
  split_parent-join_path, length-join_path, below_refl,
}
use rclaude.FsTree.Nodes.{
  find, is_some, has, child_node, child, IsTree, lookup-unlink, has-dir_at, not-nil_below,
  parent-below, below-absent,
}
use rclaude.FsTree.Without.{IsBounded, without, find-without, without-IsTree, without-IsBounded}

-- `delete` is right on the paths that leave a fuel of at least the longest path.
abbrev pub Deletes : ℕ → ℕ → (Text → Tree → Tree) → Type 0
Deletes bound fuel delete =
    (p : Text) (t : Tree)
    → p ≢ []
    → IsTree t
    → IsBounded bound t
    → bound < length p + fuel
    → (has p t ≡ false → delete p t ≡ t)
      × (has p t ≡ true → (q : Text) → Assoc.lookup q (delete p t) ≡ without p t q)

abbrev pub below_some : Text → Names → Text → Bool
below_some p [] q = false
below_some p ((name, _) ∷ rest) q = below (join_path p name) q || below_some p rest q

abbrev pub AllPlain : Names → Type 0
AllPlain = All (λ c. NoSlash c.0)

-- What is left of `t` once the named children of `p` are deleted.
pub record Pruned (bound : ℕ) (p : Text) (gone : Names) (t u : Tree) : Type 0 where
  pub tree : IsTree u
  pub bounded : IsBounded bound u
  pub at :
      (q : Text)
      → (q == p) ≡ false
      → Assoc.lookup q u ≡ (if below_some p gone q then none else Assoc.lookup q t)
  pub self : find p u ≡ find p t

not-below_parent : (p name : Text) → p ≢ [] → NoSlash name → below (join_path p name) p ≡ false
not-below_parent p name full plain = elim (Bool-cases (below (join_path p name) p)) [
  | inl h ↦
      absurd (ground (arith, below-child p name p full plain h, below_refl p, text_beq_iff p p))
  | inr h ↦ h
]

module _ (bound fuel : ℕ) (delete : Text → Tree → Tree) (deletes : Deletes bound fuel delete)
    (p : Text) (full : p ≢ []) (long : bound < length p + suc fuel) where
  delete_child :
      (name : Text) (t : Tree)
      → NoSlash name
      → IsTree t
      → IsBounded bound t
      → Pruned bound p ((name, tt) ∷ []) t (delete (join_path p name) t)
  delete_child name t plain w b =
      let k = join_path p name in
      let under : k ≢ [] = join_path-full p name full in
      let spec = deletes k t under w b (omega (arith, length-join_path p name full)) in
      let up : parent k ≡ p = ap (λ r. r.0) (split_parent-join_path p name plain) in
      let apart : below k p ≡ false = not-below_parent p name full plain in
      elim (Bool-cases (has k t)) [
        | inl present ↦
            let at = spec.1 present in
            record {
              tree = without-IsTree k t (delete k t) under w present at;
              bounded = without-IsBounded k t (delete k t) under w present at bound b;
              at = λ q ne.
                  at q ∙ ground (arith, ap (λ r. r == q) up, text_beq_iff p q, text_beq_iff q p);
              self = find-without k t (delete k t) under w present at p ∙ rw apart;
            }
        | inr absent ↦ rw (spec.0 absent) (record {
          tree = w;
          bounded = b;
          at = λ q ne. ground (arith, below-absent t k q w under absent);
          self = refl;
        })
      ]

  delete_each-Pruned :
      (gone : Names) (t : Tree)
      → AllPlain gone
      → IsTree t
      → IsBounded bound t
      → Pruned bound p gone t (delete_each delete p gone t)
  unfolding delete_each
  delete_each-Pruned [] t plain w b = record {
    tree = w;
    bounded = b;
    at = λ q ne. refl;
    self = refl;
  }
  delete_each-Pruned ((name, _) ∷ rest) t (plain, plains) w b =
      let one = delete_child name t plain w b in
      let more =
        delete_each-Pruned rest (delete (join_path p name) t) plains one.tree one.bounded in
      record {
        tree = more.tree;
        bounded = more.bounded;
        at = λ q ne. more.at q ne ∙ ground (arith, one.at q ne);
        self = more.self ∙ one.self;
      }

-- What lies below a directory lies at or below one of its children.
module _ (p : Text) (full : p ≢ []) (t : Tree) (w : IsTree t) (gone : Names)
    (listed : (name : Text) → child p name t ≡ true → is_some (Assoc.lookup name gone) ≡ true) where
  below_some_at :
      (name q : Text) (rest : Names)
      → is_some (Assoc.lookup name rest) ≡ true
      → below (join_path p name) q ≡ true
      → below_some p rest q ≡ true
  below_some_at name q [] h b = absurd (ground (arith, Assoc.lookup-nil {V = Unit {0}} name))
  below_some_at name q ((other, _) ∷ rest) h b = elim (Bool-cases (other == name)) [
    | inl same ↦
        let named : below (join_path p other) q ≡ true =
          ap (λ c. below (join_path p c) q) ((text_beq_iff other name).0 same) ∙ b in
        ground arith
    | inr differs ↦
        let later : is_some (Assoc.lookup name rest) ≡ true = rw (← next differs) h in
        ground (arith, below_some_at name q rest later b)
  ]
    where
      next :
          (other == name) ≡ false
          → is_some (Assoc.lookup name ((other, tt) ∷ rest)) ≡ is_some (Assoc.lookup name rest)
      next e = unfold Assoc.lookup in rw e

  below_some-parent :
      (q : Text) (rest : Names) → below_some p rest (parent q) ≡ true → below_some p rest q ≡ true
  below_some-parent q [] h = h
  below_some-parent q ((name, _) ∷ rest) h = ground (
    arith,
    below-parent (join_path p name) q (join_path-full p name full),
    below_some-parent q rest,
  )

  below_some_covers :
      (n : ℕ) (q : Text)
      → length q < n
      → below p q ≡ true
      → (q == p) ≡ false
      → has q t ≡ true
      → below_some p gone q ≡ true
  below_some_covers zero q l b ne e = elim l [ ]
  below_some_covers (suc n) q l b ne e =
      let nonempty = not-nil_below p q full b in
      let up = w.linked q nonempty e in
      elim (parent-below p q full b ne) [
        | inl here ↦
            let same : join_path p (base q) ≡ q =
              rw (← here) (join_path-parent q (w.relative q e)) in
            below_some_at (base q) q gone
              (listed (base q) (ap (λ r. child r (base q) t) (sym here) ∙ up.1))
              (ap (λ r. below r q) same ∙ below_refl q)
        | inr (away, lower) ↦ below_some-parent q gone (
            below_some_covers n (parent q) (omega (arith, length-parent q nonempty)) lower away
              (has-dir_at (parent q) t up.0))
      ]

below_some-below :
    (p : Text) (gone : Names) (q : Text)
    → p ≢ []
    → AllPlain gone
    → below_some p gone q ≡ true
    → below p q ≡ true
below_some-below p [] q full plain h = absurd (ground arith)
below_some-below p ((name, _) ∷ rest) q full (plain, plains) h =
    ground (arith, below-child p name q full plain, below_some-below p rest q full plains)

-- What unlink leaves once everything below the path is gone.
pub unlink-without :
    (p : Text) (t u : Tree)
    → p ≢ []
    → ((q : Text)
        → (q == p) ≡ false
        → Assoc.lookup q u ≡ (if below p q then none else Assoc.lookup q t))
    → (q : Text) → Assoc.lookup q (unlink p u) ≡ without p t q
unlink-without p t u full at q =
    lookup-unlink p q u
    ∙ ground (arith, at q, text_beq_iff p q, text_beq_iff q p, below_refl p, ap (below p))

pub plain_names :
    (m : Names) → ((name : Text) → is_some (Assoc.lookup name m) ≡ true → NoSlash name) → AllPlain m
unfolding Assoc.lookup
plain_names [] h = tt
plain_names ((k, _) ∷ m) h =
    (h k (ground (arith, beq_refl k)), plain_names m (λ name e. h name (ground arith)))

-- The children of a directory that is about to lose them, and the tree behind it.
pub prune_children-Pruned :
    (bound fuel : ℕ) (delete : Text → Tree → Tree) (p : Text) (t : Tree) (n : Node)
    → Deletes bound fuel delete
    → p ≢ []
    → bound < length p + suc fuel
    → IsTree t
    → IsBounded bound t
    → Assoc.lookup p t ≡ some n
    → Pruned bound p (names n.children) t (prune_children delete p n t)
      × ((q : Text)
          → (q == p) ≡ false
          → Assoc.lookup q (prune_children delete p n t)
            ≡ (if below p q then none else Assoc.lookup q t))
prune_children-Pruned bound fuel delete p t n deletes full long w b e = (pruned, exact)
  where
    registered : (name : Text) → child p name t ≡ is_some (Assoc.lookup name (names n.children))
    registered name = ap (child_node name) e

    plains : AllPlain (names n.children)
    plains = plain_names (names n.children) (λ name h. w.plain p name (registered name ∙ h))

    pruned : Pruned bound p (names n.children) t (prune_children delete p n t)
    pruned =
        unfold prune_children in
        delete_each-Pruned bound fuel delete deletes p full long (names n.children) t plains w b

    exact :
        (q : Text)
        → (q == p) ≡ false
        → Assoc.lookup q (prune_children delete p n t)
          ≡ (if below p q then none else Assoc.lookup q t)
    exact q ne = pruned.at q ne ∙ elim (Option-cases (Assoc.lookup q t)) [
      | inl absent ↦ rw absent (ground arith)
      | inr (m, there) ↦ elim (Bool-cases (below p q)) [
        | inl lower ↦ rw lower (
            rw (
              below_some_covers p full t w (names n.children) (λ name h. sym (registered name) ∙ h)
                (suc (length q)) q (omega arith) lower ne (ap is_some there)))
        | inr outside ↦ ground (arith, below_some-below p (names n.children) q full plains)
      ]
    ]
