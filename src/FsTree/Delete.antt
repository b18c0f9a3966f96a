-- ===== src/FsTree/Delete.antt =====
-- Deletion takes away a path and all below it, and nothing else.
use rclaude.Prelude.{
  ℕ, zero, suc, ◌+◌, ◌≡◌, refl, ◌≢◌, none, some, [], ◌∷◌, Text, length, ◌<◌, ◌==◌, text_eq,
  text_beq_iff, if◌then◌else◌, arith, ap, Option-cases, Bool-cases, inl, inr,
}
use rclaude.Prelude.Assoc
use rclaude.FsTree.{
  Node, Tree, unlink, delete, delete_all, longest, normalize, delete_locked, prune_children,
}
use rclaude.FsTree.Keys.{below}
use rclaude.FsTree.Nodes.{find, is_some, has, dir_node, IsTree, above-dir, below-absent}
use rclaude.FsTree.Without.{IsBounded, without, find-without, without-IsTree}
use rclaude.FsTree.Children.{Deletes, prune_children-Pruned, unlink-without}

delete_locked-Deletes : (bound fuel : ℕ) → Deletes bound fuel (delete_locked fuel)
unfolding delete_locked
delete_locked-Deletes bound zero p t full w b long = (λ _. refl, λ e. absurd (omega (arith, b p e)))
delete_locked-Deletes bound (suc fuel) p t full w b long = elim (Option-cases (Assoc.lookup p t)) [
  | inl e ↦ (λ _. rw (e, delete_locked), λ h. absurd (ground arith))
  | inr (n, e) ↦ (
    λ h. absurd (ground arith),
    λ _ q. rw (e, delete_locked) (removed (delete_locked-Deletes bound fuel) n e q),
  )
]
  where
    removed :
        Deletes bound fuel (delete_locked fuel)
        → (n : Node) → Assoc.lookup p t ≡ some n
        → (q : Text)
        → Assoc.lookup q
            (unlink p (if n.info.is_dir then prune_children (delete_locked fuel) p n t else t))
          ≡ without p t q
    removed ih n e = elim (Bool-cases n.info.is_dir) [
      | inl dir ↦ simp dir (
          unlink-without p t (prune_children (delete_locked fuel) p n t) full
            (prune_children-Pruned bound fuel (delete_locked fuel) p t n ih full long w b e).1)
      | inr file ↦ simp file (
          unlink-without p t t full (λ q ne. elim (Option-cases (Assoc.lookup q t)) [
            | inl absent ↦ rw absent (ground arith)
            | inr (m, there) ↦
                ground (arith, above-dir t p q w full, ap is_some there, ap dir_node e)
          ]))
    ]

pub longest_bound : (t : Tree) → IsBounded (longest t) t
unfolding longest Assoc.lookup
longest_bound [] q h = absurd (ground arith)
longest_bound ((p, n) ∷ t) q h = ground (arith, longest_bound t q, text_beq_iff p q)

-- The fuel that delete_all starts with is enough for every path.
pub delete_all-Deletes : (t : Tree) (fuel : ℕ) → Deletes (longest t) fuel (delete_all t)
unfolding delete_all
delete_all-Deletes t fuel p u full w b long =
    delete_locked-Deletes (longest t) (suc (longest t)) p u full w b (omega arith)

-- On a tree, Delete keeps the invariant, and takes away exactly the entries at and below the
-- path; on the root it changes nothing.
pub delete-find :
    (p : Text) (t : Tree)
    → IsTree t
    → IsTree (delete p t)
      × ((q : Text)
          → find q (delete p t) ≡ (
              if normalize p == []
              then find q t
              else if below (normalize p) q
              then none
              else find q t))
delete-find p t w = elim (Bool-cases (normalize p == [])) [
  | inl root ↦ unfold delete in rw root (w, λ q. refl)
  | inr inner ↦
      let full : normalize p ≢ [] = λ e. absurd (ground (arith, text_beq_iff (normalize p) [])) in
      unfold delete in rw inner (found full)
]
  where
    fuel_enough : (c : Text) → c ≢ [] → longest t < length c + longest t
    fuel_enough [] h = absurd (h refl)
    fuel_enough (x ∷ c) h = omega arith

    found :
        normalize p ≢ []
        → IsTree (delete_all t (normalize p) t)
          × ((q : Text)
              → find q (delete_all t (normalize p) t)
                ≡ (if below (normalize p) q then none else find q t))
    found full =
        let c = normalize p in
        let u = delete_all t c t in
        let spec =
          delete_all-Deletes t (longest t) c t full w (longest_bound t) (fuel_enough c full) in
        elim (Bool-cases (has c t)) [
          | inl present ↦ (
            without-IsTree c t u full w present (spec.1 present),
            find-without c t u full w present (spec.1 present),
          )
          | inr absent ↦
              rw (spec.0 absent) (w, λ q. ground (arith, below-absent t c q w full absent))
        ]
