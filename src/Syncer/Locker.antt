-- ===== src/Syncer/Locker.antt =====
-- pkg/syncer/locker.go: which keys LockMany locks, and in which order: the same for every
-- caller. The locks themselves are in the children.
pub mod Entries
pub mod Threads
pub mod Sound
pub mod Kept
pub mod Exclusive
pub mod Order
pub mod Progress
use rclaude.Prelude.{
  ◌≡◌, refl, Bool, true, false, not, ◌&&◌, ◌||◌, Option, none, some, List, [], ◌∷◌, Text, ◌==◌,
  text_eq, text_beq_iff, arith, ap, ◌∙◌, Option-cases, inl, inr,
}
use rclaude.Prelude.Assoc
use rclaude.Prelude.Assoc.{Assoc}
use rclaude.SafePath.{to_slash}
use rclaude.Sorting.{
  member, IsAscending, IsDistinct, sort_texts, member-sort_texts, sort_texts-IsAscending,
}

-- The loop of LockMany over the paths, with the keys that it has seen.
unfoldable pub dedup_keys : List Text → Assoc Text (Unit {0}) → List Text
dedup_keys [] seen = []
dedup_keys (path ∷ paths) seen =
    let key = to_slash path in
    let kept = key ∷ dedup_keys paths (Assoc.insert key tt seen) in
    let skipped = dedup_keys paths seen in
    elim (Assoc.lookup key seen) [ some _ ↦ skipped | none ↦ kept ]

-- LockMany, up to the locking of each key in turn
unfoldable pub lock_keys : List Text → List Text
lock_keys paths = sort_texts (dedup_keys paths [])

abbrev is_seen : Option (Unit {0}) → Bool
is_seen none = false
is_seen (some _) = true

abbrev pub has_key : Text → List Text → Bool
has_key key [] = false
has_key key (path ∷ paths) = to_slash path == key || has_key key paths

member-dedup_keys :
    (q : Text) (paths : List Text) (seen : Assoc Text (Unit {0}))
    → member q (dedup_keys paths seen) ≡ (not (is_seen (Assoc.lookup q seen)) && has_key q paths)
unfolding dedup_keys
member-dedup_keys q [] seen = ground arith
member-dedup_keys q (path ∷ paths) seen =
    let key = to_slash path in
    let next = Assoc.insert key tt seen in
    elim (Option-cases (Assoc.lookup key seen)) [
      | inl e ↦
          rw (e, dedup_keys)
            (ground (
              arith,
              member-dedup_keys q paths next,
              Assoc.lookup-insert key q tt seen,
              text_beq_iff key q,
              ap is_seen e,
              ap (λ k. is_seen (Assoc.lookup k seen)),
            ))
      | inr (u, e) ↦
          rw (e, dedup_keys)
            (ground (
              arith,
              member-dedup_keys q paths seen,
              text_beq_iff key q,
              ap (λ k. is_seen (Assoc.lookup k seen)),
              ap is_seen e,
            ))
    ]

dedup_keys-IsDistinct :
    (paths : List Text) (seen : Assoc Text (Unit {0})) → IsDistinct (dedup_keys paths seen)
unfolding dedup_keys
dedup_keys-IsDistinct [] seen = tt
dedup_keys-IsDistinct (path ∷ paths) seen =
    let key = to_slash path in
    let next = Assoc.insert key tt seen in
    elim (Option-cases (Assoc.lookup key seen)) [
      | inl e ↦
          rw (e, dedup_keys)
            (
              ground (
                arith,
                member-dedup_keys key paths next,
                Assoc.lookup-insert key key tt seen,
                text_beq_iff key key,
              ),
              dedup_keys-IsDistinct paths next,
            )
      | inr (u, e) ↦ rw (e, dedup_keys) (dedup_keys-IsDistinct paths seen)
    ]

-- The keys that LockMany locks, in the order in which it does, are exactly those of its paths, each
-- once and ascending.
pub lock_keys_lem :
    (q : Text) (paths : List Text)
    → IsAscending (lock_keys paths) × (member q (lock_keys paths) ≡ has_key q paths)
unfolding lock_keys
lock_keys_lem q paths = (
  sort_texts-IsAscending (dedup_keys paths []) (dedup_keys-IsDistinct paths []),
  member-sort_texts q (dedup_keys paths [])
      ∙ (member-dedup_keys q paths [] ∙ rw (Assoc.lookup-nil {V = Unit {0}} q) refl),
)
