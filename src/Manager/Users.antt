-- ===== src/Manager/Users.antt =====
-- UserIDs lists the users with a live session, in order.
use rclaude.Prelude.{
  ℕ, ◌≡◌, refl, Bool, true, false, Option, none, some, [], ◌∷◌, Text, text_eq, if◌then◌else◌, arith,
  ap, ◌∙◌,
}
use rclaude.Prelude.Assoc
use rclaude.Prelude.Assoc.{Assoc, NodupKeys}
use rclaude.Sorting.{member, IsAscending, IsDistinct, member-sort_texts, sort_texts-IsAscending}
use rclaude.Manager.{Manager, Heap, expired_at, prune_each, prune_expired_locked, keys, user_ids}
use rclaude.Manager.Expiry.{live, prune_lem}

abbrev pub is_there : Option ℕ → Bool
is_there none = false
is_there (some _) = true

member-keys :
    (user : Text) (m : Assoc Text ℕ) → member user (keys m) ≡ is_there (Assoc.lookup user m)
unfolding Assoc.lookup
member-keys user [] = refl
member-keys user ((v, _) ∷ rest) = ground (arith, member-keys user rest)

keys-IsDistinct : (m : Assoc Text ℕ) → NodupKeys m → IsDistinct (keys m)
keys-IsDistinct [] n = tt
keys-IsDistinct ((v, _) ∷ rest) (fresh, n) =
    (member-keys v rest ∙ ap is_there fresh, keys-IsDistinct rest n)

prune_each-NodupKeys :
    (now : ℕ) (heap : Heap) (entries sessions : Assoc Text ℕ)
    → NodupKeys sessions
    → NodupKeys (prune_each now heap entries sessions)
unfolding prune_each
prune_each-NodupKeys now heap [] sessions n = n
prune_each-NodupKeys now heap ((user, s) ∷ rest) sessions n =
    prune_each-NodupKeys now heap rest
      (if expired_at now heap s then Assoc.remove user sessions else sessions)
      (either (expired_at now heap s))
  where
    either : (b : Bool) → NodupKeys (if b then Assoc.remove user sessions else sessions)
    either true = Assoc.remove-NodupKeys user sessions n
    either false = n

-- With each user once in the map of sessions, UserIDs answers a strictly ascending list of exactly
-- the users whose session has not expired.
pub user_ids_lem :
    (now : ℕ) (heap : Heap) (user : Text) (m : Manager)
    → NodupKeys m.sessions
    → IsAscending (user_ids now heap m).1
      × (member user (user_ids now heap m).1
          ≡ is_there (live now heap (Assoc.lookup user m.sessions)))
unfolding user_ids
user_ids_lem now heap user m n =
    let pruned = prune_expired_locked now heap m in
    (
      sort_texts-IsAscending (keys pruned.sessions) (keys-IsDistinct pruned.sessions distinct),
      member-sort_texts user (keys pruned.sessions)
          ∙ (member-keys user pruned.sessions ∙ ap is_there (prune_lem now heap user m n)),
    )
  where
    distinct : NodupKeys (prune_expired_locked now heap m).sessions
    distinct = unfold prune_expired_locked in prune_each-NodupKeys now heap m.sessions m.sessions n
