-- ===== src/Tests/Session.antt =====
-- A session with one file in a directory and its content in the cache.
use rclaude.Prelude.{
  ◌≡◌, refl, ◌≢◌, Option, none, some, List, [], ◌∷◌, codes, true, false, not, ◌&&◌, ltb, text_beq,
  replace_all, starts_with, arith, ◌==◌, text_eq, nat_eq, if◌then◌else◌,
}
use rclaude.Prelude.Int.{pos}
use rclaude.Prelude.Assoc
use rclaude.Paths.{paths_run}
use rclaude.Normalize
use rclaude.ContentCache
use rclaude.ContentCache.{Signature}
use rclaude.ContentCache.Recency.{IsValid}
use rclaude.ContentCache.Refines.{put-view}
use rclaude.ContentCache.Runs.{new-IsValid}
use rclaude.FsTree
use rclaude.FsTree.{Info, Change, create, delete_file}
use rclaude.FsTree.Nodes.{IsTree}
use rclaude.FsTree.Views.{run, run-new-Shows}
use rclaude.Session.{
  Session, session_replaced, new_session, apply_change, delete_path, close_with_error,
  close_err_value, or_closed, retain_offline, is_replaced, is_offline_readonly, is_expired, or_now,
  try_start_prefetch, finish_prefetch,
}
use rclaude.Session.Changes.{failed_as, apply_change-agrees}
use rclaude.Session.Forgets.{delete_path-forgets}
use rclaude.Session.Lifecycle.{first_close_wins, retain_offline_lem, prefetch_lem}

abbrev file : Info
file = record { path = codes "a/b"; size = pos 2; mod_time = pos 9; is_dir = false; mode = 0x1a4 }

abbrev changes : List (Option Change)
changes = some (record { type = create; file = some file; old_path = [] }) ∷ []

abbrev sig : Signature
sig = record { size = pos 2; mod_time = pos 9 }

abbrev session : Session
session = record (new_session (codes "u") (pos 4)) {
  tree = run changes FsTree.new;
  cache = (ContentCache.put (ContentCache.new (pos 4)) (codes "a/b") sig (1 ∷ 2 ∷ [])).0;
  closed = false;
  close_err = none;
  prefetching = [];
}

abbrev removal : Option Change
removal =
    some
      (record { type = delete_file; file = some (record file { path = codes "a" }); old_path = [] })

tree_ok : IsTree session.tree
tree_ok = (run-new-Shows changes).tree

cache_ok : IsValid 4 session.cache
cache_ok =
    (put-view 4 (ContentCache.new (pos 4)) (new-IsValid 4 (omega arith) (omega arith)).0
      (codes "a/b") sig (1 ∷ 2 ∷ [])).0

norms : Unit {0}
unfolding paths_run Normalize.relative_form Normalize.normalize FsTree.normalize FsTree.new
    FsTree.split_parent FsTree.join_path FsTree.clone_info FsTree.put_child FsTree.drop_child
    FsTree.promote_to_dir FsTree.ensure_ancestors FsTree.children_map_for_info FsTree.prune_replaced
    FsTree.set_node FsTree.insert_locked FsTree.insert FsTree.lookup FsTree.apply_type FsTree.apply
    text_beq replace_all starts_with Assoc.lookup Assoc.insert Assoc.remove
norms = tt

inner : FsTree.normalize (codes "a") ≢ []
unfolding norms
inner = λ e. cc

lower : FsTree.Keys.below (FsTree.normalize (codes "a")) (FsTree.normalize (codes "a/b")) ≡ true
unfolding norms
lower = refl

stood : FsTree.lookup (codes "a/b") session.tree ≢ none
unfolding norms
stood = λ e. cc

apply_change-agrees_example :
    ((apply_change removal session).0.tree ≡ (FsTree.apply removal session.tree).0)
    × ((apply_change removal session).1 ≡ failed_as (FsTree.apply removal session.tree).1)
apply_change-agrees_example = apply_change-agrees removal session

delete_path-forgets_example :
    (FsTree.lookup (codes "a/b") (delete_path (codes "a") session).tree ≡ none)
    × ((ContentCache.get (delete_path (codes "a") session).cache (codes "a/b") sig).1 ≡ none)
delete_path-forgets_example =
    delete_path-forgets 4 (codes "a") (codes "a/b") sig session tree_ok cache_ok inner lower stood

first_close_wins_example :
    (close_with_error none (close_with_error (some session_replaced) session)
      ≡ close_with_error (some session_replaced) session)
    × (close_err_value (close_with_error none (close_with_error (some session_replaced) session))
        ≡ or_closed (some session_replaced))
    × ((close_with_error none (close_with_error (some session_replaced) session)).hub.pending ≡ [])
first_close_wins_example = first_close_wins (some session_replaced) none session refl

retain_offline_lem_example :
    ((retain_offline 9 session).1 ≡ not (nat_eq.same 9 0) && not (is_replaced session.close_err))
    × ((retain_offline 9 session).1 ≡ false → (retain_offline 9 session).0 ≡ session)
    × ((retain_offline 9 session).1 ≡ true
        → (is_offline_readonly 7 0 (retain_offline 9 session).0 ≡ ltb (or_now 7 0) 9)
          × (is_expired 7 0 (retain_offline 9 session).0
              ≡ not (is_offline_readonly 7 0 (retain_offline 9 session).0)))
retain_offline_lem_example = retain_offline_lem 9 7 0 session

prefetch_lem_example :
    ((try_start_prefetch (codes "a") (try_start_prefetch (codes "a") session).0).1
      ≡ (if codes "a" == codes "a" then false else (try_start_prefetch (codes "a") session).1))
    × ((try_start_prefetch
          (codes "a")
          (finish_prefetch (codes "a") (try_start_prefetch (codes "a") session).0)).1
        ≡ (try_start_prefetch (codes "a") session).1)
unfolding try_start_prefetch text_beq Assoc.lookup
prefetch_lem_example = prefetch_lem (codes "a") (codes "a") session refl
