-- ===== src/Tests/ContentCache.antt =====
-- A cache of four bytes: eviction, a stale signature, and the theorems at such caches.
use rclaude.Prelude.{
  ◌≡◌, refl, List, [], ◌∷◌, codes, none, some, true, text_beq, replace_all, starts_with, arith,
}
use rclaude.Prelude.Int.{pos, sub64, add64, int_beq}
use rclaude.Prelude.Assoc
use rclaude.Paths.{paths_run}
use rclaude.Normalize
use rclaude.ContentCache.{
  Signature, normalize, new, get, put, invalidate, invalidate_prefix, store, remove_key,
  remove_element, remove_matching, matches_prefix, evict_locked, evict_rounds, back, list_remove,
  move_to_front, sig_beq, clone_bytes, clear,
}
use rclaude.ContentCache.Recency.{IsValid, view, view_put}
use rclaude.ContentCache.Refines.{put-view}
use rclaude.ContentCache.Prefix.{keep_outside, invalidate_prefix-view}
use rclaude.ContentCache.Runs.{
  Call, get_call, put_call, content_reply, stored_reply, run, view_run, run-view, new-IsValid,
  get-put,
}

cache : Unit {0}
unfolding paths_run Normalize.relative_form Normalize.normalize normalize new get put invalidate
    invalidate_prefix store remove_key remove_element remove_matching matches_prefix evict_locked
    evict_rounds back list_remove move_to_front sig_beq clone_bytes clear sub64 add64 int_beq
    text_beq replace_all starts_with Assoc.lookup Assoc.insert Assoc.remove run
cache = tt

abbrev sig : Signature
sig = record { size = pos 2; mod_time = pos 7 }

abbrev stale : Signature
stale = record sig { mod_time = pos 8 }

abbrev calls : List Call
calls =
    put_call (codes "d/a") sig (1 ∷ 2 ∷ [])
    ∷ put_call (codes "/b") sig (3 ∷ 4 ∷ [])
    ∷ get_call (codes "d/./a") sig
    ∷ put_call (codes "c") sig (5 ∷ [])
    ∷ get_call (codes "b") sig
    ∷ get_call (codes "d/a") stale
    ∷ []

run_test :
    (run (new (pos 4)) calls).1
    ≡ stored_reply true
      ∷ stored_reply true
      ∷ content_reply (some (1 ∷ 2 ∷ []))
      ∷ stored_reply true
      ∷ content_reply none
      ∷ content_reply none
      ∷ []
unfolding cache
run_test = refl

empty-IsValid : IsValid 4 (new (pos 4)) × (view (new (pos 4)) ≡ [])
empty-IsValid = new-IsValid 4 (omega arith) (omega arith)

run-view_example :
    IsValid 4 (run (new (pos 4)) calls).0
    × (view (run (new (pos 4)) calls).0 ≡ (view_run 4 (view (new (pos 4))) calls).0)
    × ((run (new (pos 4)) calls).1 ≡ (view_run 4 (view (new (pos 4))) calls).1)
run-view_example = run-view 4 (new (pos 4)) calls empty-IsValid.0

put-view_example :
    IsValid 4 (put (new (pos 4)) (codes "a") sig (1 ∷ [])).0
    × (view (put (new (pos 4)) (codes "a") sig (1 ∷ [])).0
        ≡ (view_put 4 (view (new (pos 4))) (normalize (codes "a")) sig (1 ∷ [])).0)
    × ((put (new (pos 4)) (codes "a") sig (1 ∷ [])).1
        ≡ (view_put 4 (view (new (pos 4))) (normalize (codes "a")) sig (1 ∷ [])).1)
put-view_example = put-view 4 (new (pos 4)) empty-IsValid.0 (codes "a") sig (1 ∷ [])

filled-IsValid : IsValid 4 (run (new (pos 4)) calls).0
filled-IsValid = (run-view 4 (new (pos 4)) calls empty-IsValid.0).0

invalidate_prefix-view_example :
    IsValid 4 (invalidate_prefix (run (new (pos 4)) calls).0 (codes "d"))
    × (view (invalidate_prefix (run (new (pos 4)) calls).0 (codes "d"))
        ≡ keep_outside (normalize (codes "d")) (view (run (new (pos 4)) calls).0))
invalidate_prefix-view_example =
    invalidate_prefix-view 4 (run (new (pos 4)) calls).0 (codes "d") filled-IsValid

get-put_example :
    (get (put (new (pos 4)) (codes "a") sig (1 ∷ [])).0 (codes "a") sig).1 ≡ some (1 ∷ [])
get-put_example = get-put 4 (new (pos 4)) (codes "a") sig (1 ∷ []) empty-IsValid.0 (omega arith)
