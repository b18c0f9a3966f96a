-- ===== src/ContentCache/Runs.antt =====
-- Whole runs of the cache against runs of its view, and what a later Get sees.
use rclaude.Prelude.{
  ℕ, ◌<◌, ◌≤◌, ◌≡◌, refl, ap, ◌∙◌, Bool, true, Option, some, List, [], ◌∷◌, arith, Text, length,
  text_beq_iff, text_eq, beq_refl,
}
use rclaude.Prelude.Int.{pos, int_eq}
use rclaude.Prelude.Assoc
use rclaude.ContentCache.{
  Cache, Entry, Signature, sig_beq, normalize, new, get, put, invalidate, invalidate_prefix, clear,
}
use rclaude.ContentCache.Elements.{find_path}
use rclaude.ContentCache.Valid.{budget_bound}
use rclaude.ContentCache.Recency.{
  IsValid, view, find_entry, drop_entry, fit_entries, view_get, view_put,
}
use rclaude.ContentCache.Refines.{get-view, put-view, invalidate-view, clear-view}
use rclaude.ContentCache.Prefix.{keep_outside, invalidate_prefix-view}

pub data Call : Type 0 where
  get_call : Text → Signature → Call
  put_call : Text → Signature → List ℕ → Call
  invalidate_call : Text → Call
  prefix_call : Text → Call
  clear_call : Call

pub data Reply : Type 0 where
  content_reply : Option (List ℕ) → Reply
  stored_reply : Bool → Reply
  no_reply : Reply

abbrev pub call : Cache → Call → Cache × Reply
call c (get_call p sig) = let (c', found) = get c p sig in (c', content_reply found)
call c (put_call p sig content) = let (c', done) = put c p sig content in (c', stored_reply done)
call c (invalidate_call p) = (invalidate c p, no_reply)
call c (prefix_call p) = (invalidate_prefix c p, no_reply)
call c clear_call = (clear c, no_reply)

abbrev pub view_call : ℕ → List Entry → Call → List Entry × Reply
view_call m l (get_call p sig) =
    let (l', found) = view_get l (normalize p) sig in (l', content_reply found)
view_call m l (put_call p sig content) =
    let (l', done) = view_put m l (normalize p) sig content in (l', stored_reply done)
view_call m l (invalidate_call p) = (drop_entry (normalize p) l, no_reply)
view_call m l (prefix_call p) = (keep_outside (normalize p) l, no_reply)
view_call m l clear_call = ([], no_reply)

unfoldable pub run : Cache → List Call → Cache × List Reply
run c [] = (c, [])
run c (a ∷ calls) =
    let (c', reply) = call c a in let (last, replies) = run c' calls in (last, reply ∷ replies)

unfoldable pub view_run : ℕ → List Entry → List Call → List Entry × List Reply
view_run m l [] = (l, [])
view_run m l (a ∷ calls) =
    let (l', reply) = view_call m l a in
    let (last, replies) = view_run m l' calls in (last, reply ∷ replies)

call-view :
    (m : ℕ) (c : Cache) (a : Call)
    → IsValid m c
    → IsValid m (call c a).0
      × (view (call c a).0 ≡ (view_call m (view c) a).0)
      × ((call c a).1 ≡ (view_call m (view c) a).1)
call-view m c (get_call p sig) v =
    let (valid, same, found) = get-view m c v p sig in (valid, same, ap content_reply found)
call-view m c (put_call p sig content) v =
    let (valid, same, done) = put-view m c v p sig content in (valid, same, ap stored_reply done)
call-view m c (invalidate_call p) v =
    let (valid, same) = invalidate-view m c v p in (valid, same, refl)
call-view m c (prefix_call p) v =
    let (valid, same) = invalidate_prefix-view m c p v in (valid, same, refl)
call-view m c clear_call v = let (valid, same) = clear-view m c v in (valid, same, refl)

-- A run of any calls on a valid cache keeps the invariant, its budget among it, and answers what
-- the list of entries in order of use answers: the map, the pointers and the byte count of the
-- cache cannot be told from that list.
pub run-view :
    (m : ℕ) (c : Cache) (calls : List Call)
    → IsValid m c
    → IsValid m (run c calls).0
      × (view (run c calls).0 ≡ (view_run m (view c) calls).0)
      × ((run c calls).1 ≡ (view_run m (view c) calls).1)
unfolding run view_run
run-view m c [] v = (v, refl, refl)
run-view m c (a ∷ calls) v =
    let (valid, same, reply) = call-view m c a v in
    let (valid', same', replies) = run-view m (call c a).0 calls valid in
    (
      valid',
      same' ∙ ap (λ l. (view_run m l calls).0) same,
      cons (call c a).1 _ reply (replies ∙ ap (λ l. (view_run m l calls).1) same),
    )
  where
    cons : (r s : Reply) {rs ss : List Reply} → r ≡ s → rs ≡ ss → r ∷ rs ≡ s ∷ ss
    cons r s p q = cc

-- A new cache with a budget is valid and empty.
pub new-IsValid :
    (m : ℕ) → 0 < m → m < budget_bound → IsValid m (new (pos m)) × (view (new (pos m)) ≡ [])
unfolding new
new-IsValid m positive small = (
  record {
    budget = refl;
    enabled = positive;
    small = small;
    linked = record {
      used = refl;
      distinct = tt;
      fresh = tt;
      index = λ q. unfold Assoc.lookup find_path in refl;
      keys = tt;
    };
    fits = omega arith;
  },
  refl,
)

sig_refl : (sig : Signature) → sig_beq sig sig ≡ true
unfolding sig_beq
sig_refl sig = rw (beq_refl sig.size) (beq_refl sig.mod_time)

head_found :
    (m : ℕ) (e : Entry) (l : List Entry)
    → length e.content ≤ m
    → find_entry e.path (fit_entries m (e ∷ l)) ≡ some e
unfolding find_entry fit_entries
head_found m e l h = ground (arith, text_beq_iff e.path e.path)

view_get_found :
    (l : List Entry) (e : Entry) (p : Text) (sig : Signature)
    → find_entry p l ≡ some e
    → e.sig ≡ sig
    → (view_get l p sig).1 ≡ some e.content
view_get_found l e p sig f s = rw (f, view_get) (rw s (rw (sig_refl sig)))

-- Content that fits the budget is read back by the next Get of the path with the same signature.
pub get-put :
    (m : ℕ) (c : Cache) (p : Text) (sig : Signature) (content : List ℕ)
    → IsValid m c
    → length content ≤ m
    → (get (put c p sig content).0 p sig).1 ≡ some content
get-put m c p sig content v fits =
    let (valid, stored, done) = put-view m c v p sig content in
    let (valid', same, found) = get-view m (put c p sig content).0 valid p sig in
    let e : Entry = record { path = normalize p; sig = sig; content = content } in
    let l : List Entry = drop_entry (normalize p) (view c) in
    let kept : (view_put m (view c) (normalize p) sig content).0 ≡ fit_entries m (e ∷ l) =
      ground arith in
    found
    ∙ view_get_found (view (put c p sig content).0) e (normalize p) sig
        (ap (find_entry (normalize p)) (stored ∙ kept) ∙ head_found m e l fits) refl
