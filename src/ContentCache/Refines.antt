-- ===== src/ContentCache/Refines.antt =====
-- Get, Put, Invalidate and Clear keep the invariant and refine the operations of the view.
use rclaude.Prelude.{
  ℕ, ◌+◌, ◌^◌, ◌<◌, ◌≤◌, ◌≡◌, refl, ap, ◌∙◌, ◌≢◌, Bool, true, false, Option, none, some, List, [],
  ◌∷◌, map, arith, Text, length, text_beq_iff, All, ◌==◌, text_eq, nat_eq, if◌then◌else◌, ltb,
  Bool-cases, Option-cases, inl, inr,
}
use rclaude.Prelude.Int.{pos, add64, add64_pos, ltb_ℤ, leb_ℤ}
use rclaude.Prelude.Assoc
use rclaude.Prelude.Assoc.{lookup-insert, insert-NodupKeys}
use rclaude.Normalize.Forms.{normalize_idempotent}
use rclaude.ContentCache.{
  Signature, Cache, Element, Entry, sig_beq, normalize, clone_bytes, get, put, store, invalidate,
  clear, evict_locked, move_to_front, remove_element,
}
use rclaude.ContentCache.Elements.{
  find_path, drop_path, total, size, path-find_path, find_path-drop_path, drop_path-All,
  find_path-All, drop_path-ids, drop_path-IsDistinct, move_to_front-find_path, total-drop_path,
  drop_path_absent,
}
use rclaude.ContentCache.Valid.{
  IsLinked, without, without-IsLinked, remove_element-find_path, remove_key_lem,
}
use rclaude.ContentCache.Budget.{total-fit-le, evict_locked_lem}
use rclaude.ContentCache.Recency.{
  IsValid, view, drop_entry, fit_entries, view_get, view_put, map-drop_path, map-fit,
  find_entry-map-none, find_entry-map-some,
}

normalize-normalize : (p : Text) → normalize (normalize p) ≡ normalize p
unfolding normalize
normalize-normalize p = normalize_idempotent p

module _ (m : ℕ) (c : Cache) (v : IsValid m c) where
  pub in_range : total c.lru < 2 ^ 63
  in_range = let h = v.fits in let s = v.small in omega arith

  pub switched_on : leb_ℤ c.max_bytes (pos 0) ≡ false
  switched_on = rw v.budget (let h = v.enabled in ground arith)

  total-drop-le : (p : Text) → total (drop_path p c.lru) ≤ m
  total-drop-le p = elim (Option-cases (find_path p c.lru)) [
    | inl miss ↦ rw (drop_path_absent p c.lru miss) v.fits
    | inr (e, hit) ↦ omega (arith, total-drop_path p c.lru v.linked.distinct hit, v.fits)
  ]

  pub without-IsValid : (p : Text) → IsValid m (without c p)
  without-IsValid p = record {
    budget = unfold without in v.budget;
    enabled = v.enabled;
    small = v.small;
    linked = without-IsLinked p v.linked;
    fits = unfold without in total-drop-le p;
  }

  invalidate-without : (p : Text) → invalidate c p ≡ without c (normalize p)
  invalidate-without p =
      unfold invalidate in rw switched_on (remove_key_lem c (normalize p) v.linked in_range)

  -- Invalidate drops the entry of the path, keeps the order of the others and the invariant.
  pub invalidate-view :
      (p : Text)
      → IsValid m (invalidate c p) × (view (invalidate c p) ≡ drop_entry (normalize p) (view c))
  invalidate-view p =
      rw (invalidate-without p)
        (without-IsValid (normalize p), unfold without in map-drop_path (normalize p) c.lru)

  touched :
      (p : Text) (e : Element)
      → find_path p c.lru ≡ some e
      → IsValid m (record c { lru = e ∷ drop_path p c.lru })
  touched p e f = record {
    budget = v.budget;
    enabled = v.enabled;
    small = v.small;
    linked = record {
      used = v.linked.used ∙ ap pos (omega (arith, sizes));
      distinct = (
        ground (arith, find_path-drop_path p e.value.path c.lru, text_beq_iff p e.value.path, same),
        drop_path-ids p c.lru v.linked.distinct f,
        drop_path-IsDistinct p c.lru v.linked.distinct,
      );
      fresh = (
        find_path-All (λ x. x.id < c.next_id) p c.lru v.linked.fresh f,
        drop_path-All (λ x. x.id < c.next_id) p c.lru v.linked.fresh,
      );
      index = λ q.
          unfold find_path in
          ground (
            arith,
            v.linked.index q,
            find_path-drop_path p q c.lru,
            text_beq_iff p q,
            text_beq_iff e.value.path q,
            same,
            f,
          );
      keys = v.linked.keys;
    };
    fits = let h = v.fits in omega (arith, sizes);
  }
    where
      same : e.value.path ≡ p
      same = path-find_path p c.lru f

      sizes : total (drop_path p c.lru) + size e ≡ total c.lru
      sizes = total-drop_path p c.lru v.linked.distinct f

  -- Get keeps the invariant and is the lookup of the view: it answers the stored bytes exactly when
  -- the path has an entry with the signature, which becomes the most recent; a stale entry goes.
  pub get-view :
      (p : Text) (sig : Signature)
      → IsValid m (get c p sig).0
        × (view (get c p sig).0 ≡ (view_get (view c) (normalize p) sig).0)
        × ((get c p sig).1 ≡ (view_get (view c) (normalize p) sig).1)
  unfolding get clone_bytes
  get-view p sig = elim (Option-cases (find_path (normalize p) c.lru)) [
    | inl miss ↦ rw switched_on (
        rw (v.linked.index (normalize p) ∙ miss)
          (rw (find_entry-map-none (normalize p) c.lru miss, view_get) (v, refl, refl)))
    | inr (e, hit) ↦ rw switched_on (
        rw (v.linked.index (normalize p) ∙ hit) (
          rw (find_entry-map-some (normalize p) c.lru hit, view_get)
            (answered e hit (sig_beq e.value.sig sig))))
  ]
    where
      key : Text
      key = normalize p

      answered :
          (e : Element)
          → find_path key c.lru ≡ some e
          → (b : Bool)
          → (let r : Cache × Option (List ℕ) =
                if b
                then (record c { lru = move_to_front e c.lru }, some e.value.content)
                else (remove_element c e, none) in
              let s : List Entry × Option (List ℕ) =
                if b
                then (e.value ∷ drop_entry key (view c), some e.value.content)
                else (drop_entry key (view c), none) in
              IsValid m r.0 × (view r.0 ≡ s.0) × (r.1 ≡ s.1))
      answered e hit true =
          rw (move_to_front-find_path key c.lru v.linked.distinct hit)
            (touched key e hit, ap (◌∷◌ e.value) (map-drop_path key c.lru), refl)
      answered e hit false =
          rw (remove_element-find_path c key v.linked in_range hit)
            (without-IsValid key, unfold without in map-drop_path key c.lru, refl)

  -- The cache in Put after the new element is linked in, before eviction.
  module _ (key : Text) (sig : Signature) (content : List ℕ) where
    stored : Element
    stored = record { id = c.next_id; value = record { path = key; sig = sig; content = content } }

    linked_in : Cache
    linked_in = record (without c key) {
      lru = stored ∷ (without c key).lru;
      entries = Assoc.insert key stored (without c key).entries;
      used = add64 (without c key).used (pos (length content));
      next_id = (without c key).next_id + 1;
    }

    linked_in-total : total linked_in.lru ≡ length content + total (drop_path key c.lru)
    unfolding linked_in stored without
    linked_in-total = refl

    linked_in-IsLinked : length content ≤ m → IsLinked linked_in
    unfolding linked_in stored without
    linked_in-IsLinked fits =
        let w : IsLinked (without c key) = without-IsLinked key v.linked in
        let left : total (drop_path key c.lru) ≤ m = total-drop-le key in
        let small = v.small in
        record {
          used =
              add64_pos (total (drop_path key c.lru)) (length content) (omega arith)
              ∙ ap pos (omega arith);
          distinct = (
            ground (arith, find_path-drop_path key key c.lru, text_beq_iff key key),
            drop_path-All (λ x. x.id ≢ c.next_id) key c.lru (older c.lru c.next_id v.linked.fresh),
            drop_path-IsDistinct key c.lru v.linked.distinct,
          );
          fresh = (
            omega arith,
            drop_path-All (λ x. x.id < c.next_id + 1) key c.lru
                (younger c.lru c.next_id v.linked.fresh),
          );
          index = λ q.
              lookup-insert key q stored (Assoc.remove key c.entries)
              ∙ unfold find_path in ap (λ r. if key == q then some stored else r) (w.index q);
          keys = insert-NodupKeys key stored _ w.keys;
        }
      where
        older : (l : List Element) (n : ℕ) → All (λ x. x.id < n) l → All (λ x. x.id ≢ n) l
        older [] n h = tt
        older (x ∷ l) n h = (omega arith, older l n h.1)

        younger : (l : List Element) (n : ℕ) → All (λ x. x.id < n) l → All (λ x. x.id < n + 1) l
        younger [] n h = tt
        younger (x ∷ l) n h = (omega arith, younger l n h.1)

    store_lem : store c key sig content ≡ evict_locked linked_in
    unfolding store linked_in stored clone_bytes without
    store_lem = rw (remove_key_lem c key v.linked in_range)

    store-view :
        length content ≤ m
        → IsValid m (store c key sig content)
          × (view (store c key sig content)
              ≡ fit_entries m
                  (record { path = key; sig = sig; content = content } ∷ drop_entry key (view c)))
    store-view fits =
        let left = total-drop-le key in
        let small = v.small in
        let f =
          evict_locked_lem m linked_in (unfold linked_in without in v.budget)
            (rw linked_in-total (omega arith)) (linked_in-IsLinked fits) in
        rw store_lem (
          record {
            budget = f.budget ∙ unfold linked_in without in v.budget;
            enabled = v.enabled;
            small = v.small;
            linked = f.linked;
            fits = rw f.kept (total-fit-le m linked_in.lru);
          },
          ap (map (λ e. e.value)) f.kept
              ∙ map-fit m linked_in.lru
              ∙ unfold linked_in stored without in
                ap (λ l. fit_entries m (record { path = key; sig = sig; content = content } ∷ l))
                  (map-drop_path key c.lru),
        )

  too_large : (n : ℕ) → ltb_ℤ c.max_bytes (pos n) ≡ ltb m n
  too_large n = rw v.budget (ground arith)

  -- Put keeps the invariant, the budget among it, and stores as the view says: the new entry comes
  -- first, then the others in their order as far as the budget goes; content larger than the whole
  -- budget is refused, and the path's old entry goes.
  pub put-view :
      (p : Text) (sig : Signature) (content : List ℕ)
      → IsValid m (put c p sig content).0
        × (view (put c p sig content).0 ≡ (view_put m (view c) (normalize p) sig content).0)
        × ((put c p sig content).1 ≡ (view_put m (view c) (normalize p) sig content).1)
  unfolding put
  put-view p sig content = elim (Bool-cases (ltb m (length content))) [
    | inl over ↦ rw switched_on (
        rw (too_large (length content) ∙ over) (
          rw over (
            let (kept, dropped) = invalidate-view (normalize p) in
            (kept, dropped ∙ ap (λ q. drop_entry q (view c)) (normalize-normalize p), refl))))
    | inr room ↦ rw switched_on (
        rw (too_large (length content) ∙ room) (
          rw room (
            let (kept, stored) = store-view (normalize p) sig content (ground arith) in
            (kept, stored, refl))))
  ]

  -- Clear empties the cache and keeps the invariant.
  pub clear-view : IsValid m (clear c) × (view (clear c) ≡ [])
  unfolding clear
  clear-view = (
    record {
      budget = v.budget;
      enabled = v.enabled;
      small = v.small;
      linked = record {
        used = refl;
        distinct = tt;
        fresh = tt;
        index = λ q. unfold Assoc.lookup find_path in refl;
        keys = tt;
      };
      fits = omega arith;
    },
    refl,
  )
