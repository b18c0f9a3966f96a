-- ===== src/ContentCache/Prefix.antt =====
-- InvalidatePrefix drops every entry at or below the path, whatever the order of the map.
use rclaude.Prelude.{
  ℕ, ◌||◌, ◌&&◌, ◌++◌, Bool, starts_with, text_beq, nat_eq, ◌≡◌, refl, sym, ap, ◌∙◌, ◌≢◌, true,
  false, none, some, List, [], ◌∷◌, map, arith, Text, text_beq_iff, All, ◌==◌, text_eq,
  if◌then◌else◌, Bool-cases, Option-cases, inl, inr,
}
use rclaude.Prelude.Assoc
use rclaude.Prelude.Assoc.{Assoc, NodupKeys}
use rclaude.Paths.{slash}
use rclaude.ContentCache.{
  Cache, Element, Entry, normalize, matches_prefix, remove_element, remove_matching,
  invalidate_prefix,
}
use rclaude.ContentCache.Elements.{find_path, drop_path, find_path-drop_path}
use rclaude.ContentCache.Valid.{without, remove_element-find_path}
use rclaude.ContentCache.Recency.{IsValid, view}
use rclaude.ContentCache.Refines.{in_range, switched_on, without-IsValid}

-- The path is the prefix, or goes on with a slash after it.
unfoldable pub continues : Text → Text → Bool
continues [] [] = true
continues [] (d ∷ path) = d == slash
continues (c ∷ prefix) [] = false
continues (c ∷ prefix) (d ∷ path) = c == d && continues prefix path

-- The path is the prefix or lies below it; all paths lie below the empty one, the root.
abbrev pub lies_under : Text → Text → Bool
lies_under prefix path = prefix == [] || continues prefix path

pub continues_lem :
    (prefix path : Text)
    → (path == prefix || starts_with path (prefix ++ slash ∷ [])) ≡ continues prefix path
unfolding continues starts_with text_beq
continues_lem [] [] = refl
continues_lem [] (d ∷ path) = ground arith
continues_lem (c ∷ prefix) [] = refl
continues_lem (c ∷ prefix) (d ∷ path) = ground (arith, continues_lem prefix path)

pub matches_prefix-lies_under :
    (path prefix : Text) → matches_prefix path prefix ≡ lies_under prefix path
unfolding matches_prefix
matches_prefix-lies_under path prefix = ground (arith, continues_lem prefix path)

module _ (prefix : Text) where
  -- The entries that are not at or below the prefix.
  unfoldable pub keep_outside : List Entry → List Entry
  keep_outside [] = []
  keep_outside (e ∷ l) =
      let rest = keep_outside l in if lies_under prefix e.path then rest else e ∷ rest

  outside : List Element → List Element
  outside [] = []
  outside (e ∷ l) =
      let rest = outside l in if matches_prefix e.value.path prefix then rest else e ∷ rest

  map-outside :
      (l : List Element) → map (λ e. e.value) (outside l) ≡ keep_outside (map (λ e. e.value) l)
  unfolding outside keep_outside
  map-outside [] = refl
  map-outside (e ∷ l) = ground (arith, map-outside l, matches_prefix-lies_under e.value.path prefix)

  outside-drop_path :
      (p : Text) (l : List Element)
      → matches_prefix p prefix ≡ true
      → outside (drop_path p l) ≡ outside l
  unfolding outside drop_path
  outside-drop_path p [] h = refl
  outside-drop_path p (e ∷ l) h = ground (arith, text_beq_iff e.value.path p, outside-drop_path p l)

  abbrev HasNone : List Element → Type 0
  HasNone l = (p : Text) → matches_prefix p prefix ≡ true → find_path p l ≡ none

  head_outside :
      (e : Element) (l : List Element)
      → HasNone (e ∷ l)
      → matches_prefix e.value.path prefix ≡ false
  unfolding find_path
  head_outside e l h = elim (Bool-cases (matches_prefix e.value.path prefix)) [
    | inl m ↦ absurd (ground (arith, h e.value.path m, text_beq_iff e.value.path e.value.path))
    | inr m ↦ m
  ]

  tail_HasNone : (e : Element) (l : List Element) → HasNone (e ∷ l) → HasNone l
  unfolding find_path
  tail_HasNone e l h p m = ground (arith, h p m)

  outside_of_HasNone : (l : List Element) → HasNone l → outside l ≡ l
  unfolding outside
  outside_of_HasNone [] h = refl
  outside_of_HasNone (e ∷ l) h =
      rw (head_outside e l h) (ap (◌∷◌ e) (outside_of_HasNone l (tail_HasNone e l h)))

  -- What the loop has done to a cache after it has visited some entries.
  record IsSwept (m : ℕ) (visited : Assoc Text Element) (before after : Cache) : Type 0 where
    valid : IsValid m after
    same : outside after.lru ≡ outside before.lru
    gone :
        (p : Text)
        → matches_prefix p prefix ≡ true
        → Assoc.lookup p visited ≢ none
        → find_path p after.lru ≡ none
    still : (p : Text) → find_path p before.lru ≡ none → find_path p after.lru ≡ none

  abbrev Listed : Cache → Assoc Text Element → Type 0
  Listed c = All (λ pair. find_path pair.0 c.lru ≡ some pair.1)

  Listed-without :
      (c : Cache) (p : Text) (l : Assoc Text Element)
      → Assoc.lookup p l ≡ none
      → Listed c l
      → Listed (without c p) l
  unfolding without Assoc.lookup
  Listed-without c p [] f h = tt
  Listed-without c p ((q, e) ∷ l) f h = (
    ground (arith, find_path-drop_path p q c.lru, text_beq_iff p q, text_beq_iff q p, h.0),
    Listed-without c p l (ground arith) h.1,
  )

  sweep_one :
      (m : ℕ) (c : Cache) (p : Text) (e : Element)
      → IsValid m c
      → find_path p c.lru ≡ some e
      → remove_element c e ≡ without c p
  sweep_one m c p e v f = remove_element-find_path c p v.linked (in_range m c v) f

  skip :
      (q : Text) (e : Element) (l : Assoc Text Element) (p : Text)
      → (q == p) ≡ false
      → Assoc.lookup p ((q, e) ∷ l) ≡ Assoc.lookup p l
  unfolding Assoc.lookup
  skip q e l p h = rw h

  apart :
      (q p : Text)
      → matches_prefix q prefix ≡ false
      → matches_prefix p prefix ≡ true
      → (q == p) ≡ false
  apart q p miss hit = elim (Bool-cases (q == p)) [
    | inl same ↦ absurd (ground (arith, text_beq_iff q p))
    | inr other ↦ other
  ]

  gone_after :
      (c : Cache) (q : Text) (e : Element) (l : Assoc Text Element) (p : Text)
      → matches_prefix p prefix ≡ true
      → Assoc.lookup p ((q, e) ∷ l) ≢ none
      → (after : Cache)
      → ((p : Text)
          → matches_prefix p prefix ≡ true
          → Assoc.lookup p l ≢ none
          → find_path p after.lru ≡ none)
      → ((p : Text) → find_path p (without c q).lru ≡ none → find_path p after.lru ≡ none)
      → find_path p after.lru ≡ none
  gone_after c q e l p k f after gone still = elim (Bool-cases (q == p)) [
    | inl same ↦ still p (unfold without in find_path-drop_path q p c.lru ∙ rw same)
    | inr other ↦ gone p k (λ z. f (skip q e l p other ∙ z))
  ]

  remove_matching-IsSwept :
      (m : ℕ) (l : Assoc Text Element) (c : Cache)
      → NodupKeys l
      → Listed c l
      → IsValid m c
      → IsSwept m l c (remove_matching prefix l c)
  unfolding remove_matching Assoc.lookup
  remove_matching-IsSwept m [] c n h v = record {
    valid = v;
    same = refl;
    gone = λ p k f. absurd (f refl);
    still = λ p f. f;
  }
  remove_matching-IsSwept m ((q, e) ∷ l) c n h v = elim (Bool-cases (matches_prefix q prefix)) [
    | inl hit ↦
        let s =
          remove_matching-IsSwept m l (without c q) n.1 (Listed-without c q l n.0 h.1)
            (without-IsValid m c v q) in
        rw hit (
          rw (sweep_one m c q e v h.0) (record {
            valid = s.valid;
            same = s.same ∙ unfold without in outside-drop_path q c.lru hit;
            gone = λ p k f.
                gone_after c q e l p k f (remove_matching prefix l (without c q)) s.gone s.still;
            still =
                λ p f. s.still p (unfold without in ground (arith, find_path-drop_path q p c.lru));
          }))
    | inr miss ↦
        let s = remove_matching-IsSwept m l c n.1 h.1 v in
        rw miss (record {
          valid = s.valid;
          same = s.same;
          gone = λ p k f. s.gone p k (λ z. f (skip q e l p (apart q p miss k) ∙ z));
          still = s.still;
        })
  ]

  HasNone-sweep :
      (m : ℕ) (c after : Cache) → IsValid m c → IsSwept m c.entries c after → HasNone after.lru
  HasNone-sweep m c after v s p k = elim (Option-cases (Assoc.lookup p c.entries)) [
    | inl miss ↦ s.still p (sym (v.linked.index p) ∙ miss)
    | inr (e, hit) ↦ s.gone p k (λ z. cc)
  ]

Listed-index :
    (c : Cache) (l : Assoc Text Element)
    → NodupKeys l
    → ((p : Text) (e : Element) → Assoc.lookup p l ≡ some e → find_path p c.lru ≡ some e)
    → All (λ pair. find_path pair.0 c.lru ≡ some pair.1) l
unfolding Assoc.lookup
Listed-index c [] n h = tt
Listed-index c ((q, e) ∷ l) n h = (
  h q e (rw ((text_beq_iff q q).1 refl)),
  Listed-index c l n.1 (λ p f k. h p f (below q p f k n.0)),
)
  where
    below :
        (q p : Text) (f : Element)
        → Assoc.lookup p l ≡ some f
        → Assoc.lookup q l ≡ none
        → Assoc.lookup p ((q, e) ∷ l) ≡ some f
    below q p f k miss = ground (arith, text_beq_iff q p)

-- InvalidatePrefix keeps the invariant, drops exactly the entries whose path is the prefix or lies
-- below it, all of them for the empty prefix, and keeps the order of the others.
pub invalidate_prefix-view :
    (m : ℕ) (c : Cache) (p : Text)
    → IsValid m c
    → IsValid m (invalidate_prefix c p)
      × (view (invalidate_prefix c p) ≡ keep_outside (normalize p) (view c))
unfolding invalidate_prefix
invalidate_prefix-view m c p v =
    let prefix = normalize p in
    let after = remove_matching prefix c.entries c in
    let listed = Listed-index c c.entries v.linked.keys (λ q e h. sym (v.linked.index q) ∙ h) in
    let s = remove_matching-IsSwept prefix m c.entries c v.linked.keys listed v in
    rw (switched_on m c v) (
      s.valid,
      ap (map (λ e. e.value)) (
            sym (outside_of_HasNone prefix after.lru (HasNone-sweep prefix m c after v s)) ∙ s.same)
          ∙ map-outside prefix c.lru,
    )
