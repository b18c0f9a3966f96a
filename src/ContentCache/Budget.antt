-- ===== src/ContentCache/Budget.antt =====
-- Eviction ends, and leaves the longest run of most recent elements that fits the budget.
use rclaude.Prelude.{
  ℕ, zero, suc, ◌+◌, ◌-◌, ◌^◌, ◌<◌, ◌≤◌, ◌≡◌, refl, sym, ap, ◌∙◌, ◌≢◌, some, List, [], ◌∷◌, ◌++◌,
  arith, length, text_beq_iff, text_eq, nat_eq, if◌then◌else◌, leb, ltb, Bool-cases, inl, inr,
  length-append,
}
use rclaude.Prelude.Int.{ℤ, pos, ltb_ℤ}
use rclaude.ContentCache.{Cache, Element, back, evict_rounds, evict_locked}
use rclaude.ContentCache.Elements.{find_path, drop_path, total, size, IsDistinct}
use rclaude.ContentCache.Valid.{IsLinked, without, without-IsLinked, remove_element-find_path}

-- The longest run from the front whose bytes fit.
unfoldable pub fit : ℕ → List Element → List Element
fit room [] = []
fit room (e ∷ l) = let rest = fit (room - size e) l in if leb (size e) room then e ∷ rest else []

pub total-fit-le : (room : ℕ) (l : List Element) → total (fit room l) ≤ room
unfolding fit
total-fit-le room [] = omega arith
total-fit-le room (e ∷ l) = ground (arith, total-fit-le (room - size e) l)

pub fit_of_le : (room : ℕ) (l : List Element) → total l ≤ room → fit room l ≡ l
unfolding fit
fit_of_le room [] h = refl
fit_of_le room (e ∷ l) h = ground (arith, fit_of_le (room - size e) l)

fit-snoc :
    (room : ℕ) (l : List Element) (e : Element)
    → room < total (l ++ e ∷ [])
    → fit room (l ++ e ∷ []) ≡ fit room l
unfolding fit
fit-snoc room [] e h = ground arith
fit-snoc room (f ∷ l) e h = ground (arith, fit-snoc (room - size f) l e)

back-snoc :
    (l : List Element)
    → l ≢ []
    → (e : Element) × (init : List Element) × (back l ≡ some e) × (l ≡ init ++ e ∷ [])
unfolding back
back-snoc [] h = absurd (h refl)
back-snoc (e ∷ []) h = (e, [], refl, refl)
back-snoc (e ∷ f ∷ l) h =
    let (last, init, found, split) = back-snoc (f ∷ l) (λ p. cc) in
    (last, e ∷ init, found, ap (◌∷◌ e) split)

-- The last element of a list without double paths is found by its path, and dropped with it.
snoc_found :
    (init : List Element) (e : Element)
    → IsDistinct (init ++ e ∷ [])
    → (find_path e.value.path (init ++ e ∷ []) ≡ some e)
      × (drop_path e.value.path (init ++ e ∷ []) ≡ init)
unfolding find_path drop_path
snoc_found [] e d = ground (arith, text_beq_iff e.value.path e.value.path)
snoc_found (f ∷ init) e d =
    ground (arith, snoc_found init e d.2, text_beq_iff f.value.path e.value.path)

total-snoc : (init : List Element) (e : Element) → total (init ++ e ∷ []) ≡ total init + size e
total-snoc [] e = omega arith
total-snoc (f ∷ init) e = omega (arith, total-snoc init e)

-- What eviction leaves of a cache.
pub record IsFitted (m : ℕ) (before after : Cache) : Type 0 where
  pub linked : IsLinked after
  pub kept : after.lru ≡ fit m before.lru
  pub budget : after.max_bytes ≡ before.max_bytes
  pub supply : after.next_id ≡ before.next_id

IsFitted-within : (m : ℕ) (c : Cache) → total c.lru ≤ m → IsLinked c → IsFitted m c c
IsFitted-within m c t h = record {
  linked = h;
  kept = sym (fit_of_le m c.lru t);
  budget = refl;
  supply = refl;
}

-- One round that takes the last element off.
round_IsFitted :
    (m : ℕ) (c : Cache) (init : List Element) (e : Element) (after : Cache)
    → c.lru ≡ init ++ e ∷ []
    → m < total c.lru
    → IsLinked c
    → IsFitted m (without c e.value.path) after
    → IsFitted m c after
unfolding without
round_IsFitted m c init e after split t h f = record {
  linked = f.linked;
  kept =
      f.kept
      ∙ ap (fit m)
          (ap (drop_path e.value.path) split ∙ (snoc_found init e (rw split at h.distinct)).1)
      ∙ sym (ap (fit m) split ∙ fit-snoc m init e (rw split at t));
  budget = f.budget;
  supply = f.supply;
}

without-init :
    (c : Cache) (init : List Element) (e : Element)
    → c.lru ≡ init ++ e ∷ []
    → IsLinked c
    → (without c e.value.path).lru ≡ init
unfolding without
without-init c init e split h =
    ap (drop_path e.value.path) split ∙ (snoc_found init e (rw split at h.distinct)).1

over_budget :
    (m : ℕ) (max used : ℤ) (all : ℕ) → max ≡ pos m → used ≡ pos all → ltb_ℤ max used ≡ ltb m all
over_budget m max used all b u = rw b (rw u (ground arith))

full_of_total : (l : List Element) (m : ℕ) → m < total l → l ≢ []
full_of_total [] m h = λ e. omega arith
full_of_total (e ∷ l) m h = λ p. cc

-- With a round of fuel for each element eviction ends within the budget.
evict_rounds_lem :
    (fuel m : ℕ) (c : Cache)
    → length c.lru ≤ fuel
    → c.max_bytes ≡ pos m
    → total c.lru < 2 ^ 63
    → IsLinked c
    → IsFitted m c (evict_rounds fuel c)
unfolding evict_rounds
evict_rounds_lem zero m c n b t h = IsFitted-within m c (empty_total c.lru n) h
  where
    empty_total : (l : List Element) → length l ≤ 0 → total l ≤ m
    empty_total [] n = omega arith
    empty_total (e ∷ l) n = absurd (omega arith)
evict_rounds_lem (suc fuel) m c n b t h = elim (Bool-cases (ltb_ℤ c.max_bytes c.used)) [
  | inl over ↦
      let more : m < total c.lru = ground (arith, over_budget m c.max_bytes c.used (total c.lru)) in
      let (e, init, found, split) = back-snoc c.lru (full_of_total c.lru m more) in
      let dropped : (without c e.value.path).lru ≡ init = without-init c init e split h in
      let sizes : total c.lru ≡ total init + size e = ap total split ∙ total-snoc init e in
      let lengths : length c.lru ≡ length init + 1 =
        ap length split ∙ length-append init (e ∷ []) in
      rw (over, evict_rounds)
        (rw (found, evict_rounds)
          (rw
            (remove_element-find_path c e.value.path h t
              (ap (find_path e.value.path) split ∙ (snoc_found init e (rw split at h.distinct)).0))
            (round_IsFitted m c init e _ split more h (
              evict_rounds_lem fuel m (without c e.value.path) (rw dropped (omega arith))
                (unfold without in b) (rw dropped (omega arith))
                (without-IsLinked e.value.path h)))))
  | inr within ↦
      rw (within, evict_rounds)
        (IsFitted-within m c (ground (arith, over_budget m c.max_bytes c.used (total c.lru))) h)
]

pub evict_locked_lem :
    (m : ℕ) (c : Cache)
    → c.max_bytes ≡ pos m
    → total c.lru < 2 ^ 63
    → IsLinked c
    → IsFitted m c (evict_locked c)
unfolding evict_locked
evict_locked_lem m c b t h = evict_rounds_lem (length c.lru) m c (omega arith) b t h
