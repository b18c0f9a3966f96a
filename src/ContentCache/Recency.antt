-- ===== src/ContentCache/Recency.antt =====
-- The cache without pointers and map: its entries, the most recently used first, and what the
-- operations mean for them.
use rclaude.Prelude.{
  ℕ, ◌-◌, ◌<◌, ◌≤◌, ◌≡◌, refl, Bool, true, false, Option, none, some, List, [], ◌∷◌, map, arith,
  Text, length, ◌==◌, text_eq, nat_eq, if◌then◌else◌, ltb, leb,
}
use rclaude.Prelude.Int.{pos}
use rclaude.ContentCache.{Signature, Cache, Element, Entry, sig_beq}
use rclaude.ContentCache.Elements.{find_path, drop_path, total, size}
use rclaude.ContentCache.Valid.{budget_bound, IsLinked}
use rclaude.ContentCache.Budget.{fit}

pub record IsValid (m : ℕ) (c : Cache) : Type 0 where
  pub budget : c.max_bytes ≡ pos m
  pub enabled : 0 < m
  pub small : m < budget_bound
  pub linked : IsLinked c
  pub fits : total c.lru ≤ m

abbrev pub view : Cache → List Entry
view c = map (λ e. e.value) c.lru

unfoldable pub find_entry : Text → List Entry → Option Entry
find_entry p [] = none
find_entry p (e ∷ l) = if e.path == p then some e else find_entry p l

unfoldable pub drop_entry : Text → List Entry → List Entry
drop_entry p [] = []
drop_entry p (e ∷ l) = let rest = drop_entry p l in if e.path == p then rest else e ∷ rest

unfoldable pub fit_entries : ℕ → List Entry → List Entry
fit_entries room [] = []
fit_entries room (e ∷ l) =
    let rest = fit_entries (room - length e.content) l in
    if leb (length e.content) room then e ∷ rest else []

-- A hit becomes the most recent entry; a stale entry goes.
abbrev pub view_get : List Entry → Text → Signature → List Entry × Option (List ℕ)
view_get l p sig = elim (find_entry p l) [
  | none ↦ (l, none)
  | some e ↦
      if sig_beq e.sig sig then (e ∷ drop_entry p l, some e.content) else (drop_entry p l, none)
]

-- What fits is stored in front, and the entries from the first that no longer fits on go; what is
-- larger than the budget only drops the old entry.
abbrev pub view_put : ℕ → List Entry → Text → Signature → List ℕ → List Entry × Bool
view_put m l p sig content =
    if ltb m (length content)
    then (drop_entry p l, false)
    else (fit_entries m (record { path = p; sig = sig; content = content } ∷ drop_entry p l), true)

pub map-drop_path :
    (p : Text) (l : List Element)
    → map (λ e. e.value) (drop_path p l) ≡ drop_entry p (map (λ e. e.value) l)
unfolding drop_path drop_entry
map-drop_path p [] = refl
map-drop_path p (e ∷ l) = ground (arith, map-drop_path p l)

pub map-fit :
    (room : ℕ) (l : List Element)
    → map (λ e. e.value) (fit room l) ≡ fit_entries room (map (λ e. e.value) l)
unfolding fit fit_entries
map-fit room [] = refl
map-fit room (e ∷ l) = ground (arith, map-fit (room - size e) l)

pub find_entry-map-none :
    (p : Text) (l : List Element)
    → find_path p l ≡ none
    → find_entry p (map (λ e. e.value) l) ≡ none
unfolding find_path find_entry
find_entry-map-none p [] h = refl
find_entry-map-none p (e ∷ l) h = ground (arith, find_entry-map-none p l)

pub find_entry-map-some :
    (p : Text) (l : List Element) {e : Element}
    → find_path p l ≡ some e
    → find_entry p (map (λ e. e.value) l) ≡ some e.value
unfolding find_path find_entry
find_entry-map-some p [] h = cc
find_entry-map-some p (f ∷ l) {e} h = ground (arith, find_entry-map-some p l {e = e})
