-- ===== src/ContentCache/Elements.antt =====
-- Lists of cache elements: by path, by pointer and by size.
use mathlib.Core.Option.{some-injective}
use mathlib.Core.Path.{subst}
use rclaude.Prelude.{
  ℕ, ◌+◌, ◌≡◌, refl, sym, ap, ◌≢◌, true, Option, none, some, List, [], ◌∷◌, arith, Text, length,
  text_beq_iff, All, ◌==◌, text_eq, nat_eq, if◌then◌else◌, Bool-cases, inl, inr,
}
use rclaude.ContentCache.{Element, list_remove, has_id, move_to_front}

-- The first element with the path.
unfoldable pub find_path : Text → List Element → Option Element
find_path p [] = none
find_path p (e ∷ l) = if e.value.path == p then some e else find_path p l

unfoldable pub drop_path : Text → List Element → List Element
drop_path p [] = []
drop_path p (e ∷ l) = let rest = drop_path p l in if e.value.path == p then rest else e ∷ rest

abbrev pub size : Element → ℕ
size e = length e.value.content

abbrev pub total : List Element → ℕ
total [] = 0
total (e ∷ l) = size e + total l

-- No path and no pointer stands twice.
abbrev pub IsDistinct : List Element → Type 0
IsDistinct [] = Unit
IsDistinct (e ∷ l) = (find_path e.value.path l ≡ none) × All (λ f. f.id ≢ e.id) l × IsDistinct l

pub path-find_path :
    (p : Text) (l : List Element) {e : Element} → find_path p l ≡ some e → e.value.path ≡ p
unfolding find_path
path-find_path p [] h = cc
path-find_path p (f ∷ l) {e} h =
    ground (arith, text_beq_iff f.value.path p, path-find_path p l {e = e})

pub find_path-drop_path :
    (p q : Text) (l : List Element)
    → find_path q (drop_path p l) ≡ (if p == q then none else find_path q l)
unfolding find_path drop_path
find_path-drop_path p q [] = ground arith
find_path-drop_path p q (f ∷ l) = ground (
  arith,
  text_beq_iff f.value.path p,
  text_beq_iff f.value.path q,
  text_beq_iff p q,
  find_path-drop_path p q l,
)

pub drop_path_absent : (p : Text) (l : List Element) → find_path p l ≡ none → drop_path p l ≡ l
unfolding find_path drop_path
drop_path_absent p [] h = refl
drop_path_absent p (f ∷ l) h = ground (arith, drop_path_absent p l)

pub total-drop_path :
    (p : Text) (l : List Element) {e : Element}
    → IsDistinct l
    → find_path p l ≡ some e
    → total (drop_path p l) + size e ≡ total l
unfolding find_path drop_path
total-drop_path p [] d h = cc
total-drop_path p (f ∷ l) {e} d h =
    ground
      (arith, text_beq_iff f.value.path p, total-drop_path p l {e = e} d.2, drop_path_absent p l)

module _ (P : Element → Type 0) where
  pub find_path-All :
      (p : Text) (l : List Element) {e : Element} → All P l → find_path p l ≡ some e → P e
  unfolding find_path
  find_path-All p [] h k = cc
  find_path-All p (f ∷ l) {e} h k = elim (Bool-cases (f.value.path == p)) [
    | inl here ↦ subst P (some-injective f e (ground arith)) h.0
    | inr other ↦ find_path-All p l h.1 (ground arith)
  ]

  pub drop_path-All : (p : Text) (l : List Element) → All P l → All P (drop_path p l)
  unfolding drop_path
  drop_path-All p [] h = tt
  drop_path-All p (f ∷ l) h = elim (Bool-cases (f.value.path == p)) [
    | inl here ↦ rw here (drop_path-All p l h.1)
    | inr other ↦ rw other (h.0, drop_path-All p l h.1)
  ]

pub drop_path-IsDistinct : (p : Text) (l : List Element) → IsDistinct l → IsDistinct (drop_path p l)
unfolding drop_path
drop_path-IsDistinct p [] d = tt
drop_path-IsDistinct p (f ∷ l) d = elim (Bool-cases (f.value.path == p)) [
  | inl here ↦ rw here (drop_path-IsDistinct p l d.2)
  | inr other ↦ rw other (
    ground (arith, find_path-drop_path p f.value.path l),
    drop_path-All (λ g. g.id ≢ f.id) p l d.1,
    drop_path-IsDistinct p l d.2,
  )
]

-- To remove the element that a path leads to is to drop the path.
pub list_remove-find_path :
    (p : Text) (l : List Element) {e : Element}
    → IsDistinct l
    → find_path p l ≡ some e
    → list_remove e.id l ≡ drop_path p l
unfolding find_path drop_path list_remove
list_remove-find_path p [] d h = cc
list_remove-find_path p (f ∷ l) {e} d h = elim (Bool-cases (f.value.path == p)) [
  | inl here ↦ ground (arith, text_beq_iff f.value.path p, drop_path_absent p l)
  | inr other ↦ ground (
    arith,
    find_path-All (λ g. g.id ≢ f.id) p l {e = e} d.1,
    list_remove-find_path p l {e = e} d.2,
  )
]

has_id-find_path :
    (p : Text) (l : List Element) {e : Element} → find_path p l ≡ some e → has_id e.id l ≡ true
unfolding find_path
has_id-find_path p [] h = cc
has_id-find_path p (f ∷ l) {e} h = ground (arith, has_id-find_path p l {e = e})

pub move_to_front-find_path :
    (p : Text) (l : List Element) {e : Element}
    → IsDistinct l
    → find_path p l ≡ some e
    → move_to_front e l ≡ e ∷ drop_path p l
unfolding move_to_front
move_to_front-find_path p l {e} d h =
    rw (has_id-find_path p l h) (ap (◌∷◌ e) (list_remove-find_path p l d h))

pub drop_path-ids :
    (p : Text) (l : List Element) {e : Element}
    → IsDistinct l
    → find_path p l ≡ some e
    → All (λ f. f.id ≢ e.id) (drop_path p l)
unfolding find_path drop_path
drop_path-ids p [] d h = tt
drop_path-ids p (f ∷ l) {e} d h = elim (Bool-cases (f.value.path == p)) [
  | inl here ↦
      let same : f ≡ e = some-injective f e (ground arith) in
      rw here (
        rw (drop_path_absent p l (ground (arith, text_beq_iff f.value.path p)))
          (subst (λ x. All (λ g. g.id ≢ x.id) l) same d.1))
  | inr other ↦
      let found : find_path p l ≡ some e = ground arith in
      rw other
        ((λ q. find_path-All (λ g. g.id ≢ f.id) p l d.1 found (sym q)), drop_path-ids p l d.2 found)
]
