-- ===== src/Prelude/Assoc.antt =====
-- Go maps as association lists. The order of entries stands for the order in which a `range`
-- happens to visit them.
use rclaude.Prelude.Tests.{Eq, ◌==◌, if◌then◌else◌}
use mathlib.Core.Path.{◌≡◌, refl}
use mathlib.Core.Option.{Option, none, some}
use mathlib.Core.List.{List, [], ◌∷◌}
use native.Mathlib.Omega.{arith}

abbrev pub Assoc {ℓ κ} : Type ℓ → Type κ → Type (ℓ ⊔ κ)
Assoc K V = List (K × V)

module _ {ℓ κ} {K : Type ℓ} {V : Type κ} ⦃e : Eq K⦄ where
  -- v, ok := m[k]
  unfoldable pub lookup : K → Assoc K V → Option V
  lookup key [] = none
  lookup key ((name, value) ∷ rest) = if name == key then some value else lookup key rest

  -- m[k] = v
  unfoldable pub insert : K → V → Assoc K V → Assoc K V
  insert key value [] = (key, value) ∷ []
  insert key value ((name, old) ∷ rest) =
      let kept = (name, old) ∷ insert key value rest in
      if name == key then (key, value) ∷ rest else kept

  -- delete(m, k)
  unfoldable pub remove : K → Assoc K V → Assoc K V
  remove k [] = []
  remove k ((j, w) ∷ m) = let rest = remove k m in if j == k then rest else (j, w) ∷ rest

  pub lookup-insert :
      (key other : K) (value : V) (m : Assoc K V)
      → lookup other (insert key value m) ≡ (if key == other then some value else lookup other m)
  unfolding lookup insert
  lookup-insert key other value [] = refl
  lookup-insert key other value ((name, _) ∷ rest) = ground (
    arith,
    lookup-insert key other value rest,
    e.same_iff name key,
    e.same_iff name other,
    e.same_iff key other,
  )

  pub lookup-remove :
      (k j : K) (m : Assoc K V) → lookup j (remove k m) ≡ (if k == j then none else lookup j m)
  unfolding lookup remove
  lookup-remove k j [] = ground arith
  lookup-remove k j ((i, w) ∷ m) =
      ground (arith, e.same_iff k j, e.same_iff i k, e.same_iff i j, lookup-remove k j m)

  pub lookup-nil : (k : K) → lookup k [] ≡ none
  unfolding lookup
  lookup-nil k = refl

  -- Every key stands once.
  abbrev pub NodupKeys : Assoc K V → Type κ
  NodupKeys [] = Unit
  NodupKeys ((k, _) ∷ m) = (lookup k m ≡ none) × NodupKeys m

  pub insert-NodupKeys : (k : K) (v : V) (m : Assoc K V) → NodupKeys m → NodupKeys (insert k v m)
  unfolding insert
  insert-NodupKeys k v [] _ = (lookup-nil k, tt)
  insert-NodupKeys k v ((j, _) ∷ m) (fresh, u) =
      ground
        (arith, insert-NodupKeys k v m u, lookup-insert k j v m, e.same_iff j k, e.same_iff k j)

  pub remove-NodupKeys : (k : K) (m : Assoc K V) → NodupKeys m → NodupKeys (remove k m)
  unfolding remove
  remove-NodupKeys k [] _ = tt
  remove-NodupKeys k ((j, _) ∷ m) (fresh, u) =
      ground (arith, remove-NodupKeys k m u, lookup-remove k j m)
