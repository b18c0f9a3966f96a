-- ===== src/Syncer/SelfWrite.antt =====
-- pkg/syncer/selfwrite.go: paths that the daemon wrote a moment ago, with the time until which the
-- watcher's events about them are its own.
use rclaude.Prelude.{
  ℕ, ◌+◌, ◌≡◌, refl, Bool, false, not, ◌&&◌, ◌||◌, Option, none, some, List, [], ◌∷◌, Text, ltb,
  ◌==◌, text_eq, length, text_beq_iff, if◌then◌else◌, arith, ap, ◌∙◌, Bool-cases, inl, inr,
}
use rclaude.Prelude.Int.{ℤ, pos, pos_part, leb_ℤ}
use rclaude.Prelude.Assoc
use rclaude.Prelude.Assoc.{Assoc, NodupKeys}
use rclaude.SafePath.{to_slash}

pub record SelfWriteFilter : Type 0 where
  pub ttl : ℤ
  pub entries : Assoc Text ℕ

-- newSelfWriteFilter
unfoldable pub new_self_write_filter : ℤ → SelfWriteFilter
new_self_write_filter ttl = record { ttl = ttl; entries = [] }

-- Remember, at the time `now`
unfoldable pub store_paths : ℕ → List Text → Assoc Text ℕ → Assoc Text ℕ
store_paths expiry [] entries = entries
store_paths expiry (path ∷ paths) entries =
    store_paths expiry paths (Assoc.insert (to_slash path) expiry entries)

unfoldable pub remember : ℕ → List Text → SelfWriteFilter → SelfWriteFilter
remember now paths f =
    if leb_ℤ f.ttl (pos 0)
    then f
    else record f { entries = store_paths (now + pos_part f.ttl) paths f.entries }

-- The loop of ShouldSuppress over the map as it stands at the start.
unfoldable pub drop_expired : ℕ → Assoc Text ℕ → Assoc Text ℕ → Assoc Text ℕ
drop_expired now [] entries = entries
drop_expired now ((candidate, expiry) ∷ rest) entries =
    drop_expired now rest (if not (ltb now expiry) then Assoc.remove candidate entries else entries)

-- ok && expiry.After(now)
abbrev pub is_after : ℕ → Option ℕ → Bool
is_after now none = false
is_after now (some expiry) = ltb now expiry

-- ShouldSuppress, at the time `now`
unfoldable pub should_suppress : ℕ → Text → SelfWriteFilter → SelfWriteFilter × Bool
should_suppress now path f =
    if leb_ℤ f.ttl (pos 0)
    then (f, false)
    else (let entries = drop_expired now f.entries f.entries in
        (record f { entries = entries }, is_after now (Assoc.lookup (to_slash path) entries)))

-- size
unfoldable pub size : SelfWriteFilter → ℕ
size f = length f.entries

-- Whether one of the paths has the key of this one.
abbrev pub mentions : List Text → Text → Bool
mentions [] key = false
mentions (path ∷ paths) key = to_slash path == key || mentions paths key

lookup-store_paths :
    (expiry : ℕ) (key : Text) (paths : List Text) (entries : Assoc Text ℕ)
    → Assoc.lookup key (store_paths expiry paths entries)
      ≡ (if mentions paths key then some expiry else Assoc.lookup key entries)
unfolding store_paths
lookup-store_paths expiry key [] entries = refl
lookup-store_paths expiry key (path ∷ paths) entries =
    lookup-store_paths expiry key paths (Assoc.insert (to_slash path) expiry entries)
    ∙ ground (arith, Assoc.lookup-insert (to_slash path) key expiry entries)

abbrev stale : ℕ → Text → Assoc Text ℕ → Bool
stale now key [] = false
stale now key ((candidate, expiry) ∷ rest) =
    (candidate == key && not (ltb now expiry)) || stale now key rest

lookup-drop_expired :
    (now : ℕ) (key : Text) (rest entries : Assoc Text ℕ)
    → Assoc.lookup key (drop_expired now rest entries)
      ≡ (if stale now key rest then none else Assoc.lookup key entries)
unfolding drop_expired
lookup-drop_expired now key [] entries = refl
lookup-drop_expired now key ((candidate, expiry) ∷ rest) entries =
    lookup-drop_expired now key rest
      (if not (ltb now expiry) then Assoc.remove candidate entries else entries)
    ∙ ground (arith, Assoc.lookup-remove candidate key entries)

stale_absent :
    (now : ℕ) (key : Text) (entries : Assoc Text ℕ)
    → Assoc.lookup key entries ≡ none
    → stale now key entries ≡ false
unfolding Assoc.lookup
stale_absent now key [] h = refl
stale_absent now key ((candidate, expiry) ∷ rest) h = ground (arith, stale_absent now key rest)

-- What is dropped would not have counted anyway.
is_after-drop_expired :
    (now : ℕ) (key : Text) (entries : Assoc Text ℕ)
    → NodupKeys entries
    → is_after now (if stale now key entries then none else Assoc.lookup key entries)
      ≡ is_after now (Assoc.lookup key entries)
unfolding Assoc.lookup
is_after-drop_expired now key [] n = refl
is_after-drop_expired now key ((candidate, expiry) ∷ rest) (fresh, n) =
    elim (Bool-cases (candidate == key)) [
      | inl same ↦
          let absent : Assoc.lookup key rest ≡ none =
            rw (← (text_beq_iff candidate key).0 same) fresh in
          ground (arith, stale_absent now key rest absent)
      | inr other ↦ ground (arith, is_after-drop_expired now key rest n)
    ]

store_paths-NodupKeys :
    (expiry : ℕ) (paths : List Text) (entries : Assoc Text ℕ)
    → NodupKeys entries
    → NodupKeys (store_paths expiry paths entries)
unfolding store_paths
store_paths-NodupKeys expiry [] entries n = n
store_paths-NodupKeys expiry (path ∷ paths) entries n =
    store_paths-NodupKeys expiry paths (Assoc.insert (to_slash path) expiry entries)
      (Assoc.insert-NodupKeys (to_slash path) expiry entries n)

should_suppress_lem :
    (now : ℕ) (path : Text) (f : SelfWriteFilter)
    → NodupKeys f.entries
    → leb_ℤ f.ttl (pos 0) ≡ false
    → (should_suppress now path f).1 ≡ is_after now (Assoc.lookup (to_slash path) f.entries)
unfolding should_suppress
should_suppress_lem now path f n on = rw on (
    ap (is_after now) (lookup-drop_expired now (to_slash path) f.entries f.entries)
    ∙ is_after-drop_expired now (to_slash path) f.entries n)

-- With a lifetime above zero and each path once in the map, an event is suppressed exactly if its
-- path is among the remembered ones and less than the lifetime has passed, or, for another path,
-- if it was suppressed anyway.
pub remember-should_suppress :
    (past now : ℕ) (paths : List Text) (path : Text) (f : SelfWriteFilter)
    → NodupKeys f.entries
    → leb_ℤ f.ttl (pos 0) ≡ false
    → (should_suppress now path (remember past paths f)).1 ≡ (
        if mentions paths (to_slash path)
        then ltb now (past + pos_part f.ttl)
        else (should_suppress now path f).1)
unfolding remember
remember-should_suppress past now paths path f n on =
    let stored = store_paths (past + pos_part f.ttl) paths f.entries in
    rw on (
      should_suppress_lem now path (record f { entries = stored })
        (store_paths-NodupKeys (past + pos_part f.ttl) paths f.entries n) on
      ∙ (ap (is_after now)
            (lookup-store_paths (past + pos_part f.ttl) (to_slash path) paths f.entries)
          ∙ ground (arith, should_suppress_lem now path f n on)))
