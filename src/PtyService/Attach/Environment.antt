-- ===== src/PtyService/Attach/Environment.antt =====
-- What a program sees of the environment of the server.
use mathlib.Core.List.{append_assoc}
use rclaude.Prelude.{
  ◌≡◌, refl, ap, ◌∙◌, ◌⊎◌, inl, inr, true, false, Option, none, some, List, [], ◌∷◌, ◌++◌, Text,
  codes, ◌==◌, text_eq, nat_eq, text_beq_iff, arith, All, Bool-cases,
}
use rclaude.Prelude.Assoc
use rclaude.Prelude.Assoc.{Assoc}
use rclaude.Sorting.{member}
use rclaude.PtyHost.{build_env, env_key_allowed, compile_env_allowlist, term_key, is_safe_term}
use rclaude.PtyHost.Policy.{IsEntry, IsPassed, build_env-IsPassed}
use rclaude.PtyService.Plan.{Machine, env_map, env_each, with_pair, cut_equals}

-- A variable of the server, as os.Environ has it, under an allowed key; or the TERM of the client.
abbrev pub IsSeen : Machine → List Text → Text → Text → Type 0
IsSeen m whitelist client_term pair =
    ((key : Text) × (value : Text) × (pair ≡ key ++ b'=' ∷ value)
      × (member pair m.environ ≡ true)
      × All (λ c. (c == b'=') ≡ false) key
      × (env_key_allowed m.path_match key (compile_env_allowlist whitelist) ≡ true))
    ⊎ ((pair ≡ codes "TERM=" ++ client_term)
        × (env_key_allowed m.path_match term_key (compile_env_allowlist whitelist) ≡ true)
        × (is_safe_term m.is_letter m.is_digit client_term ≡ true))

-- The key and the value that are cut from one of the pairs.
abbrev IsCut : Text → Text → List Text → Type 0
IsCut key value pairs =
    (member (key ++ b'=' ∷ value) pairs ≡ true) × All (λ c. (c == b'=') ≡ false) key

cut_equals_sound :
    (pair key value : Text)
    → cut_equals pair ≡ some (key, value)
    → (pair ≡ key ++ b'=' ∷ value) × All (λ c. (c == b'=') ≡ false) key
unfolding cut_equals
cut_equals_sound [] key value e = cc
cut_equals_sound (c ∷ s) key value e = elim (Bool-cases (c == b'=')) [
  | inl here ↦
      let k : ◌≡◌ {A = Option (Text × Text)} (some ([], s)) (some (key, value)) = rw here at e in
      let empty : [] ≡ key = ap first k in
      let same : s ≡ value = ap second k in
      (rw (← empty, ← same) (ap (λ d. d ∷ s) (ground arith)), rw (← empty) tt)
  | inr other ↦ later other (cut_equals_sound s) (cut_equals s) refl (rw other at e)
]
  where
    first : Option (Text × Text) → Text
    first none = []
    first (some (k, _)) = k

    second : Option (Text × Text) → Text
    second none = []
    second (some (_, v)) = v

    later :
        (c == b'=') ≡ false
        → ((k v : Text)
            → cut_equals s ≡ some (k, v)
            → (s ≡ k ++ b'=' ∷ v) × All (λ c. (c == b'=') ≡ false) k)
        → (o : Option (Text × Text)) → cut_equals s ≡ o
        → ◌≡◌ {A = Option (Text × Text)}
            (elim o [ none ↦ none | some (k, v) ↦ some (c ∷ k, v) ])
            (some (key, value))
        → (c ∷ s ≡ key ++ b'=' ∷ value) × All (λ c. (c == b'=') ≡ false) key
    later other sound none at h = cc
    later other sound (some (k, v)) at h =
        let (made, plain) = sound k v at in
        let longer : c ∷ k ≡ key = ap first h in
        let same : v ≡ value = ap second h in
        (rw (← longer, ← same) (ap (◌∷◌ c) made), rw (← longer) (other, plain))

insert-IsEntry :
    (k v key value : Text) (out : Assoc Text Text)
    → IsEntry key value (Assoc.insert k v out)
    → ((k ≡ key) × (v ≡ value)) ⊎ IsEntry key value out
unfolding Assoc.insert
insert-IsEntry k v key value [] h = h
insert-IsEntry k v key value ((k', v') ∷ out) h = elim (Bool-cases (k' == k)) [
  | inl same ↦ elim (rw same at h) [ inl here ↦ inl here | inr later ↦ inr (inr later) ]
  | inr other ↦ elim (rw other at h) [
    | inl here ↦ inr (inl here)
    | inr later ↦ elim (insert-IsEntry k v key value out later) [
      | inl new ↦ inl new
      | inr old ↦ inr (inr old)
    ]
  ]
]

env_each-IsEntry :
    (pairs : List Text) (out : Assoc Text Text) (key value : Text)
    → IsEntry key value (env_each pairs out)
    → IsEntry key value out ⊎ IsCut key value pairs
env_each-IsEntry [] out key value h = inl h
env_each-IsEntry (pair ∷ pairs) out key value h =
    elim (env_each-IsEntry pairs (with_pair (cut_equals pair) out) key value h) [
      | inr (there, plain) ↦ inr (ground arith, plain)
      | inl entry ↦ from (cut_equals pair) refl entry
    ]
  where
    from :
        (o : Option (Text × Text))
        → cut_equals pair ≡ o
        → IsEntry key value (with_pair o out)
        → IsEntry key value out ⊎ IsCut key value (pair ∷ pairs)
    from none e entry = inl entry
    from (some (k, v)) e entry = elim (Bool-cases (k == [])) [
      | inl empty ↦ inl (rw empty at entry)
      | inr full ↦ elim (insert-IsEntry k v key value out (rw full at entry)) [
        | inr old ↦ inl old
        | inl (same_key, same_value) ↦
            let (made, plain) = cut_equals_sound pair k v e in
            inr (
              rw (← same_key, ← same_value)
                (ground (arith, text_beq_iff pair (k ++ b'=' ∷ v)), plain))
      ]
    ]

-- The environment that BuildEnv makes of that of the server.
pub build_env-IsSeen :
    (m : Machine) (whitelist : List Text) (client_term : Text)
    → All
        (IsSeen m whitelist client_term)
        (build_env m.path_match m.is_letter m.is_digit (env_map m.environ) whitelist client_term)
unfolding env_map
build_env-IsSeen m whitelist client_term = every _ (
    build_env-IsPassed m.path_match m.is_letter m.is_digit (env_map m.environ) whitelist
      client_term)
  where
    one :
        (pair : Text)
        → IsPassed m.path_match m.is_letter m.is_digit
            (env_map m.environ)
            whitelist
            client_term
            pair
        → IsSeen m whitelist client_term pair
    one pair (inr term) = inr term
    one pair (inl (key, value, entry, made, allowed)) =
        let made : pair ≡ key ++ b'=' ∷ value = made ∙ append_assoc key (codes "=") value in
        elim (env_each-IsEntry m.environ [] key value entry) [
          | inl bad ↦ elim bad [ ]
          | inr (there, plain) ↦ inl (key, value, made, rw (← made) at there, plain, allowed)
        ]

    every :
        (pairs : List Text)
        → All
            (IsPassed m.path_match m.is_letter m.is_digit (env_map m.environ) whitelist client_term)
            pairs
        → All (IsSeen m whitelist client_term) pairs
    every [] h = tt
    every (pair ∷ pairs) (h, hs) = (one pair h, every pairs hs)
