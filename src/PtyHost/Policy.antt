-- ===== src/PtyHost/Policy.antt =====
-- Where a terminal runs, what it runs and what it sees of the environment of the server.
use rclaude.Prelude.{
  ℕ, ◌≡◌, refl, ◌⊎◌, inl, inr, Bool, true, ◌&&◌, Option, List, [], ◌∷◌, ◌++◌, Text, codes,
  starts_with, text_eq, arith, All, All-append, Bool-cases,
}
use rclaude.Prelude.Assoc.{Assoc}
use rclaude.Sorting.{sort_texts, All-insert_sorted}
use rclaude.PtyHost.{
  build_env, allowed_pairs, without_term, env_key_allowed, term_key, is_safe_term,
  compile_env_allowlist,
}

All-sort_texts {κ} : (P : Text → Type κ) (ss : List Text) → All P ss → All P (sort_texts ss)
unfolding sort_texts
All-sort_texts P [] h = tt
All-sort_texts P (s ∷ ss) (h, hs) = All-insert_sorted P s (sort_texts ss) h (All-sort_texts P ss hs)

-- The map has the value under the key.
abbrev pub IsEntry : Text → Text → Assoc Text Text → Type 0
IsEntry key value [] = ⊥
IsEntry key value ((k, v) ∷ source) = ((k ≡ key) × (v ≡ value)) ⊎ IsEntry key value source

module _ (path_match : Text → Text → Option Bool) (is_letter is_digit : ℕ → Bool) where
  -- A variable of the server under an allowed key, or the terminal of the client under a safe name.
  abbrev pub IsPassed : Assoc Text Text → List Text → Text → Text → Type 0
  IsPassed source whitelist client_term pair =
      ((key : Text) × (value : Text) × IsEntry key value source
        × (pair ≡ key ++ codes "=" ++ value)
        × (env_key_allowed path_match key (compile_env_allowlist whitelist) ≡ true))
      ⊎ ((pair ≡ codes "TERM=" ++ client_term)
          × (env_key_allowed path_match term_key (compile_env_allowlist whitelist) ≡ true)
          × (is_safe_term is_letter is_digit client_term ≡ true))

  allowed_pairs-IsPassed :
      (all : Assoc Text Text) (whitelist : List Text) (client_term : Text)
      (source : Assoc Text Text)
      → ((key value : Text) → IsEntry key value source → IsEntry key value all)
      → All
          (IsPassed all whitelist client_term)
          (allowed_pairs path_match (compile_env_allowlist whitelist) source)
  unfolding allowed_pairs
  allowed_pairs-IsPassed all whitelist client_term [] within = tt
  allowed_pairs-IsPassed all whitelist client_term ((key, value) ∷ source) within =
      let rest =
        allowed_pairs-IsPassed all whitelist client_term source (λ k v h. within k v (inr h)) in
      elim (Bool-cases (env_key_allowed path_match key (compile_env_allowlist whitelist))) [
        | inl keeps ↦
            rw keeps (inl (key, value, within key value (inl (refl, refl)), refl, keeps), rest)
        | inr drops ↦ rw drops rest
      ]

  All-without_term {κ} :
      (P : Text → Type κ) (pairs : List Text) → All P pairs → All P (without_term pairs)
  unfolding without_term
  All-without_term P [] h = tt
  All-without_term P (pair ∷ pairs) (h, hs) = elim (Bool-cases (starts_with pair (codes "TERM="))) [
    | inl keeps ↦ rw keeps (All-without_term P pairs hs)
    | inr drops ↦ rw drops (h, All-without_term P pairs hs)
  ]

  pub build_env-IsPassed :
      (source : Assoc Text Text) (whitelist : List Text) (client_term : Text)
      → All
          (IsPassed source whitelist client_term)
          (build_env path_match is_letter is_digit source whitelist client_term)
  unfolding build_env
  build_env-IsPassed source whitelist client_term =
      let allowed = compile_env_allowlist whitelist in
      let out = allowed_pairs-IsPassed source whitelist client_term source (λ k v h. h) in
      elim (Bool-cases (
        env_key_allowed path_match term_key allowed
        && is_safe_term is_letter is_digit client_term)) [
          | inl both ↦ rw both (
              All-sort_texts _ _ (
                All-append _ _ _ (All-without_term _ _ out)
                  (inr (refl, ground arith, ground arith), tt)))
          | inr drops ↦ rw drops (All-sort_texts _ _ out)
        ]
