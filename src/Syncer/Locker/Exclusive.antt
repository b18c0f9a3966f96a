-- ===== src/Syncer/Locker/Exclusive.antt =====
-- Mutual exclusion by path, and the map of locks that holds just the paths in use.
use rclaude.Prelude.{
  ℕ, ◌+◌, ◌≤◌, ◌≡◌, refl, ◌↔◌, inl, inr, none, some, List, [], ◌∷◌, Text, ◌==◌, nat_eq, text_eq,
  text_beq_iff, arith, ap, Option-cases, All, if◌then◌else◌,
}
use rclaude.Prelude.Assoc
use rclaude.Syncer.Locker.Entries.{PathLocker}
use rclaude.Syncer.Locker.Threads.{
  Held, Thread, idle, locking, waiting, unlocking, leaving, System, Reach, uses, holds, times,
  users, holders,
}
use rclaude.Syncer.Locker.Sound.{Leads, IsSound}
use rclaude.Syncer.Locker.Kept.{bit-le, Reach-IsSound}

-- How often a key stands in a list of entries.
abbrev pub times_key : Text → List Held → ℕ
times_key key [] = 0
times_key key ((other, id) ∷ held) = (if other == key then 1 else 0) + times_key key held

-- How many locks of the key the goroutines have, and how many they have or wait for or give back.
abbrev pub key_holders : Text → List Thread → ℕ
key_holders key [] = 0
key_holders key (t ∷ ts) = times_key key (holds t) + key_holders key ts

abbrev pub key_users : Text → List Thread → ℕ
key_users key [] = 0
key_users key (t ∷ ts) = times_key key (uses t) + key_users key ts

module _ {l : PathLocker} {every : List Thread} (sound : IsSound l every) (key : Text) where
  times_key-some :
      (id : ℕ)
      → Assoc.lookup key l.locks ≡ some id
      → (held : List Held) → All (Leads l) held
      → times_key key held ≡ times id held
  times_key-some id e [] h = refl
  times_key-some id e ((other, i) ∷ held) (h, hs) = ground (
    arith,
    times_key-some id e held hs,
    text_beq_iff other key,
    sound.injective other key id,
    ap (λ (k : Text). Assoc.lookup k l.locks) {x = other} {y = key},
  )

  times_key-none :
      Assoc.lookup key l.locks ≡ none
      → (held : List Held) → All (Leads l) held
      → times_key key held ≡ 0
  times_key-none e [] h = refl
  times_key-none e ((other, i) ∷ held) (h, hs) = ground (
    arith,
    times_key-none e held hs,
    text_beq_iff other key,
    ap (λ (k : Text). Assoc.lookup k l.locks) {x = other} {y = key},
  )

  All-holds : (t : Thread) → All (Leads l) (uses t) → All (Leads l) (holds t)
  All-holds idle h = h
  All-holds (locking todo held) h = h
  All-holds (waiting k id todo held) h = h.1
  All-holds (unlocking held) h = h
  All-holds (leaving k id held) h = h.1

  keys-some :
      (id : ℕ)
      → Assoc.lookup key l.locks ≡ some id
      → (ts : List Thread) → All (λ t. All (Leads l) (uses t)) ts
      → (key_users key ts ≡ users id ts) × (key_holders key ts ≡ holders id ts)
  keys-some id e [] h = (refl, refl)
  keys-some id e (t ∷ ts) (h, hs) =
      let rest = keys-some id e ts hs in
      (
        omega (arith, times_key-some id e (uses t) h, rest.0),
        omega (arith, times_key-some id e (holds t) (All-holds t h), rest.1),
      )

  keys-none :
      Assoc.lookup key l.locks ≡ none
      → (ts : List Thread) → All (λ t. All (Leads l) (uses t)) ts
      → (key_users key ts ≡ 0) × (key_holders key ts ≡ 0)
  keys-none e [] h = (refl, refl)
  keys-none e (t ∷ ts) (h, hs) =
      let rest = keys-none e ts hs in
      (
        omega (arith, times_key-none e (uses t) h, rest.0),
        omega (arith, times_key-none e (holds t) (All-holds t h), rest.1),
      )

-- In every state that any number of goroutines reach from a fresh locker by steps of LockMany and
-- its release, in any order, at most one lock of a key is held, and the map has no entry for a key
-- exactly when no goroutine holds, awaits or gives back a lock of it.
pub Reach-exclusive :
    {s : System} (key : Text)
    → Reach s
    → (key_holders key s.threads ≤ 1)
      × ((Assoc.lookup key s.locker.locks ≡ none) ↔ (key_users key s.threads ≡ 0))
Reach-exclusive {s} key r =
    let sound = Reach-IsSound r in
    elim (Option-cases (Assoc.lookup key s.locker.locks)) [
      | inl e ↦
          let (free, unheld) = keys-none sound key e s.threads sound.leads in
          (omega (arith, unheld), (λ _. free, λ _. e))
      | inr (id, e) ↦
          let (used, held) = keys-some sound key id e s.threads sound.leads in
          (
            omega (arith, held, sound.exclusive id, bit-le (s.locker.entries id).locked),
            (λ n. cc, λ n. absurd (omega (arith, used, sound.counted id, sound.live key id e))),
          )
    ]
