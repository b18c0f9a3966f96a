-- ===== src/Syncer/Locker/Sound.antt =====
-- The path locks under every interleaving: counts, mutual exclusion, and no entry that stays behind.
use rclaude.Prelude.{
  ℕ, ◌+◌, ◌≤◌, ◌<◌, ◌≡◌, Bool, true, false, some, List, [], ◌∷◌, ◌++◌, Text, nat_eq, text_eq, arith,
  sym, ◌∙◌, All,
}
use rclaude.Prelude.Assoc
use rclaude.Syncer.Locker.Entries.{PathLocker}
use rclaude.Syncer.Locker.Threads.{
  Held, Thread, idle, locking, waiting, unlocking, leaving, uses, holds, times, users, holders,
}

abbrev pub bit : Bool → ℕ
bit false = 0
bit true = 1

-- The map leads from the key of an entry to the entry.
abbrev pub Leads : PathLocker → Held → Type 0
Leads l (key, id) = Assoc.lookup key l.locks ≡ some id

-- What holds of the locker and, as counts and as a list, of the goroutines. `used` and `held` count
-- the uses of an entry, all of which are in `kept`.
pub record IsSound (l : PathLocker) (ts : List Thread) : Type 0 where
  pub counted : (id : ℕ) → (l.entries id).ref_count ≡ users id ts
  pub exclusive : (id : ℕ) → holders id ts ≡ bit (l.entries id).locked
  pub leads : All (λ t. All (Leads l) (uses t)) ts
  pub injective :
      (key other : Text) (id : ℕ)
      → Assoc.lookup key l.locks ≡ some id
      → Assoc.lookup other l.locks ≡ some id
      → key ≡ other
  pub fresh : (key : Text) (id : ℕ) → Assoc.lookup key l.locks ≡ some id → id < l.next
  pub live :
      (key : Text) (id : ℕ) → Assoc.lookup key l.locks ≡ some id → 0 < (l.entries id).ref_count
  pub unused : (id : ℕ) → l.next ≤ id → (l.entries id).ref_count ≡ 0

pub users-append : (id : ℕ) (ts us : List Thread) → users id (ts ++ us) ≡ users id ts + users id us
users-append id [] us = omega arith
users-append id (t ∷ ts) us = omega (arith, users-append id ts us)

pub holders-append :
    (id : ℕ) (ts us : List Thread) → holders id (ts ++ us) ≡ holders id ts + holders id us
holders-append id [] us = omega arith
holders-append id (t ∷ ts) us = omega (arith, holders-append id ts us)

pub holds-le-uses : (id : ℕ) (t : Thread) → times id (holds t) ≤ times id (uses t)
holds-le-uses id idle = omega arith
holds-le-uses id (locking todo held) = omega arith
holds-le-uses id (waiting key other todo held) = omega arith
holds-le-uses id (unlocking held) = omega arith
holds-le-uses id (leaving key other held) = omega arith

pub holders-le-users : (id : ℕ) (ts : List Thread) → holders id ts ≤ users id ts
holders-le-users id [] = omega arith
holders-le-users id (t ∷ ts) = omega (arith, holds-le-uses id t, holders-le-users id ts)

-- A goroutine may stand first in the list.
pub users-middle :
    (id : ℕ) (before after : List Thread) (t : Thread)
    → users id (before ++ t ∷ after) ≡ users id (t ∷ (before ++ after))
users-middle id before after t =
    omega (arith, users-append id before (t ∷ after), users-append id before after)

holders-middle :
    (id : ℕ) (before after : List Thread) (t : Thread)
    → holders id (before ++ t ∷ after) ≡ holders id (t ∷ (before ++ after))
holders-middle id before after t =
    omega (arith, holders-append id before (t ∷ after), holders-append id before after)

module _ {κ} (P : Thread → Type κ) where
  pub All-front :
      (before after : List Thread) (t : Thread)
      → All P (before ++ t ∷ after)
      → All P (t ∷ (before ++ after))
  All-front [] after t h = h
  All-front (b ∷ before) after t (h, hs) =
      let (first, others) = All-front before after t hs in (first, (h, others))

  pub All-middle :
      (before after : List Thread) (t : Thread)
      → All P (t ∷ (before ++ after))
      → All P (before ++ t ∷ after)
  All-middle [] after t h = h
  All-middle (b ∷ before) after t (first, (h, others)) =
      (h, All-middle before after t (first, others))

pub IsSound-front :
    {l : PathLocker} (before after : List Thread) (t : Thread)
    → IsSound l (before ++ t ∷ after)
    → IsSound l (t ∷ (before ++ after))
IsSound-front {l} before after t s = record {
  counted = λ id. s.counted id ∙ users-middle id before after t;
  exclusive = λ id. sym (holders-middle id before after t) ∙ s.exclusive id;
  leads = All-front (λ u. All (Leads l) (uses u)) before after t s.leads;
  injective = s.injective;
  fresh = s.fresh;
  live = s.live;
  unused = s.unused;
}

pub IsSound-middle :
    {l : PathLocker} (before after : List Thread) (t : Thread)
    → IsSound l (t ∷ (before ++ after))
    → IsSound l (before ++ t ∷ after)
IsSound-middle {l} before after t s = record {
  counted = λ id. s.counted id ∙ sym (users-middle id before after t);
  exclusive = λ id. holders-middle id before after t ∙ s.exclusive id;
  leads = All-middle (λ u. All (Leads l) (uses u)) before after t s.leads;
  injective = s.injective;
  fresh = s.fresh;
  live = s.live;
  unused = s.unused;
}

-- A map that leads where the other led, at the keys in use.
pub Leads-All :
    (l l' : PathLocker) (more : (key : Text) (id : ℕ) → Leads l (key, id) → Leads l' (key, id))
    (held : List Held)
    → All (Leads l) held
    → All (Leads l') held
Leads-All l l' more [] h = tt
Leads-All l l' more ((key, id) ∷ held) (h, hs) = (more key id h, Leads-All l l' more held hs)

pub Leads-threads :
    (l l' : PathLocker) (more : (key : Text) (id : ℕ) → Leads l (key, id) → Leads l' (key, id))
    (ts : List Thread)
    → All (λ t. All (Leads l) (uses t)) ts
    → All (λ t. All (Leads l') (uses t)) ts
Leads-threads l l' more [] h = tt
Leads-threads l l' more (t ∷ ts) (h, hs) =
    (Leads-All l l' more (uses t) h, Leads-threads l l' more ts hs)
