-- ===== src/Syncer/Locker/Progress.antt =====
-- No deadlock among the goroutines that lock paths.
use rclaude.Prelude.{
  ℕ, ◌≡◌, refl, ◌≢◌, ◌⊎◌, inl, inr, true, false, some, List, [], ◌∷◌, Text, ◌==◌, nat_eq, text_eq,
  arith, ap, Bool-cases, All,
}
use rclaude.Prelude.Assoc
use rclaude.Sorting.{text_lt, text_lt_trans, text_lt_irrefl}
use rclaude.Syncer.Locker.Entries.{PathLocker}
use rclaude.Syncer.Locker.Threads.{
  Held, Thread, idle, locking, waiting, unlocking, leaving, Move, enter, acquire, finish, unlock,
  leave, return, System, Reach, IsIdle, uses, times, holders,
}
use rclaude.Syncer.Locker.Sound.{bit, Leads}
use rclaude.Syncer.Locker.Kept.{Reach-IsSound}
use rclaude.Syncer.Locker.Order.{Below, IsOrdered, Reach-IsOrdered}

-- A goroutine inside LockMany or its release that can take its next step.
pub record CanMove (l : PathLocker) (t : Thread) : Type 0 where
  pub busy : t ≢ idle
  pub locker : PathLocker
  pub thread : Thread
  pub move : Move l t locker thread

-- One that cannot: it is outside, or waits for a lock that is held.
abbrev IsStuck : PathLocker → Thread → Type 0
IsStuck l idle = Unit
IsStuck l (waiting key id todo held) = (l.entries id).locked ≡ true
IsStuck l _ = ⊥

can_move : (l : PathLocker) (t : Thread) → CanMove l t ⊎ IsStuck l t
can_move l idle = inr tt
can_move l (locking [] held) = inl record { busy = cc; locker = _; thread = _; move = finish }
can_move l (locking (key ∷ todo) held) =
    inl record { busy = cc; locker = _; thread = _; move = enter }
can_move l (waiting key id todo held) = elim (Bool-cases (l.entries id).locked) [
  | inl taken ↦ inr taken
  | inr free ↦ inl record { busy = cc; locker = _; thread = _; move = acquire free }
]
can_move l (unlocking []) = inl record { busy = cc; locker = _; thread = _; move = return }
can_move l (unlocking ((key, id) ∷ held)) =
    inl record { busy = cc; locker = _; thread = _; move = unlock }
can_move l (leaving key id held) = inl record { busy = cc; locker = _; thread = _; move = leave }

-- Some goroutine of the list can take a step.
abbrev pub Progress : PathLocker → List Thread → Type 0
Progress l [] = ⊥
Progress l (t ∷ ts) = CanMove l t ⊎ Progress l ts

Progress-or_IsStuck : (l : PathLocker) (ts : List Thread) → Progress l ts ⊎ All (IsStuck l) ts
Progress-or_IsStuck l [] = inr tt
Progress-or_IsStuck l (t ∷ ts) = join (can_move l t) (Progress-or_IsStuck l ts)
  where
    join :
        CanMove l t ⊎ IsStuck l t
        → Progress l ts ⊎ All (IsStuck l) ts
        → Progress l (t ∷ ts) ⊎ All (IsStuck l) (t ∷ ts)
    join (inl can) _ = inl (inl can)
    join (inr _) (inl rest) = inl (inr rest)
    join (inr stuck) (inr rest) = inr (stuck, rest)

-- No goroutine waits for a key above this one.
abbrev NotAbove : Text → Thread → Type 0
NotAbove top (waiting key id todo held) = text_lt top key ≡ false
NotAbove top _ = Unit

-- A lock that a goroutine waits for, above all others that goroutines wait for.
record Highest (l : PathLocker) (ts : List Thread) : Type 0 where
  pub key : Text
  pub id : ℕ
  pub leads : Leads l (key, id)
  pub taken : (l.entries id).locked ≡ true
  pub above : All (NotAbove key) ts

idle-NotAbove : (key : Text) (ts : List Thread) → All IsIdle ts → All (NotAbove key) ts
idle-NotAbove key [] h = tt
idle-NotAbove key (t ∷ ts) (h, hs) = (rw h tt, idle-NotAbove key ts hs)

NotAbove_trans :
    (low high : Text)
    → text_lt low high ≡ true
    → (ts : List Thread) → All (NotAbove low) ts
    → All (NotAbove high) ts
NotAbove_trans low high less [] h = tt
NotAbove_trans low high less (waiting key id todo held ∷ ts) (h, hs) =
    (ground (arith, text_lt_trans low high key), NotAbove_trans low high less ts hs)
NotAbove_trans low high less (idle ∷ ts) (h, hs) = (tt, NotAbove_trans low high less ts hs)
NotAbove_trans low high less (locking todo held ∷ ts) (h, hs) =
    (tt, NotAbove_trans low high less ts hs)
NotAbove_trans low high less (unlocking held ∷ ts) (h, hs) =
    (tt, NotAbove_trans low high less ts hs)
NotAbove_trans low high less (leaving key id held ∷ ts) (h, hs) =
    (tt, NotAbove_trans low high less ts hs)

module _ (l : PathLocker) where
  onto_idle :
      {ts : List Thread}
      → All IsIdle ts ⊎ Highest l ts
      → All IsIdle (idle ∷ ts) ⊎ Highest l (idle ∷ ts)
  onto_idle (inl quiet) = inl (refl, quiet)
  onto_idle (inr top) = inr record {
    key = top.key;
    id = top.id;
    leads = top.leads;
    taken = top.taken;
    above = (tt, top.above);
  }

  onto_waiting :
      {ts : List Thread} (key : Text) (id : ℕ) (todo : List Text) (held : List Held)
      → Leads l (key, id)
      → (l.entries id).locked ≡ true
      → All IsIdle ts ⊎ Highest l ts
      → Highest l (waiting key id todo held ∷ ts)
  onto_waiting {ts} key id todo held leads taken (inl quiet) = record {
    key = key;
    id = id;
    leads = leads;
    taken = taken;
    above = (text_lt_irrefl key, idle-NotAbove key ts quiet);
  }
  onto_waiting {ts} key id todo held leads taken (inr top) =
      elim (Bool-cases (text_lt top.key key)) [
        | inl higher ↦ record {
          key = key;
          id = id;
          leads = leads;
          taken = taken;
          above = (text_lt_irrefl key, NotAbove_trans top.key key higher ts top.above);
        }
        | inr lower ↦ record {
          key = top.key;
          id = top.id;
          leads = top.leads;
          taken = top.taken;
          above = (lower, top.above);
        }
      ]

  highest :
      (ts : List Thread)
      → All (IsStuck l) ts
      → All (λ t. All (Leads l) (uses t)) ts
      → All IsIdle ts ⊎ Highest l ts
  highest [] stuck leads = inl tt
  highest (idle ∷ ts) (_, stuck) (_, leads) = onto_idle (highest ts stuck leads)
  highest (waiting key id todo held ∷ ts) (taken, stuck) ((lead, _), leads) =
      inr (onto_waiting key id todo held lead taken (highest ts stuck leads))
  highest (locking todo held ∷ ts) (bad, _) leads = absurd bad
  highest (unlocking held ∷ ts) (bad, _) leads = absurd bad
  highest (leaving key id held ∷ ts) (bad, _) leads = absurd bad

  -- A lock that is held keeps its holder waiting for a higher one.
  no-holder :
      (top : Text) (id : ℕ)
      → Leads l (top, id)
      → ((key : Text) → Assoc.lookup key l.locks ≡ some id → key ≡ top)
      → (wanted : Text) (todo : List Text) (held : List Held) → text_lt top wanted ≡ false
      → All (Leads l) held
      → Below (wanted ∷ todo) held
      → times id held ≡ 0
  no-holder top id lead unique wanted todo [] above leads below = refl
  no-holder top id lead unique wanted todo ((name, other) ∷ held) above (h, hs) ((less, _), below) =
      let ih = no-holder top id lead unique wanted todo held above hs below in
      elim (Bool-cases (other == id)) [
        | inl same ↦ absurd (cc (unique name (ground arith), less, above))
        | inr different ↦ rw different (omega (arith, ih))
      ]

  no-holders :
      (top : Text) (id : ℕ)
      → Leads l (top, id)
      → ((key : Text) → Assoc.lookup key l.locks ≡ some id → key ≡ top)
      → (ts : List Thread) → All (IsStuck l) ts
      → All (λ t. All (Leads l) (uses t)) ts
      → All IsOrdered ts
      → All (NotAbove top) ts
      → holders id ts ≡ 0
  no-holders top id lead unique [] stuck leads ordered above = refl
  no-holders top id lead unique (idle ∷ ts) (_, stuck) (_, leads) (_, ordered) (_, above) =
      omega (arith, no-holders top id lead unique ts stuck leads ordered above)
  no-holders top id lead unique (waiting key other todo held ∷ ts) (_, stuck) (lead', leads)
        (order, ordered) (low, above) =
      omega (
        arith,
        no-holder top id lead unique key todo held low lead'.1 order.1,
        no-holders top id lead unique ts stuck leads ordered above,
      )
  no-holders top id lead unique (locking todo held ∷ ts) (bad, _) leads ordered above = absurd bad
  no-holders top id lead unique (unlocking held ∷ ts) (bad, _) leads ordered above = absurd bad
  no-holders top id lead unique (leaving key other held ∷ ts) (bad, _) leads ordered above =
      absurd bad

-- In every state that any number of goroutines reach from a fresh locker by steps of LockMany and
-- its release, in any order, all goroutines are outside, or one that is inside can take its next
-- step.
pub Reach-Progress : {s : System} → Reach s → Progress s.locker s.threads ⊎ All IsIdle s.threads
Reach-Progress {s} r = elim (Progress-or_IsStuck s.locker s.threads) [
  | inl can ↦ inl can
  | inr stuck ↦ elim (highest s.locker s.threads stuck (Reach-IsSound r).leads) [
    | inl quiet ↦ inr quiet
    | inr top ↦
        let sound = Reach-IsSound r in
        let none_left =
          no-holders s.locker top.key top.id top.leads
            (λ key e. sound.injective key top.key top.id e top.leads) s.threads stuck sound.leads
            (Reach-IsOrdered r) top.above in
        absurd (omega (arith, none_left, sound.exclusive top.id, ap bit top.taken))
  ]
]
