-- ===== src/Syncer/Locker/Kept.antt =====
-- Every step of a goroutine keeps the path locks sound.
use rclaude.Prelude.{
  ℕ, ◌+◌, ◌-◌, ◌≤◌, ◌≡◌, refl, inl, inr, Bool, true, false, Option, none, some, List, [], ◌∷◌, ◌++◌,
  Text, ◌==◌, nat_eq, text_eq, text_beq_iff, arith, ap, sym, Bool-cases, All, if◌then◌else◌,
}
use rclaude.Prelude.Assoc
use rclaude.Syncer.Locker.Entries.{
  PathLocker, new_path_locker, enter_lock, set_locked, leave_lock, set_entry, entered,
}
use rclaude.Syncer.Locker.Threads.{
  Held, Thread, locking, waiting, unlocking, leaving, Move, call, enter, acquire, finish, unlock,
  leave, return, System, Step, step, Reach, start, later, IsIdle, uses, holds, times, users,
  holders,
}
use rclaude.Syncer.Locker.Sound.{
  bit, Leads, IsSound, holds-le-uses, holders-le-users, Leads-All, Leads-threads, IsSound-front,
  IsSound-middle,
}

-- A step that leaves the map as it is, and counts the same uses.
set_locked-IsSound :
    {l : PathLocker} (rest : List Thread) (t u : Thread) (locked : Bool) (id : ℕ)
    → uses t ≡ uses u
    → ((other : ℕ)
        → times other (holds u) + holders other rest
          ≡ (if id == other then bit locked else times other (holds t) + holders other rest))
    → IsSound l (t ∷ rest)
    → IsSound (set_locked locked id l) (u ∷ rest)
unfolding set_locked
set_locked-IsSound {l} rest t u locked id same held s = record {
  counted = λ other. ground (arith, s.counted other, same);
  exclusive = λ other. ground (arith, s.exclusive other, held other);
  leads = (rw (← same) s.leads.0, s.leads.1);
  injective = s.injective;
  fresh = s.fresh;
  live = λ key other e. ground (arith, s.live key other e);
  unused = λ other e. ground (arith, s.unused other e);
}

finish-IsSound :
    {l : PathLocker} (rest : List Thread) (t u : Thread)
    → uses t ≡ uses u
    → holds t ≡ holds u
    → IsSound l (t ∷ rest)
    → IsSound l (u ∷ rest)
finish-IsSound {l} rest t u same also s = record {
  counted = λ other. ground (arith, s.counted other, same);
  exclusive = λ other. ground (arith, s.exclusive other, also);
  leads = (rw (← same) s.leads.0, s.leads.1);
  injective = s.injective;
  fresh = s.fresh;
  live = s.live;
  unused = s.unused;
}

enter-IsSound :
    {l : PathLocker} (rest : List Thread) (key : Text) (todo : List Text) (held : List Held)
    → IsSound l (locking (key ∷ todo) held ∷ rest)
    → IsSound (enter_lock key l).0 (waiting key (enter_lock key l).1 todo held ∷ rest)
unfolding enter_lock
enter-IsSound {l} rest key todo held s = read (Assoc.lookup key l.locks) refl
  where
    read :
        (found : Option ℕ)
        → Assoc.lookup key l.locks ≡ found
        → IsSound (entered key found l).0 (waiting key (entered key found l).1 todo held ∷ rest)
    read none e =
        let at = λ (other : Text). Assoc.lookup-insert key other l.next l.locks in
        let more : (name : Text) (id : ℕ)
            → Assoc.lookup name l.locks ≡ some id
            → Assoc.lookup name (Assoc.insert key l.next l.locks) ≡ some id =
          λ name id k. ground (
            arith,
            at name,
            text_beq_iff key name,
            ap (λ (n : Text). Assoc.lookup n l.locks) {x = key} {y = name},
          ) in
        record {
          counted = λ id. ground (arith, s.counted id, s.unused l.next);
          exclusive = λ id. ground (
            arith,
            s.exclusive id,
            s.unused l.next,
            s.counted l.next,
            holders-le-users l.next rest,
            holds-le-uses l.next (locking (key ∷ todo) held),
          );
          leads = (
            (
              ground (arith, at key, text_beq_iff key key),
              Leads-All l (entered key none l).0 more held s.leads.0,
            ),
            Leads-threads l (entered key none l).0 more rest s.leads.1,
          );
          injective = λ name other id h k. ground (
            arith,
            at name,
            at other,
            text_beq_iff key name,
            text_beq_iff key other,
            s.injective name other id,
            s.fresh name id,
            s.fresh other id,
          );
          fresh = λ name id h. ground (arith, at name, s.fresh name id);
          live = λ name id h. ground (arith, at name, s.live name id, s.fresh name id);
          unused = λ id h. ground (arith, s.unused id);
        }
    read (some id) e = record {
      counted = λ other. ground (arith, s.counted other);
      exclusive = λ other. ground (arith, s.exclusive other);
      leads = ((e, s.leads.0), s.leads.1);
      injective = s.injective;
      fresh = s.fresh;
      live = λ name other h. ground (arith, s.live name other h);
      unused = λ other h. ground (arith, s.unused other h, s.fresh key id e);
    }

-- No use of an entry is left.
Leads-other :
    (l l' : PathLocker) (key : Text) (id : ℕ)
    → l'.locks ≡ Assoc.remove key l.locks
    → Assoc.lookup key l.locks ≡ some id
    → (held : List Held) → times id held ≡ 0
    → All (Leads l) held
    → All (Leads l') held
Leads-other l l' key id same e [] unused h = tt
Leads-other l l' key id same e ((name, other) ∷ held) unused (h, hs) = (
  rw same (
      ground (
        arith,
        Assoc.lookup-remove key name l.locks,
        text_beq_iff key name,
        ap (λ (n : Text). Assoc.lookup n l.locks) {x = key} {y = name},
      )),
  Leads-other l l' key id same e held (omega arith) hs,
)

Leads-others :
    (l l' : PathLocker) (key : Text) (id : ℕ)
    → l'.locks ≡ Assoc.remove key l.locks
    → Assoc.lookup key l.locks ≡ some id
    → (ts : List Thread) → users id ts ≡ 0
    → All (λ t. All (Leads l) (uses t)) ts
    → All (λ t. All (Leads l') (uses t)) ts
Leads-others l l' key id same e [] unused h = tt
Leads-others l l' key id same e (t ∷ ts) unused (h, hs) = (
  Leads-other l l' key id same e (uses t) (omega arith) h,
  Leads-others l l' key id same e ts (omega arith) hs,
)

leave-IsSound :
    {l : PathLocker} (rest : List Thread) (key : Text) (id : ℕ) (held : List Held)
    → IsSound l (leaving key id held ∷ rest)
    → IsSound (leave_lock key id l) (unlocking held ∷ rest)
unfolding leave_lock
leave-IsSound {l} rest key id held s = elim (Bool-cases ((l.entries id).ref_count - 1 == 0)) [
  | inl last ↦
      let at = λ (other : Text). Assoc.lookup-remove key other l.locks in
      let next : PathLocker = record l {
        entries =
            set_entry id
              (record { locked = (l.entries id).locked; ref_count = (l.entries id).ref_count - 1 })
              l.entries;
        locks = Assoc.remove key l.locks;
      } in
      let e : leave_lock key id l ≡ next = rw (last, leave_lock) refl in
      rw e record {
        counted = λ other. ground (arith, s.counted other);
        exclusive = λ other. ground (arith, s.exclusive other);
        leads = (
          Leads-other l next key id refl s.leads.0.0 held (ground (arith, s.counted id))
              s.leads.0.1,
          Leads-others l next key id refl s.leads.0.0 rest (ground (arith, s.counted id)) s.leads.1,
        );
        injective = λ name other i h k. ground (arith, at name, at other, s.injective name other i);
        fresh = λ name i h. ground (arith, at name, s.fresh name i);
        live = λ name i h.
            ground (arith, at name, s.live name i, s.injective name key id, text_beq_iff key name);
        unused = λ i h. ground (arith, s.unused i);
      }
  | inr more ↦
      let next : PathLocker = record l {
        entries =
            set_entry id
              (record { locked = (l.entries id).locked; ref_count = (l.entries id).ref_count - 1 })
              l.entries;
      } in
      let e : leave_lock key id l ≡ next = rw (more, leave_lock) refl in
      rw e record {
        counted = λ other. ground (arith, s.counted other);
        exclusive = λ other. ground (arith, s.exclusive other);
        leads = (s.leads.0.1, s.leads.1);
        injective = s.injective;
        fresh = s.fresh;
        live = λ name i h. ground (arith, s.live name i);
        unused = λ i h. ground (arith, s.unused i);
      }
]

pub bit-le : (b : Bool) → bit b ≤ 1
bit-le true = omega arith
bit-le false = omega arith

pub Move-IsSound :
    {l l' : PathLocker} {t u : Thread} (rest : List Thread)
    → Move l t l' u
    → IsSound l (t ∷ rest)
    → IsSound l' (u ∷ rest)
Move-IsSound rest (call paths) s = finish-IsSound rest _ _ refl refl s
Move-IsSound rest (enter {key} {todo} {held}) s = enter-IsSound rest key todo held s
Move-IsSound rest (acquire {id} free) s =
    set_locked-IsSound rest _ _ true id refl (λ other. ground (arith, s.exclusive other)) s
Move-IsSound rest (finish) s = finish-IsSound rest _ _ refl refl s
Move-IsSound {l} rest (unlock {key} {id} {held}) s =
    set_locked-IsSound rest (unlocking ((key, id) ∷ held)) (leaving key id held) false id refl
      (λ other. ground (arith, s.exclusive other, s.exclusive id, bit-le (l.entries id).locked)) s
Move-IsSound rest (leave {key} {id} {held}) s = leave-IsSound rest key id held s
Move-IsSound rest (return) s = finish-IsSound rest _ _ refl refl s

Step-IsSound : {s t : System} → Step s t → IsSound s.locker s.threads → IsSound t.locker t.threads
Step-IsSound {s} (step {t} {u} {l} before after e move) h =
    IsSound-middle before after u
      (Move-IsSound (before ++ after) move (IsSound-front before after t (rw e at h)))

idle-users : (id : ℕ) (ts : List Thread) → All IsIdle ts → users id ts ≡ 0
idle-users id [] h = refl
idle-users id (t ∷ ts) (h, hs) = rw h (omega (arith, idle-users id ts hs))

idle-Leads : (ts : List Thread) → All IsIdle ts → All (λ t. All (Leads new_path_locker) (uses t)) ts
idle-Leads [] h = tt
idle-Leads (t ∷ ts) (h, hs) = (rw h tt, idle-Leads ts hs)

pub start-IsSound : (ts : List Thread) → All IsIdle ts → IsSound new_path_locker ts
unfolding new_path_locker Assoc.lookup
start-IsSound ts quiet = record {
  counted = λ id. sym (idle-users id ts quiet);
  exclusive = λ id. omega (arith, holders-le-users id ts, idle-users id ts quiet);
  leads = idle-Leads ts quiet;
  injective = λ key other id h k. cc;
  fresh = λ key id h. cc;
  live = λ key id h. cc;
  unused = λ id h. refl;
}

-- The locker and the goroutines are sound in every state that they reach.
pub Reach-IsSound : {s : System} → Reach s → IsSound s.locker s.threads
Reach-IsSound {s} (start fresh quiet) = rw fresh (start-IsSound s.threads quiet)
Reach-IsSound (later r st) = Step-IsSound st (Reach-IsSound r)
