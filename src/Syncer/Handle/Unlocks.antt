-- ===== src/Syncer/Handle/Unlocks.antt =====
-- Locking the paths of a request and unlocking them again leaves the locker free.
use rclaude.Prelude.{
  ℕ, ◌≡◌, refl, inl, inr, Bool, true, false, Option, none, some, List, [], ◌∷◌, Text, arith, ap,
  Bool-cases, All, ◌==◌, nat_eq,
}
use rclaude.Sorting.{text_lt_irrefl, IsAscending}
use rclaude.Syncer.Locker.{lock_keys, lock_keys_lem}
use rclaude.Syncer.Locker.Entries.{PathLocker, enter_lock, set_locked, leave_lock}
use rclaude.Syncer.Locker.Threads.{
  Held, idle, locking, waiting, unlocking, call, enter, acquire, finish, unlock, leave, return,
  times,
}
use rclaude.Syncer.Locker.Sound.{bit, Leads, IsSound}
use rclaude.Syncer.Locker.Kept.{Move-IsSound}
use rclaude.Syncer.Locker.Order.{Below, Below-tail}
use rclaude.Syncer.Handle.Mutating.{lock_all, unlock_all}

-- The locker of the daemon, while no request runs.
abbrev pub IsFree : Option PathLocker → Type 0
IsFree none = Unit
IsFree (some l) = IsSound l (idle ∷ [])

-- A key above all that are held is not locked.
unlocked :
    (l : PathLocker) (key : Text) (id : ℕ) (todo : List Text) (held : List Held)
    → IsSound l (waiting key id todo held ∷ [])
    → Below (key ∷ todo) held
    → (l.entries id).locked ≡ false
unlocked l key id todo held s below = free (l.entries id).locked refl
  where
    absent : (held : List Held) → All (Leads l) held → Below (key ∷ todo) held → times id held ≡ 0
    absent [] leads below = refl
    absent ((name, other) ∷ held) (lead, leads) ((less, _), rest) =
        elim (Bool-cases (other == id)) [
          | inl same ↦
              absurd
                (cc (s.injective name key id (ground arith) s.leads.0.0, less, text_lt_irrefl key))
          | inr different ↦ rw different (omega (arith, absent held leads rest))
        ]

    free : (b : Bool) → (l.entries id).locked ≡ b → b ≡ false
    free false e = refl
    free true e = absurd (omega (arith, s.exclusive id, ap bit e, absent held s.leads.0.1 below))

lock_all-IsSound :
    (keys : List Text) (l : PathLocker) (held : List Held)
    → IsAscending keys
    → Below keys held
    → IsSound l (locking keys held ∷ [])
    → IsSound (lock_all keys l held).0 (locking [] (lock_all keys l held).1 ∷ [])
unfolding lock_all
lock_all-IsSound [] l held ascending below s = s
lock_all-IsSound (key ∷ keys) l held ascending below s =
    let entered = (enter_lock key l).0 in
    let id = (enter_lock key l).1 in
    let queued : IsSound entered (waiting key id keys held ∷ []) = Move-IsSound [] enter s in
    lock_all-IsSound keys (set_locked true id entered) ((key, id) ∷ held) ascending.1
      (ascending.0, Below-tail key keys held below)
      (Move-IsSound [] (acquire (unlocked entered key id keys held queued below)) queued)

unlock_all-IsSound :
    (held : List Held) (l : PathLocker)
    → IsSound l (unlocking held ∷ [])
    → IsSound (unlock_all held l) (idle ∷ [])
unfolding unlock_all
unlock_all-IsSound [] l s = Move-IsSound [] return s
unlock_all-IsSound ((key, id) ∷ held) l s =
    unlock_all-IsSound held (leave_lock key id (set_locked false id l))
      (Move-IsSound [] leave (Move-IsSound [] unlock s))

-- Locking paths and unlocking them again leaves the locker free.
pub unlock_all-lock_all :
    (paths : List Text) (l : PathLocker)
    → IsSound l (idle ∷ [])
    → (let (locked, held) = lock_all (lock_keys paths) l [] in
        IsSound (unlock_all held locked) (idle ∷ []))
unlock_all-lock_all paths l s =
    let start = Move-IsSound [] (call paths) s in
    let locked = lock_all-IsSound (lock_keys paths) l [] (lock_keys_lem [] paths).0 tt start in
    unlock_all-IsSound (lock_all (lock_keys paths) l []).1 (lock_all (lock_keys paths) l []).0
      (Move-IsSound [] finish locked)
