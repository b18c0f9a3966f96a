-- ===== src/Syncer/Locker/Threads.antt =====
-- pkg/syncer/locker.go under any number of goroutines, each in Lock or LockMany (Lock is LockMany
-- of one path): a goroutine takes one step of the function at a time, in any order.
use rclaude.Prelude.{
  ℕ, ◌+◌, ◌≡◌, true, false, List, [], ◌∷◌, ◌++◌, Text, All, ◌==◌, nat_eq, if◌then◌else◌,
}
use rclaude.Syncer.Locker.{lock_keys}
use rclaude.Syncer.Locker.Entries.{PathLocker, new_path_locker, enter_lock, set_locked, leave_lock}

-- An entry that a goroutine keeps, under its key.
abbrev pub Held : Type 0
Held = Text × ℕ

-- Where a goroutine stands, with the keys still to lock, in their order, and the locks that it has,
-- the latest first.
pub data Thread : Type 0 where
  idle : Thread
  locking : (todo : List Text) (held : List Held) → Thread
  waiting : (key : Text) (id : ℕ) (todo : List Text) (held : List Held) → Thread
  unlocking : (held : List Held) → Thread
  leaving : (key : Text) (id : ℕ) (held : List Held) → Thread

-- One step of one goroutine.
pub data Move : PathLocker → Thread → PathLocker → Thread → Type 0 where
  -- a call of LockMany
  call : {l : PathLocker} (paths : List Text) → Move l idle l (locking (lock_keys paths) [])
  enter :
      {l : PathLocker} {key : Text} {todo : List Text} {held : List Held}
      → Move l
          (locking (key ∷ todo) held)
          (enter_lock key l).0
          (waiting key (enter_lock key l).1 todo held)
  -- the mutex of the entry is free
  acquire :
      {l : PathLocker} {key : Text} {id : ℕ} {todo : List Text} {held : List Held}
      → (l.entries id).locked ≡ false
      → Move l (waiting key id todo held) (set_locked true id l) (locking todo ((key, id) ∷ held))
  -- the caller has done its work
  finish : {l : PathLocker} {held : List Held} → Move l (locking [] held) l (unlocking held)
  unlock :
      {l : PathLocker} {key : Text} {id : ℕ} {held : List Held}
      → Move l (unlocking ((key, id) ∷ held)) (set_locked false id l) (leaving key id held)
  leave :
      {l : PathLocker} {key : Text} {id : ℕ} {held : List Held}
      → Move l (leaving key id held) (leave_lock key id l) (unlocking held)
  return : {l : PathLocker} → Move l (unlocking []) l idle

pub record System : Type 0 where
  pub locker : PathLocker
  pub threads : List Thread

pub data Step : System → System → Type 0 where
  step :
      {s : System} {t u : Thread} {l : PathLocker} (before after : List Thread)
      → s.threads ≡ before ++ t ∷ after
      → Move s.locker t l u
      → Step s (record { locker = l; threads = before ++ u ∷ after })

abbrev pub IsIdle : Thread → Type 0
IsIdle t = t ≡ idle

-- What goroutines that start idle can reach.
pub data Reach : System → Type 0 where
  start : {s : System} → s.locker ≡ new_path_locker → All IsIdle s.threads → Reach s
  later : {s t : System} → Reach s → Step s t → Reach t

-- The entries that a goroutine has counted itself on, and those whose mutex it has.
abbrev pub uses : Thread → List Held
uses idle = []
uses (locking todo held) = held
uses (waiting key id todo held) = (key, id) ∷ held
uses (unlocking held) = held
uses (leaving key id held) = (key, id) ∷ held

abbrev pub holds : Thread → List Held
holds idle = []
holds (locking todo held) = held
holds (waiting key id todo held) = held
holds (unlocking held) = held
holds (leaving key id held) = held

-- How often an address stands in a list of entries.
abbrev pub times : ℕ → List Held → ℕ
times id [] = 0
times id ((key, other) ∷ held) = (if other == id then 1 else 0) + times id held

abbrev pub users : ℕ → List Thread → ℕ
users id [] = 0
users id (t ∷ ts) = times id (uses t) + users id ts

abbrev pub holders : ℕ → List Thread → ℕ
holders id [] = 0
holders id (t ∷ ts) = times id (holds t) + holders id ts
