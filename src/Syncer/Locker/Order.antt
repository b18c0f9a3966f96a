-- ===== src/Syncer/Locker/Order.antt =====
-- LockMany takes its keys in ascending order: the locks of a goroutine are below those it wants.
use rclaude.Prelude.{◌≡◌, true, List, [], ◌∷◌, Text, nat_eq, text_eq, All}
use rclaude.Sorting.{text_lt, IsAscending}
use rclaude.Syncer.Locker.{lock_keys_lem}
use rclaude.Syncer.Locker.Entries.{PathLocker}
use rclaude.Syncer.Locker.Threads.{
  Held, Thread, locking, waiting, Move, call, enter, acquire, finish, unlock, leave, return, System,
  Step, step, Reach, start, later, IsIdle,
}
use rclaude.Syncer.Locker.Sound.{All-front, All-middle}

-- The locks that a goroutine has are below those that it still wants, in the order of the keys.
abbrev pub Below : List Text → List Held → Type 0
Below todo held = All (λ h. All (λ key. text_lt h.0 key ≡ true) todo) held

abbrev pub IsOrdered : Thread → Type 0
IsOrdered (locking todo held) = IsAscending todo × Below todo held
IsOrdered (waiting key id todo held) = IsAscending (key ∷ todo) × Below (key ∷ todo) held
IsOrdered _ = Unit

pub Below-tail :
    (key : Text) (todo : List Text) (held : List Held) → Below (key ∷ todo) held → Below todo held
Below-tail key todo [] h = tt
Below-tail key todo (one ∷ held) ((h, hs), rest) = (hs, Below-tail key todo held rest)

Move-IsOrdered : {l l' : PathLocker} {t u : Thread} → Move l t l' u → IsOrdered t → IsOrdered u
Move-IsOrdered (call paths) h = ((lock_keys_lem [] paths).0, tt)
Move-IsOrdered (enter) h = h
Move-IsOrdered (acquire {key} {todo} {held} free) ((h, hs), below) =
    (hs, (h, Below-tail key todo held below))
Move-IsOrdered (finish) h = tt
Move-IsOrdered (unlock) h = tt
Move-IsOrdered (leave) h = tt
Move-IsOrdered (return) h = tt

idle-IsOrdered : (ts : List Thread) → All IsIdle ts → All IsOrdered ts
idle-IsOrdered [] h = tt
idle-IsOrdered (t ∷ ts) (h, hs) = (rw h tt, idle-IsOrdered ts hs)

Step-IsOrdered : {s t : System} → Step s t → All IsOrdered s.threads → All IsOrdered t.threads
Step-IsOrdered {s} (step {t} {u} before after e move) h =
    let (first, others) = All-front IsOrdered before after t (rw e at h) in
    All-middle IsOrdered before after u (Move-IsOrdered move first, others)

pub Reach-IsOrdered : {s : System} → Reach s → All IsOrdered s.threads
Reach-IsOrdered {s} (start fresh quiet) = idle-IsOrdered s.threads quiet
Reach-IsOrdered (later r st) = Step-IsOrdered st (Reach-IsOrdered r)
