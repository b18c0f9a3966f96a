-- ===== src/Syncer/Locker/Entries.antt =====
-- pkg/syncer/locker.go: the map of path locks. An entry is a pointer: a goroutine keeps the one that
-- it found, also when the map no longer holds it. Each region under the map's mutex is one step.
use rclaude.Prelude.{
  ℕ, ◌+◌, ◌-◌, Bool, false, Option, none, some, [], Text, ◌==◌, text_eq, nat_eq, if◌then◌else◌,
  length,
}
use rclaude.Prelude.Assoc
use rclaude.Prelude.Assoc.{Assoc}

-- pathEntry: whether its mutex is locked, and its count
pub record PathEntry : Type 0 where
  pub locked : Bool
  pub ref_count : ℕ

-- The heap of entries, by their address; `next` and what follows is free.
pub record PathLocker : Type 0 where
  pub locks : Assoc Text ℕ
  pub entries : ℕ → PathEntry
  pub next : ℕ

abbrev pub set_entry : ℕ → PathEntry → (ℕ → PathEntry) → ℕ → PathEntry
set_entry id entry entries other = if other == id then entry else entries other

-- newPathLocker
unfoldable pub new_path_locker : PathLocker
new_path_locker = record {
  locks = [];
  entries = λ _. record { locked = false; ref_count = 0 };
  next = 0;
}

-- The first region of Lock: the entry of the key, made if there is none, with one use more.
abbrev pub entered : Text → Option ℕ → PathLocker → PathLocker × ℕ
entered key none l = (
  record {
    locks = Assoc.insert key l.next l.locks;
    entries = set_entry l.next (record { locked = false; ref_count = 1 }) l.entries;
    next = l.next + 1;
  },
  l.next,
)
entered key (some id) l = (
  record l {
    entries =
        set_entry id
          (record { locked = (l.entries id).locked; ref_count = (l.entries id).ref_count + 1 })
          l.entries;
  },
  id,
)

unfoldable pub enter_lock : Text → PathLocker → PathLocker × ℕ
enter_lock key l = entered key (Assoc.lookup key l.locks) l

-- entry.mu.Lock and entry.mu.Unlock
unfoldable pub set_locked : Bool → ℕ → PathLocker → PathLocker
set_locked locked id l = record l {
  entries =
      set_entry id (record { locked = locked; ref_count = (l.entries id).ref_count }) l.entries;
}

-- The last region of the release: the count falls, and at 0 the key leaves the map.
unfoldable pub leave_lock : Text → ℕ → PathLocker → PathLocker
leave_lock key id l =
    let count = (l.entries id).ref_count - 1 in
    record l {
      entries =
          set_entry id (record { locked = (l.entries id).locked; ref_count = count }) l.entries;
      locks = if count == 0 then Assoc.remove key l.locks else l.locks;
    }

-- size
unfoldable pub size : PathLocker → ℕ
size l = length l.locks
