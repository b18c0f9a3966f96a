-- ===== src/Pending.antt =====
-- pkg/session/session.go: the requests in flight. A request waits on a channel of its own with
-- room for one response; registerPending, dropPending, resolvePending and closeWithError meet on
-- the map of these channels, each taking a channel out of the map under the lock and using it
-- after the lock is released. What a goroutine still has to do with a channel is a task, so that
-- every order of these steps is a list of moves.
pub mod Sound
pub mod Work
use rclaude.Prelude.{
  ℕ, zero, suc, ◌+◌, Bool, true, false, Option, none, some, List, [], ◌∷◌, ◌++◌, map, Text, ◌==◌,
  text_eq, nat_eq, if◌then◌else◌,
}
use rclaude.Prelude.Assoc
use rclaude.Prelude.Assoc.{Assoc}

-- remotefsv1.FileResponse: its request id, and the rest of it
pub record Response : Type 0 where
  pub request_id : Text
  pub payload : List ℕ

-- make(chan *remotefsv1.FileResponse, 1); `owner`, the request that it was made for, is there for
-- the theorems only
pub record Chan : Type 0 where
  pub owner : Text
  pub buffer : Option Response
  pub closed : Bool

-- What a goroutine does to a channel that it took out of the map.
pub data Task : Type 0 where
  -- close(ch)
  close_task : ℕ → Task
  -- ch <- resp; close(ch)
  send_task : ℕ → Response → Task

pub record Hub : Type 0 where
  pub pending : Assoc Text ℕ
  pub chans : Assoc ℕ Chan
  pub next_chan : ℕ
  pub tasks : List Task

abbrev pub empty_hub : Hub
empty_hub = record { pending = []; chans = []; next_chan = 0; tasks = [] }

abbrev pub fresh_chan : Text → Chan
fresh_chan id = record { owner = id; buffer = none; closed = false }

-- registerPending, under the lock: the channel, or none for ErrDuplicateRequestID
unfoldable pub register_pending : Text → Hub → Hub × Option ℕ
register_pending id h = elim (Assoc.lookup id h.pending) [
  | some c ↦ (h, none)
  | none ↦ (
    record h {
      pending = Assoc.insert id h.next_chan h.pending;
      chans = Assoc.insert h.next_chan (fresh_chan id) h.chans;
      next_chan = h.next_chan + 1;
    },
    some h.next_chan,
  )
]

abbrev pub take_out : Text → (ℕ → Task) → Option ℕ → Hub → Hub
take_out id task none h = h
take_out id task (some c) h = record h {
  pending = Assoc.remove id h.pending;
  tasks = task c ∷ h.tasks;
}

-- dropPending
unfoldable pub drop_pending : Text → Hub → Hub
drop_pending id h = take_out id close_task (Assoc.lookup id h.pending) h

-- resolvePending
unfoldable pub resolve_pending : Option Response → Hub → Hub
resolve_pending none h = h
resolve_pending (some resp) h =
    let id = resp.request_id in take_out id (λ c. send_task c resp) (Assoc.lookup id h.pending) h

-- The end of closeWithError: the map is emptied, then its channels are closed.
abbrev pub close_tasks : Assoc Text ℕ → List Task
close_tasks [] = []
close_tasks ((_, c) ∷ m) = close_task c ∷ close_tasks m

unfoldable pub close_pending : Hub → Hub
close_pending h = record h { pending = []; tasks = close_tasks h.pending ++ h.tasks }

-- close(ch): none is the panic of a channel that is closed already, or was never made
unfoldable pub close_chan : ℕ → Assoc ℕ Chan → Option (Assoc ℕ Chan)
close_chan c chans = elim (Assoc.lookup c chans) [
  | none ↦ none
  | some ch ↦ if ch.closed then none else some (Assoc.insert c (record ch { closed = true }) chans)
]

-- ch <- resp: none is the panic on a closed channel, and the wait for room in a full one
abbrev has_room : Option Response → Bool
has_room none = true
has_room (some _) = false

unfoldable pub send_chan : ℕ → Response → Assoc ℕ Chan → Option (Assoc ℕ Chan)
send_chan c resp chans = elim (Assoc.lookup c chans) [
  | none ↦ none
  | some ch ↦
      if ch.closed
      then none
      else if has_room ch.buffer
      then some (Assoc.insert c (record ch { buffer = some resp }) chans)
      else none
]

-- The next step of a task: the channels after it, and the tasks that it leaves.
unfoldable pub do_task : Task → Assoc ℕ Chan → Option (Assoc ℕ Chan × List Task)
do_task (close_task c) chans = elim (close_chan c chans) [
  | none ↦ none
  | some after ↦ some (after, [])
]
do_task (send_task c resp) chans = elim (send_chan c resp chans) [
  | none ↦ none
  | some after ↦ some (after, close_task c ∷ [])
]

-- The task at an index, and the others.
unfoldable pub pick : ℕ → List Task → Option (Task × List Task)
pick k [] = none
pick zero (task ∷ tasks) = some (task, tasks)
pick (suc k) (task ∷ tasks) = elim (pick k tasks) [
  | none ↦ none
  | some (picked, rest) ↦ some (picked, task ∷ rest)
]

pub data Move : Type 0 where
  register : Text → Move
  drop_request : Text → Move
  resolve : Option Response → Move
  close_all : Move
  work : ℕ → Move

abbrev pub work_on : Hub → Option (Task × List Task) → Option Hub
work_on h none = some h
work_on h (some (task, rest)) = elim (do_task task h.chans) [
  | none ↦ none
  | some (chans, left) ↦ some (record h { chans = chans; tasks = left ++ rest })
]

-- One step of some goroutine; none where it panics or blocks for ever.
unfoldable pub step : Move → Hub → Option Hub
step (register id) h = some (register_pending id h).0
step (drop_request id) h = some (drop_pending id h)
step (resolve resp) h = some (resolve_pending resp h)
step close_all h = some (close_pending h)
step (work k) h = work_on h (pick k h.tasks)

unfoldable pub run : List Move → Hub → Option Hub
run [] h = some h
run (move ∷ moves) h = elim (step move h) [ none ↦ none | some after ↦ run moves after ]
