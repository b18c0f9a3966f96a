-- ===== src/Pending/Work.antt =====
-- Every step of every order of the steps goes through, and every channel ends with an answer to
-- its own request or none.
use rclaude.Prelude.{
  ℕ, zero, suc, ◌+◌, ◌≤◌, ◌≡◌, refl, true, some, List, [], ◌∷◌, ◌++◌, ◌==◌, text_eq, nat_eq, arith,
  ◌∙◌, Option-cases, inl, inr, beq_refl,
}
use rclaude.Prelude.Assoc
use rclaude.Prelude.Assoc.{Assoc}
use rclaude.Pending.{
  Response, Chan, Task, close_task, send_task, Hub, empty_hub, fresh_chan, register_pending,
  drop_pending, resolve_pending, close_pending, close_chan, send_chan, do_task, pick, Move,
  register, drop_request, resolve, close_all, work, work_on, step, run,
}
use rclaude.Pending.Sound.{
  task_chan, one_if, in_pending, in_tasks, IsOpen, IsReady, AllReady, IsAnswer, IsSound,
  AllFresh-other, AllReady-other, IsAnswered-insert, register_pending-IsSound, drop_pending-IsSound,
  resolve_pending-IsSound, close_pending-IsSound,
}

-- A picked task is one of the tasks, and the others are left.
in_tasks-pick :
    (c k : ℕ) (tasks : List Task) (task : Task) (rest : List Task)
    → pick k tasks ≡ some (task, rest)
    → in_tasks c tasks ≡ one_if (task_chan task == c) + in_tasks c rest
unfolding pick in_tasks
in_tasks-pick c k [] task rest e = absurd (ground arith)
in_tasks-pick c zero (first ∷ tasks) task rest e =
    let at : (first ≡ task) × (tasks ≡ rest) = ground arith in rw at.0 (rw at.1 refl)
in_tasks-pick c (suc k) (first ∷ tasks) task rest e = elim (Option-cases (pick k tasks)) [
  | inl absent ↦ absurd (ground arith)
  | inr ((picked, left), found) ↦
      let at : (picked ≡ task) × (first ∷ left ≡ rest) = ground arith in
      rw (← at.0) (rw (← at.1) (omega (arith, in_tasks-pick c k tasks picked left found)))
]

AllReady-pick :
    (chans : Assoc ℕ Chan) (k : ℕ) (tasks : List Task) (task : Task) (rest : List Task)
    → pick k tasks ≡ some (task, rest)
    → AllReady chans tasks
    → IsReady chans task × AllReady chans rest
unfolding pick
AllReady-pick chans k [] task rest e h = absurd (ground arith)
AllReady-pick chans zero (first ∷ tasks) task rest e h =
    let at : (first ≡ task) × (tasks ≡ rest) = ground arith in rw (← at.0) (rw (← at.1) (h.0, h.1))
AllReady-pick chans (suc k) (first ∷ tasks) task rest e h = elim (Option-cases (pick k tasks)) [
  | inl absent ↦ absurd (ground arith)
  | inr ((picked, left), found) ↦
      let at : (picked ≡ task) × (first ∷ left ≡ rest) = ground arith in
      let ih = AllReady-pick chans k tasks picked left found h.1 in
      rw (← at.0) (rw (← at.1) (ih.0, (h.0, ih.1)))
]

-- What the state is while a task runs: the task's channel is nowhere else.
module _ (h : Hub) (s : IsSound h) (task : Task) (rest : List Task)
    (split : (c : ℕ) → in_tasks c h.tasks ≡ one_if (task_chan task == c) + in_tasks c rest)
    (others : AllReady h.chans rest) where
  alone : (in_pending (task_chan task) h.pending ≡ 0) × (in_tasks (task_chan task) rest ≡ 0)
  alone =
      let c = task_chan task in
      let self : one_if (c == c) ≡ 1 = rw (beq_refl c) refl in omega (arith, s.once c, split c)

  -- The channel is written, and the task is done or becomes one that closes.
  written-IsSound :
      (x : Chan) (left : List Task)
      → IsAnswer x.owner x.buffer
      → ((c : ℕ) → in_tasks c (left ++ rest) ≤ one_if (task_chan task == c) + in_tasks c rest)
      → AllReady (Assoc.insert (task_chan task) x h.chans) (left ++ rest)
      → IsSound (record h { chans = Assoc.insert (task_chan task) x h.chans; tasks = left ++ rest })
  written-IsSound x left a fewer r = record {
    once = λ c. omega (arith, s.once c, split c, fewer c);
    made = λ c b. omega (arith, s.made c b, split c, fewer c);
    fresh = AllFresh-other h.chans (task_chan task) x h.pending alone.0 s.fresh;
    ready = r;
    answered = IsAnswered-insert h.chans (task_chan task) x a s.answered;
  }

  rest-ready : (x : Chan) → AllReady (Assoc.insert (task_chan task) x h.chans) rest
  rest-ready x = AllReady-other h.chans (task_chan task) x rest alone.1 others

do_task-close :
    (c : ℕ) (chans : Assoc ℕ Chan) (o : IsOpen chans c)
    → do_task (close_task c) chans
      ≡ some (Assoc.insert c (record (o.chan) { closed = true }) chans, [])
unfolding do_task close_chan
do_task-close c chans o = rw (o.there, do_task, close_chan) (simp (o.open_yet))

do_task-send :
    (c : ℕ) (resp : Response) (chans : Assoc ℕ Chan)
    → Assoc.lookup c chans ≡ some (fresh_chan resp.request_id)
    → do_task (send_task c resp) chans
      ≡ some (
        Assoc.insert c (record (fresh_chan resp.request_id) { buffer = some resp }) chans,
        close_task c ∷ [],
      )
unfolding do_task send_chan
do_task-send c resp chans e = rw (e, do_task, send_chan) refl

-- A ready task is done without a panic and without waiting, and leaves a sound state.
abbrev pub Goes : Move → Hub → Type 0
Goes move h = (after : Hub) × (step move h ≡ some after) × IsSound after

picked-Goes :
    (k : ℕ) (h : Hub) (task : Task) (rest : List Task)
    → IsSound h
    → pick k h.tasks ≡ some (task, rest)
    → IsReady h.chans task
    → AllReady h.chans rest
    → Goes (work k) h
unfolding step
picked-Goes k h (close_task c) rest s e o others =
    let closed = record (o.chan) { closed = true } in
    let split = λ (d : ℕ). in_tasks-pick d k h.tasks (close_task c) rest e in
    (
      record h { chans = Assoc.insert c closed h.chans; tasks = rest },
      rw e (rw (do_task-close c h.chans o, work_on) refl),
      written-IsSound h s (close_task c) rest split others closed [] (s.answered c o.chan o.there)
          (λ d. omega arith) (rest-ready h s (close_task c) rest split others closed),
    )
picked-Goes k h (send_task c resp) rest s e fresh others =
    let full = record (fresh_chan resp.request_id) { buffer = some resp } in
    let split = λ (d : ℕ). in_tasks-pick d k h.tasks (send_task c resp) rest e in
    (
      record h { chans = Assoc.insert c full h.chans; tasks = close_task c ∷ rest },
      rw e (rw (do_task-send c resp h.chans fresh, work_on) refl),
      written-IsSound h s (send_task c resp) rest split others full (close_task c ∷ []) refl
          (λ d. unfold in_tasks in omega arith)
          (
            record {
              chan = full;
              there = Assoc.lookup-insert c c full h.chans ∙ rw (beq_refl c) refl;
              open_yet = refl;
            },
            rest-ready h s (send_task c resp) rest split others full,
          ),
    )

step-Goes : (move : Move) (h : Hub) → IsSound h → Goes move h
unfolding step
step-Goes (register id) h s = ((register_pending id h).0, refl, register_pending-IsSound id h s)
step-Goes (drop_request id) h s = (drop_pending id h, refl, drop_pending-IsSound id h s)
step-Goes (resolve resp) h s = (resolve_pending resp h, refl, resolve_pending-IsSound resp h s)
step-Goes close_all h s = (close_pending h, refl, close_pending-IsSound h s)
step-Goes (work k) h s = elim (Option-cases (pick k h.tasks)) [
  | inl e ↦ (h, rw e refl, s)
  | inr ((task, rest), e) ↦
      let r = AllReady-pick h.chans k h.tasks task rest e s.ready in
      picked-Goes k h task rest s e r.0 r.1
]

-- From a sound state, any order of the steps goes through to its end, with no panic on a closed
-- channel and no wait for room in one, and every channel holds an answer to its own request, or
-- nothing.
pub run-IsSound :
    (moves : List Move) (h : Hub)
    → IsSound h
    → (after : Hub) × (run moves h ≡ some after) × IsSound after
unfolding run
run-IsSound [] h s = (h, refl, s)
run-IsSound (move ∷ moves) h s =
    let first = step-Goes move h s in
    let rest = run-IsSound moves first.0 first.2 in (rest.0, rw (first.1, run) rest.1, rest.2)

pub empty_hub-IsSound : IsSound empty_hub
unfolding in_pending in_tasks
empty_hub-IsSound = record {
  once = λ c. omega arith;
  made = λ c l. omega arith;
  fresh = tt;
  ready = tt;
  answered = λ c ch e. absurd (ground (arith, Assoc.lookup-nil {V = Chan} c));
}
