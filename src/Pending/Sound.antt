-- ===== src/Pending/Sound.antt =====
-- No order of the steps closes a channel twice, sends on a closed one, or waits for room.
use rclaude.Prelude.{
  ℕ, ◌+◌, ◌≤◌, ◌≡◌, refl, Bool, true, false, Option, none, some, List, [], ◌∷◌, ◌++◌, Text, ◌==◌,
  text_eq, nat_eq, nat_beq_iff, text_beq_iff, arith, ◌∙◌, sym, Bool-cases, Option-cases, inl, inr,
  All, beq_refl,
}
use rclaude.Prelude.Assoc
use rclaude.Prelude.Assoc.{Assoc}
use rclaude.Pending.{
  Response, Chan, Task, close_task, send_task, Hub, fresh_chan, register_pending, take_out,
  drop_pending, resolve_pending, close_tasks, close_pending,
}

abbrev pub task_chan : Task → ℕ
task_chan (close_task c) = c
task_chan (send_task c _) = c

abbrev pub one_if : Bool → ℕ
one_if true = 1
one_if false = 0

-- How often a channel stands in the map, and among the tasks.
unfoldable pub in_pending : ℕ → Assoc Text ℕ → ℕ
in_pending c [] = 0
in_pending c ((_, d) ∷ m) = one_if (d == c) + in_pending c m

unfoldable pub in_tasks : ℕ → List Task → ℕ
in_tasks c [] = 0
in_tasks c (task ∷ tasks) = one_if (task_chan task == c) + in_tasks c tasks

abbrev pub IsFresh : Assoc ℕ Chan → Text → ℕ → Type 0
IsFresh chans id c = Assoc.lookup c chans ≡ some (fresh_chan id)

-- The channel of a task that only closes may hold the response to its own request.
abbrev pub IsAnswer : Text → Option Response → Type 0
IsAnswer id none = Unit {0}
IsAnswer id (some resp) = resp.request_id ≡ id

pub record IsOpen (chans : Assoc ℕ Chan) (c : ℕ) : Type 0 where
  pub chan : Chan
  pub there : Assoc.lookup c chans ≡ some chan
  pub open_yet : chan.closed ≡ false

abbrev pub IsReady : Assoc ℕ Chan → Task → Type 0
IsReady chans (close_task c) = IsOpen chans c
IsReady chans (send_task c resp) = IsFresh chans resp.request_id c

abbrev pub AllFresh : Assoc ℕ Chan → Assoc Text ℕ → Type 0
AllFresh chans = All (λ e. IsFresh chans e.0 e.1)

abbrev pub AllReady : Assoc ℕ Chan → List Task → Type 0
AllReady chans = All (IsReady chans)

-- What a channel holds answers the request that it was made for.
abbrev pub IsAnswered : Assoc ℕ Chan → Type 0
IsAnswered chans =
    (c : ℕ) (ch : Chan) → Assoc.lookup c chans ≡ some ch → IsAnswer ch.owner ch.buffer

-- Each channel is in the map or in one task, at most once; those in the map and those to be sent
-- on are open and empty, those to be closed are open.
pub record IsSound (h : Hub) : Type 0 where
  pub once : (c : ℕ) → in_pending c h.pending + in_tasks c h.tasks ≤ 1
  pub made : (c : ℕ) → h.next_chan ≤ c → in_pending c h.pending + in_tasks c h.tasks ≡ 0
  pub fresh : AllFresh h.chans h.pending
  pub ready : AllReady h.chans h.tasks
  pub answered : IsAnswered h.chans

pub in_pending-insert :
    (c d : ℕ) (id : Text) (m : Assoc Text ℕ)
    → Assoc.lookup id m ≡ none
    → in_pending c (Assoc.insert id d m) ≡ one_if (d == c) + in_pending c m
unfolding in_pending Assoc.insert Assoc.lookup
in_pending-insert c d id [] h = refl
in_pending-insert c d id ((j, e) ∷ m) h = ground (arith, in_pending-insert c d id m)

in_pending-remove :
    (c : ℕ) (id : Text) (m : Assoc Text ℕ) → in_pending c (Assoc.remove id m) ≤ in_pending c m
unfolding in_pending Assoc.remove
in_pending-remove c id [] = omega arith
in_pending-remove c id ((j, e) ∷ m) = ground (arith, in_pending-remove c id m)

in_pending-found :
    (c d : ℕ) (id : Text) (m : Assoc Text ℕ)
    → Assoc.lookup id m ≡ some d
    → in_pending c (Assoc.remove id m) + one_if (d == c) ≤ in_pending c m
unfolding in_pending Assoc.remove Assoc.lookup
in_pending-found c d id [] h = absurd (ground arith)
in_pending-found c d id ((j, e) ∷ m) h =
    ground (arith, in_pending-found c d id m, in_pending-remove c id m)

AllFresh-insert :
    (chans : Assoc ℕ Chan) (d : ℕ) (id : Text) (m : Assoc Text ℕ)
    → IsFresh chans id d
    → AllFresh chans m
    → AllFresh chans (Assoc.insert id d m)
unfolding Assoc.insert
AllFresh-insert chans d id [] f h = (f, tt)
AllFresh-insert chans d id ((j, e) ∷ m) f h = elim (Bool-cases (j == id)) [
  | inl same ↦ rw same (f, h.1)
  | inr other ↦ rw other (h.0, AllFresh-insert chans d id m f h.1)
]

AllFresh-remove :
    (chans : Assoc ℕ Chan) (id : Text) (m : Assoc Text ℕ)
    → AllFresh chans m
    → AllFresh chans (Assoc.remove id m)
unfolding Assoc.remove
AllFresh-remove chans id [] h = tt
AllFresh-remove chans id ((j, e) ∷ m) h = elim (Bool-cases (j == id)) [
  | inl same ↦ rw same (AllFresh-remove chans id m h.1)
  | inr other ↦ rw other (h.0, AllFresh-remove chans id m h.1)
]

pub AllFresh-found :
    (chans : Assoc ℕ Chan) (d : ℕ) (id : Text) (m : Assoc Text ℕ)
    → AllFresh chans m
    → Assoc.lookup id m ≡ some d
    → IsFresh chans id d
unfolding Assoc.lookup
AllFresh-found chans d id [] h e = absurd (ground arith)
AllFresh-found chans d id ((j, f) ∷ m) h e = elim (Bool-cases (j == id)) [
  | inl same ↦
      let found : some f ≡ some d = ground arith in
      let at : f ≡ d = cc in
      let named : j ≡ id = (text_beq_iff j id).0 same in rw (← at) (rw (← named) h.0)
  | inr other ↦ AllFresh-found chans d id m h.1 (ground arith)
]

-- A write to a channel that the map does not hold leaves the others as they are.
lookup-other :
    (chans : Assoc ℕ Chan) (c d : ℕ) (x : Chan)
    → (c == d) ≡ false
    → Assoc.lookup c (Assoc.insert d x chans) ≡ Assoc.lookup c chans
lookup-other chans c d x ne = Assoc.lookup-insert d c x chans ∙ ground arith

pub AllFresh-other :
    (chans : Assoc ℕ Chan) (d : ℕ) (x : Chan) (m : Assoc Text ℕ)
    → in_pending d m ≡ 0
    → AllFresh chans m
    → AllFresh (Assoc.insert d x chans) m
unfolding in_pending
AllFresh-other chans d x [] z h = tt
AllFresh-other chans d x ((id, c) ∷ m) z h =
    (lookup-other chans c d x (ground arith) ∙ h.0, AllFresh-other chans d x m (ground arith) h.1)

IsReady-other :
    (chans : Assoc ℕ Chan) (d : ℕ) (x : Chan) (task : Task)
    → (task_chan task == d) ≡ false
    → IsReady chans task
    → IsReady (Assoc.insert d x chans) task
IsReady-other chans d x (close_task c) ne h = record {
  chan = h.chan;
  there = lookup-other chans c d x ne ∙ h.there;
  open_yet = h.open_yet;
}
IsReady-other chans d x (send_task c resp) ne h = lookup-other chans c d x ne ∙ h

pub AllReady-other :
    (chans : Assoc ℕ Chan) (d : ℕ) (x : Chan) (tasks : List Task)
    → in_tasks d tasks ≡ 0
    → AllReady chans tasks
    → AllReady (Assoc.insert d x chans) tasks
unfolding in_tasks
AllReady-other chans d x [] z h = tt
AllReady-other chans d x (task ∷ tasks) z h = (
  IsReady-other chans d x task (ground arith) h.0,
  AllReady-other chans d x tasks (ground arith) h.1,
)

pub IsAnswered-insert :
    (chans : Assoc ℕ Chan) (d : ℕ) (x : Chan)
    → IsAnswer x.owner x.buffer
    → IsAnswered chans
    → IsAnswered (Assoc.insert d x chans)
IsAnswered-insert chans d x a h c ch e = elim (Bool-cases (d == c)) [
  | inl same ↦
      let stored : some x ≡ some ch = sym (Assoc.lookup-insert d c x chans ∙ rw same) ∙ e in
      let at : x ≡ ch = cc in rw (← at) a
  | inr other ↦ h c ch (sym (Assoc.lookup-insert d c x chans ∙ rw other) ∙ e)
]

pub register_pending-IsSound : (id : Text) (h : Hub) → IsSound h → IsSound (register_pending id h).0
unfolding register_pending
register_pending-IsSound id h s = elim (Option-cases (Assoc.lookup id h.pending)) [
  | inr (c, e) ↦ rw (e, register_pending) s
  | inl e ↦
      rw (e, register_pending)
        (record {
          once = λ c. ground (
            arith,
            s.once c,
            s.made h.next_chan,
            in_pending-insert c h.next_chan id h.pending,
            nat_beq_iff h.next_chan c,
          );
          made = λ c l. ground (arith, s.made c, in_pending-insert c h.next_chan id h.pending);
          fresh =
              AllFresh-insert (Assoc.insert h.next_chan (fresh_chan id) h.chans) h.next_chan id
                h.pending
                (Assoc.lookup-insert h.next_chan h.next_chan (fresh_chan id) h.chans
                  ∙ rw (beq_refl h.next_chan))
                (AllFresh-other h.chans h.next_chan (fresh_chan id) h.pending
                  (omega (arith, s.made h.next_chan (omega arith))) s.fresh);
          ready =
              AllReady-other h.chans h.next_chan (fresh_chan id) h.tasks
                (omega (arith, s.made h.next_chan (omega arith))) s.ready;
          answered = IsAnswered-insert h.chans h.next_chan (fresh_chan id) tt s.answered;
        })
]

-- A channel goes from the map to a task.
take_out-IsSound :
    (id : Text) (task : ℕ → Task) (o : Option ℕ) (h : Hub)
    → IsSound h
    → Assoc.lookup id h.pending ≡ o
    → ((c : ℕ) → task_chan (task c) ≡ c)
    → ((c : ℕ) → IsFresh h.chans id c → IsReady h.chans (task c))
    → IsSound (take_out id task o h)
unfolding in_tasks
take_out-IsSound id task none h s e named ready = s
take_out-IsSound id task (some d) h s e named ready = record {
  once = λ c. ground (arith, s.once c, in_pending-found c d id h.pending, named d);
  made = λ c l. ground (arith, s.made c, in_pending-found c d id h.pending, named d);
  fresh = AllFresh-remove h.chans id h.pending s.fresh;
  ready = (ready d (AllFresh-found h.chans d id h.pending s.fresh e), s.ready);
  answered = s.answered;
}

IsOpen-of_fresh : (chans : Assoc ℕ Chan) (id : Text) (c : ℕ) → IsFresh chans id c → IsOpen chans c
IsOpen-of_fresh chans id c f = record { chan = fresh_chan id; there = f; open_yet = refl }

pub drop_pending-IsSound : (id : Text) (h : Hub) → IsSound h → IsSound (drop_pending id h)
unfolding drop_pending
drop_pending-IsSound id h s =
    take_out-IsSound id close_task (Assoc.lookup id h.pending) h s refl (λ c. refl)
      (IsOpen-of_fresh h.chans id)

pub resolve_pending-IsSound :
    (resp : Option Response) (h : Hub) → IsSound h → IsSound (resolve_pending resp h)
unfolding resolve_pending
resolve_pending-IsSound none h s = s
resolve_pending-IsSound (some resp) h s =
    take_out-IsSound resp.request_id (λ c. send_task c resp)
      (Assoc.lookup resp.request_id h.pending) h s refl (λ c. refl) (λ c f. f)

in_tasks-close_tasks :
    (c : ℕ) (m : Assoc Text ℕ) (tasks : List Task)
    → in_tasks c (close_tasks m ++ tasks) ≡ in_pending c m + in_tasks c tasks
unfolding in_tasks in_pending
in_tasks-close_tasks c [] tasks = omega arith
in_tasks-close_tasks c ((id, d) ∷ m) tasks = omega (arith, in_tasks-close_tasks c m tasks)

AllReady-close_tasks :
    (chans : Assoc ℕ Chan) (m : Assoc Text ℕ) (tasks : List Task)
    → AllFresh chans m
    → AllReady chans tasks
    → AllReady chans (close_tasks m ++ tasks)
AllReady-close_tasks chans [] tasks f h = h
AllReady-close_tasks chans ((id, c) ∷ m) tasks f h =
    (IsOpen-of_fresh chans id c f.0, AllReady-close_tasks chans m tasks f.1 h)

pub close_pending-IsSound : (h : Hub) → IsSound h → IsSound (close_pending h)
unfolding close_pending in_pending
close_pending-IsSound h s = record {
  once = λ c. omega (arith, s.once c, in_tasks-close_tasks c h.pending h.tasks);
  made = λ c l. omega (arith, s.made c l, in_tasks-close_tasks c h.pending h.tasks);
  fresh = tt;
  ready = AllReady-close_tasks h.chans h.pending h.tasks s.fresh s.ready;
  answered = s.answered;
}
