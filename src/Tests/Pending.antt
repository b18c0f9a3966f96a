-- ===== src/Tests/Pending.antt =====
-- Two requests, a response that crosses a drop and the closing of the session.
use rclaude.Prelude.{ℕ, ◌≡◌, refl, Option, none, some, List, [], ◌∷◌, codes, true, text_beq, nat_eq}
use rclaude.Prelude.Assoc
use rclaude.Pending.{
  Response, Chan, Hub, empty_hub, register, drop_request, resolve, close_all, work, Move,
  register_pending, drop_pending, resolve_pending, close_pending, close_chan, send_chan, do_task,
  pick, step, run,
}
use rclaude.Pending.Sound.{IsSound}
use rclaude.Pending.Work.{run-IsSound, empty_hub-IsSound}

hub : Unit {0}
unfolding register_pending drop_pending resolve_pending close_pending close_chan send_chan do_task
    pick step run text_beq Assoc.lookup Assoc.insert Assoc.remove
hub = tt

abbrev answer : Response
answer = record { request_id = codes "u-1"; payload = 7 ∷ [] }

abbrev moves : List Move
moves =
    register (codes "u-1")
    ∷ register (codes "u-2")
    ∷ resolve (some answer)
    ∷ drop_request (codes "u-1")
    ∷ work 0
    ∷ close_all
    ∷ work 1
    ∷ work 0
    ∷ []

abbrev chan_at : ℕ → Option Hub → Option Chan
chan_at c none = none
chan_at c (some h) = Assoc.lookup c h.chans

run_test :
    chan_at 0 (run moves empty_hub)
    ≡ some (record { owner = codes "u-1"; buffer = some answer; closed = true })
unfolding hub
run_test = refl

run-IsSound_example : (after : Hub) × (run moves empty_hub ≡ some after) × IsSound after
run-IsSound_example = run-IsSound moves empty_hub empty_hub-IsSound
