-- ===== src/PtyService/Attach/Orderly.antt =====
-- An attachment from beginning to end: its frames, its host, and the terminal that it gives back.
use rclaude.Prelude.{
  ◌≡◌, refl, sym, ap, ◌∙◌, inr, Bool, true, false, Option, none, some, List, [], ◌∷◌, Text, arith,
  Result, ok, err,
}
use rclaude.Prelude.Int.{ℤ}
use rclaude.PtyService.{
  rate_limited, of_text, ErrorKind, Reason, ClientFrame, attach_frame, stdin_frame, resize_frame,
  detach_frame, no_payload, AttachReq, ServerFrame, attached_frame, error_frame, World, after_send,
  application_error, new_attach_runtime,
}
use rclaude.PtyService.Handlers.{AttachEvent, returned, waits}
use rclaude.PtyService.Running.{IsOrderly, attach_loop-IsOrderly}
use rclaude.PtyService.Attach.{
  Registry, Refusal, receive_attach_request, reserve_session, of_registration, enforce_attach_limit,
  limit_error, start_host, spawned, of_spawn, register_for, Attached, refused, attached,
  run_attached, after_attached, start, or_start, attach_reserved, release, after_reserve, attach,
}
use rclaude.PtyService.Plan.{Config, Machine, prepare_spawn, SpawnPlan}

abbrev IsRefusal : List ServerFrame → Type 0
IsRefusal [] = Unit
IsRefusal (error_frame _ _ ∷ frames) = frames ≡ []
IsRefusal _ = ⊥

-- A refusal is at most an error frame; an attachment is orderly.
abbrev pub IsOrdered : Attached → Type 0
IsOrdered (refused sent _) = IsRefusal sent
IsOrdered (attached a) = IsOrderly a

abbrev IsPlain : Refusal → Type 0
IsPlain (sent, _) = IsRefusal sent

application_error-IsPlain :
    (w : World) (kind : ErrorKind) (reason : Reason) → IsPlain (application_error w kind reason [])
unfolding application_error
application_error-IsPlain w kind reason = told (w.send_error [] (error_frame kind reason))
  where
    told : (answer : Option Text) → IsPlain (after_send answer [] (error_frame kind reason))
    told none = refl
    told (some e) = tt

abbrev PlainIfRefused : Option Refusal → Type 0
PlainIfRefused none = Unit
PlainIfRefused (some refusal) = IsPlain refusal

abbrev PlainIfError : {A : Type 0} → Result Refusal A → Type 0
PlainIfError (ok _) = Unit
PlainIfError (err refusal) = IsPlain refusal

enforce_attach_limit-PlainIfRefused :
    (m : Machine) (w : World) (user : Text) → PlainIfRefused (enforce_attach_limit m w user)
unfolding enforce_attach_limit
enforce_attach_limit-PlainIfRefused m w user = limited (limit_error m.attach_limit user)
  where
    limited :
        (answer : Option Text)
        → PlainIfRefused (elim answer [
          | none ↦ none
          | some e ↦ some (application_error w rate_limited (of_text e) [])
        ])
    limited none = tt
    limited (some e) = application_error-IsPlain w rate_limited (of_text e)

start_host-PlainIfRefused :
    (m : Machine) (w : World) (cfg : Config) (user workspace : Text) (req : AttachReq)
    → PlainIfRefused (start_host m w cfg user workspace req)
unfolding start_host
start_host-PlainIfRefused m w cfg user workspace req =
    planned (prepare_spawn m cfg user workspace req)
  where
    hosted : (answer : Result Text Bool) → PlainIfRefused (of_spawn w answer)
    hosted (ok true) = tt
    hosted (ok false) = application_error-IsPlain w _ _
    hosted (err e) = application_error-IsPlain w _ _

    planned : (plan : Result Reason SpawnPlan) → PlainIfRefused (spawned m w cfg req plan)
    planned (err reason) = application_error-IsPlain w _ _
    planned (ok plan) = hosted (m.spawn _)

run_attached-IsOrderly :
    (w : World) (frame_max : ℤ) (session : Text) (events : List AttachEvent)
    → IsOrderly (run_attached w frame_max session events)
unfolding run_attached new_attach_runtime
run_attached-IsOrderly w frame_max session events =
    greeted (w.send_error [] (attached_frame session))
  where
    greeted : (answer : Option Text) → IsOrderly (after_attached w frame_max session events answer)
    greeted (some e) = (tt, omega arith, inr refl)
    greeted none =
        attach_loop-IsOrderly w frame_max events (new_attach_runtime (attached_frame session ∷ []))
          (record { talking = tt; counted = refl })

attach_reserved-IsOrdered :
    (m : Machine) (w : World) (cfg : Config) (user session workspace : Text) (req : AttachReq)
    (events : List AttachEvent)
    → IsOrdered (attach_reserved m w cfg user session workspace req events)
unfolding attach_reserved
attach_reserved-IsOrdered m w cfg user session workspace req events =
    both (enforce_attach_limit m w user) (start_host m w cfg user workspace req)
      (enforce_attach_limit-PlainIfRefused m w user)
      (start_host-PlainIfRefused m w cfg user workspace req)
  where
    both :
        (a b : Option Refusal)
        → PlainIfRefused a
        → PlainIfRefused b
        → IsOrdered (start m w cfg user session events (or_start a b))
    both (some refusal) b h k = h
    both none (some refusal) h k = k
    both none none h k = run_attached-IsOrderly w cfg.frame_max session events

abbrev pub Declines : Result Text (Option Text) → Type 0
Declines (ok (some _)) = ⊥
Declines _ = Unit

-- What Attach asks of the registry: whether RegisterPTY is accepted for a user changes neither with
-- LookupDaemon, nor with a RegisterPTY that declines, nor with one that UnregisterPTY takes back.
pub record GivesBack {S : Type 0} (reg : Registry S) (accepts : Text → S → Bool) : Type 0 where
  pub looked_up :
      (user other : Text) (s : S) → accepts other (reg.lookup_daemon user s).0 ≡ accepts other s
  pub declined :
      (user other : Text) (s : S)
      → Declines (reg.register_pty user s).1
      → accepts other (reg.register_pty user s).0 ≡ accepts other s
  pub restored :
      (user session other : Text) (s next : S)
      → reg.register_pty user s ≡ (next, ok (some session))
      → accepts other (reg.unregister_pty user session next) ≡ accepts other s

-- The first is so unless Attach still waits for an event.
abbrev pub UnlessWaits : Type 0 → Attached → Type 0
UnlessWaits P (attached (waits _)) = Unit
UnlessWaits P _ = P

module _ {S : Type 0} (reg : Registry S) (accepts : Text → S → Bool)
    (laws : GivesBack reg accepts) where
  abbrev IsGood : Text → S → S × Attached → Type 0
  IsGood other s (after, a) = IsOrdered a × UnlessWaits (accepts other after ≡ accepts other s) a

  release-IsGood :
      (user session other : Text) (s next : S) (a : Attached)
      → accepts other (reg.unregister_pty user session next) ≡ accepts other s
      → IsOrdered a
      → IsGood other s (release reg user session next a)
  release-IsGood user session other s next (refused sent stop) back h = (h, back)
  release-IsGood user session other s next (attached (returned r stop)) back h = (h, back)
  release-IsGood user session other s next (attached (waits r)) back h = (h, tt)

  attach-IsGood :
      (m : Machine) (w : World) (cfg : Config) (caller : Option Text)
      (first : Result Text ClientFrame) (events : List AttachEvent) (s : S) (other : Text)
      → IsGood other s (attach reg m w cfg caller first events s)
  unfolding attach receive_attach_request reserve_session
  attach-IsGood m w cfg none first events s other = (tt, refl)
  attach-IsGood m w cfg (some user) (err e) events s other = (tt, refl)
  attach-IsGood m w cfg (some user) (ok (stdin_frame _)) events s other =
      (application_error-IsPlain w _ _, refl)
  attach-IsGood m w cfg (some user) (ok (resize_frame _)) events s other =
      (application_error-IsPlain w _ _, refl)
  attach-IsGood m w cfg (some user) (ok detach_frame) events s other =
      (application_error-IsPlain w _ _, refl)
  attach-IsGood m w cfg (some user) (ok no_payload) events s other =
      (application_error-IsPlain w _ _, refl)
  attach-IsGood m w cfg (some user) (ok (attach_frame req)) events s other =
      found (reg.lookup_daemon user s) (laws.looked_up user other s)
    where
      registered :
          (workspace : Text) (before : S)
          → accepts other before ≡ accepts other s
          → (answer : S × Result Text (Option Text)) → reg.register_pty user before ≡ answer
          → IsGood other s (
              after_reserve reg m w cfg user req events
                (answer.0, of_registration w workspace answer.1))
      registered workspace before same (next, ok (some session)) e =
          release-IsGood user session other s next _
            (laws.restored user session other before next e ∙ same)
            (attach_reserved-IsOrdered m w cfg user session workspace req events)
      registered workspace before same (next, ok none) e = (
        application_error-IsPlain w _ _,
        ap (λ a. accepts other a.0) (sym e) ∙ laws.declined user other before (rw e tt) ∙ same,
      )
      registered workspace before same (next, err text) e = (
        application_error-IsPlain w _ _,
        ap (λ a. accepts other a.0) (sym e) ∙ laws.declined user other before (rw e tt) ∙ same,
      )

      found :
          (answer : S × Option Text)
          → accepts other answer.0 ≡ accepts other s
          → IsGood other s
              (after_reserve reg m w cfg user req events (register_for reg w user answer))
      found (before, none) same = (application_error-IsPlain w _ _, same)
      found (before, some workspace) same =
          registered workspace before same (reg.register_pty user before) refl

  -- Attach sends nothing but an error when it refuses, else the attached frame, output, and at most
  -- one last frame, the exit of the host or an error. When it returns, a host that it started has
  -- exited or was shut down, once at most, and the registry accepts a terminal of each user as before.
  pub attach-IsOrdered :
      (m : Machine) (w : World) (cfg : Config) (caller : Option Text)
      (first : Result Text ClientFrame) (events : List AttachEvent) (s : S) (other : Text)
      → IsOrdered (attach reg m w cfg caller first events s).1
        × UnlessWaits
            (accepts other (attach reg m w cfg caller first events s).0 ≡ accepts other s)
            (attach reg m w cfg caller first events s).1
  attach-IsOrdered = attach-IsGood
