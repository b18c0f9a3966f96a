-- ===== src/PtyService/Attach.antt =====
-- Attach of pkg/ptyservice/service.go from the first frame on: the reservation of the terminal, its
-- limit, its program, and the attachment that runs.
pub mod Orderly
pub mod Environment
pub mod Confined
use rclaude.Prelude.{
  ℕ, ◌+◌, Bool, true, false, not, ◌&&◌, ◌||◌, Option, none, some, List, [], ◌∷◌, ◌++◌, Text, codes,
  trim_space, ◌==◌, text_eq, nat_eq, if◌then◌else◌, Result, ok, err,
}
use rclaude.Prelude.Int.{ℤ, pos, leb_ℤ}
use rclaude.Prelude.Assoc
use rclaude.Prelude.Assoc.{Assoc}
use rclaude.PtyHost.{HostError, WindowSize, SpawnReq, resolve_cwd, build_env, resolve_binary}
use rclaude.PtyService.{
  ErrorKind, daemon_not_connected, session_busy, spawn_failed, protocol, rate_limited, internal,
  AttachReq, ClientFrame, attach_frame, Reason, first_frame_attach, not_connected, already_attached,
  agent_required, agent_refused, host_refused, nil_host, of_text, ServerFrame, attached_frame,
  shut_down, wait_for, World, Stop, unauthenticated, failed, application_error, normalize,
  AttachRuntime, new_attach_runtime,
}
use rclaude.PtyService.Handlers.{AttachEvent, Attachment, returned, waits, attach_loop}
use rclaude.PtyService.Plan.{
  Config, Machine, ServiceError, SpawnPlan, cut_equals, env_map, from_proto_size, new_service,
  nil_registry, nil_spawner, plan_for, plan_in, prepare_spawn, resolve_agent,
}

-- Registry
pub record Registry (S : Type 0) : Type 0 where
  pub lookup_daemon : Text → S → S × Option Text
  pub register_pty : Text → S → S × Result Text (Option Text)
  pub unregister_pty : Text → Text → S → S

-- What is sent, and why Attach stops, where it refuses.
abbrev pub Refusal : Type 0
Refusal = List ServerFrame × Stop

-- receiveAttachRequest, of the user of the context and the first Recv
unfoldable pub receive_attach_request :
    World → Option Text → Result Text ClientFrame → Result Refusal (Text × AttachReq)
receive_attach_request w none first = err ([], unauthenticated)
receive_attach_request w (some user) (err e) = err ([], failed e)
receive_attach_request w (some user) (ok (attach_frame attach)) = ok (user, attach)
receive_attach_request w (some user) (ok _) =
    err (application_error w protocol first_frame_attach [])

abbrev of_registration : World → Text → Result Text (Option Text) → Result Refusal (Text × Text)
of_registration w workspace (err e) = err (application_error w internal (of_text e) [])
of_registration w workspace (ok none) = err (application_error w session_busy already_attached [])
of_registration w workspace (ok (some session)) = ok (session, workspace)

abbrev pub register_for :
    {S : Type 0} → Registry S → World → Text → S × Option Text → S × Result Refusal (Text × Text)
register_for reg w user (s, none) =
    (s, err (application_error w daemon_not_connected not_connected []))
register_for reg w user (s, some workspace) =
    let (next, answer) = reg.register_pty user s in (next, of_registration w workspace answer)

-- reserveSession
unfoldable pub reserve_session :
    {S : Type 0} → Registry S → World → Text → S → S × Result Refusal (Text × Text)
reserve_session reg w user s = register_for reg w user (reg.lookup_daemon user s)

abbrev limit_error : Option (Text → Option Text) → Text → Option Text
limit_error none user = none
limit_error (some limit) user = limit user

-- enforceAttachLimit
unfoldable pub enforce_attach_limit : Machine → World → Text → Option Refusal
enforce_attach_limit m w user = elim (limit_error m.attach_limit user) [
  | none ↦ none
  | some e ↦ some (application_error w rate_limited (of_text e) [])
]

abbrev of_spawn : World → Result Text Bool → Option Refusal
of_spawn w (err e) = some (application_error w spawn_failed (of_text e) [])
of_spawn w (ok false) = some (application_error w spawn_failed nil_host [])
of_spawn w (ok true) = none

abbrev spawned : Machine → World → Config → AttachReq → Result Reason SpawnPlan → Option Refusal
spawned m w cfg attach (err reason) = some (application_error w spawn_failed reason [])
spawned m w cfg attach (ok plan) = of_spawn w (
    m.spawn (record {
      binary = plan.binary;
      cwd = plan.cwd;
      env = plan.env;
      init_size = from_proto_size attach.initial_size;
      graceful_timeout = cfg.graceful_stop;
    }))

-- startHost: why it refuses
unfoldable pub start_host : Machine → World → Config → Text → Text → AttachReq → Option Refusal
start_host m w cfg user workspace attach =
    spawned m w cfg attach (prepare_spawn m cfg user workspace attach)

-- What Attach comes to: a refusal without a host, or an attachment.
pub data Attached : Type 0 where
  refused : List ServerFrame → Option Stop → Attached
  attached : Attachment → Attached

abbrev refuse : Refusal → Attached
refuse (sent, stop) = refused sent (normalize stop)

-- sendAttachedFrame, and cleanupHost where it fails
abbrev after_attached : World → ℤ → Text → List AttachEvent → Option Text → Attachment
after_attached w frame_max session events none =
    attach_loop w frame_max events (new_attach_runtime (attached_frame session ∷ []))
after_attached w frame_max session events (some e) =
    returned (record (new_attach_runtime []) { calls = shut_down ∷ wait_for ∷ [] })
      (some (failed e))

unfoldable pub run_attached : World → ℤ → Text → List AttachEvent → Attachment
run_attached w frame_max session events =
    after_attached w frame_max session events (w.send_error [] (attached_frame session))

abbrev pub start :
    Machine → World → Config → Text → Text → List AttachEvent → Option Refusal → Attached
start m w cfg user session events (some refusal) = refuse refusal
start m w cfg user session events none = attached (run_attached w cfg.frame_max session events)

abbrev pub or_start : Option Refusal → Option Refusal → Option Refusal
or_start (some refusal) next = some refusal
or_start none next = next

-- Attach once its terminal is reserved.
unfoldable pub attach_reserved :
    Machine → World → Config → Text → Text → Text → AttachReq → List AttachEvent → Attached
attach_reserved m w cfg user session workspace attach events =
    start m w cfg user session events
      (or_start (enforce_attach_limit m w user) (start_host m w cfg user workspace attach))

-- The deferred UnregisterPTY: it runs when Attach returns.
abbrev pub release : {S : Type 0} → Registry S → Text → Text → S → Attached → S × Attached
release reg user session s (attached (waits r)) = (s, attached (waits r))
release reg user session s (attached (returned r stop)) =
    (reg.unregister_pty user session s, attached (returned r stop))
release reg user session s (refused sent stop) =
    (reg.unregister_pty user session s, refused sent stop)

abbrev pub after_reserve :
    {S : Type 0}
    → Registry S
    → Machine
    → World
    → Config
    → Text
    → AttachReq
    → List AttachEvent
    → S × Result Refusal (Text × Text)
    → S × Attached
after_reserve reg m w cfg user attach events (s, err refusal) = (s, refuse refusal)
after_reserve reg m w cfg user attach events (s, ok (session, workspace)) =
    release reg user session s (attach_reserved m w cfg user session workspace attach events)

abbrev pub after_receive :
    {S : Type 0}
    → Registry S
    → Machine
    → World
    → Config
    → List AttachEvent
    → S
    → Result Refusal (Text × AttachReq)
    → S × Attached
after_receive reg m w cfg events s (err refusal) = (s, refuse refusal)
after_receive reg m w cfg events s (ok (user, attach)) =
    after_reserve reg m w cfg user attach events (reserve_session reg w user s)

-- attach
unfoldable pub attach :
    {S : Type 0}
    → Registry S
    → Machine
    → World
    → Config
    → Option Text
    → Result Text ClientFrame
    → List AttachEvent
    → S
    → S × Attached
attach reg m w cfg user first events s =
    after_receive reg m w cfg events s (receive_attach_request w user first)
