-- ===== src/PtyService.antt =====
-- pkg/ptyservice/service.go: the frames of a terminal, the outside world, and an attachment that runs.
-- An error of the world is its text, a reason of the service is what its text tells.
pub mod Frames
pub mod Handlers
pub mod Running
pub mod Plan
pub mod Attach
use rclaude.Prelude.{
  ℕ, ◌+◌, Bool, true, false, not, ◌&&◌, ◌||◌, Option, none, some, List, [], ◌∷◌, ◌++◌, Text, codes,
  length, ltb, ◌==◌, text_eq, if◌then◌else◌, Result, ok, err,
}
use rclaude.Prelude.Int.{ℤ, pos, ltb_ℤ}
use rclaude.PtyHost.{HostError, WindowSize, ExitInfo}

-- remotefsv1.Error_Kind
pub data ErrorKind : Type 0 where
  daemon_not_connected session_busy spawn_failed protocol rate_limited internal : ErrorKind

pub record AttachReq : Type 0 where
  pub agent : Text
  pub term : Text
  pub initial_size : Option WindowSize

-- ClientFrame, by its payload
pub data ClientFrame : Type 0 where
  attach_frame : AttachReq → ClientFrame
  stdin_frame : List ℕ → ClientFrame
  resize_frame : WindowSize → ClientFrame
  detach_frame no_payload : ClientFrame

-- The message of an error frame; an empty one is the name of the kind.
pub data Reason : Type 0 where
  first_frame_attach not_connected already_attached agent_required nil_host frame_too_large
        kind_name :
      Reason
  agent_refused : Text → HostError → Reason
  host_refused : HostError → Reason
  external stdin_limited : Text → Reason

abbrev pub of_text : Text → Reason
of_text [] = kind_name
of_text (c ∷ s) = external (c ∷ s)

-- ServerFrame, by its payload
pub data ServerFrame : Type 0 where
  attached_frame : (session : Text) → ServerFrame
  stdout_frame : List ℕ → ServerFrame
  exited_frame : ExitInfo → ServerFrame
  error_frame : ErrorKind → Reason → ServerFrame

-- The calls of a Host that have an effect.
pub data HostCall : Type 0 where
  write_stdin : List ℕ → HostCall
  resize_to : WindowSize → HostCall
  shut_down wait_for : HostCall

-- The stream, the host and the input limiter, which may be nil, as the service calls them: the error
-- of a call after what was sent, or after the calls so far.
pub record World : Type 0 where
  pub send_error : List ServerFrame → ServerFrame → Option Text
  pub write_error : List HostCall → List ℕ → Option Text
  pub resize_error : List HostCall → WindowSize → Option Text
  pub input_limit : Option (List HostCall → ℕ → Option Text)

-- What ends Attach early; sending is on the stream.
pub data Stop : Type 0 where
  application_sent unauthenticated : Stop
  failed : Text → Stop

-- sendApplicationError and applicationError
abbrev pub after_send : Option Text → List ServerFrame → ServerFrame → List ServerFrame × Stop
after_send none sent f = (sent ++ f ∷ [], application_sent)
after_send (some e) sent f = (sent, failed e)

unfoldable pub application_error :
    World → ErrorKind → Reason → List ServerFrame → List ServerFrame × Stop
application_error w kind reason sent =
    after_send (w.send_error sent (error_frame kind reason)) sent (error_frame kind reason)

-- normalizeApplicationStop
abbrev pub normalize : Stop → Option Stop
normalize application_sent = none
normalize unauthenticated = some unauthenticated
normalize (failed e) = some (failed e)

-- attachRuntime, with what it sent and the calls of its host; the last two fields tell whether the
-- channels that the loop selects from are not nil, and `shutdown_done` is shutdownOnce.
pub record AttachRuntime : Type 0 where
  pub stream_open : Bool
  pub stdout_closed : Bool
  pub host_exited : Bool
  pub exit_info : ExitInfo
  pub shutdown_done : Bool
  pub sent : List ServerFrame
  pub calls : List HostCall
  pub stdout_live : Bool
  pub client_live : Bool

-- newAttachRuntime, after the frames that were sent
unfoldable pub new_attach_runtime : List ServerFrame → AttachRuntime
new_attach_runtime sent = record {
  stream_open = true;
  stdout_closed = false;
  host_exited = false;
  exit_info = record { code = pos 0; signal = 0 };
  shutdown_done = false;
  sent = sent;
  calls = [];
  stdout_live = true;
  client_live = true;
}

unfoldable pub ready_to_exit : AttachRuntime → Bool
ready_to_exit r = r.host_exited && r.stdout_closed

-- shutdown; its error is dropped
unfoldable pub shutdown : AttachRuntime → AttachRuntime
shutdown r =
    if r.shutdown_done
    then r
    else record r { shutdown_done = true; calls = r.calls ++ shut_down ∷ [] }

-- waitHostSilently
unfoldable pub wait_host : AttachRuntime → AttachRuntime
wait_host r = record r { calls = r.calls ++ wait_for ∷ [] }

unfoldable pub close_stream : AttachRuntime → AttachRuntime
close_stream r = shutdown (record r { stream_open = false })

abbrev pub with_sent : AttachRuntime → List ServerFrame × Stop → AttachRuntime × Option Stop
with_sent r (sent, stop) = (record r { sent = sent }, some stop)

-- sendApplicationError of the runtime
unfoldable pub send_application_error :
    World → ErrorKind → Reason → AttachRuntime → AttachRuntime × Option Stop
send_application_error w kind reason r =
    if not r.stream_open then (r, none) else with_sent r (application_error w kind reason r.sent)
