-- ===== src/PtyService/Handlers.antt =====
-- The loop of runAttached of pkg/ptyservice/service.go: what it takes from its channels, and the handlers.
use rclaude.Prelude.{
  ℕ, true, false, not, ◌||◌, Option, none, some, List, [], ◌∷◌, ◌++◌, Text, length, ◌==◌, text_eq,
  if◌then◌else◌,
}
use rclaude.Prelude.Int.{ℤ, pos, ltb_ℤ}
use rclaude.PtyHost.{WindowSize, ExitInfo}
use rclaude.PtyService.{
  AttachRuntime, ClientFrame, ErrorKind, HostCall, Reason, Stop, World, attach_frame, close_stream,
  detach_frame, exited_frame, failed, first_frame_attach, frame_too_large, internal, no_payload,
  normalize, of_text, protocol, rate_limited, ready_to_exit, resize_frame, resize_to,
  send_application_error, shutdown, stdin_frame, stdin_limited, stdout_frame, wait_host,
  write_stdin,
}

-- stdoutEvent, clientEvent and exitEvent
pub data StdoutEvent : Type 0 where
  stdout_data : List ℕ → StdoutEvent
  stdout_eof : StdoutEvent
  stdout_error : Text → StdoutEvent

pub data ClientEvent : Type 0 where
  client_frame : ClientFrame → ClientEvent
  client_error : Text → ClientEvent

pub record ExitEvent : Type 0 where
  pub info : ExitInfo
  pub error : Option Text

abbrev pub after_stdout : List ℕ → Option Text → AttachRuntime → AttachRuntime
after_stdout bytes none r = record r { sent = r.sent ++ stdout_frame bytes ∷ [] }
after_stdout bytes (some _) r = close_stream r

abbrev pub end_stdout : AttachRuntime → AttachRuntime
end_stdout r = record r { stdout_closed = true; stdout_live = false }

-- handleStdoutEvent, with none for the channel closed, and handleStdoutError
unfoldable pub handle_stdout_event :
    World → Option StdoutEvent → AttachRuntime → AttachRuntime × Option Stop
handle_stdout_event w none r = (end_stdout r, none)
handle_stdout_event w (some (stdout_data bytes)) r =
    if bytes == [] || not r.stream_open
    then (r, none)
    else (after_stdout bytes (w.send_error r.sent (stdout_frame bytes)) r, none)
handle_stdout_event w (some stdout_eof) r = (end_stdout r, none)
handle_stdout_event w (some (stdout_error e)) r =
    send_application_error w internal (of_text e) (wait_host (shutdown r))

-- What handleClientFrame answers.
pub data FrameResult : Type 0 where
  carries_on done : FrameResult
  frame_failed : ErrorKind → Reason → FrameResult

abbrev pub after_write : Option Text → List ℕ → AttachRuntime → AttachRuntime × FrameResult
after_write none payload r = (record r { calls = r.calls ++ write_stdin payload ∷ [] }, carries_on)
after_write (some e) payload r = (r, frame_failed internal (of_text e))

abbrev pub input_error : Option (List HostCall → ℕ → Option Text) → List HostCall → ℕ → Option Text
input_error none calls n = none
input_error (some limit) calls n = limit calls n

abbrev pub after_limit : World → Option Text → List ℕ → AttachRuntime → AttachRuntime × FrameResult
after_limit w none payload r = after_write (w.write_error r.calls payload) payload r
after_limit w (some e) payload r = (r, frame_failed rate_limited (stdin_limited e))

-- handleClientStdin
unfoldable pub handle_client_stdin :
    World → ℤ → List ℕ → AttachRuntime → AttachRuntime × FrameResult
handle_client_stdin w frame_max payload r =
    if ltb_ℤ frame_max (pos (length payload))
    then (r, frame_failed protocol frame_too_large)
    else after_limit w (input_error w.input_limit r.calls (length payload)) payload r

abbrev pub after_resize : Option Text → WindowSize → AttachRuntime → AttachRuntime × FrameResult
after_resize none size r = (record r { calls = r.calls ++ resize_to size ∷ [] }, carries_on)
after_resize (some e) size r = (r, frame_failed internal (of_text e))

-- handleClientResize
unfoldable pub handle_client_resize :
    World → WindowSize → AttachRuntime → AttachRuntime × FrameResult
handle_client_resize w size r = after_resize (w.resize_error r.calls size) size r

-- handleClientFrame
unfoldable pub handle_client_frame :
    World → ℤ → ClientFrame → AttachRuntime → AttachRuntime × FrameResult
handle_client_frame w frame_max (stdin_frame payload) r = handle_client_stdin w frame_max payload r
handle_client_frame w frame_max (resize_frame size) r = handle_client_resize w size r
handle_client_frame w frame_max detach_frame r = (r, done)
handle_client_frame w frame_max (attach_frame _) r = (r, frame_failed protocol first_frame_attach)
handle_client_frame w frame_max no_payload r = (r, frame_failed protocol first_frame_attach)

abbrev pub end_client : AttachRuntime → AttachRuntime
end_client r = record r { client_live = false }

abbrev pub after_frame : World → AttachRuntime × FrameResult → AttachRuntime × Option Stop
after_frame w (r, carries_on) = (r, none)
after_frame w (r, done) = (end_client (shutdown r), none)
after_frame w (r, frame_failed kind reason) =
    send_application_error w kind reason (wait_host (shutdown r))

-- handleClientEvent, with none for the channel closed
unfoldable pub handle_client_event :
    World → ℤ → Option ClientEvent → AttachRuntime → AttachRuntime × Option Stop
handle_client_event w frame_max none r = (end_client r, none)
handle_client_event w frame_max (some (client_error _)) r = (end_client (close_stream r), none)
handle_client_event w frame_max (some (client_frame f)) r =
    after_frame w (handle_client_frame w frame_max f r)

abbrev pub after_exit : World → Option Text → AttachRuntime → AttachRuntime × Option Stop
after_exit w none r = (r, none)
after_exit w (some e) r = send_application_error w internal (of_text e) r

-- handleExitEvent
unfoldable pub handle_exit_event : World → ExitEvent → AttachRuntime → AttachRuntime × Option Stop
handle_exit_event w e r = after_exit w e.error (record r { host_exited = true; exit_info = e.info })

-- What the loop takes from one of its channels.
pub data AttachEvent : Type 0 where
  from_stdout : Option StdoutEvent → AttachEvent
  from_client : Option ClientEvent → AttachEvent
  from_exit : ExitEvent → AttachEvent

-- processAttachEvent; a channel that is nil gives nothing, so that its events are passed over
unfoldable pub process_attach_event :
    World → ℤ → AttachEvent → AttachRuntime → AttachRuntime × Option Stop
process_attach_event w frame_max (from_stdout e) r =
    if r.stdout_live then handle_stdout_event w e r else (r, none)
process_attach_event w frame_max (from_client e) r =
    if r.client_live then handle_client_event w frame_max e r else (r, none)
process_attach_event w frame_max (from_exit e) r = handle_exit_event w e r

-- What runAttached comes to: it returns an error or nil, or waits for a further event.
pub data Attachment : Type 0 where
  returned : AttachRuntime → Option Stop → Attachment
  waits : AttachRuntime → Attachment

abbrev pub after_exited : Option Text → AttachRuntime → Attachment
after_exited none r = returned (record r { sent = r.sent ++ exited_frame r.exit_info ∷ [] }) none
after_exited (some e) r = returned r (some (failed e))

-- finish
unfoldable pub finish : World → AttachRuntime → Attachment
finish w r =
    if not r.stream_open
    then returned r none
    else after_exited (w.send_error r.sent (exited_frame r.exit_info)) r

-- The loop of runAttached.
abbrev pub next_round : (AttachRuntime → Attachment) → AttachRuntime × Option Stop → Attachment
next_round rest (r, none) = rest r
next_round rest (r, some stop) = returned r (normalize stop)

unfoldable pub attach_loop : World → ℤ → List AttachEvent → AttachRuntime → Attachment
attach_loop w frame_max [] r = if ready_to_exit r then finish w r else waits r
attach_loop w frame_max (e ∷ events) r =
    if ready_to_exit r
    then finish w r
    else next_round (attach_loop w frame_max events) (process_attach_event w frame_max e r)
