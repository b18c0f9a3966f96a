-- ===== src/PtyService/Running.antt =====
-- An attachment that runs: its frames come in order, and its host is shut down at most once, and
-- whenever the service leaves it running.
use rclaude.Prelude.{
  ℕ, ◌+◌, ◌≤◌, ◌≡◌, refl, ap, ◌∙◌, ◌⊎◌, inl, inr, Bool, true, false, not, ◌||◌, Option, none, some,
  List, [], ◌∷◌, ◌++◌, Text, length, ◌==◌, text_eq, arith, if◌then◌else◌, Bool-cases,
}
use rclaude.Prelude.Int.{ℤ, pos, ltb_ℤ}
use rclaude.PtyService.{
  stdout_frame, exited_frame, error_frame, ErrorKind, internal, Reason, of_text, HostCall,
  write_stdin, resize_to, shut_down, wait_for, World, Stop, after_send, application_error,
  AttachRuntime, ready_to_exit, shutdown, wait_host, close_stream, with_sent,
  send_application_error, ClientFrame, attach_frame, stdin_frame, resize_frame, detach_frame,
  no_payload,
}
use rclaude.PtyService.Handlers.{
  StdoutEvent, stdout_data, stdout_eof, stdout_error, ClientEvent, client_frame, client_error,
  after_stdout, handle_stdout_event, FrameResult, carries_on, done, frame_failed, after_write,
  input_error, after_limit, handle_client_stdin, after_resize, handle_client_resize,
  handle_client_frame, after_frame, handle_client_event, after_exit, handle_exit_event, AttachEvent,
  from_stdout, from_client, from_exit, process_attach_event, Attachment, returned, waits,
  after_exited, finish, next_round, attach_loop,
}
use rclaude.PtyService.Frames.{
  IsConversation, IsTalking, IsTalking-IsConversation, IsTalking-last, IsTalking-more,
}

-- How often Shutdown of the host was called.
abbrev pub shutdowns : List HostCall → ℕ
shutdowns [] = 0
shutdowns (shut_down ∷ calls) = 1 + shutdowns calls
shutdowns (_ ∷ calls) = shutdowns calls

shutdowns-append : (a b : List HostCall) → shutdowns (a ++ b) ≡ shutdowns a + shutdowns b
shutdowns-append [] b = omega arith
shutdowns-append (shut_down ∷ a) b = grind (arith, shutdowns-append a b)
shutdowns-append (write_stdin _ ∷ a) b = shutdowns-append a b
shutdowns-append (resize_to _ ∷ a) b = shutdowns-append a b
shutdowns-append (wait_for ∷ a) b = shutdowns-append a b

abbrev once : Bool → ℕ
once true = 1
once false = 0

pub record IsLive (r : AttachRuntime) : Type 0 where
  pub talking : IsTalking r.sent
  pub counted : shutdowns r.calls ≡ once r.shutdown_done

-- The host has exited, or was shut down.
abbrev pub IsStopped : AttachRuntime → Type 0
IsStopped r = (r.host_exited ≡ true) ⊎ (shutdowns r.calls ≡ 1)

record IsOver (r : AttachRuntime) : Type 0 where
  pub spoken : IsConversation r.sent
  pub counted : shutdowns r.calls ≤ 1
  pub stopped : IsStopped r

shutdown-IsLive :
    (r : AttachRuntime) → IsLive r → IsLive (shutdown r) × (shutdowns (shutdown r).calls ≡ 1)
unfolding shutdown
shutdown-IsLive r h = elim (Bool-cases r.shutdown_done) [
  | inl already ↦
      simp already
        (record { talking = h.talking; counted = h.counted }, h.counted ∙ ap once already)
  | inr first ↦ simp first (record { talking = h.talking; counted = shut first }, shut first)
]
  where
    shut : r.shutdown_done ≡ false → shutdowns (r.calls ++ shut_down ∷ []) ≡ 1
    shut first = omega (arith, shutdowns-append r.calls (shut_down ∷ []), h.counted, ap once first)

with_call :
    (r : AttachRuntime) (call : HostCall)
    → IsLive r
    → shutdowns (call ∷ []) ≡ 0
    → IsLive (record r { calls = r.calls ++ call ∷ [] })
      × (shutdowns (r.calls ++ call ∷ []) ≡ shutdowns r.calls)
with_call r call h free =
    let same : shutdowns (r.calls ++ call ∷ []) ≡ shutdowns r.calls =
      omega (arith, shutdowns-append r.calls (call ∷ []), free) in
    (record { talking = h.talking; counted = same ∙ h.counted }, same)

close_stream-IsLive : (r : AttachRuntime) → IsLive r → IsLive (close_stream r)
unfolding close_stream
close_stream-IsLive r h =
    (shutdown-IsLive (record r { stream_open = false })
      (record { talking = h.talking; counted = h.counted })).0

once_small : (r : AttachRuntime) → IsLive r → shutdowns r.calls ≤ 1
once_small r h = elim (Bool-cases r.shutdown_done) [
  | inl e ↦ omega (arith, h.counted, ap once e)
  | inr e ↦ omega (arith, h.counted, ap once e)
]

-- A step: the attachment goes on, or it is over.
abbrev Proceeds : AttachRuntime × Option Stop → Type 0
Proceeds (r, none) = IsLive r
Proceeds (r, some _) = IsOver r

send_application_error-Proceeds :
    (w : World) (kind : ErrorKind) (reason : Reason) (r : AttachRuntime)
    → IsLive r
    → IsStopped r
    → Proceeds (send_application_error w kind reason r)
unfolding send_application_error application_error
send_application_error-Proceeds w kind reason r h stop = choose r.stream_open
  where
    told :
        (answer : Option Text)
        → Proceeds (with_sent r (after_send answer r.sent (error_frame kind reason)))
    told none = record {
      spoken = IsTalking-last r.sent (error_frame kind reason) h.talking tt;
      counted = once_small r h;
      stopped = stop;
    }
    told (some e) = record {
      spoken = IsTalking-IsConversation r.sent h.talking;
      counted = once_small r h;
      stopped = stop;
    }

    choose :
        (opened : Bool)
        → Proceeds (
            if not opened
            then (r, none)
            else with_sent r (
                after_send
                  (w.send_error r.sent (error_frame kind reason))
                  r.sent
                  (error_frame kind reason)))
    choose true = told (w.send_error r.sent (error_frame kind reason))
    choose false = h

-- The host is shut down and waited for, then the client is told.
stop_and_tell :
    (w : World) (kind : ErrorKind) (reason : Reason) (r : AttachRuntime)
    → IsLive r
    → Proceeds (send_application_error w kind reason (wait_host (shutdown r)))
unfolding wait_host
stop_and_tell w kind reason r h =
    let (live, one) = shutdown-IsLive r h in
    let (waited, same) = with_call (shutdown r) wait_for live refl in
    send_application_error-Proceeds w kind reason _ waited (inr (same ∙ one))

handle_stdout_event-Proceeds :
    (w : World) (e : Option StdoutEvent) (r : AttachRuntime)
    → IsLive r
    → Proceeds (handle_stdout_event w e r)
unfolding handle_stdout_event
handle_stdout_event-Proceeds w none r h = record { talking = h.talking; counted = h.counted }
handle_stdout_event-Proceeds w (some stdout_eof) r h = record {
  talking = h.talking;
  counted = h.counted;
}
handle_stdout_event-Proceeds w (some (stdout_error e)) r h =
    stop_and_tell w internal (of_text e) r h
handle_stdout_event-Proceeds w (some (stdout_data bytes)) r h =
    elim (Bool-cases (bytes == [] || not r.stream_open)) [
      | inl nothing ↦ rw nothing h
      | inr something ↦ rw something (sent (w.send_error r.sent (stdout_frame bytes)))
    ]
  where
    sent : (answer : Option Text) → IsLive (after_stdout bytes answer r)
    sent none = record { talking = IsTalking-more r.sent bytes h.talking; counted = h.counted }
    sent (some e) = close_stream-IsLive r h

-- A frame of the client: only the calls of the host change.
abbrev KeepsLive : AttachRuntime × FrameResult → Type 0
KeepsLive (r, _) = IsLive r

handle_client_frame-KeepsLive :
    (w : World) (frame_max : ℤ) (f : ClientFrame) (r : AttachRuntime)
    → IsLive r
    → KeepsLive (handle_client_frame w frame_max f r)
unfolding handle_client_frame handle_client_resize handle_client_stdin
handle_client_frame-KeepsLive w frame_max (attach_frame _) r h = h
handle_client_frame-KeepsLive w frame_max detach_frame r h = h
handle_client_frame-KeepsLive w frame_max no_payload r h = h
handle_client_frame-KeepsLive w frame_max (resize_frame size) r h =
    resized (w.resize_error r.calls size)
  where
    resized : (answer : Option Text) → KeepsLive (after_resize answer size r)
    resized none = (with_call r (resize_to size) h refl).0
    resized (some e) = h
handle_client_frame-KeepsLive w frame_max (stdin_frame payload) r h =
    elim (Bool-cases (ltb_ℤ frame_max (pos (length payload)))) [
      | inl big ↦ rw big h
      | inr fits ↦ rw fits (limited (input_error w.input_limit r.calls (length payload)))
    ]
  where
    written : (answer : Option Text) → KeepsLive (after_write answer payload r)
    written none = (with_call r (write_stdin payload) h refl).0
    written (some e) = h

    limited : (answer : Option Text) → KeepsLive (after_limit w answer payload r)
    limited none = written (w.write_error r.calls payload)
    limited (some e) = h

process_attach_event-Proceeds :
    (w : World) (frame_max : ℤ) (e : AttachEvent) (r : AttachRuntime)
    → IsLive r
    → Proceeds (process_attach_event w frame_max e r)
unfolding process_attach_event handle_client_event handle_exit_event
process_attach_event-Proceeds w frame_max (from_stdout e) r h = elim (Bool-cases r.stdout_live) [
  | inl live ↦ simp live (handle_stdout_event-Proceeds w e r h)
  | inr dead ↦ simp dead h
]
process_attach_event-Proceeds w frame_max (from_client e) r h = elim (Bool-cases r.client_live) [
  | inl live ↦ simp live (client e)
  | inr dead ↦ simp dead h
]
  where
    framed : (a : AttachRuntime × FrameResult) → KeepsLive a → Proceeds (after_frame w a)
    framed (s, carries_on) k = k
    framed (s, done) k =
        let live = (shutdown-IsLive s k).0 in
        record { talking = live.talking; counted = live.counted }
    framed (s, frame_failed kind reason) k = stop_and_tell w kind reason s k

    client : (e : Option ClientEvent) → Proceeds (handle_client_event w frame_max e r)
    client none = record { talking = h.talking; counted = h.counted }
    client (some (client_error _)) =
        let live = close_stream-IsLive r h in
        record { talking = live.talking; counted = live.counted }
    client (some (client_frame f)) =
        framed (handle_client_frame w frame_max f r)
          (handle_client_frame-KeepsLive w frame_max f r h)
process_attach_event-Proceeds w frame_max (from_exit e) r h = exited e.error
  where
    after : AttachRuntime
    after = record r { host_exited = true; exit_info = e.info }

    exited : (answer : Option Text) → Proceeds (after_exit w answer after)
    exited none = record { talking = h.talking; counted = h.counted }
    exited (some text) =
        send_application_error-Proceeds w internal (of_text text) after
          (record { talking = h.talking; counted = h.counted }) (inl refl)

-- While an attachment waits, the attached frame and output were sent; when it returns, at most one
-- frame followed, the exit or an error, and the host has exited or was shut down, but once at most.
abbrev pub IsOrderly : Attachment → Type 0
IsOrderly (returned r _) = IsConversation r.sent × (shutdowns r.calls ≤ 1) × IsStopped r
IsOrderly (waits r) = IsTalking r.sent × (shutdowns r.calls ≤ 1)

finish-IsOrderly :
    (w : World) (r : AttachRuntime) → IsLive r → ready_to_exit r ≡ true → IsOrderly (finish w r)
unfolding finish ready_to_exit
finish-IsOrderly w r h ready = elim (Bool-cases r.stream_open) [
  | inr shut ↦ simp shut (IsTalking-IsConversation r.sent h.talking, once_small r h, inl exited)
  | inl opened ↦ simp opened (told (w.send_error r.sent (exited_frame r.exit_info)))
]
  where
    exited : r.host_exited ≡ true
    exited = ground arith

    told : (answer : Option Text) → IsOrderly (after_exited answer r)
    told none =
        (IsTalking-last r.sent (exited_frame r.exit_info) h.talking tt, once_small r h, inl exited)
    told (some e) = (IsTalking-IsConversation r.sent h.talking, once_small r h, inl exited)

pub attach_loop-IsOrderly :
    (w : World) (frame_max : ℤ) (events : List AttachEvent) (r : AttachRuntime)
    → IsLive r
    → IsOrderly (attach_loop w frame_max events r)
unfolding attach_loop
attach_loop-IsOrderly w frame_max [] r h = elim (Bool-cases (ready_to_exit r)) [
  | inl ready ↦ rw ready (finish-IsOrderly w r h ready)
  | inr more ↦ rw more (h.talking, once_small r h)
]
attach_loop-IsOrderly w frame_max (e ∷ events) r h = elim (Bool-cases (ready_to_exit r)) [
  | inl ready ↦ rw ready (finish-IsOrderly w r h ready)
  | inr more ↦ rw more (
      onward (attach_loop-IsOrderly w frame_max events) (process_attach_event w frame_max e r)
        (process_attach_event-Proceeds w frame_max e r h))
]
  where
    onward :
        (rest : (s : AttachRuntime) → IsLive s → IsOrderly (attach_loop w frame_max events s))
        → (a : AttachRuntime × Option Stop) → Proceeds a
        → IsOrderly (next_round (attach_loop w frame_max events) a)
    onward rest (s, none) k = rest s k
    onward rest (s, some stop) k = (k.spoken, k.counted, k.stopped)
