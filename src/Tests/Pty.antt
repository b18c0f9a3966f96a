-- ===== src/Tests/Pty.antt =====
-- A terminal of a user whose daemon is connected: a frame of input, output, and the exit of the host.
use rclaude.Prelude.{
  ◌≡◌, refl, true, false, none, some, List, [], ◌∷◌, Text, codes, text_beq, trim_space, trim_left,
  replace_all, is_space, starts_with, contains_any, text_eq, ok,
}
use rclaude.Prelude.Int.{pos}
use rclaude.Prelude.Assoc
use rclaude.Paths.{paths_run}
use rclaude.SafePath.{safe_path_run}
use rclaude.Sorting.{sort_texts, insert_sorted, text_lt}
use rclaude.Session.{new_session}
use rclaude.Manager.{Manager, Heap}
use rclaude.PtyHost.{
  ExitInfo, resolve_cwd, compile_env_allowlist, env_key_allowed, allowed_pairs, without_term,
  is_safe_term, build_env, is_absolute_binary_path, resolve_binary,
}
use rclaude.PtyService.{
  AttachReq, attach_frame, stdin_frame, World, ready_to_exit, new_attach_runtime, ServerFrame,
  attached_frame, stdout_frame, exited_frame,
}
use rclaude.PtyService.Handlers.{
  AttachEvent, from_stdout, from_client, from_exit, stdout_data, stdout_eof, client_frame,
  Attachment, returned, waits, attach_loop, process_attach_event, handle_stdout_event,
  handle_client_event, handle_client_frame, handle_client_stdin, handle_exit_event, finish,
}
use rclaude.PtyService.Attach.{attach, Attached, run_attached}
use rclaude.PtyService.Plan.{
  Config, Machine, SpawnPlan, prepare_spawn, resolve_agent, env_map, cut_equals,
}
use rclaude.PtyService.Attach.Orderly.{IsOrdered, UnlessWaits, attach-IsOrdered}
use rclaude.PtyService.Attach.Confined.{IsConfined, prepare_spawn-IsConfined}
use rclaude.PtyRegistry.{pty_registry, accepts, pty_registry-GivesBack}

abbrev user : Text
user = 1000 ∷ []

abbrev folder : Text
folder = 2000 ∷ []

abbrev agent : Text
agent = 3000 ∷ []

-- Nothing fails.
abbrev calm : World
calm = record {
  send_error = λ sent f. none;
  write_error = λ calls payload. none;
  resize_error = λ calls size. none;
  input_limit = none;
}

abbrev machine : Machine
machine = record {
  path_match = λ pattern key. some false;
  is_letter = λ c. true;
  is_digit = λ c. false;
  look_path = λ name. some (b'/' ∷ name);
  environ = codes "TERM=a" ∷ codes "KEY=b" ∷ [];
  spawn = λ req. ok true;
  attach_limit = none;
}

abbrev service : Config
service = record {
  workspace = b'/' ∷ 4000 ∷ [];
  env_whitelist = codes "TERM" ∷ [];
  frame_max = pos 10;
  graceful_stop = pos 5;
}

abbrev request : AttachReq
request = record { agent = agent; term = codes "x"; initial_size = none }

abbrev plan : SpawnPlan
plan = record {
  binary = b'/' ∷ agent;
  cwd = b'/' ∷ 4000 ∷ b'/' ∷ 1000 ∷ b'/' ∷ 2000 ∷ [];
  env = codes "TERM=x" ∷ [];
}

prepare_spawn-IsConfined_example : IsConfined machine service user folder request plan
prepare_spawn-IsConfined_example =
    prepare_spawn-IsConfined machine service user folder request plan (unfold paths_run in refl) (
      unfold prepare_spawn resolve_agent resolve_binary is_absolute_binary_path resolve_cwd
        build_env env_map cut_equals compile_env_allowlist env_key_allowed allowed_pairs
        without_term is_safe_term safe_path_run paths_run trim_space trim_left is_space starts_with
        contains_any text_beq sort_texts insert_sorted text_lt Assoc.insert replace_all in
      refl)

abbrev heap : Heap
heap = (0, record (unfold new_session in new_session user (pos 4)) { workspace_name = folder }) ∷ []

abbrev manager : Manager
manager = record {
  sessions = (user, 0) ∷ [];
  active_pty = [];
  next_pty_id = 0;
  options = record {
    request_timeout = pos 1;
    cache_max_bytes = pos 4;
    offline_read_only_ttl = pos 0;
    prefetch_enabled = false;
    prefetch_max_file_bytes = pos 0;
    prefetch_max_files_per_dir = pos 0;
  };
}

abbrev gone : ExitInfo
gone = record { code = pos 0; signal = 0 }

abbrev events : List AttachEvent
events =
    from_client (some (client_frame (stdin_frame (7 ∷ []))))
    ∷ from_stdout (some (stdout_data (8 ∷ 9 ∷ [])))
    ∷ from_stdout (some stdout_eof)
    ∷ from_exit (record { info = gone; error = none })
    ∷ []

abbrev ended : Manager × Attached
ended =
    attach (pty_registry 5 heap) machine calm service (some user) (ok (attach_frame request)) events
      manager

attach-IsOrdered_example :
    IsOrdered ended.1 × UnlessWaits (accepts user ended.0 ≡ accepts user manager) ended.1
attach-IsOrdered_example =
    attach-IsOrdered (pty_registry 5 heap) accepts (pty_registry-GivesBack 5 heap) machine calm
      service (some user) (ok (attach_frame request)) events manager user

abbrev sent_frames : Attachment → List ServerFrame
sent_frames (returned r _) = r.sent
sent_frames (waits r) = r.sent

run_attached_run :
    sent_frames (run_attached calm (pos 10) (5 ∷ []) events)
    ≡ attached_frame (5 ∷ []) ∷ stdout_frame (8 ∷ 9 ∷ []) ∷ exited_frame gone ∷ []
unfolding run_attached attach_loop process_attach_event handle_stdout_event handle_client_event
    handle_client_frame handle_client_stdin handle_exit_event finish ready_to_exit
    new_attach_runtime text_beq
run_attached_run = refl
