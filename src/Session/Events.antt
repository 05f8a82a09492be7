-- ===== src/Session/Events.antt =====
-- The events of a runtime on the state: the case `RuntimeEvent` of session-ui-state.ts.
use pipee.Base.{
  Bool, true, false, not, ◌&&◌, ◌||◌, Option, none, some, List, [], ◌∷◌, ◌++◌, String,
  if◌then◌else◌, ltb, str_eq, any,
}
use pipee.Base.Text.{◌<>◌}
use pipee.Session.Messages.{
  AgentMessage, user, assistant, tool_result, custom, bash_execution, Number,
}
use pipee.Session.Model.{
  SessionUiState, RuntimeIdentity, ActiveBashExecution, EphemeralMessage, PendingPrompt,
  CompactResult, is, present, differs, same_runtime_identity,
}
use pipee.Session.Actions.{
  RunEvent, run_started, run_finished, run_failed, message_started, message_updated,
  message_finished, tool_started, tool_finished, queue_changed, retry_started, retry_finished,
  compaction_started, compaction_finished, bash_started, bash_output, bash_finished, bash_failed,
  runtime_activated, extension_ui_changed, extension_notice, extension_failed, SessionEvent, of_run,
  of_session,
}
use pipee.Session.Runtime.{install_runtime_identity, newer_ui, with_run}

abbrev pub has_event : String → List EphemeralMessage → Bool
has_event event = any (λ m. str_eq m.event_id event)

unfoldable pub append_ephemeral :
    List EphemeralMessage → String → String → AgentMessage → List EphemeralMessage
append_ephemeral messages event run message =
    if has_event event messages
    then messages
    else messages ++ record { event_id = event; run_id = run; message = message } ∷ []

-- The run of the state, where it has one that is not over and something goes on.
abbrev pub going_run : SessionUiState → Option String → Option String
going_run s none = none
going_run s (some run) =
    if is run s.terminal_run_id
      || not
          (s.agent_running || s.is_streaming || s.is_compacting || present s.active_bash_execution)
    then none
    else some run

abbrev pub active_run_of : SessionUiState → Option PendingPrompt → Option String
active_run_of s (some p) = p.run_id
active_run_of s none = going_run s s.run_id

-- `activeRunId`
unfoldable pub active_run_id : SessionUiState → Option String
active_run_id s = active_run_of s s.pending_prompt

abbrev pub is_assistant : AgentMessage → Bool
is_assistant (assistant m) = true
is_assistant (user m) = false
is_assistant (tool_result m) = false
is_assistant (custom m) = false
is_assistant (bash_execution m) = false

abbrev pub is_user : AgentMessage → Bool
is_user (user m) = true
is_user (assistant m) = false
is_user (tool_result m) = false
is_user (custom m) = false
is_user (bash_execution m) = false

abbrev pub stream : SessionUiState → AgentMessage → SessionUiState
stream s message =
    if is_assistant message
    then record s { streaming_message = some message; is_streaming = true }
    else s

-- `MessageFinished`. The list is the same object exactly if it has the event already.
abbrev pub finish_message : SessionUiState → String → String → AgentMessage → SessionUiState
finish_message s run event message =
    let known = has_event event s.ephemeral_messages in
    if is_user message && present s.pending_prompt
    then s
    else if known && not (is_assistant message)
    then s
    else if known && not (present s.streaming_message)
    then s
    else record s {
      ephemeral_messages = append_ephemeral s.ephemeral_messages event run message;
      streaming_message = if is_assistant message then none else s.streaming_message;
    }

abbrev pub compact_result_of : Option Number → Option Number → Option String → Option CompactResult
compact_result_of none after reason = none
compact_result_of (some before) none reason = none
compact_result_of (some before) (some after) none =
    some (record { reason = "manual"; tokens_before = before; estimated_tokens_after = after })
compact_result_of (some before) (some after) (some reason) =
    some (record { reason = reason; tokens_before = before; estimated_tokens_after = after })

abbrev pub error_or : Option String → Option String → Option String
error_or none known = known
error_or (some message) known = some message

abbrev pub append_output : String → String → Option ActiveBashExecution → Option ActiveBashExecution
append_output id chunk none = none
append_output id chunk (some b) =
    if str_eq b.id id then some (record b { output = b.output <> chunk }) else some b

-- The `switch` over the events of a run.
unfoldable pub run_event : SessionUiState → String → RunEvent → SessionUiState
run_event s run run_started = record s {
  run_id = some run;
  pending_prompt = with_run (some run) s.pending_prompt;
  pending_operation = none;
  agent_running = true;
  is_streaming = true;
}
run_event s run run_finished = if not s.agent_running && not s.is_streaming then s else record s {
  run_id = some run;
  terminal_run_id = some run;
  completion_run_id = some run;
  pending_operation = none;
  agent_running = present s.active_bash_execution;
  is_streaming = false;
  streaming_message = none;
  retry_info = none;
}
run_event s run (run_failed message) = record s {
  run_id = some run;
  terminal_run_id = some run;
  completion_run_id = none;
  pending_operation = none;
  agent_running = false;
  is_streaming = false;
  streaming_message = none;
  error = some message;
}
run_event s run (message_started message) = stream s message
run_event s run (message_updated message) = stream s message
run_event s run (message_finished event message) = finish_message s run event message
run_event s run (tool_started id tool_name) = s
run_event s run (tool_finished id) = s
run_event s run (queue_changed queued) = record s { queued_messages = queued }
run_event s run (retry_started attempt max_attempts message) = record s {
  retry_info =
      some (record { attempt = attempt; max_attempts = max_attempts; error_message = message });
}
run_event s run retry_finished = record s { retry_info = none }
run_event s run compaction_started = record s {
  run_id = some run;
  pending_operation = none;
  is_compacting = true;
  compact_result = none;
}
run_event s run (compaction_finished aborted message before after reason) = record s {
  terminal_run_id = some run;
  pending_operation = none;
  is_compacting = false;
  compact_result = compact_result_of before after reason;
  error = error_or message s.error;
}
run_event s run (bash_started execution) = record s {
  run_id = some run;
  pending_operation = none;
  agent_running = true;
  active_bash_execution = some execution;
}
run_event s run (bash_output id chunk) = record s {
  active_bash_execution = append_output id chunk s.active_bash_execution;
}
run_event s run (bash_finished execution) = record s {
  terminal_run_id = some run;
  pending_operation = none;
  agent_running = s.is_streaming;
  active_bash_execution = none;
  ephemeral_messages =
      append_ephemeral s.ephemeral_messages ("bash:" <> execution.id) run
        (bash_execution execution.message);
}
run_event s run (bash_failed id message) = record s {
  terminal_run_id = some run;
  pending_operation = none;
  agent_running = false;
  active_bash_execution = none;
  error = some message;
}

-- An event of the current runtime.
unfoldable pub current_event : SessionUiState → SessionEvent → SessionUiState
current_event s (of_session (runtime_activated ui)) = newer_ui s ui
current_event s (of_session (extension_ui_changed ui)) = newer_ui s ui
current_event s (of_session (extension_notice id message kind)) = s
current_event s (of_session (extension_failed message)) = s
current_event s (of_run e) =
    if is e.run_id s.terminal_run_id || differs (active_run_id s) (some e.run_id)
    then s
    else run_event s e.run_id e.event

-- An event of a runtime that is new to the state.
unfoldable pub activation : SessionUiState → RuntimeIdentity → SessionEvent → SessionUiState
activation s identity (of_session (runtime_activated ui)) = install_runtime_identity s identity ui
activation s identity (of_session (extension_ui_changed ui)) = s
activation s identity (of_session (extension_notice id message kind)) = s
activation s identity (of_session (extension_failed message)) = s
activation s identity (of_run e) = s

abbrev pub event_under :
    SessionUiState → Option RuntimeIdentity → RuntimeIdentity → SessionEvent → SessionUiState
event_under s none identity event = activation s identity event
event_under s (some current) identity event =
    if not (str_eq identity.registry_id current.registry_id)
      || ltb identity.runtime_epoch current.runtime_epoch
    then s
    else if ltb current.runtime_epoch identity.runtime_epoch
    then activation s identity event
    else if not (same_runtime_identity identity current)
    then s
    else current_event s event

-- The case `RuntimeEvent`.
unfoldable pub take_event :
    SessionUiState → String → RuntimeIdentity → SessionEvent → SessionUiState
take_event s session identity event =
    if not (is session s.session_id) then s else event_under s s.runtime_identity identity event
