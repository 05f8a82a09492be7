-- ===== src/Session/Reducer.antt =====
-- `sessionUiReducer` of session-ui-state.ts, the cases other than those of `Context` and `Events`,
-- and its use on a sequence of actions.
use pipee.Base.{
  Bool, true, false, not, ◌&&◌, ◌||◌, Option, none, some, List, [], ◌∷◌, String, if◌then◌else◌,
  str_eq,
}
use pipee.Session.Messages.{UserMessage}
use pipee.Session.Model.{
  SessionUiState, initial_session_ui_state, OperationKind, prompt, bash, compaction, PendingPrompt,
  is, same, differs,
}
use pipee.Session.Actions.{
  SessionUiAction, loaded, context_requested, context_loaded, context_prepended, load_failed,
  operation_pending, operation_accepted, prompt_accepted, operation_failed, prompt_submitted,
  runtime_event, reset,
}
use pipee.Session.Context.{load, load_context, prepend_context}
use pipee.Session.Events.{take_event}

-- The operation makes the agent run; it is a prompt; it is a compaction.
abbrev pub runs_agent : OperationKind → Bool
runs_agent prompt = true
runs_agent bash = true
runs_agent compaction = false

abbrev pub is_prompt : OperationKind → Bool
is_prompt prompt = true
is_prompt bash = false
is_prompt compaction = false

abbrev pub is_compaction : OperationKind → Bool
is_compaction prompt = false
is_compaction bash = false
is_compaction compaction = true

abbrev pub same_operation : OperationKind → OperationKind → Bool
same_operation prompt k = is_prompt k
same_operation compaction k = is_compaction k
same_operation bash k = runs_agent k && not (is_prompt k)

abbrev pub settle_operation : OperationKind → Option OperationKind → Option OperationKind
settle_operation kind none = none
settle_operation kind (some k) = if same_operation k kind then none else some k

unfoldable pub pend_operation : SessionUiState → OperationKind → SessionUiState
pend_operation s kind = record s {
  run_id = none;
  pending_operation = some kind;
  completion_run_id = none;
  agent_running = if runs_agent kind then true else s.agent_running;
  is_streaming = if is_prompt kind then true else s.is_streaming;
  is_compacting = if is_compaction kind then true else s.is_compacting;
  compact_result = if is_compaction kind then none else s.compact_result;
  error = none;
}

unfoldable pub accept_operation : SessionUiState → OperationKind → String → SessionUiState
accept_operation s kind run = record s {
  run_id = some run;
  terminal_run_id = none;
  completion_run_id = none;
  pending_operation = none;
  agent_running = if runs_agent kind then true else s.agent_running;
  is_streaming = is_prompt kind;
  is_compacting = if is_compaction kind then true else s.is_compacting;
  streaming_message = if is_prompt kind then none else s.streaming_message;
  error = none;
}

unfoldable pub fail_operation : SessionUiState → OperationKind → String → SessionUiState
fail_operation s kind message = record s {
  pending_operation = settle_operation kind s.pending_operation;
  agent_running = if runs_agent kind then false else s.agent_running;
  is_streaming = if is_prompt kind then false else s.is_streaming;
  is_compacting = if is_compaction kind then false else s.is_compacting;
  pending_prompt = if is_prompt kind then none else s.pending_prompt;
  error = some message;
}

-- `PromptAccepted`, where the prompt is pending and known to be of this run or of none.
abbrev pub accept_run : SessionUiState → PendingPrompt → String → SessionUiState
accept_run s p run =
    if is run s.terminal_run_id
    then record s {
      run_id = some run;
      pending_prompt = some (record p { run_id = some run });
      pending_operation = none;
    }
    else record s {
      run_id = some run;
      terminal_run_id = none;
      completion_run_id = none;
      pending_prompt = some (record p { run_id = some run });
      pending_operation = none;
      agent_running = true;
      is_streaming = true;
      streaming_message = none;
      error = none;
    }

unfoldable pub accept_pending :
    SessionUiState → Option PendingPrompt → String → String → SessionUiState
accept_pending s none request run = s
accept_pending s (some p) request run =
    if not (str_eq p.request_id request) || differs p.run_id (some run)
    then s
    else accept_run s p run

unfoldable pub submit_prompt :
    SessionUiState → Option PendingPrompt → String → UserMessage → SessionUiState
submit_prompt s (some p) request message = s
submit_prompt s none request message = record s {
  pending_prompt = some (record { request_id = request; run_id = none; message = message });
  run_id = none;
  completion_run_id = none;
  pending_operation = some prompt;
  agent_running = true;
  is_streaming = true;
  streaming_message = none;
  ephemeral_messages = [];
  error = none;
}

unfoldable pub session_ui_reducer : SessionUiState → SessionUiAction → SessionUiState
session_ui_reducer s (reset session) =
    if is session s.session_id
    then s
    else record initial_session_ui_state { session_id = some session }
session_ui_reducer s (load_failed session message) =
    if is session s.session_id then record s { error = some message } else s
session_ui_reducer s (loaded session request snapshot) = load s session request snapshot
session_ui_reducer s (context_requested session request) =
    if is session s.session_id then record s { context_request_id = request } else s
session_ui_reducer s (context_loaded session request context leaf page) =
    load_context s session request context leaf page
session_ui_reducer s (context_prepended session request page) =
    prepend_context s session request page
session_ui_reducer s (operation_pending session kind) =
    if same session s.session_id then pend_operation s kind else s
session_ui_reducer s (operation_accepted session kind run) =
    if is session s.session_id then accept_operation s kind run else s
session_ui_reducer s (prompt_accepted session request run) =
    if is session s.session_id then accept_pending s s.pending_prompt request run else s
session_ui_reducer s (operation_failed session kind message) =
    if same session s.session_id then fail_operation s kind message else s
session_ui_reducer s (prompt_submitted request message) =
    submit_prompt s s.pending_prompt request message
session_ui_reducer s (runtime_event session identity event) = take_event s session identity event

unfoldable pub reduce_all : SessionUiState → List SessionUiAction → SessionUiState
reduce_all s [] = s
reduce_all s (a ∷ rest) = reduce_all (session_ui_reducer s a) rest
