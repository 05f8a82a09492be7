-- ===== src/Session/Runtime.antt =====
-- A runtime and its snapshot taken into the state: `installRuntimeIdentity` and `applyRuntime` of
-- session-ui-state.ts.
use pipee.Base.{Bool, false, not, ◌&&◌, Option, none, some, [], String, if◌then◌else◌, ltb}
use pipee.App.Slot
use pipee.App.Slot.{OperationSlot, idle, starting, active}
use pipee.Session.Model.{
  RuntimeIdentity, RuntimeSnapshot, ExtensionUiProjection, SessionUiState, PendingPrompt, same,
  present, or_else, differs, same_runtime_identity,
}

unfoldable pub install_runtime_identity :
    SessionUiState → RuntimeIdentity → ExtensionUiProjection → SessionUiState
install_runtime_identity s identity ui = record s {
  runtime_identity = some identity;
  extension_ui = ui;
  run_id = none;
  terminal_run_id = none;
  completion_run_id = none;
  pending_prompt = none;
  pending_operation = none;
  ephemeral_messages = [];
  agent_running = false;
  is_streaming = false;
  streaming_message = none;
  active_bash_execution = none;
  retry_info = none;
  is_compacting = false;
}

-- The projection of the extensions, if it is newer.
unfoldable pub newer_ui : SessionUiState → ExtensionUiProjection → SessionUiState
newer_ui s ui =
    if ltb s.extension_ui.revision ui.revision then record s { extension_ui = ui } else s

-- The runtime of the state is the one of this identity.
abbrev pub is_current : Option RuntimeIdentity → RuntimeIdentity → Bool
is_current none identity = false
is_current (some current) identity = same_runtime_identity current identity

unfoldable pub identified : SessionUiState → RuntimeSnapshot → SessionUiState
identified s r =
    if is_current s.runtime_identity r.identity
    then newer_ui s r.extension_ui
    else install_runtime_identity s r.identity r.extension_ui

abbrev pub pending_run : Option PendingPrompt → Option String
pending_run none = none
pending_run (some p) = p.run_id

-- `operation._tag === "Idle" ? null : operation.kind`
abbrev pub operation_kind : OperationSlot → Option Slot.OperationKind
operation_kind idle = none
operation_kind (starting kind id) = some kind
operation_kind (active kind id) = some kind

abbrev pub is_kind : Slot.OperationKind → Option Slot.OperationKind → Bool
is_kind kind none = false
is_kind kind (some k) = Slot.same_kind k kind

abbrev pub with_run : Option String → Option PendingPrompt → Option PendingPrompt
with_run run none = none
with_run none (some p) = some p
with_run (some run) (some p) = some (record p { run_id = some run })

abbrev pub adopt : SessionUiState → RuntimeSnapshot → SessionUiState
adopt s r =
    let kind = operation_kind r.operation in
    record s {
      run_id = r.run_id;
      pending_prompt = with_run r.run_id s.pending_prompt;
      terminal_run_id =
          (if present r.run_id && not (present kind)
            then r.run_id
            else if same s.terminal_run_id r.run_id
            then none
            else s.terminal_run_id);
      pending_operation = none;
      agent_running = present kind;
      is_streaming = is_kind Slot.prompt kind;
      active_bash_execution = r.active_bash_execution;
      queued_messages = r.queued_messages;
      is_compacting = is_kind Slot.compaction kind;
    }

unfoldable pub project_runtime : SessionUiState → RuntimeSnapshot → SessionUiState
project_runtime s r =
    if present s.pending_prompt && not (present r.run_id)
    then record s { queued_messages = r.queued_messages }
    else if present r.run_id && same r.run_id s.terminal_run_id && present s.pending_prompt
    then s
    else if differs (or_else (pending_run s.pending_prompt) s.run_id) r.run_id
    then s
    else adopt s r

unfoldable pub apply_runtime : SessionUiState → Option RuntimeSnapshot → SessionUiState
apply_runtime s none = s
apply_runtime s (some r) = project_runtime (identified s r) r
