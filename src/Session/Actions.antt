-- ===== src/Session/Actions.antt =====
-- The events of a runtime (contract.ts) and the actions on the state (session-ui-state.ts).
use pipee.Base.{ℕ, Bool, Option, String}
use pipee.Session.Messages.{Number, AgentMessage, UserMessage}
use pipee.Session.Model.{
  RuntimeIdentity, ActiveBashExecution, CompletedBashExecution, ExtensionUiProjection,
  SessionContext, ContextPage, SessionContextPage, SessionSnapshot, QueuedMessages, OperationKind,
}

pub data RunEvent : Type 0 where
  run_started run_finished : RunEvent
  run_failed : (message : String) → RunEvent
  message_started message_updated : AgentMessage → RunEvent
  message_finished : (event_id : String) → AgentMessage → RunEvent
  tool_started : (tool_call_id tool_name : String) → RunEvent
  tool_finished : (tool_call_id : String) → RunEvent
  queue_changed : QueuedMessages → RunEvent
  retry_started : (attempt max_attempts : Number) (error_message : Option String) → RunEvent
  retry_finished compaction_started : RunEvent
  compaction_finished :
      (aborted : Bool) (error_message : Option String)
      (tokens_before estimated_tokens_after : Option Number) (reason : Option String)
      → RunEvent
  bash_started : ActiveBashExecution → RunEvent
  bash_output : (id chunk : String) → RunEvent
  bash_finished : CompletedBashExecution → RunEvent
  bash_failed : (id message : String) → RunEvent

-- Each of these events has the `runId`.
pub record RunScopedEvent : Type 0 where
  pub run_id : String
  pub event : RunEvent

pub data NotifyType : Type 0 where
  info warning error : NotifyType

pub data SessionScopedEvent : Type 0 where
  runtime_activated extension_ui_changed : ExtensionUiProjection → SessionScopedEvent
  extension_notice : (notice_id message : String) → NotifyType → SessionScopedEvent
  extension_failed : (message : String) → SessionScopedEvent

pub data SessionEvent : Type 0 where
  of_run : RunScopedEvent → SessionEvent
  of_session : SessionScopedEvent → SessionEvent

pub data SessionUiAction : Type 0 where
  loaded : (session_id : String) (request_id : ℕ) → SessionSnapshot → SessionUiAction
  context_requested : (session_id : String) (request_id : ℕ) → SessionUiAction
  context_loaded :
      (session_id : String) (request_id : ℕ)
      → SessionContext
      → (leaf_id : Option String) → ContextPage
      → SessionUiAction
  context_prepended : (session_id : String) (request_id : ℕ) → SessionContextPage → SessionUiAction
  load_failed : (session_id message : String) → SessionUiAction
  operation_pending : (session_id : Option String) → OperationKind → SessionUiAction
  operation_accepted : (session_id : String) → OperationKind → (run_id : String) → SessionUiAction
  prompt_accepted : (session_id request_id run_id : String) → SessionUiAction
  operation_failed :
      (session_id : Option String) → OperationKind → (message : String) → SessionUiAction
  prompt_submitted : (request_id : String) → UserMessage → SessionUiAction
  runtime_event : (session_id : String) → RuntimeIdentity → SessionEvent → SessionUiAction
  reset : (session_id : String) → SessionUiAction
