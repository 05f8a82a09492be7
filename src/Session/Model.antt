-- ===== src/Session/Model.antt =====
-- The state of a session in the browser (session-ui-state.ts), and the snapshots that the server
-- sends (contract.ts). What is null or undefined is `none`.
use pipee.Base.{ℕ, Bool, true, false, Option, none, some, List, [], String, ◌&&◌, ◌==◌, str_eq, not}
use pipee.App.Slot.{OperationSlot}
use pipee.Session.Messages.{Number, Json, AgentMessage, UserMessage, BashExecutionMessage}

pub record RuntimeIdentity : Type 0 where
  pub registry_id : String
  pub runtime_epoch : ℕ
  pub runtime_id : String

pub record ActiveBashExecution : Type 0 where
  pub id : String
  pub command : String
  pub output : String
  pub exclude_from_context : Bool
  pub started_at : Number

pub record CompletedBashExecution : Type 0 where
  pub id : String
  pub message : BashExecutionMessage

-- The parts other than the revision are only passed on, each by its JSON.
pub record ExtensionUiProjection : Type 0 where
  pub revision : ℕ
  pub pending_interaction : Option Json
  pub text_statuses : List Json
  pub live_presentations : List Json
  pub widgets : List Json
  pub web_surfaces : List Json

pub record PromptRequestReceipt : Type 0 where
  pub request_id : String
  pub run_id : String
  pub user_entry_id : Option String
  pub assistant_entry_id : Option String

pub record SessionContext : Type 0 where
  pub messages : List AgentMessage
  pub entry_ids : List String
  pub prompt_requests : List PromptRequestReceipt
  pub thinking_level : String
  pub model : Option (String × String)

-- `Pick<SessionContextPage, "beforeEntryId" | "hasMoreBefore">`, the `contextPage` of a snapshot.
pub record ContextPage : Type 0 where
  pub before_entry_id : Option String
  pub has_more_before : Bool

pub record SessionContextPage : Type 0 where
  pub context : SessionContext
  pub before_entry_id : Option String
  pub has_more_before : Bool

pub record QueuedMessages : Type 0 where
  pub steering : List String
  pub follow_up : List String

pub record RuntimeSnapshot : Type 0 where
  pub identity : RuntimeIdentity
  pub run_id : Option String
  pub session_id : String
  pub session_file : String
  pub operation : OperationSlot
  pub active_bash_execution : Option ActiveBashExecution
  pub completed_bash_execution : Option CompletedBashExecution
  pub auto_compaction_enabled : Bool
  pub auto_retry_enabled : Bool
  pub model : Option (String × String)
  pub pending_message_count : Number
  pub queued_messages : QueuedMessages
  pub context_usage : Option Json
  pub system_prompt : String
  pub thinking_level : String
  pub extension_ui : ExtensionUiProjection

-- `info` and the nodes of the branch are only passed on, by their JSON.
pub record SessionSnapshot : Type 0 where
  pub session_id : String
  pub file_path : String
  pub info : Option Json
  pub leaf_id : Option String
  pub branch_nodes : List Json
  pub context : SessionContext
  pub context_page : ContextPage
  pub runtime : Option RuntimeSnapshot

-- The operations that the browser waits for.
pub data OperationKind : Type 0 where
  prompt bash compaction : OperationKind

pub record PendingPrompt : Type 0 where
  pub request_id : String
  pub run_id : Option String
  pub message : UserMessage

pub record EphemeralMessage : Type 0 where
  pub event_id : String
  pub run_id : String
  pub message : AgentMessage

pub record RetryInfo : Type 0 where
  pub attempt : Number
  pub max_attempts : Number
  pub error_message : Option String

pub record CompactResult : Type 0 where
  pub reason : String
  pub tokens_before : Number
  pub estimated_tokens_after : Number

pub record SessionUiState : Type 0 where
  pub session_id : Option String
  pub runtime_identity : Option RuntimeIdentity
  pub snapshot_request_id : ℕ
  pub context_request_id : ℕ
  pub snapshot : Option SessionSnapshot
  pub messages : List AgentMessage
  pub entry_ids : List String
  pub pending_prompt : Option PendingPrompt
  pub ephemeral_messages : List EphemeralMessage
  pub run_id : Option String
  pub terminal_run_id : Option String
  pub completion_run_id : Option String
  pub pending_operation : Option OperationKind
  pub is_streaming : Bool
  pub streaming_message : Option AgentMessage
  pub agent_running : Bool
  pub active_bash_execution : Option ActiveBashExecution
  pub retry_info : Option RetryInfo
  pub queued_messages : QueuedMessages
  pub extension_ui : ExtensionUiProjection
  pub is_compacting : Bool
  pub compact_result : Option CompactResult
  pub error : Option String

abbrev pub initial_session_ui_state : SessionUiState
initial_session_ui_state = record {
  session_id = none;
  runtime_identity = none;
  snapshot_request_id = 0;
  context_request_id = 0;
  snapshot = none;
  messages = [];
  entry_ids = [];
  pending_prompt = none;
  ephemeral_messages = [];
  run_id = none;
  terminal_run_id = none;
  completion_run_id = none;
  pending_operation = none;
  is_streaming = false;
  streaming_message = none;
  agent_running = false;
  active_bash_execution = none;
  retry_info = none;
  queued_messages = record { steering = []; follow_up = [] };
  extension_ui = record {
    revision = 0;
    pending_interaction = none;
    text_statuses = [];
    live_presentations = [];
    widgets = [];
    web_surfaces = [];
  };
  is_compacting = false;
  compact_result = none;
  error = none;
}

-- `===` on what may be null, `==` of a nullable value with a text, and `!== null`.
abbrev pub same : Option String → Option String → Bool
same none none = true
same none (some b) = false
same (some a) none = false
same (some a) (some b) = str_eq a b

abbrev pub is : String → Option String → Bool
is a none = false
is a (some b) = str_eq a b

abbrev pub present {ℓ} : {A : Type ℓ} → Option A → Bool
present none = false
present (some a) = true

-- `??`
abbrev pub or_else {ℓ} : {A : Type ℓ} → Option A → Option A → Option A
or_else none b = b
or_else (some a) b = some a

-- Both are there, and they differ.
abbrev pub differs : Option String → Option String → Bool
differs none b = false
differs (some a) none = false
differs (some a) (some b) = not (str_eq b a)

unfoldable pub same_runtime_identity : RuntimeIdentity → RuntimeIdentity → Bool
same_runtime_identity left right =
    str_eq left.registry_id right.registry_id
    && left.runtime_epoch == right.runtime_epoch
    && str_eq left.runtime_id right.runtime_id
