-- ===== src/Session/Messages.antt =====
-- The messages of a session, by the schemas of apps/pipee/src/api/contract.ts. An optional key is
-- an `Option`.
use pipee.Base.{Bool, Option, List, String, ◌⊎◌}

-- A JavaScript number, and a JSON value, that are only passed on: each by its text.
abbrev pub Number : Type 0
Number = String

abbrev pub Json : Type 0
Json = String

pub record TextContent : Type 0 where
  pub text : String

pub data ImageSource : Type 0 where
  base64 : (media_type data_text : String) → ImageSource
  url : String → ImageSource

pub record ImageContent : Type 0 where
  pub source : ImageSource

pub record ThinkingContent : Type 0 where
  pub thinking : String
  pub deferred : Option Bool

pub record ToolCallContent : Type 0 where
  pub tool_call_id : String
  pub tool_name : String
  pub input : List (String × Json)

pub data AssistantContentBlock : Type 0 where
  text_block : TextContent → AssistantContentBlock
  image_block : ImageContent → AssistantContentBlock
  thinking_block : ThinkingContent → AssistantContentBlock
  tool_call_block : ToolCallContent → AssistantContentBlock

pub record UsageCost : Type 0 where
  pub input : Number
  pub output : Number
  pub cache_read : Number
  pub cache_write : Number
  pub total : Number

pub record Usage : Type 0 where
  pub input : Number
  pub output : Number
  pub cache_read : Number
  pub cache_write : Number
  pub cost : UsageCost

-- `Schema.Array(Schema.Union([TextContent, ImageContent]))`
abbrev pub Parts : Type 0
Parts = List (TextContent ⊎ ImageContent)

pub record UserMessage : Type 0 where
  pub content : String ⊎ Parts
  pub timestamp : Option Number

pub record AssistantMessage : Type 0 where
  pub content : List AssistantContentBlock
  pub model : String
  pub provider : String
  pub stop_reason : Option String
  pub error_message : Option String
  pub timestamp : Option Number
  pub observed_at : Option Number
  pub generation_duration_ms : Option Number
  pub usage : Option Usage

pub record ToolResultMessage : Type 0 where
  pub tool_call_id : String
  pub tool_name : Option String
  pub content : Parts
  pub is_error : Option Bool
  pub details : Option Json
  pub timestamp : Option Number

pub record CustomMessage : Type 0 where
  pub custom_type : String
  pub content : String ⊎ Parts
  pub display : Bool
  pub details : Option Json
  pub timestamp : Option Number

pub record BashExecutionMessage : Type 0 where
  pub command : String
  pub output : String
  pub exit_code : Option Number
  pub cancelled : Bool
  pub truncated : Bool
  pub full_output_path : Option String
  pub timestamp : Number
  pub exclude_from_context : Option Bool

-- The constructor is the `role`.
pub data AgentMessage : Type 0 where
  user : UserMessage → AgentMessage
  assistant : AssistantMessage → AgentMessage
  tool_result : ToolResultMessage → AgentMessage
  custom : CustomMessage → AgentMessage
  bash_execution : BashExecutionMessage → AgentMessage
