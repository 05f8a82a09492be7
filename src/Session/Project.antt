-- ===== src/Session/Project.antt =====
-- What is shown of the state: `projectSessionMessages`, `projectSessionEntryIds` and
-- `projectTranscriptSources` of session-ui-state.ts.
use pipee.Base.{Option, none, some, List, [], ◌∷◌, ◌++◌, map, String, false}
use pipee.Base.Dict
use pipee.Base.Text.{◌<>◌}
use pipee.Session.Messages.{AgentMessage, user, bash_execution}
use pipee.Session.Model.{
  SessionUiState, SessionSnapshot, PendingPrompt, EphemeralMessage, ActiveBashExecution,
  PromptRequestReceipt,
}

-- An index out of range reads as undefined, so that a persisted source may lack its message.
pub data TranscriptSource : Type 0 where
  persisted :
      (id entry_id : String) (run_id : Option String) (message : Option AgentMessage)
      → TranscriptSource
  pending :
      (id request_id : String) (run_id : Option String) (message : AgentMessage) → TranscriptSource
  ephemeral : (id event_id run_id : String) (message : AgentMessage) → TranscriptSource
  streaming : (id run_id : String) (message : AgentMessage) → TranscriptSource
  active_bash : (id : String) (run_id : Option String) (message : AgentMessage) → TranscriptSource

abbrev pub pending_messages : Option PendingPrompt → List AgentMessage
pending_messages none = []
pending_messages (some p) = user p.message ∷ []

unfoldable pub project_session_messages : SessionUiState → List AgentMessage
project_session_messages s =
    s.messages ++ (pending_messages s.pending_prompt ++ map (λ m. m.message) s.ephemeral_messages)

abbrev pub pending_ids : Option PendingPrompt → List (Option String)
pending_ids none = []
pending_ids (some p) = none ∷ []

abbrev pub ephemeral_ids : List EphemeralMessage → List (Option String)
ephemeral_ids [] = []
ephemeral_ids (m ∷ ms) = none ∷ ephemeral_ids ms

unfoldable pub project_session_entry_ids : SessionUiState → List (Option String)
project_session_entry_ids s =
    map some s.entry_ids ++ (pending_ids s.pending_prompt ++ ephemeral_ids s.ephemeral_messages)

abbrev pub set_if : Option String → String → Dict.Dict String → Dict.Dict String
set_if none run m = m
set_if (some entry) run m = Dict.set entry run m

-- `receiptByEntryId`
unfoldable pub receipts_by_entry : List PromptRequestReceipt → Dict.Dict String → Dict.Dict String
receipts_by_entry [] m = m
receipts_by_entry (r ∷ rs) m =
    receipts_by_entry rs (set_if r.assistant_entry_id r.run_id (set_if r.user_entry_id r.run_id m))

abbrev pub receipts_of : Option SessionSnapshot → List PromptRequestReceipt
receipts_of none = []
receipts_of (some snapshot) = snapshot.context.prompt_requests

abbrev pub persisted_source : Dict.Dict String → String → Option AgentMessage → TranscriptSource
persisted_source runs entry message =
    persisted ("entry:" <> entry) entry (Dict.get entry runs) message

unfoldable pub persisted_sources :
    Dict.Dict String → List String → List AgentMessage → List TranscriptSource
persisted_sources runs [] messages = []
persisted_sources runs (entry ∷ entries) [] =
    persisted_source runs entry none ∷ persisted_sources runs entries []
persisted_sources runs (entry ∷ entries) (message ∷ messages) =
    persisted_source runs entry (some message) ∷ persisted_sources runs entries messages

abbrev pub pending_sources : Option PendingPrompt → List TranscriptSource
pending_sources none = []
pending_sources (some p) =
    pending ("request:" <> p.request_id) p.request_id p.run_id (user p.message) ∷ []

abbrev pub ephemeral_source : EphemeralMessage → TranscriptSource
ephemeral_source m = ephemeral ("event:" <> m.event_id) m.event_id m.run_id m.message

abbrev pub streaming_sources : Option AgentMessage → Option String → List TranscriptSource
streaming_sources none run = []
streaming_sources (some message) none = []
streaming_sources (some message) (some run) =
    streaming ("run:" <> run <> ":stream") run message ∷ []

abbrev pub bash_sources : Option ActiveBashExecution → Option String → List TranscriptSource
bash_sources none run = []
bash_sources (some b) run =
    active_bash ("bash:" <> b.id) run (
      bash_execution (record {
        command = b.command;
        output = b.output;
        exit_code = none;
        cancelled = false;
        truncated = false;
        full_output_path = none;
        timestamp = b.started_at;
        exclude_from_context = some b.exclude_from_context;
      }))
    ∷ []

unfoldable pub project_transcript_sources : SessionUiState → List TranscriptSource
project_transcript_sources s =
    persisted_sources (receipts_by_entry (receipts_of s.snapshot) []) s.entry_ids s.messages
    ++ (pending_sources s.pending_prompt
        ++ (map ephemeral_source s.ephemeral_messages
            ++ (streaming_sources s.streaming_message s.run_id
                ++ bash_sources s.active_bash_execution s.run_id)))
