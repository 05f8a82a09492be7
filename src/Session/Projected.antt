-- ===== src/Session/Projected.antt =====
-- The three projections of the state (session-ui-state.ts) show the same conversation.
use pipee.Base.{
  ◌≡◌, refl, Bool, true, false, Option, none, some, List, [], ◌∷◌, ◌++◌, map, String, arith, length,
  keep, append-nil, map-append, subst,
}
use pipee.Base.Dict
use pipee.Session.Messages.{AgentMessage}
use pipee.Session.Model.{SessionUiState, PendingPrompt, EphemeralMessage, ActiveBashExecution}
use pipee.Session.Project.{
  TranscriptSource, persisted, pending, ephemeral, streaming, active_bash, project_session_messages,
  project_session_entry_ids, project_transcript_sources, persisted_sources, pending_sources,
  ephemeral_source, streaming_sources, bash_sources, pending_messages, pending_ids, ephemeral_ids,
  receipts_by_entry, receipts_of,
}
use pipee.Session.Aligned.{IsAligned}

-- The message of a source and the entry that it stands for.
abbrev pub message_of : TranscriptSource → Option AgentMessage
message_of (persisted id entry run message) = message
message_of (pending id request run message) = some message
message_of (ephemeral id event run message) = some message
message_of (streaming id run message) = some message
message_of (active_bash id run message) = some message

abbrev pub entry_of : TranscriptSource → Option String
entry_of (persisted id entry run message) = some entry
entry_of (pending id request run message) = none
entry_of (ephemeral id event run message) = none
entry_of (streaming id run message) = none
entry_of (active_bash id run message) = none

-- The source is a whole message: neither the one that streams nor the running command.
abbrev pub is_whole : TranscriptSource → Bool
is_whole (persisted id entry run message) = true
is_whole (pending id request run message) = true
is_whole (ephemeral id event run message) = true
is_whole (streaming id run message) = false
is_whole (active_bash id run message) = false

-- The whole sources show these messages, under these entries.
abbrev Shows : List TranscriptSource → List AgentMessage → List (Option String) → Type 0
Shows sources messages ids =
    (map message_of (keep is_whole sources) ≡ map some messages)
    × (map entry_of (keep is_whole sources) ≡ ids)

persisted-Shows :
    (runs : Dict.Dict String) (entries : List String) (messages : List AgentMessage)
    → length messages ≡ length entries
    → Shows (persisted_sources runs entries messages) messages (map some entries)
unfolding persisted_sources
persisted-Shows runs [] [] h = (refl, refl)
persisted-Shows runs [] (m ∷ ms) h = ground (arith, h)
persisted-Shows runs (e ∷ es) [] h = ground (arith, h)
persisted-Shows runs (e ∷ es) (m ∷ ms) h =
    ground (arith, persisted-Shows runs es ms (omega (arith, h)))

pending-Shows :
    (p : Option PendingPrompt) → Shows (pending_sources p) (pending_messages p) (pending_ids p)
pending-Shows none = (refl, refl)
pending-Shows (some p) = (refl, refl)

ephemeral-Shows :
    (ms : List EphemeralMessage)
    → Shows (map ephemeral_source ms) (map (λ m. m.message) ms) (ephemeral_ids ms)
ephemeral-Shows [] = (refl, refl)
ephemeral-Shows (m ∷ ms) = ground (arith, ephemeral-Shows ms)

streaming-Shows :
    (m : Option AgentMessage) (run : Option String) → Shows (streaming_sources m run) [] []
streaming-Shows m run = ground arith

bash-Shows :
    (b : Option ActiveBashExecution) (run : Option String) → Shows (bash_sources b run) [] []
bash-Shows b run = ground arith

keep-append :
    (xs ys : List TranscriptSource)
    → keep is_whole (xs ++ ys) ≡ keep is_whole xs ++ keep is_whole ys
keep-append [] ys = refl
keep-append (x ∷ xs) ys = ground (arith, keep-append xs ys)

append-Shows :
    (xs ys : List TranscriptSource) (ms ns : List AgentMessage) (es fs : List (Option String))
    → Shows xs ms es
    → Shows ys ns fs
    → Shows (xs ++ ys) (ms ++ ns) (es ++ fs)
append-Shows xs ys ms ns es fs h k =
    simp (keep-append xs ys, map-append, subst, h.0, h.1, k.0, k.1) (refl, refl)

unsettled-Shows :
    (s : SessionUiState)
    → Shows
        (map ephemeral_source s.ephemeral_messages
          ++ (streaming_sources s.streaming_message s.run_id
              ++ bash_sources s.active_bash_execution s.run_id))
        (map (λ m. m.message) s.ephemeral_messages)
        (ephemeral_ids s.ephemeral_messages)
unsettled-Shows s =
    let live = streaming_sources s.streaming_message s.run_id in
    let bash = bash_sources s.active_bash_execution s.run_id in
    let sources = map ephemeral_source s.ephemeral_messages ++ (live ++ bash) in
    let messages = map (λ m. m.message) s.ephemeral_messages in
    let ids = ephemeral_ids s.ephemeral_messages in
    subst (λ ms. Shows sources ms ids) (append-nil messages)
      (subst (λ is. Shows sources (messages ++ []) is) (append-nil ids)
        (append-Shows (map ephemeral_source s.ephemeral_messages) (live ++ bash) messages [] ids []
          (ephemeral-Shows s.ephemeral_messages)
          (append-Shows live bash [] [] [] [] (streaming-Shows s.streaming_message s.run_id)
            (bash-Shows s.active_bash_execution s.run_id))))

-- Where the messages and the entry identifiers are equally many, the transcript, without the
-- message that streams and the command that runs, has exactly the projected messages in order, and
-- stands for exactly the projected entry identifiers; in particular no message is missing.
pub project_transcript_sources_agree :
    (s : SessionUiState)
    → IsAligned s
    → (map message_of (keep is_whole (project_transcript_sources s))
        ≡ map some (project_session_messages s))
      × (map entry_of (keep is_whole (project_transcript_sources s)) ≡ project_session_entry_ids s)
unfolding project_transcript_sources project_session_messages project_session_entry_ids
project_transcript_sources_agree s h =
    let runs = receipts_by_entry (receipts_of s.snapshot) [] in
    append-Shows (persisted_sources runs s.entry_ids s.messages)
      (pending_sources s.pending_prompt
        ++ (map ephemeral_source s.ephemeral_messages
            ++ (streaming_sources s.streaming_message s.run_id
                ++ bash_sources s.active_bash_execution s.run_id)))
      s.messages (pending_messages s.pending_prompt ++ map (λ m. m.message) s.ephemeral_messages)
      (map some s.entry_ids) (pending_ids s.pending_prompt ++ ephemeral_ids s.ephemeral_messages)
      (persisted-Shows runs s.entry_ids s.messages h)
      (append-Shows (pending_sources s.pending_prompt)
        (map ephemeral_source s.ephemeral_messages
          ++ (streaming_sources s.streaming_message s.run_id
              ++ bash_sources s.active_bash_execution s.run_id))
        (pending_messages s.pending_prompt) (map (λ m. m.message) s.ephemeral_messages)
        (pending_ids s.pending_prompt) (ephemeral_ids s.ephemeral_messages)
        (pending-Shows s.pending_prompt) (unsettled-Shows s))
