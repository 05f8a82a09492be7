-- ===== src/Session/Tests.antt =====
-- Runs of the reducer of a session (session-ui-state.ts) at concrete inputs.
use pipee.Base.{
  ◌≡◌, ◌⊎◌, refl, true, false, none, some, List, [], ◌∷◌, map, String, arith, inl, keep,
}
use pipee.Session.Messages.{UserMessage, user}
use pipee.Session.Model.{
  SessionUiState, initial_session_ui_state, RuntimeIdentity, SessionSnapshot, SessionContext,
  SessionContextPage, ExtensionUiProjection,
}
use pipee.Session.Actions.{
  SessionUiAction, loaded, context_requested, context_prepended, prompt_accepted, prompt_submitted,
  runtime_event, of_run, of_session, runtime_activated, RunEvent, run_started, run_finished,
  message_finished,
}
use pipee.Session.Project.{
  project_session_messages, project_session_entry_ids, project_transcript_sources,
}
use pipee.Session.Reducer.{session_ui_reducer, reduce_all}
use pipee.Session.Runtime.{apply_runtime}
use pipee.Session.Context.{load, prepend_context, fresh, receipt_of}
use pipee.Session.Aligned.{IsAligned, reduce_all-IsAligned}
use pipee.Session.Projected.{message_of, entry_of, is_whole, project_transcript_sources_agree}
use pipee.Session.Identity.{IsNoOlder, reduce_all-IsNoOlder}
use pipee.Session.Ephemeral.{IsOnce, reduce_all-IsOnce}
use pipee.Session.Terminal.{event_of, finished_run-ignores}
use pipee.Session.Pending.{Awaits, reduce_all-Awaits}
use pipee.Session.Order.{started, finished, IsDone, accepted_any_time}

abbrev ui : ExtensionUiProjection
ui = record initial_session_ui_state.extension_ui { revision = 3 }

abbrev first_runtime : RuntimeIdentity
first_runtime = record { registry_id = "registry"; runtime_epoch = 1; runtime_id = "r1" }

abbrev second_runtime : RuntimeIdentity
second_runtime = record { registry_id = "registry"; runtime_epoch = 2; runtime_id = "r2" }

abbrev ask : UserMessage
ask = record { content = inl "ask"; timestamp = none }

-- A session on its first runtime, with nothing going on.
abbrev open_session : SessionUiState
open_session = record initial_session_ui_state {
  session_id = some "s";
  runtime_identity = some first_runtime;
  extension_ui = ui;
}

abbrev conversation : SessionContext
conversation = record {
  messages = user ask ∷ [];
  entry_ids = "e1" ∷ [];
  prompt_requests = [];
  thinking_level = "off";
  model = none;
}

abbrev snapshot : SessionSnapshot
snapshot = record {
  session_id = "s";
  file_path = "/s";
  info = none;
  leaf_id = some "e1";
  branch_nodes = [];
  context = conversation;
  context_page = record { before_entry_id = none; has_more_before = false };
  runtime = none;
}

-- An earlier page that overlaps, and lacks the message of its last entry.
abbrev earlier : SessionContextPage
earlier = record {
  context = record conversation {
    messages = user ask ∷ user ask ∷ [];
    entry_ids = "e0" ∷ "e1" ∷ "e2" ∷ [];
  };
  before_entry_id = none;
  has_more_before = false;
}

abbrev opened : List SessionUiAction
opened = loaded "s" 1 snapshot ∷ context_requested "s" 1 ∷ context_prepended "s" 1 earlier ∷ []

reduce_all-IsAligned_example : IsAligned (reduce_all open_session opened)
reduce_all-IsAligned_example = reduce_all-IsAligned open_session opened (refl, (tt, (tt, tt))) refl

opened_entries : (reduce_all open_session opened).entry_ids ≡ "e0" ∷ "e1" ∷ []
unfolding reduce_all session_ui_reducer load prepend_context fresh apply_runtime
opened_entries = refl

-- A prompt is pending, and its first message is there already.
abbrev asked : SessionUiState
asked = record open_session {
  messages = user ask ∷ [];
  entry_ids = "e1" ∷ [];
  pending_prompt = some (record { request_id = "q"; run_id = none; message = ask });
  ephemeral_messages = record { event_id = "m"; run_id = "run"; message = user ask } ∷ [];
}

project_transcript_sources_agree_example :
    (map message_of (keep is_whole (project_transcript_sources asked))
      ≡ map some (project_session_messages asked))
    × (map entry_of (keep is_whole (project_transcript_sources asked))
        ≡ project_session_entry_ids asked)
project_transcript_sources_agree_example = project_transcript_sources_agree asked refl

-- The second runtime is activated, and the first one is heard of again.
abbrev succeeded : List SessionUiAction
succeeded =
    runtime_event "s" second_runtime (of_session (runtime_activated ui))
    ∷ runtime_event "s" first_runtime (of_session (runtime_activated ui))
    ∷ []

reduce_all-IsNoOlder_example : IsNoOlder open_session (reduce_all open_session succeeded)
reduce_all-IsNoOlder_example = reduce_all-IsNoOlder open_session succeeded refl

abbrev message_event : SessionUiAction
message_event =
    runtime_event "s" first_runtime
      (of_run (record { run_id = "run"; event = message_finished "m" (user ask) }))

reduce_all-IsOnce_example :
    IsOnce "m" (reduce_all open_session (message_event ∷ message_event ∷ []))
reduce_all-IsOnce_example =
    reduce_all-IsOnce "m" open_session (message_event ∷ message_event ∷ []) (omega arith)

abbrev late : List (String × RuntimeIdentity × RunEvent)
late = ("s", first_runtime, run_started) ∷ ("s", second_runtime, run_finished) ∷ []

abbrev running : SessionUiState
running = record open_session { run_id = some "run"; agent_running = true; is_streaming = true }

finished_run-ignores_example :
    let t = session_ui_reducer running (event_of "run" ("s", first_runtime, run_finished)) in
    (t ≡ running)
    ⊎ ((t.terminal_run_id ≡ some "run") × (reduce_all t (map (event_of "run") late) ≡ t))
finished_run-ignores_example =
    finished_run-ignores running "run" ("s", first_runtime, run_finished) late refl

-- The run starts, a snapshot arrives that lacks the prompt, and the run finishes.
abbrev lagging : List SessionUiAction
lagging =
    started "s" first_runtime "run" ∷ loaded "s" 1 snapshot ∷ finished "s" first_runtime "run" ∷ []

reduce_all-Awaits_example : Awaits "q" ask first_runtime (reduce_all asked lagging)
unfolding receipt_of
reduce_all-Awaits_example =
    reduce_all-Awaits "q" ask first_runtime asked lagging refl ((refl, refl), refl)

accepted_any_time_example :
    let submit = prompt_submitted "q" ask in
    let accept = prompt_accepted "s" "q" "run" in
    let start = started "s" first_runtime "run" in
    let finish = finished "s" first_runtime "run" in
    let t = reduce_all open_session (submit ∷ accept ∷ start ∷ finish ∷ []) in
    (reduce_all open_session (submit ∷ start ∷ accept ∷ finish ∷ []) ≡ t)
    × (reduce_all open_session (submit ∷ start ∷ finish ∷ accept ∷ []) ≡ t)
    × IsDone "run" t
accepted_any_time_example =
    accepted_any_time open_session "s" "q" "run" ask first_runtime refl refl refl refl
