-- ===== src/Session/Terminal.antt =====
-- A run that is over (session-ui-state.ts): replayed events do not bring it back.
use pipee.Base.{
  ◌≡◌, ◌⊎◌, inl, inr, refl, Bool, true, false, ◌||◌, Option, none, some, List, [], ◌∷◌, map, String,
  arith, if_cases, eq_refl, ap, ◌∙◌,
}
use pipee.Session.Model.{SessionUiState, RuntimeIdentity, is, differs}
use pipee.Session.Actions.{
  SessionUiAction, runtime_event, RunEvent, of_run, run_started, run_finished, run_failed,
  message_started, message_updated, message_finished, tool_started, tool_finished, queue_changed,
  retry_started, retry_finished, compaction_started, compaction_finished, bash_started, bash_output,
  bash_finished, bash_failed,
}
use pipee.Session.Events.{
  take_event, event_under, activation, current_event, run_event, active_run_id,
}
use pipee.Session.Reducer.{session_ui_reducer, reduce_all}

-- An event of a run, from any session and any runtime.
abbrev pub event_of : String → String × RuntimeIdentity × RunEvent → SessionUiAction
event_of run e = runtime_event e.0 e.1 (of_run (record { run_id = run; event = e.2 }))

current_event_over :
    (s : SessionUiState) (run : String) (e : RunEvent)
    → s.terminal_run_id ≡ some run
    → current_event s (of_run (record { run_id = run; event = e })) ≡ s
unfolding current_event
current_event_over s run e h = ground (arith, h, eq_refl run)

event_under_over :
    (s : SessionUiState) (current : Option RuntimeIdentity) (identity : RuntimeIdentity)
    (run : String) (e : RunEvent)
    → s.terminal_run_id ≡ some run
    → event_under s current identity (of_run (record { run_id = run; event = e })) ≡ s
unfolding activation
event_under_over s none identity run e h = refl
event_under_over s (some current) identity run e h = ground (arith, current_event_over s run e h)

reducer_over :
    (s : SessionUiState) (run : String) (e : String × RuntimeIdentity × RunEvent)
    → s.terminal_run_id ≡ some run
    → session_ui_reducer s (event_of run e) ≡ s
unfolding session_ui_reducer take_event
reducer_over s run e h = ground (arith, event_under_over s s.runtime_identity e.1 run e.2 h)

replay_over :
    (s : SessionUiState) (run : String) (es : List (String × RuntimeIdentity × RunEvent))
    → s.terminal_run_id ≡ some run
    → reduce_all s (map (event_of run) es) ≡ s
unfolding reduce_all
replay_over s run [] h = refl
replay_over s run (e ∷ es) h =
    ap (λ t. reduce_all t (map (event_of run) es)) (reducer_over s run e h) ∙ replay_over s run es h

-- The event ends its run.
abbrev pub ends : RunEvent → Bool
ends run_started = false
ends run_finished = true
ends (run_failed message) = true
ends (message_started m) = false
ends (message_updated m) = false
ends (message_finished id m) = false
ends (tool_started id tool_name) = false
ends (tool_finished id) = false
ends (queue_changed q) = false
ends (retry_started attempt max_attempts m) = false
ends retry_finished = false
ends compaction_started = false
ends (compaction_finished aborted m before after reason) = true
ends (bash_started execution) = false
ends (bash_output id chunk) = false
ends (bash_finished execution) = true
ends (bash_failed id message) = true

-- Ignored, or the run is over.
abbrev Ends : SessionUiState → String → SessionUiState → Type 0
Ends s run t = (t ≡ s) ⊎ (t.terminal_run_id ≡ some run)

run_event-Ends :
    (s : SessionUiState) (run : String) (e : RunEvent)
    → ends e ≡ true
    → Ends s run (run_event s run e)
unfolding run_event
run_event-Ends s run e h = ground (arith, h)

current_event-Ends :
    (s : SessionUiState) (run : String) (e : RunEvent)
    → ends e ≡ true
    → Ends s run (current_event s (of_run (record { run_id = run; event = e })))
unfolding current_event
current_event-Ends s run e h =
    if_cases (Ends s run) (is run s.terminal_run_id || differs (active_run_id s) (some run)) s
      (run_event s run e) (λ ignored. inl refl) (λ taken. run_event-Ends s run e h)

event_under-Ends :
    (s : SessionUiState) (current : Option RuntimeIdentity) (identity : RuntimeIdentity)
    (run : String) (e : RunEvent)
    → ends e ≡ true
    → Ends s run (event_under s current identity (of_run (record { run_id = run; event = e })))
unfolding activation
event_under-Ends s none identity run e h = inl refl
event_under-Ends s (some current) identity run e h = ground (arith, current_event-Ends s run e h)

reducer-Ends :
    (s : SessionUiState) (run : String) (e : String × RuntimeIdentity × RunEvent)
    → ends e.2 ≡ true
    → Ends s run (session_ui_reducer s (event_of run e))
unfolding session_ui_reducer take_event
reducer-Ends s run e h = ground (arith, event_under-Ends s s.runtime_identity e.1 run e.2 h)

-- An event that ends its run is ignored, or it makes the run the terminal one, and from then on
-- the events of that run, whichever they are and from whichever runtime, change nothing.
pub finished_run-ignores :
    (s : SessionUiState) (run : String) (e : String × RuntimeIdentity × RunEvent)
    (replayed : List (String × RuntimeIdentity × RunEvent))
    → ends e.2 ≡ true
    → let t = session_ui_reducer s (event_of run e) in
      (t ≡ s) ⊎ ((t.terminal_run_id ≡ some run) × (reduce_all t (map (event_of run) replayed) ≡ t))
finished_run-ignores s run e replayed h =
    let t = session_ui_reducer s (event_of run e) in
    elim (reducer-Ends s run e h) [
      | inl same ↦ inl same
      | inr over ↦ inr (over, replay_over t run replayed over)
    ]
