-- ===== src/Session/Order.antt =====
-- The acceptance of a prompt races with the events of its run (session-ui-state.ts): the answer to
-- the request and the event stream are two connections.
use pipee.Base.{◌≡◌, false, none, some, [], ◌∷◌, String, arith, eq_refl}
use pipee.Session.Messages.{UserMessage}
use pipee.Session.Model.{SessionUiState, RuntimeIdentity, present, is, same_runtime_identity}
use pipee.Session.Actions.{
  SessionUiAction, prompt_accepted, prompt_submitted, runtime_event, of_run, run_started,
  run_finished,
}
use pipee.Session.Events.{take_event, current_event, run_event, active_run_id}
use pipee.Session.Reducer.{session_ui_reducer, reduce_all, accept_pending, submit_prompt}

abbrev pub started : String → RuntimeIdentity → String → SessionUiAction
started session identity run =
    runtime_event session identity (of_run (record { run_id = run; event = run_started }))

abbrev pub finished : String → RuntimeIdentity → String → SessionUiAction
finished session identity run =
    runtime_event session identity (of_run (record { run_id = run; event = run_finished }))

-- What a state without operation has after a run.
abbrev pub IsDone : String → SessionUiState → Type 0
IsDone run t =
    (t.is_streaming ≡ false)
    × (t.agent_running ≡ present t.active_bash_execution)
    × (t.pending_operation ≡ none)
    × (t.terminal_run_id ≡ some run)
    × (t.completion_run_id ≡ some run)

-- Where no prompt is pending and the run is not the terminal one, a submitted prompt whose
-- acceptance arrives before the run starts, while it runs, or after it has finished leaves the same
-- state, and in that state nothing streams, no operation is pending, the agent runs only if a
-- command does, and the run is the terminal and the completed one.
pub accepted_any_time :
    (s : SessionUiState) (session request run : String) (m : UserMessage)
    (identity : RuntimeIdentity)
    → s.session_id ≡ some session
    → s.runtime_identity ≡ some identity
    → s.pending_prompt ≡ none
    → is run s.terminal_run_id ≡ false
    → let submit = prompt_submitted request m in
      let accept = prompt_accepted session request run in
      let start = started session identity run in
      let finish = finished session identity run in
      let t = reduce_all s (submit ∷ accept ∷ start ∷ finish ∷ []) in
      (reduce_all s (submit ∷ start ∷ accept ∷ finish ∷ []) ≡ t)
      × (reduce_all s (submit ∷ start ∷ finish ∷ accept ∷ []) ≡ t)
      × IsDone run t
unfolding reduce_all session_ui_reducer take_event current_event run_event active_run_id
    accept_pending submit_prompt same_runtime_identity
accepted_any_time s session request run m identity a b c d = ground (
  arith,
  a,
  b,
  c,
  d,
  eq_refl session,
  eq_refl request,
  eq_refl run,
  eq_refl identity.registry_id,
  eq_refl identity.runtime_id,
)
