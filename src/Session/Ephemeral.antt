-- ===== src/Session/Ephemeral.antt =====
-- The messages that are shown before the server has them (session-ui-state.ts): each event once.
use pipee.Base.{
  ℕ, ◌+◌, ◌≤◌, ◌≡◌, refl, false, Option, none, some, List, [], ◌∷◌, ◌++◌, String, arith, if_cases,
  eq_iff, str_eq, count_if,
}
use pipee.Session.Messages.{AgentMessage, UserMessage}
use pipee.Session.Model.{
  SessionUiState, SessionSnapshot, RuntimeSnapshot, RuntimeIdentity, ExtensionUiProjection,
  EphemeralMessage, PendingPrompt,
}
use pipee.Session.Actions.{
  SessionUiAction, loaded, context_requested, context_loaded, context_prepended, load_failed,
  operation_pending, operation_accepted, prompt_accepted, operation_failed, prompt_submitted,
  runtime_event, reset, SessionEvent, RunEvent, of_run, of_session, runtime_activated,
  extension_ui_changed, extension_notice, extension_failed,
}
use pipee.Session.Runtime.{
  newer_ui, identified, install_runtime_identity, project_runtime, apply_runtime,
}
use pipee.Session.Context.{
  load, load_context, prepend_context, newer_ui_of, still_pending, take_snapshot,
}
use pipee.Session.Events.{
  append_ephemeral, has_event, take_event, event_under, activation, current_event, run_event,
}
use pipee.Session.Reducer.{
  session_ui_reducer, reduce_all, accept_pending, submit_prompt, pend_operation, accept_operation,
  fail_operation,
}
use pipee.Session.Cases.{load_cases}

-- How often the event is there.
abbrev pub times : String → List EphemeralMessage → ℕ
times id = count_if (λ m. str_eq m.event_id id)

times-append :
    (id : String) (ms ns : List EphemeralMessage) → times id (ms ++ ns) ≡ times id ms + times id ns
times-append id [] ns = omega arith
times-append id (m ∷ ms) ns = omega (arith, times-append id ms ns)

times_unknown :
    (id : String) (ms : List EphemeralMessage) → has_event id ms ≡ false → times id ms ≡ 0
times_unknown id [] h = refl
times_unknown id (m ∷ ms) h = ground (arith, h, times_unknown id ms)

times-append_ephemeral :
    (id event run : String) (message : AgentMessage) (ms : List EphemeralMessage)
    → times id ms ≤ 1
    → times id (append_ephemeral ms event run message) ≤ 1
unfolding append_ephemeral
times-append_ephemeral id event run message ms h =
    if_cases (λ l. times id l ≤ 1) (has_event event ms) ms
      (ms ++ record { event_id = event; run_id = run; message = message } ∷ []) (λ known. h)
      (λ new. grind (
        arith,
        h,
        eq_iff event id,
        times_unknown event ms new,
        times-append id ms (record { event_id = event; run_id = run; message = message } ∷ []),
      ))

module _ (id : String) where
  -- The event is there at most once.
  abbrev pub IsOnce : SessionUiState → Type 0
  IsOnce s = times id s.ephemeral_messages ≤ 1

  newer_ui-IsOnce :
      (s : SessionUiState) (ui : ExtensionUiProjection) → IsOnce s → IsOnce (newer_ui s ui)
  unfolding newer_ui
  newer_ui-IsOnce s ui h = ground (arith, h)

  project_runtime-IsOnce :
      (s : SessionUiState) (r : RuntimeSnapshot) → IsOnce s → IsOnce (project_runtime s r)
  unfolding project_runtime
  project_runtime-IsOnce s r h = ground (arith, h)

  identified-IsOnce :
      (s : SessionUiState) (r : RuntimeSnapshot) → IsOnce s → IsOnce (identified s r)
  unfolding identified install_runtime_identity
  identified-IsOnce s r h = ground (arith, h, newer_ui-IsOnce s r.extension_ui h)

  apply_runtime-IsOnce :
      (s : SessionUiState) (r : Option RuntimeSnapshot) → IsOnce s → IsOnce (apply_runtime s r)
  unfolding apply_runtime
  apply_runtime-IsOnce s none h = h
  apply_runtime-IsOnce s (some r) h =
      project_runtime-IsOnce (identified s r) r (identified-IsOnce s r h)

  newer_ui_of-IsOnce :
      (s : SessionUiState) (r : Option RuntimeSnapshot) → IsOnce s → IsOnce (newer_ui_of s r)
  newer_ui_of-IsOnce s none h = h
  newer_ui_of-IsOnce s (some r) h = newer_ui-IsOnce s r.extension_ui h

  load-IsOnce :
      (s : SessionUiState) (session : String) (request : ℕ) (snapshot : SessionSnapshot)
      → IsOnce s
      → IsOnce (load s session request snapshot)
  load-IsOnce s session request snapshot h =
      load_cases IsOnce s session request snapshot h
        (newer_ui_of-IsOnce (record s { snapshot_request_id = request }) snapshot.runtime h)
        (apply_runtime-IsOnce
          (take_snapshot s request snapshot (still_pending s.pending_prompt snapshot.context))
          snapshot.runtime (omega arith))

  run_event-IsOnce :
      (s : SessionUiState) (run : String) (e : RunEvent) → IsOnce s → IsOnce (run_event s run e)
  unfolding run_event
  run_event-IsOnce s run e h = grind (arith, h, times-append_ephemeral id)

  current_event-IsOnce :
      (s : SessionUiState) (e : SessionEvent) → IsOnce s → IsOnce (current_event s e)
  unfolding current_event
  current_event-IsOnce s (of_run e) h = ground (arith, h, run_event-IsOnce s e.run_id e.event h)
  current_event-IsOnce s (of_session (runtime_activated ui)) h = newer_ui-IsOnce s ui h
  current_event-IsOnce s (of_session (extension_ui_changed ui)) h = newer_ui-IsOnce s ui h
  current_event-IsOnce s (of_session (extension_notice n message kind)) h = h
  current_event-IsOnce s (of_session (extension_failed message)) h = h

  activation-IsOnce :
      (s : SessionUiState) (identity : RuntimeIdentity) (e : SessionEvent)
      → IsOnce s
      → IsOnce (activation s identity e)
  unfolding activation install_runtime_identity
  activation-IsOnce s identity e h = ground (arith, h)

  event_under-IsOnce :
      (s : SessionUiState) (current : Option RuntimeIdentity) (identity : RuntimeIdentity)
      (e : SessionEvent)
      → IsOnce s
      → IsOnce (event_under s current identity e)
  event_under-IsOnce s none identity e h = activation-IsOnce s identity e h
  event_under-IsOnce s (some current) identity e h =
      ground (arith, h, activation-IsOnce s identity e h, current_event-IsOnce s e h)

  accept_pending-IsOnce :
      (s : SessionUiState) (p : Option PendingPrompt) (request run : String)
      → IsOnce s
      → IsOnce (accept_pending s p request run)
  unfolding accept_pending
  accept_pending-IsOnce s none request run h = h
  accept_pending-IsOnce s (some p) request run h = ground (arith, h)

  submit_prompt-IsOnce :
      (s : SessionUiState) (p : Option PendingPrompt) (request : String) (m : UserMessage)
      → IsOnce s
      → IsOnce (submit_prompt s p request m)
  unfolding submit_prompt
  submit_prompt-IsOnce s none request m h = omega arith
  submit_prompt-IsOnce s (some p) request m h = h

  reducer-IsOnce :
      (s : SessionUiState) (a : SessionUiAction) → IsOnce s → IsOnce (session_ui_reducer s a)
  unfolding session_ui_reducer load_context prepend_context take_event pend_operation
      accept_operation fail_operation
  reducer-IsOnce s (loaded session request snapshot) h = load-IsOnce s session request snapshot h
  reducer-IsOnce s (context_loaded session request context leaf page) h = ground (arith, h)
  reducer-IsOnce s (context_requested session request) h = ground (arith, h)
  reducer-IsOnce s (context_prepended session request page) h = ground (arith, h)
  reducer-IsOnce s (load_failed session message) h = ground (arith, h)
  reducer-IsOnce s (operation_pending session kind) h = ground (arith, h)
  reducer-IsOnce s (operation_accepted session kind run) h = ground (arith, h)
  reducer-IsOnce s (prompt_accepted session request run) h =
      ground (arith, h, accept_pending-IsOnce s s.pending_prompt request run h)
  reducer-IsOnce s (operation_failed session kind message) h = ground (arith, h)
  reducer-IsOnce s (prompt_submitted request message) h =
      submit_prompt-IsOnce s s.pending_prompt request message h
  reducer-IsOnce s (runtime_event session identity e) h =
      ground (arith, h, event_under-IsOnce s s.runtime_identity identity e h)
  reducer-IsOnce s (reset session) h = ground (arith, h)

  -- An event whose message is shown at most once before the server has it stays so over any
  -- actions, whatever the server sends or sends again.
  pub reduce_all-IsOnce :
      (s : SessionUiState) (actions : List SessionUiAction)
      → IsOnce s
      → IsOnce (reduce_all s actions)
  unfolding reduce_all
  reduce_all-IsOnce s [] h = h
  reduce_all-IsOnce s (a ∷ rest) h =
      reduce_all-IsOnce (session_ui_reducer s a) rest (reducer-IsOnce s a h)
