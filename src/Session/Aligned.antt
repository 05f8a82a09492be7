-- ===== src/Session/Aligned.antt =====
-- The messages of the state and their entry identifiers (session-ui-state.ts) go together.
use pipee.Base.{
  ℕ, ◌≡◌, refl, Option, none, some, List, [], ◌∷◌, map, String, arith, length, length-append, All,
}
use pipee.Session.Messages.{AgentMessage, UserMessage}
use pipee.Session.Model.{
  SessionUiState, SessionSnapshot, RuntimeSnapshot, RuntimeIdentity, ExtensionUiProjection,
  PendingPrompt,
}
use pipee.Session.Actions.{
  SessionUiAction, loaded, context_requested, context_loaded, context_prepended, load_failed,
  operation_pending, operation_accepted, prompt_accepted, operation_failed, prompt_submitted,
  runtime_event, reset, SessionEvent, RunEvent, of_run, of_session, runtime_activated,
  extension_ui_changed, extension_notice, extension_failed,
}
use pipee.Session.Runtime.{
  newer_ui, identified, install_runtime_identity, project_runtime, apply_runtime,
}
use pipee.Session.Context.{
  load, still_pending, take_snapshot, load_context, prepend_context, fresh, newer_ui_of,
}
use pipee.Session.Cases.{load_cases}
use pipee.Session.Events.{take_event, event_under, activation, current_event, run_event}
use pipee.Session.Reducer.{
  session_ui_reducer, reduce_all, accept_pending, submit_prompt, pend_operation, accept_operation,
  fail_operation,
}

-- As many messages as entry identifiers.
abbrev pub IsAligned : SessionUiState → Type 0
IsAligned s = length s.messages ≡ length s.entry_ids

-- The two states hold the same conversation.
abbrev HasSame : SessionUiState → SessionUiState → Type 0
HasSame s t = (t.messages ≡ s.messages) × (t.entry_ids ≡ s.entry_ids)

newer_ui-HasSame : (s : SessionUiState) (ui : ExtensionUiProjection) → HasSame s (newer_ui s ui)
unfolding newer_ui
newer_ui-HasSame s ui = ground arith

project_runtime-HasSame :
    (s : SessionUiState) (r : RuntimeSnapshot) → HasSame s (project_runtime s r)
unfolding project_runtime
project_runtime-HasSame s r = ground arith

identified-HasSame : (s : SessionUiState) (r : RuntimeSnapshot) → HasSame s (identified s r)
unfolding identified install_runtime_identity
identified-HasSame s r = ground (arith, newer_ui-HasSame s r.extension_ui)

run_event-HasSame :
    (s : SessionUiState) (run : String) (e : RunEvent) → HasSame s (run_event s run e)
unfolding run_event
run_event-HasSame s run e = ground arith

apply_runtime-HasSame :
    (s : SessionUiState) (r : Option RuntimeSnapshot) → HasSame s (apply_runtime s r)
unfolding apply_runtime
apply_runtime-HasSame s none = (refl, refl)
apply_runtime-HasSame s (some r) =
    ground (arith, project_runtime-HasSame (identified s r) r, identified-HasSame s r)

activation-HasSame :
    (s : SessionUiState) (identity : RuntimeIdentity) (e : SessionEvent)
    → HasSame s (activation s identity e)
unfolding activation install_runtime_identity
activation-HasSame s identity e = ground arith

current_event-HasSame : (s : SessionUiState) (e : SessionEvent) → HasSame s (current_event s e)
unfolding current_event
current_event-HasSame s (of_run e) = ground (arith, run_event-HasSame s e.run_id e.event)
current_event-HasSame s (of_session (runtime_activated ui)) = newer_ui-HasSame s ui
current_event-HasSame s (of_session (extension_ui_changed ui)) = newer_ui-HasSame s ui
current_event-HasSame s (of_session (extension_notice id message kind)) = (refl, refl)
current_event-HasSame s (of_session (extension_failed message)) = (refl, refl)

event_under-HasSame :
    (s : SessionUiState) (current : Option RuntimeIdentity) (identity : RuntimeIdentity)
    (e : SessionEvent)
    → HasSame s (event_under s current identity e)
event_under-HasSame s none identity e = activation-HasSame s identity e
event_under-HasSame s (some current) identity e =
    ground (arith, activation-HasSame s identity e, current_event-HasSame s e)

fresh-length :
    (existing ids : List String) (messages : List AgentMessage)
    → length (map (λ e. e.1) (fresh existing ids messages))
      ≡ length (map (λ e. e.0) (fresh existing ids messages))
unfolding fresh
fresh-length existing [] messages = refl
fresh-length existing (id ∷ ids) [] = refl
fresh-length existing (id ∷ ids) (message ∷ messages) =
    ground (arith, fresh-length existing ids messages)

-- What the server sends for the conversation has as many messages as entry identifiers. An earlier
-- page may lack some.
abbrev pub BringsAligned : SessionUiAction → Type 0
BringsAligned (loaded session request snapshot) =
    length snapshot.context.messages ≡ length snapshot.context.entry_ids
BringsAligned (context_loaded session request context leaf page) =
    length context.messages ≡ length context.entry_ids
BringsAligned (context_requested session request) = Unit
BringsAligned (context_prepended session request page) = Unit
BringsAligned (load_failed session message) = Unit
BringsAligned (operation_pending session kind) = Unit
BringsAligned (operation_accepted session kind run) = Unit
BringsAligned (prompt_accepted session request run) = Unit
BringsAligned (operation_failed session kind message) = Unit
BringsAligned (prompt_submitted request message) = Unit
BringsAligned (runtime_event session identity e) = Unit
BringsAligned (reset session) = Unit

accept_pending-HasSame :
    (s : SessionUiState) (p : Option PendingPrompt) (request run : String)
    → HasSame s (accept_pending s p request run)
unfolding accept_pending
accept_pending-HasSame s none request run = (refl, refl)
accept_pending-HasSame s (some p) request run = ground arith

submit_prompt-HasSame :
    (s : SessionUiState) (p : Option PendingPrompt) (request : String) (m : UserMessage)
    → HasSame s (submit_prompt s p request m)
unfolding submit_prompt
submit_prompt-HasSame s none request m = (refl, refl)
submit_prompt-HasSame s (some p) request m = (refl, refl)

newer_ui_of-HasSame :
    (s : SessionUiState) (r : Option RuntimeSnapshot) → HasSame s (newer_ui_of s r)
newer_ui_of-HasSame s none = (refl, refl)
newer_ui_of-HasSame s (some r) = newer_ui-HasSame s r.extension_ui

load-IsAligned :
    (s : SessionUiState) (session : String) (request : ℕ) (snapshot : SessionSnapshot)
    → length snapshot.context.messages ≡ length snapshot.context.entry_ids
    → IsAligned s
    → IsAligned (load s session request snapshot)
load-IsAligned s session request snapshot b h =
    let p = still_pending s.pending_prompt snapshot.context in
    load_cases IsAligned s session request snapshot h
      (ground (
        arith,
        h,
        newer_ui_of-HasSame (record s { snapshot_request_id = request }) snapshot.runtime,
      ))
      (ground
        (arith, b, apply_runtime-HasSame (take_snapshot s request snapshot p) snapshot.runtime))

reducer-IsAligned :
    (s : SessionUiState) (a : SessionUiAction)
    → BringsAligned a
    → IsAligned s
    → IsAligned (session_ui_reducer s a)
unfolding session_ui_reducer load_context prepend_context take_event pend_operation accept_operation
    fail_operation
reducer-IsAligned s (loaded session request snapshot) b h =
    load-IsAligned s session request snapshot b h
reducer-IsAligned s (context_loaded session request context leaf page) b h = ground (arith, b, h)
reducer-IsAligned s (context_requested session request) b h = ground (arith, h)
reducer-IsAligned s (context_prepended session request page) b h = ground (
  arith,
  h,
  fresh-length s.entry_ids page.context.entry_ids page.context.messages,
  length-append (map (λ e. e.1) (fresh s.entry_ids page.context.entry_ids page.context.messages))
      s.messages,
  length-append (map (λ e. e.0) (fresh s.entry_ids page.context.entry_ids page.context.messages))
      s.entry_ids,
)
reducer-IsAligned s (load_failed session message) b h = ground (arith, h)
reducer-IsAligned s (operation_pending session kind) b h = ground (arith, h)
reducer-IsAligned s (operation_accepted session kind run) b h = ground (arith, h)
reducer-IsAligned s (prompt_accepted session request run) b h =
    ground (arith, h, accept_pending-HasSame s s.pending_prompt request run)
reducer-IsAligned s (operation_failed session kind message) b h = ground (arith, h)
reducer-IsAligned s (prompt_submitted request message) b h =
    ground (arith, h, submit_prompt-HasSame s s.pending_prompt request message)
reducer-IsAligned s (runtime_event session identity e) b h =
    ground (arith, h, event_under-HasSame s s.runtime_identity identity e)
reducer-IsAligned s (reset session) b h = ground (arith, h)

-- The messages and the entry identifiers of the state stay equally many over any actions, if each
-- snapshot and each branch that arrives brings equally many. A page of earlier entries may bring
-- any numbers of them.
pub reduce_all-IsAligned :
    (s : SessionUiState) (actions : List SessionUiAction)
    → All BringsAligned actions
    → IsAligned s
    → IsAligned (reduce_all s actions)
unfolding reduce_all
reduce_all-IsAligned s [] b h = h
reduce_all-IsAligned s (a ∷ rest) b h =
    reduce_all-IsAligned (session_ui_reducer s a) rest b.1 (reducer-IsAligned s a b.0 h)
