-- ===== src/Session/Pending.antt =====
-- A prompt that was submitted (session-ui-state.ts) stays in view until something settles it.
use pipee.Base.{
  ℕ, ◌≡◌, refl, Bool, true, false, not, ◌||◌, Option, none, some, List, [], ◌∷◌, String, arith, all,
  if_cases, ltb, false≢true, subst, sym,
}
use pipee.Session.Messages.{UserMessage}
use pipee.Session.Model.{
  SessionUiState, SessionSnapshot, SessionContext, RuntimeSnapshot, RuntimeIdentity,
  ExtensionUiProjection, PendingPrompt, PromptRequestReceipt, is, present, same_runtime_identity,
}
use pipee.Session.Actions.{
  SessionUiAction, loaded, context_requested, context_loaded, context_prepended, load_failed,
  operation_pending, operation_accepted, prompt_accepted, operation_failed, prompt_submitted,
  runtime_event, reset, SessionEvent, RunEvent, of_run, of_session, runtime_activated,
  extension_ui_changed, extension_notice, extension_failed,
}
use pipee.Session.Runtime.{newer_ui, identified, project_runtime, apply_runtime}
use pipee.Session.Context.{
  load, load_context, prepend_context, newer_ui_of, still_pending, take_snapshot, receipt_of,
  after_receipt,
}
use pipee.Session.Events.{take_event, event_under, activation, current_event, run_event}
use pipee.Session.Reducer.{
  session_ui_reducer, reduce_all, accept_pending, submit_prompt, pend_operation, accept_operation,
  fail_operation, is_prompt,
}
use pipee.Session.Cases.{load_cases}

-- The prompt is pending under its request, with its message, whichever run it is known to be of.
abbrev IsPending : String → UserMessage → Option PendingPrompt → Type 0
IsPending request message none = ⊥
IsPending request message (some p) = (p.request_id ≡ request) × (p.message ≡ message)

abbrev pub Shows : String → UserMessage → SessionUiState → Type 0
Shows request message s = IsPending request message s.pending_prompt

abbrev pub is_entered : Option PromptRequestReceipt → Bool
is_entered none = false
is_entered (some r) = present r.user_entry_id

-- The conversation has the entry of the prompt.
abbrev pub has_entry : String → SessionContext → Bool
has_entry request context = is_entered (receipt_of request context.prompt_requests)

abbrev pub is_other_runtime : RuntimeIdentity → Option RuntimeSnapshot → Bool
is_other_runtime identity none = false
is_other_runtime identity (some r) = not (same_runtime_identity identity r.identity)

abbrev pub is_later_activation : RuntimeIdentity → RuntimeIdentity → SessionEvent → Bool
is_later_activation identity i (of_session (runtime_activated ui)) =
    ltb identity.runtime_epoch i.runtime_epoch
is_later_activation identity i (of_session (extension_ui_changed ui)) = false
is_later_activation identity i (of_session (extension_notice n m kind)) = false
is_later_activation identity i (of_session (extension_failed m)) = false
is_later_activation identity i (of_run e) = false

-- What settles a prompt under a runtime: its entry in the conversation, a failure, another runtime,
-- or another session.
abbrev pub settles : String → RuntimeIdentity → SessionUiAction → Bool
settles request identity (loaded session n snapshot) =
    has_entry request snapshot.context || is_other_runtime identity snapshot.runtime
settles request identity (context_loaded session n context leaf page) = has_entry request context
settles request identity (operation_failed session kind m) = is_prompt kind
settles request identity (runtime_event session i e) = is_later_activation identity i e
settles request identity (reset session) = true
settles request identity (context_requested session n) = false
settles request identity (context_prepended session n page) = false
settles request identity (load_failed session m) = false
settles request identity (operation_pending session kind) = false
settles request identity (operation_accepted session kind run) = false
settles request identity (prompt_accepted session r run) = false
settles request identity (prompt_submitted r m) = false

module _ (request : String) (message : UserMessage) (identity : RuntimeIdentity) where
  -- The prompt is pending, and the runtime is this one.
  abbrev pub Awaits : SessionUiState → Type 0
  Awaits s = Shows request message s × (s.runtime_identity ≡ some identity)

  newer_ui-Awaits :
      (s : SessionUiState) (ui : ExtensionUiProjection) → Awaits s → Awaits (newer_ui s ui)
  unfolding newer_ui
  newer_ui-Awaits s ui h = ground (arith, h)

  project_runtime-Awaits :
      (s : SessionUiState) (r : RuntimeSnapshot) → Awaits s → Awaits (project_runtime s r)
  unfolding project_runtime
  project_runtime-Awaits s r h = ground (arith, h)

  apply_runtime-Awaits :
      (s : SessionUiState) (r : Option RuntimeSnapshot)
      → is_other_runtime identity r ≡ false
      → Awaits s
      → Awaits (apply_runtime s r)
  unfolding apply_runtime identified
  apply_runtime-Awaits s none e h = h
  apply_runtime-Awaits s (some r) e h =
      project_runtime-Awaits (identified s r) r
        (ground (arith, e, h, newer_ui-Awaits s r.extension_ui h))

  newer_ui_of-Awaits :
      (s : SessionUiState) (r : Option RuntimeSnapshot) → Awaits s → Awaits (newer_ui_of s r)
  newer_ui_of-Awaits s none h = h
  newer_ui_of-Awaits s (some r) h = newer_ui-Awaits s r.extension_ui h

  after_receipt-IsPending :
      (p : PendingPrompt) (r : Option PromptRequestReceipt)
      → is_entered r ≡ false
      → IsPending request message (some p)
      → IsPending request message (after_receipt (some p) r)
  after_receipt-IsPending p none e h = h
  after_receipt-IsPending p (some r) e h = ground (arith, e, h)

  still_pending-IsPending :
      (p : Option PendingPrompt) (context : SessionContext)
      → has_entry request context ≡ false
      → IsPending request message p
      → IsPending request message (still_pending p context)
  still_pending-IsPending none context e h = h
  still_pending-IsPending (some p) context e h =
      after_receipt-IsPending p (receipt_of p.request_id context.prompt_requests)
        (subst (λ id. is_entered (receipt_of id context.prompt_requests) ≡ false) (sym h.0) e) h

  run_event-Awaits :
      (s : SessionUiState) (run : String) (e : RunEvent) → Awaits s → Awaits (run_event s run e)
  unfolding run_event
  run_event-Awaits s run e h = ground (arith, h)

  current_event-Awaits :
      (s : SessionUiState) (e : SessionEvent) → Awaits s → Awaits (current_event s e)
  unfolding current_event
  current_event-Awaits s (of_run e) h = ground (arith, h, run_event-Awaits s e.run_id e.event h)
  current_event-Awaits s (of_session (runtime_activated ui)) h = newer_ui-Awaits s ui h
  current_event-Awaits s (of_session (extension_ui_changed ui)) h = newer_ui-Awaits s ui h
  current_event-Awaits s (of_session (extension_notice n m kind)) h = h
  current_event-Awaits s (of_session (extension_failed m)) h = h

  activation_unless :
      (s : SessionUiState) (i : RuntimeIdentity) (e : SessionEvent)
      → ltb identity.runtime_epoch i.runtime_epoch ≡ true
      → is_later_activation identity i e ≡ false
      → activation s i e ≡ s
  unfolding activation
  activation_unless s i (of_run e) l n = refl
  activation_unless s i (of_session (runtime_activated ui)) l n = absurd (ground (arith, l, n))
  activation_unless s i (of_session (extension_ui_changed ui)) l n = refl
  activation_unless s i (of_session (extension_notice id m kind)) l n = refl
  activation_unless s i (of_session (extension_failed m)) l n = refl

  event_under-Awaits :
      (s : SessionUiState) (i : RuntimeIdentity) (e : SessionEvent)
      → is_later_activation identity i e ≡ false
      → Awaits s
      → Awaits (event_under s (some identity) i e)
  event_under-Awaits s i e n h =
      ground (arith, n, h, current_event-Awaits s e h, activation_unless s i e)

  take_event-Awaits :
      (s : SessionUiState) (session : String) (i : RuntimeIdentity) (e : SessionEvent)
      → is_later_activation identity i e ≡ false
      → Awaits s
      → Awaits (take_event s session i e)
  unfolding take_event
  take_event-Awaits s session i e n h =
      if_cases Awaits (not (is session s.session_id)) s (event_under s s.runtime_identity i e)
        (λ other. h)
        (λ mine. subst (λ o. Awaits (event_under s o i e)) (sym h.1) (event_under-Awaits s i e n h))

  load-Awaits :
      (s : SessionUiState) (session : String) (n : ℕ) (snapshot : SessionSnapshot)
      → has_entry request snapshot.context ≡ false
      → is_other_runtime identity snapshot.runtime ≡ false
      → Awaits s
      → Awaits (load s session n snapshot)
  load-Awaits s session n snapshot e o h =
      let p = still_pending s.pending_prompt snapshot.context in
      load_cases Awaits s session n snapshot h
        (newer_ui_of-Awaits (record s { snapshot_request_id = n }) snapshot.runtime h)
        (apply_runtime-Awaits (take_snapshot s n snapshot p) snapshot.runtime o
          (still_pending-IsPending s.pending_prompt snapshot.context e h.0, h.1))

  accept_pending-Awaits :
      (s : SessionUiState) (r run : String)
      → Awaits s
      → Awaits (accept_pending s s.pending_prompt r run)
  unfolding accept_pending
  accept_pending-Awaits s r run h = ground (arith, h)

  submit_prompt-Awaits :
      (s : SessionUiState) (r : String) (m : UserMessage)
      → Awaits s
      → Awaits (submit_prompt s s.pending_prompt r m)
  unfolding submit_prompt
  submit_prompt-Awaits s r m h = ground (arith, h)

  reducer-Awaits :
      (s : SessionUiState) (a : SessionUiAction)
      → settles request identity a ≡ false
      → Awaits s
      → Awaits (session_ui_reducer s a)
  unfolding session_ui_reducer load_context prepend_context pend_operation accept_operation
      fail_operation
  reducer-Awaits s (loaded session n snapshot) e h =
      load-Awaits s session n snapshot (ground (arith, e)) (ground (arith, e)) h
  reducer-Awaits s (context_loaded session n context leaf page) e h =
      ground (arith, h, still_pending-IsPending s.pending_prompt context e h.0)
  reducer-Awaits s (context_requested session n) e h = ground (arith, h)
  reducer-Awaits s (context_prepended session n page) e h = ground (arith, h)
  reducer-Awaits s (load_failed session m) e h = ground (arith, h)
  reducer-Awaits s (operation_pending session kind) e h = ground (arith, h)
  reducer-Awaits s (operation_accepted session kind run) e h = ground (arith, h)
  reducer-Awaits s (prompt_accepted session r run) e h =
      ground (arith, h, accept_pending-Awaits s r run h)
  reducer-Awaits s (operation_failed session kind m) e h = ground (arith, e, h)
  reducer-Awaits s (prompt_submitted r m) e h = submit_prompt-Awaits s r m h
  reducer-Awaits s (runtime_event session i event) e h = take_event-Awaits s session i event e h
  reducer-Awaits s (reset session) e h = absurd (false≢true (sym e))

  -- A pending prompt stays pending under its request and with its message, and the runtime stays,
  -- over any actions but those that settle it: a conversation that has the entry of the prompt, a
  -- failed prompt, a snapshot of another runtime, the activation of a later one, and a reset.
  -- Snapshots without the entry, other receipts and all events of runs leave it.
  pub reduce_all-Awaits :
      (s : SessionUiState) (actions : List SessionUiAction)
      → all (λ a. not (settles request identity a)) actions ≡ true
      → Awaits s
      → Awaits (reduce_all s actions)
  unfolding reduce_all
  reduce_all-Awaits s [] e h = h
  reduce_all-Awaits s (a ∷ rest) e h =
      reduce_all-Awaits (session_ui_reducer s a) rest (ground (arith, e))
        (reducer-Awaits s a (ground (arith, e)) h)
