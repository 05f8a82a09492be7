-- ===== src/Session/Identity.antt =====
-- Which runtime the state (session-ui-state.ts) is of.
use pipee.Base.{
  ℕ, ◌≤◌, ◌<◌, ◌≡◌, ◌⊎◌, inl, inr, refl, Bool, true, false, not, ◌||◌, Option, none, some, List, [],
  ◌∷◌, String, arith, if_cases, subst, sym, all, false≢true, ltb, eq_iff, str_eq, if◌then◌else◌,
}
use pipee.Session.Messages.{UserMessage}
use pipee.Session.Model.{
  SessionUiState, RuntimeIdentity, ExtensionUiProjection, PendingPrompt, same_runtime_identity, is,
}
use pipee.Session.Actions.{
  SessionUiAction, loaded, context_requested, context_loaded, context_prepended, load_failed,
  operation_pending, operation_accepted, prompt_accepted, operation_failed, prompt_submitted,
  runtime_event, reset, SessionEvent, RunEvent, of_run, of_session, runtime_activated,
  extension_ui_changed, extension_notice, extension_failed,
}
use pipee.Session.Runtime.{newer_ui, install_runtime_identity}
use pipee.Session.Context.{load_context, prepend_context}
use pipee.Session.Events.{take_event, event_under, activation, current_event, run_event}
use pipee.Session.Reducer.{
  session_ui_reducer, reduce_all, accept_pending, submit_prompt, pend_operation, accept_operation,
  fail_operation,
}

-- The later runtime is of the same registry, and it is of a later epoch, or it is the same runtime
-- with a projection of the extensions that is not older.
abbrev Follows : Option RuntimeIdentity → ℕ → Option RuntimeIdentity → ℕ → Type 0
Follows none revision b later = Unit
Follows (some a) revision none later = ⊥
Follows (some a) revision (some b) later =
    (a.registry_id ≡ b.registry_id)
    × ((a.runtime_epoch < b.runtime_epoch)
        ⊎ ((a.runtime_epoch ≡ b.runtime_epoch)
            × (a.runtime_id ≡ b.runtime_id)
            × (revision ≤ later)))

abbrev pub IsNoOlder : SessionUiState → SessionUiState → Type 0
IsNoOlder s t =
    Follows s.runtime_identity s.extension_ui.revision t.runtime_identity t.extension_ui.revision

Follows-refl :
    (a : Option RuntimeIdentity) (revision later : ℕ)
    → revision ≤ later
    → Follows a revision a later
Follows-refl none r q h = tt
Follows-refl (some a) r q h = (refl, inr (refl, refl, h))

Follows-trans :
    (a b c : Option RuntimeIdentity) (p q r : ℕ)
    → Follows a p b q
    → Follows b q c r
    → Follows a p c r
Follows-trans none b c p q r h k = tt
Follows-trans (some a) none c p q r h k = absurd h
Follows-trans (some a) (some b) none p q r h k = absurd k
Follows-trans (some a) (some b) (some c) p q r h k = grind (arith, h, k)

-- The runtime and the revision are the same.
abbrev Keeps : SessionUiState → SessionUiState → Type 0
Keeps s t =
    (t.runtime_identity ≡ s.runtime_identity) × (t.extension_ui.revision ≡ s.extension_ui.revision)

run_event-Keeps : (s : SessionUiState) (run : String) (e : RunEvent) → Keeps s (run_event s run e)
unfolding run_event
run_event-Keeps s run e = ground arith

newer_ui_bounds :
    (s : SessionUiState) (ui : ExtensionUiProjection)
    → (s.runtime_identity ≡ (newer_ui s ui).runtime_identity)
      × (s.extension_ui.revision ≤ (newer_ui s ui).extension_ui.revision)
unfolding newer_ui
newer_ui_bounds s ui = ground arith

Keeps-IsNoOlder : (s t : SessionUiState) → Keeps s t → IsNoOlder s t
Keeps-IsNoOlder s t k =
    subst (λ o. Follows s.runtime_identity s.extension_ui.revision o t.extension_ui.revision)
      (sym k.0)
      (Follows-refl s.runtime_identity s.extension_ui.revision t.extension_ui.revision
        (omega (arith, k.1)))

newer_ui-IsNoOlder : (s : SessionUiState) (ui : ExtensionUiProjection) → IsNoOlder s (newer_ui s ui)
newer_ui-IsNoOlder s ui =
    let t = newer_ui s ui in
    subst (λ o. Follows s.runtime_identity s.extension_ui.revision o t.extension_ui.revision)
      (newer_ui_bounds s ui).0
      (Follows-refl s.runtime_identity s.extension_ui.revision t.extension_ui.revision
        (newer_ui_bounds s ui).1)

current_event-IsNoOlder : (s : SessionUiState) (e : SessionEvent) → IsNoOlder s (current_event s e)
unfolding current_event
current_event-IsNoOlder s (of_run e) =
    Keeps-IsNoOlder s (current_event s (of_run e))
      (ground (arith, run_event-Keeps s e.run_id e.event))
current_event-IsNoOlder s (of_session (runtime_activated ui)) = newer_ui-IsNoOlder s ui
current_event-IsNoOlder s (of_session (extension_ui_changed ui)) = newer_ui-IsNoOlder s ui
current_event-IsNoOlder s (of_session (extension_notice id message kind)) =
    Keeps-IsNoOlder s s (refl, refl)
current_event-IsNoOlder s (of_session (extension_failed message)) = Keeps-IsNoOlder s s (refl, refl)

-- Where an activation of the runtime would be an advance, so is any event.
activation-IsNoOlder :
    (s : SessionUiState) (identity : RuntimeIdentity) (e : SessionEvent)
    → ((later : ℕ) → Follows s.runtime_identity s.extension_ui.revision (some identity) later)
    → IsNoOlder s (activation s identity e)
unfolding activation install_runtime_identity
activation-IsNoOlder s identity (of_session (runtime_activated ui)) f = f ui.revision
activation-IsNoOlder s identity (of_session (extension_ui_changed ui)) f =
    Keeps-IsNoOlder s s (refl, refl)
activation-IsNoOlder s identity (of_session (extension_notice id message kind)) f =
    Keeps-IsNoOlder s s (refl, refl)
activation-IsNoOlder s identity (of_session (extension_failed message)) f =
    Keeps-IsNoOlder s s (refl, refl)
activation-IsNoOlder s identity (of_run e) f = Keeps-IsNoOlder s s (refl, refl)

event_under-IsNoOlder :
    (s : SessionUiState) (current : Option RuntimeIdentity) (identity : RuntimeIdentity)
    (e : SessionEvent)
    → s.runtime_identity ≡ current
    → IsNoOlder s (event_under s current identity e)
event_under-IsNoOlder s none identity e h =
    activation-IsNoOlder s identity e
      (λ later. subst (λ o. Follows o s.extension_ui.revision (some identity) later) (sym h) tt)
event_under-IsNoOlder s (some current) identity e h =
    if_cases (IsNoOlder s)
      (not (str_eq identity.registry_id current.registry_id)
        || ltb identity.runtime_epoch current.runtime_epoch)
      s
      (if ltb current.runtime_epoch identity.runtime_epoch
        then activation s identity e
        else if not (same_runtime_identity identity current)
        then s
        else current_event s e)
      (λ stale. Keeps-IsNoOlder s s (refl, refl))
      (λ fine.
        if_cases (IsNoOlder s) (ltb current.runtime_epoch identity.runtime_epoch)
          (activation s identity e)
          (if not (same_runtime_identity identity current) then s else current_event s e)
          (λ newer. activation-IsNoOlder s identity e (λ later.
            subst (λ o. Follows o s.extension_ui.revision (some identity) later) (sym h)
              (grind (arith, fine, newer, eq_iff identity.registry_id current.registry_id))))
          (λ same_epoch.
            if_cases (IsNoOlder s) (not (same_runtime_identity identity current)) s
              (current_event s e) (λ other. Keeps-IsNoOlder s s (refl, refl))
              (λ mine. current_event-IsNoOlder s e)))

-- Neither a snapshot, which may be of any runtime, nor a reset.
abbrev pub leaves_runtime : SessionUiAction → Bool
leaves_runtime (loaded session request snapshot) = false
leaves_runtime (reset session) = false
leaves_runtime (context_requested session request) = true
leaves_runtime (context_loaded session request context leaf page) = true
leaves_runtime (context_prepended session request page) = true
leaves_runtime (load_failed session message) = true
leaves_runtime (operation_pending session kind) = true
leaves_runtime (operation_accepted session kind run) = true
leaves_runtime (prompt_accepted session request run) = true
leaves_runtime (operation_failed session kind message) = true
leaves_runtime (prompt_submitted request message) = true
leaves_runtime (runtime_event session identity e) = true

accept_pending-Keeps :
    (s : SessionUiState) (p : Option PendingPrompt) (request run : String)
    → Keeps s (accept_pending s p request run)
unfolding accept_pending
accept_pending-Keeps s none request run = (refl, refl)
accept_pending-Keeps s (some p) request run = ground arith

submit_prompt-Keeps :
    (s : SessionUiState) (p : Option PendingPrompt) (request : String) (m : UserMessage)
    → Keeps s (submit_prompt s p request m)
unfolding submit_prompt
submit_prompt-Keeps s none request m = (refl, refl)
submit_prompt-Keeps s (some p) request m = (refl, refl)

take_event-IsNoOlder :
    (s : SessionUiState) (session : String) (identity : RuntimeIdentity) (e : SessionEvent)
    → IsNoOlder s (take_event s session identity e)
unfolding take_event
take_event-IsNoOlder s session identity e =
    if_cases (IsNoOlder s) (not (is session s.session_id)) s
      (event_under s s.runtime_identity identity e) (λ other. Keeps-IsNoOlder s s (refl, refl))
      (λ mine. event_under-IsNoOlder s s.runtime_identity identity e refl)

-- The actions that have no part in the runtime.
reducer-Keeps :
    (s : SessionUiState) (a : SessionUiAction)
    → leaves_runtime a ≡ true
    → Keeps s (session_ui_reducer s a) ⊎ IsNoOlder s (session_ui_reducer s a)
unfolding session_ui_reducer load_context prepend_context pend_operation accept_operation
    fail_operation
reducer-Keeps s (loaded session request snapshot) h = absurd (false≢true h)
reducer-Keeps s (reset session) h = absurd (false≢true h)
reducer-Keeps s (context_loaded session request context leaf page) h = inl (ground arith)
reducer-Keeps s (context_requested session request) h = inl (ground arith)
reducer-Keeps s (context_prepended session request page) h = inl (ground arith)
reducer-Keeps s (load_failed session message) h = inl (ground arith)
reducer-Keeps s (operation_pending session kind) h = inl (ground arith)
reducer-Keeps s (operation_accepted session kind run) h = inl (ground arith)
reducer-Keeps s (prompt_accepted session request run) h =
    inl (ground (arith, accept_pending-Keeps s s.pending_prompt request run))
reducer-Keeps s (operation_failed session kind message) h = inl (ground arith)
reducer-Keeps s (prompt_submitted request message) h =
    inl (submit_prompt-Keeps s s.pending_prompt request message)
reducer-Keeps s (runtime_event session identity e) h =
    inr (take_event-IsNoOlder s session identity e)

reducer-IsNoOlder :
    (s : SessionUiState) (a : SessionUiAction)
    → leaves_runtime a ≡ true
    → IsNoOlder s (session_ui_reducer s a)
reducer-IsNoOlder s a h = elim (reducer-Keeps s a h) [
  | inl k ↦ Keeps-IsNoOlder s (session_ui_reducer s a) k
  | inr k ↦ k
]

-- Over any actions but snapshots and resets the state never goes back: its runtime stays of the
-- same registry, its epoch does not fall, and while the runtime stays the revision of the
-- projection of its extensions does not fall.
pub reduce_all-IsNoOlder :
    (s : SessionUiState) (actions : List SessionUiAction)
    → all leaves_runtime actions ≡ true
    → IsNoOlder s (reduce_all s actions)
unfolding reduce_all
reduce_all-IsNoOlder s [] h = Keeps-IsNoOlder s s (refl, refl)
reduce_all-IsNoOlder s (a ∷ rest) h =
    let t = session_ui_reducer s a in
    let u = reduce_all t rest in
    Follows-trans s.runtime_identity t.runtime_identity u.runtime_identity s.extension_ui.revision
      t.extension_ui.revision u.extension_ui.revision (reducer-IsNoOlder s a (ground (arith, h)))
      (reduce_all-IsNoOlder t rest (ground (arith, h)))
