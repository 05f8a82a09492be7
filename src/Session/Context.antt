-- ===== src/Session/Context.antt =====
-- The conversation of a session taken into the state: the receipts of prompts, a snapshot, a
-- branch and an earlier page (session-ui-state.ts).
use pipee.Base.{
  ℕ, Bool, false, not, ◌&&◌, ◌||◌, Option, none, some, List, [], ◌∷◌, ◌++◌, map, String,
  if◌then◌else◌, ltb, ◌==◌, str_eq, any, keep,
}
use pipee.Session.Messages.{AgentMessage}
use pipee.Session.Model.{
  SessionUiState, SessionSnapshot, SessionContext, SessionContextPage, ContextPage, PendingPrompt,
  PromptRequestReceipt, RuntimeSnapshot, is, present, or_else, differs,
}
use pipee.Session.Runtime.{newer_ui, is_current, pending_run, apply_runtime}

unfoldable pub receipt_of : String → List PromptRequestReceipt → Option PromptRequestReceipt
receipt_of request [] = none
receipt_of request (r ∷ rs) = if str_eq r.request_id request then some r else receipt_of request rs

-- `promptReceipt`
abbrev pub prompt_receipt : Option PendingPrompt → SessionContext → Option PromptRequestReceipt
prompt_receipt none context = none
prompt_receipt (some p) context = receipt_of p.request_id context.prompt_requests

-- The prompt is no longer pending once the receipt names the entry of the user.
abbrev pub after_receipt : Option PendingPrompt → Option PromptRequestReceipt → Option PendingPrompt
after_receipt none receipt = none
after_receipt (some p) none = some p
after_receipt (some p) (some r) =
    if present r.user_entry_id then none else some (record p { run_id = some r.run_id })

abbrev pub still_pending : Option PendingPrompt → SessionContext → Option PendingPrompt
still_pending p context = after_receipt p (prompt_receipt p context)

-- The snapshot is of the current runtime, but of another run than the one expected.
abbrev pub is_other_run : SessionUiState → Option PendingPrompt → Option RuntimeSnapshot → Bool
is_other_run s p none = false
is_other_run s p (some r) =
    is_current s.runtime_identity r.identity && differs (or_else (pending_run p) s.run_id) r.run_id

abbrev pub newer_ui_of : SessionUiState → Option RuntimeSnapshot → SessionUiState
newer_ui_of s none = s
newer_ui_of s (some r) = newer_ui s r.extension_ui

abbrev pub take_snapshot :
    SessionUiState → ℕ → SessionSnapshot → Option PendingPrompt → SessionUiState
take_snapshot s request snapshot p = record s {
  snapshot_request_id = request;
  snapshot = some snapshot;
  messages = snapshot.context.messages;
  entry_ids = snapshot.context.entry_ids;
  pending_prompt = p;
  ephemeral_messages = [];
  error = none;
}

-- The case `Loaded`.
unfoldable pub load : SessionUiState → String → ℕ → SessionSnapshot → SessionUiState
load s session request snapshot =
    let p = still_pending s.pending_prompt snapshot.context in
    if not (is session s.session_id)
      || not (str_eq snapshot.session_id session)
      || ltb request s.snapshot_request_id
    then s
    else if is_other_run s p snapshot.runtime
    then newer_ui_of (record s { snapshot_request_id = request }) snapshot.runtime
    else apply_runtime (take_snapshot s request snapshot p) snapshot.runtime

abbrev pub in_snapshot :
    SessionContext → ContextPage → Option String → Option SessionSnapshot → Option SessionSnapshot
in_snapshot context page leaf none = none
in_snapshot context page leaf (some snapshot) =
    some (record snapshot { context = context; context_page = page; leaf_id = leaf })

-- The case `ContextLoaded`.
unfoldable pub load_context :
    SessionUiState → String → ℕ → SessionContext → Option String → ContextPage → SessionUiState
load_context s session request context leaf page =
    if not (is session s.session_id) || not (request == s.context_request_id) then s else record s {
      snapshot = in_snapshot context page leaf s.snapshot;
      messages = context.messages;
      entry_ids = context.entry_ids;
      pending_prompt = still_pending s.pending_prompt context;
      ephemeral_messages = [];
    }

-- The entries of a page that are not there yet, each with its message: the loop of
-- `ContextPrepended`, which skips an index without a message.
unfoldable pub fresh : List String → List String → List AgentMessage → List (String × AgentMessage)
fresh existing [] messages = []
fresh existing (id ∷ ids) [] = []
fresh existing (id ∷ ids) (message ∷ messages) =
    let rest = fresh existing ids messages in
    if any (str_eq id) existing then rest else (id, message) ∷ rest

abbrev pub is_receipted : List PromptRequestReceipt → PromptRequestReceipt → Bool
is_receipted receipts r = any (λ c. str_eq c.request_id r.request_id) receipts

abbrev pub merge_receipts :
    List PromptRequestReceipt → List PromptRequestReceipt → List PromptRequestReceipt
merge_receipts earlier known = earlier ++ keep (λ r. not (is_receipted earlier r)) known

abbrev pub extend_snapshot :
    SessionContextPage
    → List AgentMessage
    → List String
    → Option SessionSnapshot
    → Option SessionSnapshot
extend_snapshot page messages ids none = none
extend_snapshot page messages ids (some snapshot) =
    let context = snapshot.context in
    some (record snapshot {
      context = record context {
        messages = messages;
        entry_ids = ids;
        prompt_requests = merge_receipts page.context.prompt_requests context.prompt_requests;
      };
      context_page = record {
        before_entry_id = page.before_entry_id;
        has_more_before = page.has_more_before;
      };
    })

abbrev pub prepend : SessionUiState → SessionContextPage → SessionUiState
prepend s page =
    let new = fresh s.entry_ids page.context.entry_ids page.context.messages in
    let messages = map (λ e. e.1) new ++ s.messages in
    let ids = map (λ e. e.0) new ++ s.entry_ids in
    record s {
      snapshot = extend_snapshot page messages ids s.snapshot;
      messages = messages;
      entry_ids = ids;
    }

-- The case `ContextPrepended`.
unfoldable pub prepend_context : SessionUiState → String → ℕ → SessionContextPage → SessionUiState
prepend_context s session request page =
    if not (is session s.session_id) || not (request == s.context_request_id)
    then s
    else prepend s page
