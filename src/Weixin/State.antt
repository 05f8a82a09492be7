-- ===== src/Weixin/State.antt =====
-- The state of the bridge (extensions/weixin/src/schema.ts) and its changes
-- (extensions/weixin/src/state.ts). What is absent is `none`. Times are whole milliseconds.
use pipee.Base.{
  ℕ, ◌-◌, Bool, false, not, ◌&&◌, Option, none, some, List, [], ◌∷◌, ◌++◌, String, if◌then◌else◌,
  ltb, ◌==◌, str_eq, any, length, drop,
}

pub record WeixinAuth : Type 0 where
  pub token : String
  pub base_url : String
  pub account_id : String
  pub user_id : String
  pub saved_at : String

pub record SessionTarget : Type 0 where
  pub session_id : String
  pub session_file : Option String
  pub cwd : String

-- `CdnMediaSchema` and `IlinkImageSchema` of extensions/weixin/src/ilink-protocol.ts.
pub record CdnMedia : Type 0 where
  pub encrypt_query_param : Option String
  pub aes_key : Option String
  pub full_url : Option String

pub record IlinkImage : Type 0 where
  pub media : Option CdnMedia
  pub aeskey : Option String

-- `PendingImageBatchBase`
pub record Batch : Type 0 where
  pub session_id : String
  pub user_id : String
  pub message_ids : List String
  pub images : List IlinkImage
  pub context_token : String

pub data PendingImageBatch : Type 0 where
  collecting : Batch → (deadline_at : ℕ) → PendingImageBatch
  dispatching : Batch → (request_id prompt : String) → PendingImageBatch

pub record BridgeState : Type 0 where
  pub enabled : Bool
  pub cursor : String
  pub processed_message_ids : List String
  pub pending_image_batch : Option PendingImageBatch
  pub auth : Option WeixinAuth
  pub default_session : Option SessionTarget
  pub context_token : Option String

-- Version 2, whose `binding` became the default session.
pub record BridgeStateV2 : Type 0 where
  pub enabled : Bool
  pub cursor : String
  pub processed_message_ids : List String
  pub pending_image_batch : Option PendingImageBatch
  pub auth : Option WeixinAuth
  pub binding : Option SessionTarget

abbrev pub empty_state : BridgeState
empty_state = record {
  enabled = false;
  cursor = "";
  processed_message_ids = [];
  pending_image_batch = none;
  auth = none;
  default_session = none;
  context_token = none;
}

-- A message with images, as the events `CollectImages` and `DispatchImages` have it.
pub record InboundImages : Type 0 where
  pub session_id : String
  pub user_id : String
  pub message_id : String
  pub images : List IlinkImage
  pub context_token : String

pub data InboundStateEvent : Type 0 where
  collect_images : InboundImages → (deadline_at : ℕ) → InboundStateEvent
  dispatch_images : InboundImages → (prompt : String) → InboundStateEvent
  flush_images : InboundStateEvent
  expire_images : (now : ℕ) → InboundStateEvent
  complete_images : (request_id : String) → InboundStateEvent

-- `slice(-n)`, which is everything for 0.
abbrev pub last {ℓ} : {A : Type ℓ} → ℕ → List A → List A
last n xs = if n == 0 then xs else drop (length xs - n) xs

abbrev pub includes : List String → String → Bool
includes ids id = any (str_eq id) ids

unfoldable pub with_processed : ℕ → BridgeState → String → BridgeState
with_processed limit s id =
    if includes s.processed_message_ids id
    then s
    else record s { processed_message_ids = last limit (s.processed_message_ids ++ id ∷ []) }

abbrev pub batch_with : List String → List IlinkImage → InboundImages → Batch
batch_with ids images e = record {
  session_id = e.session_id;
  user_id = e.user_id;
  message_ids = ids;
  images = images;
  context_token = e.context_token;
}

-- `appendBatch`, with the parts of the event that its callers add.
unfoldable pub append_batch : Option PendingImageBatch → InboundImages → Option Batch
append_batch none e = some (batch_with (e.message_id ∷ []) e.images e)
append_batch (some (dispatching b request prompt)) e = none
append_batch (some (collecting b deadline)) e =
    if not (str_eq b.session_id e.session_id && str_eq b.user_id e.user_id)
    then none
    else if includes b.message_ids e.message_id
    then some (batch_with b.message_ids b.images e)
    else some (batch_with (b.message_ids ++ e.message_id ∷ []) (b.images ++ e.images) e)

abbrev pub dispatch_prompt : List IlinkImage → String
dispatch_prompt images = if length images == 1 then "请分析图片。" else "请分析这些图片。"

-- The identity of a batch hashes its messages; the hash is a library's.
module _ (batch_identity : List String → String) (limit : ℕ) where
  abbrev pub begin_dispatch : Option PendingImageBatch → Option PendingImageBatch
  begin_dispatch none = none
  begin_dispatch (some (dispatching b request prompt)) = some (dispatching b request prompt)
  begin_dispatch (some (collecting b deadline)) =
      some (dispatching b (batch_identity b.message_ids) (dispatch_prompt b.images))

  unfoldable pub begin_collected_dispatch : BridgeState → BridgeState
  begin_collected_dispatch s = record s {
    pending_image_batch = begin_dispatch s.pending_image_batch;
  }

  abbrev pub collect : BridgeState → InboundImages → ℕ → Option Batch → BridgeState
  collect s e deadline none = s
  collect s e deadline (some b) =
      with_processed limit (record s { pending_image_batch = some (collecting b deadline) })
        e.message_id

  abbrev pub dispatch : BridgeState → InboundImages → String → Option Batch → BridgeState
  dispatch s e prompt none = s
  dispatch s e prompt (some b) =
      if length b.images == 0
      then s
      else with_processed limit
          (record s {
            pending_image_batch = some (dispatching b (batch_identity b.message_ids) prompt);
          })
          e.message_id

  abbrev pub is_expired : ℕ → Option PendingImageBatch → Bool
  is_expired now none = false
  is_expired now (some (dispatching b request prompt)) = false
  is_expired now (some (collecting b deadline)) = not (ltb now deadline)

  abbrev pub is_dispatched : String → Option PendingImageBatch → Bool
  is_dispatched request none = false
  is_dispatched request (some (collecting b deadline)) = false
  is_dispatched request (some (dispatching b r prompt)) = str_eq r request

  -- `transitionInbound`. Where a batch is dispatched, `appendBatch` has none.
  unfoldable pub transition_inbound : BridgeState → InboundStateEvent → BridgeState
  transition_inbound s (collect_images e deadline) =
      collect s e deadline (append_batch s.pending_image_batch e)
  transition_inbound s (dispatch_images e prompt) =
      dispatch s e prompt (append_batch s.pending_image_batch e)
  transition_inbound s flush_images = begin_collected_dispatch s
  transition_inbound s (expire_images now) =
      if is_expired now s.pending_image_batch then begin_collected_dispatch s else s
  transition_inbound s (complete_images request) =
      if is_dispatched request s.pending_image_batch
      then record s { pending_image_batch = none }
      else s

abbrev pub is_account : Option WeixinAuth → String → Bool
is_account none id = false
is_account (some a) id = str_eq a.account_id id

-- A token that is not empty.
abbrev pub kept_token : Option String → Option String
kept_token none = none
kept_token (some t) = if str_eq t "" then none else some t

unfoldable pub save_auth : BridgeState → WeixinAuth → BridgeState
save_auth s auth = record s {
  auth = some auth;
  cursor = "";
  processed_message_ids = [];
  pending_image_batch = none;
  context_token = if is_account s.auth auth.account_id then kept_token s.context_token else none;
}

unfoldable pub clear_auth : BridgeState → BridgeState
clear_auth s = record s {
  auth = none;
  cursor = "";
  processed_message_ids = [];
  pending_image_batch = none;
  context_token = none;
}

unfoldable pub logout : BridgeState → BridgeState
logout s = record empty_state { default_session = s.default_session }

-- The operations of the store, each an update of the state.
pub data Change : Type 0 where
  saves_auth : WeixinAuth → Change
  clears_auth logs_out : Change
  sets_default_session : SessionTarget → Change
  sets_enabled : Bool → Change
  saves_context_token marks_processed saves_cursor : String → Change
  transitions : InboundStateEvent → Change

module _ (batch_identity : List String → String) (limit : ℕ) where
  unfoldable pub change : BridgeState → Change → BridgeState
  change s (saves_auth auth) = save_auth s auth
  change s clears_auth = clear_auth s
  change s logs_out = logout s
  change s (sets_default_session target) = record s { default_session = some target }
  change s (sets_enabled on) = record s { enabled = on }
  change s (saves_context_token token) = record s { context_token = some token }
  change s (marks_processed id) = with_processed limit s id
  change s (saves_cursor cursor) = record s { cursor = cursor }
  change s (transitions e) = transition_inbound batch_identity limit s e

  unfoldable pub changes : BridgeState → List Change → BridgeState
  changes s [] = s
  changes s (c ∷ cs) = changes (change s c) cs
