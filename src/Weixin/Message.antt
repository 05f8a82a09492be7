-- ===== src/Weixin/Message.antt =====
-- An inbound message and the prompt that it makes (extensions/weixin/src/message.ts). The items
-- are as the schemas of extensions/weixin/src/ilink-protocol.ts have them, less what is not read;
-- an identifier is its text. The codes of items are natural numbers. `trim` is JavaScript's.
use pipee.Base.{
  ℕ, Bool, true, false, ◌||◌, Option, none, some, List, [], ◌∷◌, ◌++◌, String, if◌then◌else◌,
  str_eq, ◌==◌,
}
use pipee.Base.Text.{◌<>◌}
use pipee.Weixin.State.{IlinkImage, CdnMedia}

pub record TextItem : Type 0 where
  pub text : Option String

pub record RefItem : Type 0 where
  pub msg_id : Option String
  pub kind : Option ℕ
  pub text_item : Option TextItem
  pub voice_item : Option TextItem

pub record RefMessage : Type 0 where
  pub title : Option String
  pub message_item : Option RefItem

pub record IlinkItem : Type 0 where
  pub kind : Option ℕ
  pub text_item : Option TextItem
  pub image_item : Option IlinkImage
  pub voice_item : Option TextItem
  pub ref_msg : Option RefMessage

pub data InboundMessagePart : Type 0 where
  text_part :
      (text : String) (quote : List String) (referenced_message_id : Option String)
      → InboundMessagePart
  voice_transcript : (text : String) → InboundMessagePart
  image : Option IlinkImage → InboundMessagePart
  voice file video : InboundMessagePart
  unknown : (item_type : Option ℕ) → InboundMessagePart

pub record InboundMessage : Type 0 where
  pub parts : List InboundMessagePart
  pub referenced_message_id : Option String

abbrev pub is_code : ℕ → Option ℕ → Bool
is_code n none = false
is_code n (some k) = k == n

abbrev pub is_there {ℓ} : {A : Type ℓ} → Option A → Bool
is_there none = false
is_there (some a) = true

-- The texts that are there.
abbrev pub listed : Option String → List String
listed none = []
listed (some t) = t ∷ []

abbrev pub has_media : Option CdnMedia → Bool
has_media none = false
has_media (some m) = is_there m.aes_key || is_there m.encrypt_query_param || is_there m.full_url

-- An image without a reference is left out.
abbrev pub referenced_image : Option IlinkImage → Option IlinkImage
referenced_image none = none
referenced_image (some i) = if is_there i.aeskey || has_media i.media then some i else none

abbrev pub message_id_of : Option RefItem → Option String
message_id_of none = none
message_id_of (some item) = item.msg_id

abbrev pub referenced_id : Option RefMessage → Option String
referenced_id none = none
referenced_id (some ref) = message_id_of ref.message_item

module _ (trim : String → String) where
  abbrev pub non_empty : String → Option String
  non_empty t = if str_eq t "" then none else some t

  unfoldable pub non_empty_text : Option String → Option String
  non_empty_text none = none
  non_empty_text (some t) = non_empty (trim t)

  abbrev pub item_text : Option TextItem → Option String
  item_text none = none
  item_text (some item) = non_empty_text item.text

  unfoldable pub referenced_text : Option RefItem → Option String
  referenced_text none = none
  referenced_text (some item) =
      if is_code 1 item.kind
      then item_text item.text_item
      else if is_code 3 item.kind
      then item_text item.voice_item
      else none

  unfoldable pub quote_of : Option RefMessage → List String
  quote_of none = []
  quote_of (some ref) =
      listed (non_empty_text ref.title) ++ listed (referenced_text ref.message_item)

  abbrev pub text_of : IlinkItem → Option String → InboundMessagePart
  text_of item none = unknown item.kind
  text_of item (some text) = text_part text (quote_of item.ref_msg) (referenced_id item.ref_msg)

  abbrev pub voice_of : Option String → InboundMessagePart
  voice_of none = voice
  voice_of (some text) = voice_transcript text

  unfoldable pub part_of : IlinkItem → InboundMessagePart
  part_of item =
      if is_code 1 item.kind
      then text_of item (item_text item.text_item)
      else if is_code 2 item.kind
      then image (referenced_image item.image_item)
      else if is_code 3 item.kind
      then voice_of (item_text item.voice_item)
      else if is_code 4 item.kind
      then file
      else if is_code 5 item.kind
      then video
      else unknown item.kind

  unfoldable pub parts_of : List IlinkItem → List InboundMessagePart
  parts_of [] = []
  parts_of (item ∷ items) = part_of item ∷ parts_of items

  abbrev pub id_if : Option String → Option String → Option String
  id_if none rest = rest
  id_if (some id) rest = if str_eq id "" then rest else some id

  -- The first reference to a message that is not empty.
  unfoldable pub first_reference : List InboundMessagePart → Option String
  first_reference [] = none
  first_reference (text_part t quote id ∷ parts) = id_if id (first_reference parts)
  first_reference (voice_transcript t ∷ parts) = first_reference parts
  first_reference (image i ∷ parts) = first_reference parts
  first_reference (voice ∷ parts) = first_reference parts
  first_reference (file ∷ parts) = first_reference parts
  first_reference (video ∷ parts) = first_reference parts
  first_reference (unknown k ∷ parts) = first_reference parts

  -- `parseInboundMessage`, on the items of the message.
  unfoldable pub parse_inbound_message : List IlinkItem → InboundMessage
  parse_inbound_message items =
      let parts = parts_of items in
      record { parts = parts; referenced_message_id = first_reference parts }

-- `join` with a separator.
unfoldable pub joined : String → List String → String
joined sep [] = ""
joined sep (t ∷ []) = t
joined sep (t ∷ u ∷ ts) = t <> sep <> joined sep (u ∷ ts)

abbrev pub quoted : List String → String → String
quoted [] text = text
quoted (q ∷ qs) text = "[引用: " <> joined " | " (q ∷ qs) <> "]\n" <> text

abbrev pub texts_of : InboundMessagePart → List String
texts_of (text_part text quote id) = quoted quote text ∷ []
texts_of (voice_transcript text) = text ∷ []
texts_of (image i) = []
texts_of voice = []
texts_of file = []
texts_of video = []
texts_of (unknown k) = []

unfoldable pub all_texts : List InboundMessagePart → List String
all_texts [] = []
all_texts (p ∷ parts) = texts_of p ++ all_texts parts

abbrev pub lines_of : List String → Option String
lines_of [] = none
lines_of (t ∷ ts) = some (joined "\n" (t ∷ ts))

unfoldable pub render_inbound_prompt : InboundMessage → Option String
render_inbound_prompt m = lines_of (all_texts m.parts)
