-- ===== src/Weixin/Tests.antt =====
-- Runs of the bridge state, its file, its messages and its routes at concrete inputs.
use pipee.Base.{
  ◌≡◌, refl, ap, sym, ◌∙◌, Bool, true, false, ◌&&◌, Option, none, some, List, [], ◌∷◌, String,
  arith, All, ok, str_eq, eq_iff, if◌then◌else◌,
}
use pipee.Base.Text.{◌<>◌}
use pipee.Weixin.State.{
  BridgeState, PendingImageBatch, WeixinAuth, SessionTarget, empty_state, InboundImages, IlinkImage,
  Change, transitions, marks_processed, collect_images, flush_images, complete_images,
  dispatch_images, dispatch_images, sets_enabled, change, changes, Batch, dispatching,
  transition_inbound, with_processed, append_batch, begin_collected_dispatch,
}
use pipee.Weixin.Store.{Codec, Disk, read_unlocked, update, write_unlocked}
use pipee.Weixin.Routes.{
  OutboundRoute, record_route, insert_or_ignore, record_all, select_session, recorded, conflict,
  record-resolves,
}
use pipee.Weixin.Message.{
  IlinkItem, parse_inbound_message, render_inbound_prompt, part_of, parts_of, non_empty_text,
  quote_of, referenced_text, all_texts, joined, first_reference,
}
use pipee.Weixin.Split.{split_text_reply, join, IsFit, join-split_text_reply}
use pipee.Weixin.Invariant.{IsSound, changes-IsSound}
use pipee.Weixin.Delivery.{dispatched-stays}
use pipee.Weixin.Durable.{RoundTrips, update_lasts}

-- In place of the hash, the messages put together.
abbrev named : List String → String
named [] = "batch"
named (id ∷ ids) = id <> "," <> named ids

abbrev picture : IlinkImage
picture = record { media = none; aeskey = some "key" }

abbrev sent : String → InboundImages
sent id = record {
  session_id = "s";
  user_id = "u";
  message_id = id;
  images = picture ∷ [];
  context_token = "t";
}

-- A message comes twice, another one comes, and the batch goes out.
abbrev album : List Change
album =
    transitions (collect_images (sent "a") 10)
    ∷ transitions (collect_images (sent "a") 20)
    ∷ transitions (collect_images (sent "b") 30)
    ∷ transitions flush_images
    ∷ marks_processed "c"
    ∷ []

changes-IsSound_example : IsSound named 2 "a" (changes named 2 empty_state album)
changes-IsSound_example =
    changes-IsSound named 2 "a" (omega arith) empty_state album (omega arith, omega arith, tt)

abbrev album_batch : Batch
album_batch = record {
  session_id = "s";
  user_id = "u";
  message_ids = "a" ∷ "b" ∷ [];
  images = picture ∷ picture ∷ [];
  context_token = "t";
}

album_goes_out : changes named 2 empty_state album ≡ record empty_state {
  processed_message_ids = "b" ∷ "c" ∷ [];
  pending_image_batch = some (dispatching album_batch "a,b,batch" "请分析这些图片。");
}
unfolding changes change transition_inbound with_processed append_batch begin_collected_dispatch
album_goes_out = refl

abbrev busy : BridgeState
busy = record empty_state {
  pending_image_batch = some (dispatching album_batch "a,b,batch" "look");
}

abbrev meanwhile : List Change
meanwhile =
    transitions (collect_images (sent "d") 40)
    ∷ transitions (complete_images "other")
    ∷ sets_enabled true
    ∷ []

dispatched-stays_example :
    let t = changes named 2 busy meanwhile in
    (t.pending_image_batch ≡ some (dispatching album_batch "a,b,batch" "look"))
    × (transition_inbound named 2 t (dispatch_images (sent "e") "see") ≡ t)
    × (change named 2 t (transitions (complete_images "a,b,batch"))
        ≡ record t { pending_image_batch = none })
dispatched-stays_example =
    dispatched-stays named 2 album_batch "a,b,batch" "look" busy meanwhile
      (dispatch_images (sent "e") "see") refl refl refl

join-split_text_reply_example :
    (join (split_text_reply "hello") ≡ "hello") × All IsFit (split_text_reply "hello")
join-split_text_reply_example = join-split_text_reply "hello"

-- A codec for the states that have nothing but the switch.
abbrev is_bare :
    List String
    → Option PendingImageBatch
    → Option WeixinAuth
    → Option SessionTarget
    → Option String
    → Bool
is_bare [] none none none none = true
is_bare ids pending auth target token = false

abbrev is_plain : BridgeState → Bool
is_plain s =
    str_eq s.cursor ""
    && is_bare s.processed_message_ids s.pending_image_batch s.auth s.default_session
        s.context_token

abbrev switch_text : Bool → String
switch_text true = "on"
switch_text false = "idle"

abbrev plain : Codec
plain = record {
  encode = λ s. if is_plain s then some (switch_text s.enabled) else none;
  decode = λ t.
      (if str_eq t "idle\n"
        then some empty_state
        else if str_eq t "on\n"
        then some (record empty_state { enabled = true })
        else none);
  decode_v2 = λ t. none;
}

plain_encodes :
    (s : BridgeState) (t : String)
    → plain.encode s ≡ some t
    → (t ≡ switch_text s.enabled) × (s ≡ record empty_state { enabled = s.enabled })
plain_encodes s t e = ground (arith, e, eq_iff s.cursor "")

plain_decodes :
    (b : Bool) → plain.decode (switch_text b <> "\n") ≡ some (record empty_state { enabled = b })
plain_decodes true = refl
plain_decodes false = refl

plain-RoundTrips : RoundTrips plain
plain-RoundTrips s t e =
    let h = plain_encodes s t e in
    ap (λ u. plain.decode (u <> "\n")) h.0 ∙ plain_decodes s.enabled ∙ ap some (sym h.1)

abbrev good : Disk
good = record { can_read = true; can_replace = true; can_protect = true }

abbrev on : BridgeState
on = record empty_state { enabled = true }

updated : update plain good (λ s. record s { enabled = true }) none ≡ (ok on, some "on\n")
unfolding update read_unlocked write_unlocked
updated = refl

update_lasts_example :
    (read_unlocked plain good (some "on\n") ≡ (ok on, some "on\n"))
    × ((update plain
          (record good { can_replace = false })
          (λ s. record s { enabled = true })
          none).1
        ≡ none)
update_lasts_example =
    update_lasts plain plain-RoundTrips good good (λ s. record s { enabled = true }) none
      (some "on\n") on updated refl

abbrev route : OutboundRoute
route = record {
  account_id = "a";
  server_message_id = "m";
  source_session_id = "s";
  client_id = "c";
  created_at = 1;
}

abbrev other_route : OutboundRoute
other_route = record route { source_session_id = "other"; client_id = "d" }

record-resolves_example :
    let u = record_all ((true, true, other_route) ∷ []) (record_route true false route []).1 in
    (record_route true true route [] ≡ (recorded, route ∷ []))
    × (select_session "a" "m" u ≡ some "s")
    × (record_route true true route u ≡ (recorded, u))
    × (record_route true true other_route u ≡ (conflict "s", u))
record-resolves_example =
    record-resolves false route [] ((true, true, other_route) ∷ []) "other" "d" refl refl

-- A second session cannot take the message.
taken : record_route true true other_route (route ∷ []) ≡ (conflict "s", route ∷ [])
unfolding record_route select_session insert_or_ignore
taken = refl

abbrev quoting : IlinkItem
quoting = record {
  kind = some 1;
  text_item = some (record { text = some "yes" });
  image_item = none;
  voice_item = none;
  ref_msg = some (record {
    title = some "plan";
    message_item = some (record {
      msg_id = some "m";
      kind = some 1;
      text_item = some (record { text = some "go?" });
      voice_item = none;
    });
  });
}

quoted_prompt :
    render_inbound_prompt (parse_inbound_message (λ t. t) (quoting ∷ []))
    ≡ some "[引用: plan | go?]\nyes"
unfolding render_inbound_prompt parse_inbound_message part_of parts_of non_empty_text quote_of
    referenced_text all_texts joined first_reference
quoted_prompt = refl
