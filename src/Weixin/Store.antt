-- ===== src/Weixin/Store.antt =====
-- The file of the state: `readUnlocked`, `writeUnlocked` and `update` of
-- extensions/weixin/src/state.ts. The codec of the schemas and the file system are libraries: the
-- codec is a parameter, and what the file system answers is an argument. A write replaces the file
-- or leaves it, as its rename does; both run under the lock.
use pipee.Base.{Bool, true, false, ◌&&◌, Option, none, some, String, Result, ok, err, if◌then◌else◌}
use pipee.Base.Text.{◌<>◌}
use pipee.Weixin.State.{BridgeState, BridgeStateV2, empty_state}

-- `StateStoreError`, by its operation.
pub data StateStoreError : Type 0 where
  encode_failed write_failed read_failed decode_failed : StateStoreError

pub record Codec : Type 0 where
  pub encode : BridgeState → Option String
  pub decode : String → Option BridgeState
  pub decode_v2 : String → Option BridgeStateV2

-- What the file system answers: the file can be read, a write reaches its rename, and the mode of
-- the file can be set after that.
pub record Disk : Type 0 where
  pub can_read : Bool
  pub can_replace : Bool
  pub can_protect : Bool

-- The file, where there is one, with the outcome of an operation.
abbrev pub Outcome : Type 0
Outcome = Result StateStoreError BridgeState × Option String

abbrev pub is_some {ℓ} : {A : Type ℓ} → Option A → Bool
is_some none = false
is_some (some a) = true

unfoldable pub migrated : BridgeStateV2 → BridgeState
migrated p = record {
  enabled = p.enabled && is_some p.binding;
  cursor = p.cursor;
  processed_message_ids = p.processed_message_ids;
  pending_image_batch = p.pending_image_batch;
  auth = p.auth;
  default_session = p.binding;
  context_token = none;
}

module _ (codec : Codec) (disk : Disk) where
  abbrev pub write_encoded : BridgeState → Option String → Option String → Outcome
  write_encoded s none file = (err encode_failed, file)
  write_encoded s (some text) file =
      if disk.can_replace
      then (if disk.can_protect then ok s else err write_failed, some (text <> "\n"))
      else (err write_failed, file)

  -- `writeUnlocked`, with the state that was written.
  unfoldable pub write_unlocked : BridgeState → Option String → Outcome
  write_unlocked s file = write_encoded s (codec.encode s) file

  abbrev pub migrate : Option BridgeStateV2 → Option String → Outcome
  migrate none file = (err decode_failed, file)
  migrate (some p) file = write_unlocked (migrated p) file

  abbrev pub decoded : Option BridgeState → String → Outcome
  decoded (some s) text = (ok s, some text)
  decoded none text = migrate (codec.decode_v2 text) (some text)

  unfoldable pub read_unlocked : Option String → Outcome
  read_unlocked none = if disk.can_read then (ok empty_state, none) else (err read_failed, none)
  read_unlocked (some text) =
      if disk.can_read then decoded (codec.decode text) text else (err read_failed, some text)

  abbrev pub update_from : (BridgeState → BridgeState) → Outcome → Outcome
  update_from f (err e, file) = (err e, file)
  update_from f (ok s, file) = write_unlocked (f s) file

  unfoldable pub update : (BridgeState → BridgeState) → Option String → Outcome
  update f file = update_from f (read_unlocked file)
