-- ===== src/Journal.antt =====
-- The command journal of the Chrome extension (extensions/chrome/src/browser/command-journal.ts),
-- in which the last command and its result outlive the worker that runs it. The contract of the
-- operations and the JSON transport are parameters; what the storage of the browser and the
-- computation of the protocol fingerprint answer is an argument. A stored value is what the schema
-- decoders make of it, and a value that is written is read back by them: where an identifier is
-- blank they refuse it. The other fields of commands and results have passed their schemas.
pub mod Loads
pub mod Records
pub mod Turns
pub mod Delivered
mod Tests
use pipee.Base.{
  Bool, true, false, not, ◌||◌, Option, none, some, String, if◌then◌else◌, str_eq, all,
}
use pipee.Base.Text.{codes}
use pipee.Loop.Cron.Parse.{is_space}

-- The error of a failed result: `CommandOutcomeUnknown` with its cause, or another, by its tag.
pub data WireError : Type 0 where
  outcome_unknown : (cause : String) → WireError
  other_error : (tag : String) → WireError

pub record WireCommand (Operation : Type 0) : Type 0 where
  pub id : String
  pub operation : Operation

pub data Outcome (Value : Type 0) : Type 0 where
  succeeded : Value → Outcome Value
  failed : WireError → Outcome Value

pub record WireResult (Value : Type 0) : Type 0 where
  pub id : String
  pub outcome : Outcome Value

-- A payload as its schema decodes it, or one that it refuses.
pub data Payload (Operation Value : Type 0) : Type 0 where
  executing : WireCommand Operation → Payload Operation Value
  current : WireCommand Operation → WireResult Value → Payload Operation Value
  recovered : WireResult Value → Payload Operation Value
  undecodable : Payload Operation Value

pub data JournalState : Type 0 where
  is_executing is_result : JournalState

-- `StableJournalEnvelope`, of version 1.
pub record Envelope (Operation Value : Type 0) : Type 0 where
  pub protocol_fingerprint : String
  pub command_id : String
  pub state : JournalState
  pub payload : Payload Operation Value

-- A stored value: without a command identifier, with one but no envelope, or an envelope.
pub data Stored (Operation Value : Type 0) : Type 0 where
  nameless : Stored Operation Value
  misshaped : (command_id : String) → Stored Operation Value
  entry : Envelope Operation Value → Stored Operation Value

-- What an operation ends with; a load may find nothing.
pub data JournalOutcome (Value : Type 0) : Type 0 where
  done : JournalOutcome Value
  result_of : WireResult Value → JournalOutcome Value
  journal_failed : JournalOutcome Value

-- What the browser answers: the storage is read, is written, and the fingerprint of the protocol.
pub record Host : Type 0 where
  pub reads : Bool
  pub saves : Bool
  pub fingerprint : Option String

-- The state `result` decodes one of two payloads, the state `executing` the other one.
abbrev pub is_running : {Operation Value : Type 0} → String → Payload Operation Value → Bool
is_running id (executing c) = str_eq c.id id
is_running id (current c r) = false
is_running id (recovered r) = false
is_running id undecodable = false

abbrev pub is_outcome_unknown : {Value : Type 0} → Outcome Value → Bool
is_outcome_unknown (succeeded v) = false
is_outcome_unknown (failed (outcome_unknown cause)) = true
is_outcome_unknown (failed (other_error tag)) = false

abbrev pub outcome_unknown_for : {Value : Type 0} → String → String → WireResult Value
outcome_unknown_for id reason = record { id = id; outcome = failed (outcome_unknown reason) }

-- `NonBlankString` refuses it: nothing in it matches `\S`.
unfoldable pub is_blank : String → Bool
is_blank s = all is_space (codes s)

-- What a later load decodes of a payload that was written.
abbrev pub read_back :
    {Operation Value : Type 0} → Payload Operation Value → Payload Operation Value
read_back (executing c) = if is_blank c.id then undecodable else executing c
read_back (current c r) = if is_blank c.id || is_blank r.id then undecodable else current c r
read_back (recovered r) = if is_blank r.id then undecodable else recovered r
read_back undecodable = undecodable

-- What a later load decodes of an envelope that was written; an empty identifier is none.
abbrev pub written : {Operation Value : Type 0} → Envelope Operation Value → Stored Operation Value
written e =
    if str_eq e.command_id "" then nameless else entry (record e { payload = read_back e.payload })

module _ {Operation Value : Type 0} (validate : Operation → Value → Option Value)
    (transport : WireResult Value → Option (WireResult Value)) (host : Host) where
  abbrev pub Journal : Type 0
  Journal = JournalOutcome Value × Option (Stored Operation Value)

  -- `persist`, and what it answers then.
  abbrev pub persist :
      Envelope Operation Value → JournalOutcome Value → Option (Stored Operation Value) → Journal
  persist e answer storage =
      if host.saves then (answer, some (written e)) else (journal_failed, storage)

  unfoldable pub recover : String → String → String → Option (Stored Operation Value) → Journal
  recover id fingerprint reason storage =
      let result = outcome_unknown_for id reason in
      persist
        (record {
          protocol_fingerprint = fingerprint;
          command_id = id;
          state = is_result;
          payload = recovered result;
        })
        (result_of result) storage

  -- A success is valid for its command, or the outcome counts as unknown.
  abbrev pub load_success :
      String → String → WireResult Value → Option Value → Option (Stored Operation Value) → Journal
  load_success id fingerprint r none storage =
      recover id fingerprint "successful journal result does not match its command contract" storage
  load_success id fingerprint r (some v) storage =
      (result_of (record r { outcome = succeeded v }), storage)

  abbrev pub load_outcome :
      String
      → String
      → WireCommand Operation
      → WireResult Value
      → Outcome Value
      → Option (Stored Operation Value)
      → Journal
  load_outcome id fingerprint c r (failed e) storage = (result_of r, storage)
  load_outcome id fingerprint c r (succeeded v) storage =
      load_success id fingerprint r (validate c.operation v) storage

  -- `loadCurrentResult`
  unfoldable pub load_current_result :
      String → String → Payload Operation Value → Option (Stored Operation Value) → Journal
  load_current_result id fingerprint (executing c) storage =
      recover id fingerprint "current result payload could not be decoded" storage
  load_current_result id fingerprint undecodable storage =
      recover id fingerprint "current result payload could not be decoded" storage
  load_current_result id fingerprint (recovered r) storage =
      if not (str_eq r.id id)
      then recover id fingerprint "journal envelope and result ids disagree" storage
      else if not (is_outcome_unknown r.outcome)
      then recover id fingerprint "recovered journal payload was not an outcome-unknown result"
          storage
      else (result_of r, storage)
  load_current_result id fingerprint (current c r) storage =
      if not (str_eq r.id id)
      then recover id fingerprint "journal envelope and result ids disagree" storage
      else if not (str_eq c.id id)
      then recover id fingerprint "journal envelope and command ids disagree" storage
      else load_outcome id fingerprint c r r.outcome storage

  abbrev pub load_state :
      String → Envelope Operation Value → JournalState → Option (Stored Operation Value) → Journal
  load_state fingerprint e is_executing storage =
      if is_running e.command_id e.payload
      then recover e.command_id fingerprint "MV3 worker stopped during command execution" storage
      else recover e.command_id fingerprint "executing journal payload is invalid" storage
  load_state fingerprint e is_result storage =
      load_current_result e.command_id fingerprint e.payload storage

  unfoldable pub load_stored : String → Stored Operation Value → Journal
  load_stored fingerprint nameless =
      if host.saves then (done, none) else (journal_failed, some nameless)
  load_stored fingerprint (misshaped id) =
      recover id fingerprint "stable journal envelope is invalid" (some (misshaped id))
  load_stored fingerprint (entry e) =
      if not (str_eq e.protocol_fingerprint fingerprint)
      then recover e.command_id fingerprint "journal protocol fingerprint changed" (some (entry e))
      else load_state fingerprint e e.state (some (entry e))

  abbrev pub load_value : Option String → Option (Stored Operation Value) → Journal
  load_value fingerprint none = (done, none)
  load_value none (some x) = (journal_failed, some x)
  load_value (some fingerprint) (some x) = load_stored fingerprint x

  -- `loadCommandJournal`
  unfoldable pub load_command_journal : Option (Stored Operation Value) → Journal
  load_command_journal storage =
      if host.reads then load_value host.fingerprint storage else (journal_failed, storage)

  abbrev pub record_entry :
      WireCommand Operation
      → JournalState
      → Payload Operation Value
      → Option String
      → Option (Stored Operation Value)
      → Journal
  record_entry c state payload none storage = (journal_failed, storage)
  record_entry c state payload (some fingerprint) storage =
      persist
        (record {
          protocol_fingerprint = fingerprint;
          command_id = c.id;
          state = state;
          payload = payload;
        })
        done storage

  unfoldable pub record_command_executing :
      WireCommand Operation → Option (Stored Operation Value) → Journal
  record_command_executing c storage =
      record_entry c is_executing (executing c) host.fingerprint storage

  abbrev pub valid_result :
      WireCommand Operation → WireResult Value → Option Value → WireResult Value
  valid_result c r none =
      outcome_unknown_for c.id "successful browser result violated its operation or JSON contract"
  valid_result c r (some v) = record r { outcome = succeeded v }

  -- `resultForCommand`, for a result of the command.
  abbrev pub result_for :
      WireCommand Operation → WireResult Value → Outcome Value → WireResult Value
  result_for c r (failed e) = r
  result_for c r (succeeded v) = valid_result c r (validate c.operation v)

  abbrev pub transported : String → Option (WireResult Value) → WireResult Value
  transported id none = outcome_unknown_for id "the result is not safe for the JSON transport"
  transported id (some r) = r

  unfoldable pub record_command_result :
      WireCommand Operation → WireResult Value → Option (Stored Operation Value) → Journal
  record_command_result c r storage =
      if not (str_eq r.id c.id)
      then (journal_failed, storage)
      else record_entry c is_result
          (current c (transported c.id (transport (result_for c r r.outcome)))) host.fingerprint
          storage

  -- `clearCommandJournal`
  unfoldable pub clear_command_journal : Option (Stored Operation Value) → Journal
  clear_command_journal storage = if host.saves then (done, none) else (journal_failed, storage)
