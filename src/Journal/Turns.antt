-- ===== src/Journal/Turns.antt =====
-- The turns of the connector (extensions/chrome/src/browser/connector-runtime-step.ts): the result
-- in the journal is delivered, or else a command is received, executed and recorded. The worker of
-- the extension may stop during the execution, after which the next turn starts from the storage.
use pipee.Base.{Bool, Option, none, some, List, [], ◌∷◌, ◌++◌, String, if◌then◌else◌}
use pipee.Journal.{
  WireCommand, WireResult, succeeded, failed, outcome_unknown, other_error, Stored, JournalOutcome,
  done, result_of, journal_failed, Host, load_command_journal, record_command_executing,
  record_command_result, clear_command_journal,
}

-- What the dispatch of a command to the browser comes to.
pub data Dispatched (Value : Type 0) : Type 0 where
  rejected : Dispatched Value
  left_unknown : (message : String) → Dispatched Value
  returned : Value → Dispatched Value

-- What the surroundings answer in one turn. The storage may answer otherwise once the command has
-- been executed; a worker that stops in the execution records nothing.
pub record Turn (Operation Value : Type 0) : Type 0 where
  pub connects : Bool
  pub host : Host
  pub delivers : Bool
  pub received : Option (WireCommand Operation)
  pub stops : Bool
  pub dispatched : Dispatched Value
  pub later_host : Host

-- The storage, the identifiers of the executed commands and the results that were delivered.
pub record World (Operation Value : Type 0) : Type 0 where
  pub storage : Option (Stored Operation Value)
  pub executed : List String
  pub delivered : List (WireResult Value)

module _ {Operation Value : Type 0} (validate : Operation → Value → Option Value)
    (transport : WireResult Value → Option (WireResult Value)) where
  abbrev pub settle_value : String → Option Value → WireResult Value
  settle_value id none = record {
    id = id;
    outcome = failed (outcome_unknown "the operation returned a value outside its result contract");
  }
  settle_value id (some v) = record { id = id; outcome = succeeded v }

  -- `settleBrowserCommand`
  unfoldable pub settle_browser_command :
      WireCommand Operation → Dispatched Value → WireResult Value
  settle_browser_command c rejected = record {
    id = c.id;
    outcome = failed (other_error "CommandRejected");
  }
  settle_browser_command c (left_unknown message) = record {
    id = c.id;
    outcome = failed (outcome_unknown message);
  }
  settle_browser_command c (returned v) = settle_value c.id (validate c.operation v)

  abbrev pub stored :
      World Operation Value → Option (Stored Operation Value) → World Operation Value
  stored w storage = record w { storage = storage }

  -- From the record of the execution on.
  abbrev pub execute :
      Turn Operation Value
      → WireCommand Operation
      → World Operation Value
      → JournalOutcome Value × Option (Stored Operation Value)
      → World Operation Value
  execute t c w (journal_failed, storage) = stored w storage
  execute t c w (result_of r, storage) = stored w storage
  execute t c w (done, storage) = record w {
    executed = w.executed ++ c.id ∷ [];
    storage =
        (if t.stops
          then storage
          else (record_command_result validate transport t.later_host c
              (settle_browser_command c t.dispatched) storage).1);
  }

  abbrev pub receive :
      Turn Operation Value
      → Option (WireCommand Operation)
      → World Operation Value
      → World Operation Value
  receive t none w = w
  receive t (some c) w =
      execute t c w (record_command_executing validate transport t.host c w.storage)

  abbrev pub proceed :
      Turn Operation Value
      → World Operation Value
      → JournalOutcome Value × Option (Stored Operation Value)
      → World Operation Value
  proceed t w (journal_failed, storage) = stored w storage
  proceed t w (result_of r, storage) =
      if t.delivers
      then record w {
        delivered = w.delivered ++ r ∷ [];
        storage = (clear_command_journal validate transport t.host storage).1;
      }
      else stored w storage
  proceed t w (done, storage) = receive t t.received (stored w storage)

  -- `connectorRuntimeStep`
  unfoldable pub connector_runtime_step :
      Turn Operation Value → World Operation Value → World Operation Value
  connector_runtime_step t w =
      if t.connects
      then proceed t w (load_command_journal validate transport t.host w.storage)
      else w
