-- ===== src/Broker/Mailbox.antt =====
-- One mailbox of extensions/chrome/src/core/broker.ts. Each `SynchronizedRef.modify`, queue
-- operation and completion of a deferred is one atomic step. A command is its identifier and the
-- request that it carries; the bounds of the bridge contract are the arguments `limits`.
use pipee.Base.{
  ℕ, ◌+◌, Bool, true, false, not, ◌&&◌, Option, none, some, List, [], ◌∷◌, ◌++◌, String, str_eq,
  ltb, leb, any, length, if◌then◌else◌,
}
use pipee.Base.Dict
use pipee.Base.Text.{show, ◌<>◌}
use pipee.Base.Dict.{Dict}

pub record Limits : Type 0 where
  -- MAX_ADMITTED_COMMANDS_PER_CONNECTOR
  pub max_admitted : ℕ
  -- CONNECTOR_LEASE_DEADLINE_MS
  pub lease_deadline_ms : ℕ

pub record WireCommand : Type 0 where
  pub id : String
  pub request : String

pub record PublicConnector : Type 0 where
  pub connector_id : String
  pub extension_id : String
  pub extension_display_version : String
  pub protocol_fingerprint : String
  pub label : String

pub record ConnectorClaim : Type 0 where
  pub extension_id : String
  pub protocol_fingerprint : String

pub data Phase : Type 0 where
  queued : Phase
  executing completing : ConnectorClaim → Phase

pub record Pending : Type 0 where
  pub command : WireCommand
  pub phase : Phase

pub record Connection : Type 0 where
  pub connector : PublicConnector
  pub last_seen_at : ℕ

-- `BridgeFailure`, as far as the broker makes it, with what names its cause.
pub data BridgeFailure : Type 0 where
  bridge_stopped : BridgeFailure
  connector_offline : BridgeFailure
  connector_busy : BridgeFailure
  command_timeout : ℕ → BridgeFailure
  outcome_unknown : (command reason : String) → BridgeFailure
  -- A failure that the connector reports.
  reported : String → BridgeFailure

pub data Reply : Type 0 where
  succeeded : String → Reply
  failed : BridgeFailure → Reply

pub record Mailbox : Type 0 where
  -- The tag of `MailboxState`; a stopped state has no pending commands and no connection.
  pub active : Bool
  pub pending : Dict Pending
  pub connection : Option Connection
  pub queue : List WireCommand
  -- `Queue.shutdown`
  pub queue_open : Bool
  -- The completed deferreds, by command.
  pub replies : Dict Reply

unfoldable pub make_mailbox : Mailbox
make_mailbox = record {
  active = true;
  pending = [];
  connection = none;
  queue = [];
  queue_open = true;
  replies = [];
}

-- `Deferred.succeed` and `Deferred.fail`: the first completion wins.
unfoldable pub settle : String → Reply → Dict Reply → Dict Reply
settle id r replies = if Dict.has id replies then replies else Dict.set id r replies

abbrev pub is_queued : Phase → Bool
is_queued queued = true
is_queued (executing c) = false
is_queued (completing c) = false

abbrev pub is_busy : Pending → Bool
is_busy p = not (is_queued p.phase)

pub data Reservation : Type 0 where
  stopped offline busy reserved : Reservation

module _ (limits : Limits) where
  -- `!state.connection || now - lastSeenAt >= CONNECTOR_LEASE_DEADLINE_MS`; a clock that went back
  -- gives a negative difference, which is below the deadline.
  abbrev pub is_offline : ℕ → Option Connection → Bool
  is_offline now none = true
  is_offline now (some c) = leb (c.last_seen_at + limits.lease_deadline_ms) now

  -- The reservation of `send`.
  unfoldable pub reserve : ℕ → WireCommand → Mailbox → Reservation × Mailbox
  reserve now command m =
      if not m.active
      then (stopped, m)
      else if is_offline now m.connection
      then (offline, m)
      else if leb limits.max_admitted (Dict.size m.pending)
      then (busy, m)
      else (
        reserved,
        record m {
          pending = Dict.set command.id (record { command = command; phase = queued }) m.pending;
        },
      )

  -- `Queue.offer` on the dropping queue of that capacity.
  unfoldable pub offer : WireCommand → Mailbox → Bool × Mailbox
  offer command m =
      if m.queue_open && ltb (length m.queue) limits.max_admitted
      then (true, record m { queue = m.queue ++ command ∷ [] })
      else (false, m)

-- `rejectFailedOffer`
unfoldable pub reject_failed_offer : String → Mailbox → BridgeFailure × Mailbox
reject_failed_offer id m =
    if not m.active
    then (bridge_stopped, m)
    else (connector_busy, record m { pending = Dict.delete id m.pending })

-- `next`, before delivery: the connector is seen.
unfoldable pub connect : PublicConnector → ℕ → Mailbox → Bool × Mailbox
connect connector now m = if not m.active then (false, m) else (
  true,
  record m { connection = some (record { connector = connector; last_seen_at = now }) },
)

-- The test of `next` under the delivery permit: nothing is in flight.
unfoldable pub may_deliver : Mailbox → Bool
may_deliver m = m.active && not (any is_busy (Dict.values m.pending))

abbrev pub claim_of : PublicConnector → ConnectorClaim
claim_of c = record { extension_id = c.extension_id; protocol_fingerprint = c.protocol_fingerprint }

-- The claim of a command that was taken; `none` when it is no longer pending.
unfoldable pub claim_taken :
    PublicConnector → WireCommand → Option Pending → Mailbox → Option WireCommand × Mailbox
claim_taken connector command none m = (none, m)
claim_taken connector command (some p) m = (
  some command,
  record m {
    pending = Dict.set command.id (record p { phase = executing (claim_of connector) }) m.pending;
  },
)

-- One round of `takeActive` on an open queue that holds a command.
unfoldable pub take_head :
    PublicConnector → List WireCommand → Mailbox → Option WireCommand × Mailbox
unfolding claim_taken
take_head connector [] m = (none, m)
take_head connector (command ∷ rest) m =
    let m' : Mailbox = record m { queue = rest } in
    if not m.active
    then (none, m')
    else claim_taken connector command (Dict.get command.id m.pending) m'

unfoldable pub take_next : PublicConnector → Mailbox → Option WireCommand × Mailbox
unfolding take_head
take_next connector m = if m.queue_open then take_head connector m.queue m else (none, m)

abbrev pub claim_matches : PublicConnector → ConnectorClaim → Bool
claim_matches connector c =
    str_eq c.extension_id connector.extension_id
    && str_eq c.protocol_fingerprint connector.protocol_fingerprint

abbrev pub match_executing : PublicConnector → Phase → Option ConnectorClaim
match_executing connector (executing c) = if claim_matches connector c then some c else none
match_executing connector queued = none
match_executing connector (completing c) = none

abbrev pub completable : PublicConnector → Option Pending → Option (Pending × ConnectorClaim)
completable connector none = none
completable connector (some p) = elim (match_executing connector p.phase) [
  | none ↦ none
  | some c ↦ some (p, c)
]

pub data Completion : Type 0 where
  ignored invalid taken : Completion

-- The first part of `complete`, on the command whose claim matches: the result is checked (by the
-- operation contract, whose answer is `valid`; a failure that the connector reports needs no
-- check), and the command is completing.
unfoldable pub complete_claimed :
    PublicConnector
    → ℕ
    → String
    → Bool
    → Option (Pending × ConnectorClaim)
    → Mailbox
    → Completion × Mailbox
complete_claimed connector now id valid none m = (ignored, m)
complete_claimed connector now id valid (some (p, c)) m = if not valid then (invalid, m) else (
  taken,
  record m {
    pending = Dict.set id (record p { phase = completing c }) m.pending;
    connection = some (record { connector = connector; last_seen_at = now });
  },
)

unfoldable pub begin_complete : PublicConnector → ℕ → String → Bool → Mailbox → Completion × Mailbox
begin_complete connector now id valid m =
    if not m.active
    then (ignored, m)
    else complete_claimed connector now id valid (completable connector (Dict.get id m.pending)) m

-- `Deferred.succeed` or `Deferred.fail` of a taken result.
unfoldable pub settle_reply : String → Reply → Mailbox → Mailbox
settle_reply id r m = record m { replies = settle id r m.replies }

-- `removePending`
unfoldable pub remove_pending : String → Mailbox → Mailbox
remove_pending id m = if not m.active then m else record m { pending = Dict.delete id m.pending }

pub data Withdrawal : Type 0 where
  before_delivery unknown : Withdrawal

abbrev pub pending_queued : Option Pending → Bool
pending_queued none = false
pending_queued (some p) = is_queued p.phase

-- `withdrawQueued`
unfoldable pub withdraw_queued : String → Mailbox → Withdrawal × Mailbox
withdraw_queued id m =
    if m.active && pending_queued (Dict.get id m.pending)
    then (before_delivery, record m { pending = Dict.delete id m.pending })
    else (unknown, m)

-- `timeoutFailure`
unfoldable pub timeout_failure : String → ℕ → Withdrawal → BridgeFailure
timeout_failure id ms before_delivery = command_timeout ms
timeout_failure id ms unknown =
    outcome_unknown id ("the " <> show ms <> "ms reply deadline expired")

-- `interruptedFailure`: `none` where the interruption itself is the outcome.
unfoldable pub interrupted_failure : String → Withdrawal → Option BridgeFailure
interrupted_failure id before_delivery = none
interrupted_failure id unknown = some (outcome_unknown id "its caller cancelled the request")

-- What `stopMailbox` fails a pending command with.
abbrev pub stop_failure : Pending → BridgeFailure
stop_failure p =
    if is_queued p.phase
    then bridge_stopped
    else outcome_unknown p.command.id "the connector mailbox stopped"

-- The loop of `stopMailbox` over the pending commands.
unfoldable pub fail_all : Dict Pending → Dict Reply → Dict Reply
fail_all [] replies = replies
fail_all ((id, p) ∷ ps) replies = fail_all ps (settle id (failed (stop_failure p)) replies)

-- The commands that `stopMailbox` takes out of the state.
abbrev pub taken_out : Mailbox → Dict Pending
taken_out m = if not m.active then [] else m.pending

-- `stopMailbox`
unfoldable pub stop_mailbox : Mailbox → Mailbox
stop_mailbox m = record m {
  active = false;
  pending = [];
  connection = none;
  queue_open = false;
  queue = [];
  replies = fail_all (taken_out m) m.replies;
}

-- `commandCounts`: queued commands, and those in flight.
unfoldable pub command_counts : List Pending → ℕ × ℕ
command_counts [] = (0, 0)
command_counts (p ∷ ps) =
    let (q, f) = command_counts ps in if is_queued p.phase then (q + 1, f) else (q, f + 1)

pub record BrokerStatus : Type 0 where
  pub connected : Bool
  pub queued_commands : ℕ
  pub pending_commands : ℕ
  pub last_seen_at : Option ℕ

-- `status` of a mailbox, less the connector's own fields; a stopped one shows the empty status.
unfoldable pub status : Limits → ℕ → Mailbox → BrokerStatus
status limits now m =
    let (q, f) = command_counts (Dict.values m.pending) in
    if not m.active
    then record {
      connected = false;
      queued_commands = 0;
      pending_commands = 0;
      last_seen_at = none;
    }
    else record {
      connected = not (is_offline limits now m.connection);
      queued_commands = q;
      pending_commands = f;
      last_seen_at = elim m.connection [ none ↦ none | some c ↦ some c.last_seen_at ];
    }
