-- ===== src/Broker/Steps.antt =====
-- The steps of a mailbox's clients, as events that may come in any order. Beside the mailbox the
-- state has what the fibers hold: who has the delivery permit, and which reserved commands are
-- still to be offered. `issued`, `delivered` and `withdrawn` record what was handed out.
use pipee.Base.{
  ℕ, Bool, true, false, Option, none, some, List, [], ◌∷◌, String, str_eq, if◌then◌else◌,
}
use pipee.Broker.Mailbox.{
  Limits, WireCommand, PublicConnector, Mailbox, Reply, Reservation, stopped, offline, busy,
  reserved, Withdrawal, before_delivery, unknown, make_mailbox, reserve, offer, connect,
  may_deliver, take_next, begin_complete, settle_reply, remove_pending, withdraw_queued,
  stop_mailbox,
}

-- The delivery permit: free, with a `next` that waits for a command, or with one whose race has
-- ended but which has not given it back.
pub data Permit : Type 0 where
  free : Permit
  waiting : PublicConnector → Permit
  ended : Permit

pub record Trace : Type 0 where
  pub mailbox : Mailbox
  pub permit : Permit
  pub unoffered : List WireCommand
  pub issued : List String
  pub delivered : List String
  pub withdrawn : List String

pub data Event : Type 0 where
  -- `send` reserves, under a new random identifier.
  reserves : ℕ → WireCommand → Event
  -- `send` offers a command that it reserved.
  offers : String → Event
  -- `next` announces its connector, and asks for the delivery permit.
  connects : PublicConnector → ℕ → Event
  enters : PublicConnector → Event
  -- The holder of the permit takes from the queue, which ends its wait if it claims a command, or
  -- the stop or the deadline ends it; then the permit is given back.
  takes gives_up leaves : Event
  completes : PublicConnector → ℕ → String → Bool → Event
  settles : String → Reply → Event
  -- The end of a `send`, of a rejected offer, and of `complete`.
  removes : String → Event
  -- A reply deadline or an interruption.
  withdraws : String → Event
  stops : Event

abbrev pub mem : String → List String → Bool
mem i [] = false
mem i (j ∷ js) = if str_eq j i then true else mem i js

unfoldable pub extract : String → List WireCommand → Option WireCommand × List WireCommand
extract id [] = (none, [])
extract id (c ∷ cs) =
    let (found, rest) = extract id cs in if str_eq c.id id then (some c, cs) else (found, c ∷ rest)

abbrev pub after_reserve : WireCommand → Reservation × Mailbox → Trace → Trace
after_reserve c (reserved, m) t = record t {
  mailbox = m;
  unoffered = c ∷ t.unoffered;
  issued = c.id ∷ t.issued;
}
after_reserve c (stopped, m) t = t
after_reserve c (offline, m) t = t
after_reserve c (busy, m) t = t

abbrev pub after_take : Option WireCommand × Mailbox → Trace → Trace
after_take (none, m) t = record t { mailbox = m }
after_take (some c, m) t = record t { mailbox = m; permit = ended; delivered = c.id ∷ t.delivered }

abbrev pub after_offer : Option WireCommand → List WireCommand → Limits → Trace → Trace
after_offer none rest limits t = t
after_offer (some c) rest limits t = record t {
  mailbox = (offer limits c t.mailbox).1;
  unoffered = rest;
}

abbrev pub after_withdraw : String → Withdrawal × Mailbox → Trace → Trace
after_withdraw id (before_delivery, m) t = record t { mailbox = m; withdrawn = id ∷ t.withdrawn }
after_withdraw id (unknown, m) t = t

abbrev pub take_with : Permit → Trace → Trace
take_with free t = t
take_with ended t = t
take_with (waiting connector) t = after_take (take_next connector t.mailbox) t

abbrev pub enter_with : Permit → PublicConnector → Trace → Trace
enter_with (waiting holder) connector t = t
enter_with ended connector t = t
enter_with free connector t =
    if may_deliver t.mailbox then record t { permit = waiting connector } else t

-- The wait of the holder ends without a command.
abbrev pub give_up : Permit → Permit
give_up free = free
give_up ended = ended
give_up (waiting connector) = ended

-- The permit is given back, once the wait is over.
abbrev pub release : Permit → Permit
release free = free
release ended = free
release (waiting connector) = waiting connector

unfoldable pub step : Limits → Event → Trace → Trace
step limits (reserves now c) t =
    if mem c.id t.issued then t else after_reserve c (reserve limits now c t.mailbox) t
step limits (offers id) t =
    let (found, rest) = extract id t.unoffered in after_offer found rest limits t
step limits (connects connector now) t = record t { mailbox = (connect connector now t.mailbox).1 }
step limits (enters connector) t = enter_with t.permit connector t
step limits takes t = take_with t.permit t
step limits gives_up t = record t { permit = give_up t.permit }
step limits leaves t = record t { permit = release t.permit }
step limits (completes connector now id valid) t = record t {
  mailbox = (begin_complete connector now id valid t.mailbox).1;
}
step limits (settles id r) t = record t { mailbox = settle_reply id r t.mailbox }
step limits (removes id) t = record t { mailbox = remove_pending id t.mailbox }
step limits (withdraws id) t = after_withdraw id (withdraw_queued id t.mailbox) t
step limits stops t = record t { mailbox = stop_mailbox t.mailbox }

unfoldable pub run : Limits → List Event → Trace → Trace
run limits [] t = t
run limits (e ∷ es) t = run limits es (step limits e t)

unfoldable pub start : Trace
unfolding make_mailbox
start = record {
  mailbox = make_mailbox;
  permit = free;
  unoffered = [];
  issued = [];
  delivered = [];
  withdrawn = [];
}
