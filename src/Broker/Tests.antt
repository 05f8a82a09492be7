-- ===== src/Broker/Tests.antt =====
-- Runs of the broker at concrete inputs.
use pipee.Base.{◌≡◌, ◌≤◌, refl, true, none, some, List, [], ◌∷◌}
use pipee.Base.Dict
use pipee.Broker.Mailbox.{
  Limits, WireCommand, PublicConnector, Mailbox, queued, executing, failed, outcome_unknown,
  make_mailbox, reserve, offer, connect, may_deliver, take_next, take_head, claim_taken,
  begin_complete, complete_claimed, settle_reply, settle, remove_pending, withdraw_queued,
  succeeded,
}
use pipee.Broker.Steps.{
  Event, Trace, free, reserves, offers, connects, enters, takes, leaves, completes, settles,
  removes, withdraws, stops, extract, step, run, start,
}
use pipee.Broker.Flight.{IsBounded, run-IsBounded}
use pipee.Broker.Copies.{occurs}
use pipee.Broker.Ledger.{delivered_once, withdrawn-undelivered}
use pipee.Broker.Stop.{stop-settles}
use pipee.Broker.View.{Call, registers, drops, calls, call, view, view_calls, view-calls}
use pipee.Broker.Registry.{make, register, drop, lookup}

-- The bounds of the bridge contract.
abbrev contract : Limits
contract = record { max_admitted = 64; lease_deadline_ms = 35000 }

abbrev tab : PublicConnector
tab = record {
  connector_id = "c";
  extension_id = "e";
  extension_display_version = "1";
  protocol_fingerprint = "p";
  label = "desk";
}

abbrev first : WireCommand
first = record { id = "a"; request = "click" }

abbrev second : WireCommand
second = record { id = "b"; request = "read" }

-- Two commands are sent; the first is delivered and answered, the second withdrawn in the queue.
abbrev morning : List Event
morning =
    connects tab 0
    ∷ reserves 1 first
    ∷ offers "a"
    ∷ reserves 2 second
    ∷ offers "b"
    ∷ enters tab
    ∷ takes
    ∷ withdraws "b"
    ∷ completes tab 5 "a" true
    ∷ settles "a" (succeeded "done")
    ∷ removes "a"
    ∷ leaves
    ∷ enters tab
    ∷ takes
    ∷ []

morning_delivers : (run contract morning start).delivered ≡ "a" ∷ []
unfolding run step start make_mailbox reserve offer connect may_deliver take_next take_head
    claim_taken begin_complete complete_claimed settle_reply settle remove_pending withdraw_queued
    extract Dict.get Dict.set Dict.delete Dict.has
morning_delivers = refl

-- The second is not delivered while the first is in flight.
one_at_a_time :
    (run contract
      (connects tab 0
        ∷ reserves 1 first
        ∷ offers "a"
        ∷ reserves 2 second
        ∷ offers "b"
        ∷ enters tab
        ∷ takes
        ∷ leaves
        ∷ enters tab
        ∷ takes
        ∷ [])
      start).delivered
    ≡ "a" ∷ []
unfolding run step start make_mailbox reserve offer connect may_deliver take_next take_head
    claim_taken extract Dict.get Dict.set Dict.has
one_at_a_time = refl

run-IsBounded_example : IsBounded contract (run contract morning start)
run-IsBounded_example = run-IsBounded contract morning

delivered_once_example : occurs "a" (run contract morning start).delivered ≤ 1
delivered_once_example = delivered_once "a" contract morning

withdrawn-undelivered_example : occurs "b" (run contract morning start).delivered ≡ 0
unfolding run step start make_mailbox reserve offer connect may_deliver take_next take_head
    claim_taken begin_complete complete_claimed settle_reply settle remove_pending withdraw_queued
    extract Dict.get Dict.set Dict.delete Dict.has
withdrawn-undelivered_example = withdrawn-undelivered "b" contract morning refl

abbrev in_use : Mailbox
in_use = record {
  active = true;
  pending =
      (
        "a",
        record {
          command = first;
          phase = executing (record { extension_id = "e"; protocol_fingerprint = "p" });
        },
      )
      ∷ ("b", record { command = second; phase = queued })
      ∷ [];
  connection = none;
  queue = second ∷ [];
  queue_open = true;
  replies = [];
}

-- "a" is with the connector and "b" is queued when the mailbox is stopped.
abbrev busy_trace : Trace
busy_trace = record {
  mailbox = in_use;
  permit = free;
  unoffered = [];
  issued = "b" ∷ "a" ∷ [];
  delivered = "a" ∷ [];
  withdrawn = [];
}

stop-settles_example :
    let u =
      run contract (stops ∷ enters tab ∷ takes ∷ settles "a" (succeeded "late") ∷ []) busy_trace in
    (Dict.get "a" u.mailbox.replies
      ≡ some (failed (outcome_unknown "a" "the connector mailbox stopped")))
    × (u.issued ≡ "b" ∷ "a" ∷ [])
    × (u.delivered ≡ "a" ∷ [])
    × (u.withdrawn ≡ [])
unfolding Dict.get
stop-settles_example =
    stop-settles contract "a" (failed (outcome_unknown "a" "the connector mailbox stopped"))
      (enters tab ∷ takes ∷ settles "a" (succeeded "late") ∷ []) busy_trace refl refl

-- A connector that registers twice, one that is dropped, and the stop.
abbrev lifetimes : List Call
lifetimes = registers "c" ∷ registers "d" ∷ registers "c" ∷ drops "d" ∷ []

view-calls_example :
    (lookup "d" (calls lifetimes make) ≡ (view_calls lifetimes (view make)).1 "d")
    × ((calls lifetimes make).active ≡ (view_calls lifetimes (view make)).0)
view-calls_example = view-calls lifetimes make "d"

lifetimes_end : lookup "d" (calls lifetimes make) ≡ none
unfolding lookup make calls call register drop Dict.get Dict.set Dict.has Dict.delete
lifetimes_end = refl
