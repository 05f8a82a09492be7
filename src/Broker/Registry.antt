-- ===== src/Broker/Registry.antt =====
-- The mailboxes of `CommandBroker` (extensions/chrome/src/core/broker.ts), by connector.
use pipee.Base.{
  ◌≡◌, Bool, true, false, not, Option, none, some, List, [], ◌∷◌, String, str_eq, eq_iff, arith,
  if◌then◌else◌,
}
use pipee.Base.Dict
use pipee.Base.Dict.{Dict}
use pipee.Broker.Mailbox.{Mailbox, make_mailbox, stop_mailbox}

-- A stopped broker has no mailboxes; one that was dropped, or stopped with the broker, goes on in
-- `retired`, where the requests that hold it still see it.
pub record Broker : Type 0 where
  pub active : Bool
  pub mailboxes : Dict Mailbox
  pub retired : List Mailbox

unfoldable pub make : Broker
make = record { active = true; mailboxes = []; retired = [] }

unfoldable pub register : String → Broker → Broker
register connector b =
    if not b.active
    then b
    else if Dict.has connector b.mailboxes
    then b
    else record b { mailboxes = Dict.set connector make_mailbox b.mailboxes }

abbrev pub drop_found : String → Option Mailbox → Broker → Broker
drop_found connector none b = b
drop_found connector (some m) b = record b {
  mailboxes = Dict.delete connector b.mailboxes;
  retired = stop_mailbox m ∷ b.retired;
}

unfoldable pub drop : String → Broker → Broker
drop connector b =
    if not b.active then b else drop_found connector (Dict.get connector b.mailboxes) b

unfoldable pub stop_all : Dict Mailbox → List Mailbox → List Mailbox
stop_all [] retired = retired
stop_all ((connector, m) ∷ ms) retired = stop_all ms (stop_mailbox m ∷ retired)

unfoldable pub stop : Broker → Broker
stop b =
    if not b.active
    then b
    else record { active = false; mailboxes = []; retired = stop_all b.mailboxes b.retired }

-- The mailbox that `send`, `next`, `complete` and `status` find.
unfoldable pub lookup : String → Broker → Option Mailbox
lookup connector b = if not b.active then none else Dict.get connector b.mailboxes

-- Registration is idempotent, keeps a mailbox that is there, and touches no other connector.
pub lookup-register :
    (c d : String) (b : Broker)
    → b.active ≡ true
    → lookup d (register c b) ≡ (
        if str_eq c d
        then elim (lookup c b) [ none ↦ some make_mailbox | some m ↦ some m ]
        else lookup d b)
unfolding lookup register Dict.has
lookup-register c d b live =
    grind (arith, live, Dict.get-set c d make_mailbox b.mailboxes, eq_iff c d)

-- A dropped connector is not found, and no other is touched.
pub lookup-drop :
    (c d : String) (b : Broker) → lookup d (drop c b) ≡ (if str_eq c d then none else lookup d b)
unfolding lookup drop
lookup-drop c d b = grind (arith, Dict.get-delete c d b.mailboxes, eq_iff c d)
