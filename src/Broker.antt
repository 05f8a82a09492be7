-- ===== src/Broker.antt =====
-- The command broker of the Chrome bridge (extensions/chrome/src/core/broker.ts): a mailbox for
-- each connector, which admits commands, hands them to the connector one at a time, and settles
-- their replies. `Broker/Mailbox` has one mailbox and its atomic steps, `Broker/Steps` the steps
-- as events in any order. `Broker/Flight`, on `Broker/InFlight`, is on how many commands are held
-- and in flight, `Broker/Ledger`, on `Broker/Copies`, on how often a command is delivered, and
-- `Broker/Stop` on the stop of a mailbox. `Broker/Registry` has the map of mailboxes.
pub mod Mailbox
pub mod Steps
pub mod InFlight
pub mod Flight
pub mod Copies
pub mod Ledger
pub mod Stop
pub mod Registry
pub mod View
mod Tests
