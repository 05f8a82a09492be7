-- ===== src/Loop/Cron.antt =====
-- extensions/loop/src/domain/cron.ts: cron fields, matching, and the search for the next instant.
-- `Cron/Parse` reads the fields of an expression; `Cron/Instant` searches the minutes.
pub mod Parse
pub mod Instant
pub mod Forms
pub mod Values
pub mod Search
pub mod Days
pub mod Phrases
mod Tests
