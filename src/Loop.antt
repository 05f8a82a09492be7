-- ===== src/Loop.antt =====
-- The pi-loop extension: durable scheduled and dynamic session automation (extensions/loop/src).
pub mod Model
pub mod Runtime
pub mod Cron
pub mod Transition
pub mod Repository
pub mod Requests
mod Tests
