-- ===== src/Runtimes.antt =====
-- The runtimes of the sessions (apps/pipee/src/server/session-runtime-registry.ts): `Table` has the
-- table of starting and active runtimes and its atomic steps in any order.
pub mod Table
pub mod Stands
pub mod Sound
pub mod Waits
pub mod Closed
mod Tests
