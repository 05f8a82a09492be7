-- ===== src/Loop/Repository.antt =====
-- extensions/loop/src/application/repository.ts: the loops of a session, the durable file of the
-- project, and the lease that lets one session at a time own that file.
-- `Repository/State` has the state, the host and the steps that the operations share;
-- `Repository/Operations` the operations, each under the mutation lock and so one step.
pub mod State
pub mod Operations
pub mod Keyed
pub mod Invariant
pub mod Preserved
pub mod Durable
pub mod Again
