-- ===== src/App.antt =====
-- Parts of the web application (apps/pipee): `App/Slot` the operation slot of a session,
-- `App/Notices` the queue of notices.
pub mod Slot
pub mod Notices
mod Tests
