-- ===== src/Session.antt =====
-- What the browser knows of a session: the reducer of
-- apps/pipee/src/features/session/session-ui-state.ts over the schemas of
-- apps/pipee/src/api/contract.ts. `Messages`, `Model` and `Actions` have the data, `Runtime` the
-- snapshot of a runtime, `Context` the loading of the conversation, `Events` the events of a
-- runtime, `Reducer` the actions, `Project` what is shown.
pub mod Messages
pub mod Model
pub mod Actions
pub mod Runtime
pub mod Context
pub mod Events
pub mod Reducer
pub mod Project
mod Cases
pub mod Aligned
pub mod Projected
pub mod Identity
pub mod Ephemeral
pub mod Terminal
pub mod Pending
pub mod Order
mod Tests
