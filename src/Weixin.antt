-- ===== src/Weixin.antt =====
-- The Weixin extension (extensions/weixin/src): `State` is the bridge state of state.ts and
-- schema.ts, `Store` its file, `Message` the messages of message.ts, `Routes` the table of
-- route-store.ts.
pub mod State
pub mod Store
pub mod Routes
pub mod Message
pub mod Split
pub mod Delivery
pub mod Durable
pub mod Invariant
mod Tests
