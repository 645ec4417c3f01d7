-- ===== src/Relay.antt =====
-- The relay loop between the web and the endpoints: apps/local-server/src/storage/web-relay-loop-store.ts.
pub mod Model
pub mod Store
pub mod Advance
pub mod Calls
pub mod Bounds
pub mod Rounds
pub mod Writes
pub mod Endings
pub mod Histories
pub mod Opening
pub mod Continues
pub mod Cancelling
pub mod Restoring
pub mod Examples
