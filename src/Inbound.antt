-- ===== src/Inbound.antt =====
-- Replies routed back to an executor: apps/local-server/src/storage/inbound-message-store.ts.
pub mod Model
pub mod Store
pub mod Delivery
pub mod Calls
pub mod Mailbox
pub mod Refinement
pub mod Access
pub mod Replays
pub mod Repeats
pub mod Examples
