-- ===== src/Bindings.antt =====
-- Bindings of plans to endpoints: apps/local-server/src/storage/automation-binding-store.ts.
pub mod Model
pub mod Hash
pub mod Store
pub mod Locking
pub mod Calls
pub mod Building
pub mod Histories
pub mod Deciding
pub mod Examples
