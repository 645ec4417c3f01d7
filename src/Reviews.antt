-- ===== src/Reviews.antt =====
-- Reviews between endpoints: apps/local-server/src/storage/pending-review-store.ts.
pub mod Model
pub mod Store
pub mod Operations
pub mod Calls
pub mod Touching
pub mod Lifecycle
pub mod Sending
pub mod Returns
pub mod Examples
