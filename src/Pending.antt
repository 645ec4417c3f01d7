-- ===== src/Pending.antt =====
-- Prompts that wait for the user's confirmation: apps/local-server/src/storage/pending-prompt-store.ts.
pub mod Model
pub mod Store
pub mod Sending
pub mod Calls
pub mod Objects
pub mod Consent
pub mod Handed
pub mod Overlaps
pub mod Examples
