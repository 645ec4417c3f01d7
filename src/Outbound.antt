-- ===== src/Outbound.antt =====
-- The queue of prompts for ChatGPT Web: apps/local-server/src/storage/outbound-prompt-store.ts.
pub mod Prompts
pub mod Store
pub mod Delivery
pub mod Reports
pub mod Calls
pub mod Moves
pub mod Lifecycle
pub mod Histories
pub mod Queue
pub mod Tokens
pub mod Creation
pub mod Counts
pub mod Restoring
pub mod Examples
