-- ===== src/Proposals.antt =====
-- Proposals to execute a command: apps/local-server/src/storage/execution-proposal-store.ts.
pub mod Model
pub mod Commands
pub mod Store
pub mod Operations
pub mod Confirming
pub mod Calls
pub mod Dispatch
pub mod Again
pub mod Harmless
pub mod Drafting
pub mod Queries
pub mod Examples
