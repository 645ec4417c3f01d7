-- ===== src/Goals.antt =====
-- Goals, plans and their steps: apps/local-server/src/storage/goal-store.ts and
-- apps/local-server/src/goal/goal-orchestrator.ts.
pub mod Model
pub mod Store
pub mod Steps
pub mod Calls
pub mod Transitions
pub mod Gates
pub mod Gating
pub mod GateHistories
pub mod Orchestrator
pub mod Advances
pub mod Runs
pub mod Changing
pub mod Committing
pub mod Finishing
pub mod Starting
pub mod Carrying
pub mod Choosing
pub mod Effects
pub mod Restoring
pub mod Examples
