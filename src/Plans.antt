-- ===== src/Plans.antt =====
-- Plans that a model writes: apps/local-server/src/goal/goal-plan-parser.ts.
pub mod Extract
pub mod Model
pub mod Tiers
pub mod Parser
pub mod Texts
pub mod Safety
pub mod Parsing
pub mod Examples
