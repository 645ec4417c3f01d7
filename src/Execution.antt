-- ===== src/Execution.antt =====
-- The hand-over of confirmed proposals to their endpoints: apps/local-server/src/execution and
-- storage/provider-capability.ts.
pub mod Capabilities
pub mod Dispatcher
pub mod Stepping
pub mod Fitting
pub mod Writing
pub mod Handing
pub mod Ending
pub mod Examples
