-- ===== src/Endpoints.antt =====
-- The registry of endpoints: apps/local-server/src/endpoints/endpoint-registry.ts.
pub mod Model
pub mod Registry
pub mod Histories
pub mod Examples
