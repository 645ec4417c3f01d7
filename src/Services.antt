-- ===== src/Services.antt =====
-- What the stores share: packages/shared/src/types.ts (packets and audit events),
-- apps/local-server/src/storage/packet-store.ts and audit-log.ts. The random identifiers, the SHA-256
-- digest and the regular expressions of the redaction rules are functions of the environment.
pub mod Json
pub mod Redaction
pub mod Packets
pub mod StableJson
pub mod Audit
pub mod Restoring
pub mod Examples
