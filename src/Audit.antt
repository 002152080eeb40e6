-- ===== src/Audit.antt =====
-- packages/audit: the hash-chained audit log.
pub mod Metadata
pub mod Walk
pub mod Entry
