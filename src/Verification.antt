-- ===== src/Verification.antt =====
-- packages/verification: the domain of identity verification requests.
pub mod Status
pub mod Assignment
pub mod Request
