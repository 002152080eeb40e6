-- ===== src/Sessions.antt =====
-- packages/sessions: sessions, their rotating refresh tokens, and the use cases on them.
pub mod Policy
pub mod Session
pub mod RefreshToken
pub mod Store
pub mod UseCases
